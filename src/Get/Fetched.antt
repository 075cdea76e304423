-- ===== src/Get/Fetched.antt =====
-- `decrypt` with the state that the fetch of an instruction file works on, beside `decrypt` with a
-- fetch that only answers.
use amazon_s3_encryption_cli.Prelude.{
  ◌≡◌, refl, ap, ◌∙◌, Bool, ℕ, String, Dict, Option, none, some, if◌then◌else◌, Bool-cases, inl,
  inr, arith,
}
use mathlib.Core.Option
use amazon_s3_encryption_cli.Errors
use amazon_s3_encryption_cli.Errors.{
  Error, Result, ok, err, client_error, raise_if, Result-cases, instruction_files_disabled,
  s3_client_required, bucket_and_key_required, suffix_required,
}
use amazon_s3_encryption_cli.Values.{Value}
use amazon_s3_encryption_cli.External.{
  Base64, Json, Primitives, GcmDecryption, CbcDecryption, ByteSource,
}
use amazon_s3_encryption_cli.Metadata.{ObjectMetadata, from_dict, should_use_instruction_file}
use amazon_s3_encryption_cli.Keyring.{required}
use amazon_s3_encryption_cli.Get.{decrypt, decrypt_resolved, check_policy}
use amazon_s3_encryption_cli.Get.Resolve.{
  GetEncryptedObjectPipeline, Location, both, concat, merge_instruction_file, with_instruction_file,
  resolve_metadata,
}
use amazon_s3_encryption_cli.Get.Content.{Plaintext}
use amazon_s3_encryption_cli.Get.Fetching.{
  M, lift, after_first, ◌>>=◌, Fetch, with_instruction_file_in, complete_metadata,
  resolve_metadata_in, decrypt_in,
}

-- A call after which a property of the state holds if it held before, whether or not it raised.
abbrev pub Keeps : {S A : Type 0} → (S → Type 0) → M S A → Type 0
Keeps {S} P call = (s : S) → P s → P (call s).1

lift-Keeps : {S A : Type 0} (P : S → Type 0) (r : Result A) → Keeps P (lift r)
lift-Keeps P r s h = h

>>=-Keeps :
    {S A B : Type 0} (P : S → Type 0) (first : M S A) (next : A → M S B)
    → Keeps P first
    → ((a : A) → Keeps P (next a))
    → Keeps P (first >>= next)
>>=-Keeps {S} {A} {B} P first next one two s h = go (first s) (one s h)
  where
    go : (r : Result A × S) → P r.1 → P (after_first next r).1
    go (err e, s') k = k
    go (ok a, s') k = two a s' k

lifted-Keeps :
    {S A B : Type 0} (P : S → Type 0) (r : Result A) (next : A → M S B)
    → ((a : A) → Keeps P (next a))
    → Keeps P (lift r >>= next)
lifted-Keeps P r next later = >>=-Keeps P (lift r) next (lift-Keeps P r) later

-- What the fetch gives in a state.
abbrev pub given : {S : Type 0} → S → Fetch S → String → String → Result (Dict Value)
given s fetch bucket key = (fetch bucket key s).0

-- The pipeline whose fetch gives what this one gives in a state.
abbrev pub in_state :
    {S : Type 0} → Option (Fetch S) → S → GetEncryptedObjectPipeline → GetEncryptedObjectPipeline
in_state client s pipeline = record pipeline { s3_client = Option.map (given s) client }

module _ {S : Type 0} (client : Option (Fetch S)) (json : Json)
    (pipeline : GetEncryptedObjectPipeline) (place : Location) (object_dict : Dict Value) where
  with_instruction_file_in-given :
      (m : ObjectMetadata) (s : S)
      → (with_instruction_file_in client json pipeline place object_dict m s).0
        ≡ with_instruction_file json (in_state client s pipeline) place object_dict m
  unfolding with_instruction_file
  with_instruction_file_in-given m s = ground arith

  resolve_metadata_in-given :
      (s : S)
      → (resolve_metadata_in client json pipeline place object_dict s).0
        ≡ resolve_metadata json (in_state client s pipeline) place object_dict
  unfolding resolve_metadata_in resolve_metadata
  resolve_metadata_in-given s = go (from_dict json object_dict)
    where
      completed : ObjectMetadata → Result ObjectMetadata
      completed m =
          if should_use_instruction_file m
          then with_instruction_file json (in_state client s pipeline) place object_dict m
          else ok m

      go :
          (r : Result ObjectMetadata)
          → ((lift r >>= complete_metadata client json pipeline place object_dict) s).0
            ≡ Errors.◌>>=◌ r completed
      go (err e) = refl
      go (ok m) = elim (Bool-cases (should_use_instruction_file m)) [
        | inl needed ↦ rw needed (with_instruction_file_in-given m s)
        | inr own ↦ rw own refl
      ]

  module _ (P : S → Type 0)
      (fetch-Keeps : (fetch : Fetch S)
        → client ≡ some fetch
        → (bucket key : String) → Keeps P (fetch bucket key)) where
    -- From the fetch on.
    abbrev fetched : ObjectMetadata → Fetch S → String × String → String → M S ObjectMetadata
    fetched m fetch where_to suffix = fetch where_to.0 (concat where_to.1 suffix) >>= λ instruction.
        lift (merge_instruction_file json object_dict m instruction)

    -- From the choice of the instruction file on.
    abbrev located : ObjectMetadata → Fetch S → M S ObjectMetadata
    located m fetch = do
      where_to ←
          lift (required (both place.bucket place.key) (client_error bucket_and_key_required))
      suffix ← lift (required place.instruction_suffix (client_error suffix_required))
      fetched m fetch where_to suffix

    located-Keeps :
        (m : ObjectMetadata) (fetch : Fetch S) → client ≡ some fetch → Keeps P (located m fetch)
    located-Keeps m fetch e =
        lifted-Keeps P
          (required (both place.bucket place.key) (client_error bucket_and_key_required))
          (λ where_to.
            lift (required place.instruction_suffix (client_error suffix_required))
            >>= fetched m fetch where_to)
          λ where_to.
            lifted-Keeps P (required place.instruction_suffix (client_error suffix_required))
              (fetched m fetch where_to)
              λ suffix.
                >>=-Keeps P (fetch where_to.0 (concat where_to.1 suffix))
                  (λ instruction. lift (merge_instruction_file json object_dict m instruction))
                  (fetch-Keeps fetch e where_to.0 (concat where_to.1 suffix))
                  λ instruction.
                    lift-Keeps P (merge_instruction_file json object_dict m instruction)

    with_instruction_file_in-Keeps :
        (m : ObjectMetadata)
        → Keeps P (with_instruction_file_in client json pipeline place object_dict m)
    with_instruction_file_in-Keeps m =
        lifted-Keeps P
          (raise_if pipeline.instruction_file_config.disable_get_object
            (client_error instruction_files_disabled))
          (λ _. lift (required client (client_error s3_client_required)) >>= located m)
          (λ _. held client refl)
      where
        held :
            (c : Option (Fetch S))
            → client ≡ c
            → Keeps P (lift (required c (client_error s3_client_required)) >>= located m)
        held none e = λ s h. h
        held (some fetch) e = located-Keeps m fetch e

    pub resolve_metadata_in-Keeps :
        Keeps P (resolve_metadata_in client json pipeline place object_dict)
    unfolding resolve_metadata_in
    resolve_metadata_in-Keeps =
        >>=-Keeps P (lift (from_dict json object_dict))
          (complete_metadata client json pipeline place object_dict)
          (lift-Keeps P (from_dict json object_dict))
          λ m. elim (Bool-cases (should_use_instruction_file m)) [
            | inl needed ↦ rw needed (with_instruction_file_in-Keeps m)
            | inr own ↦ rw own (lift-Keeps P (ok m))
          ]

module _ {S : Type 0} (client : Option (Fetch S)) (src : ByteSource) (g : GcmDecryption)
    (b : CbcDecryption) (base64 : Base64) (prims : Primitives) (json : Json)
    (pipeline : GetEncryptedObjectPipeline) (place : Location) (object_dict : Dict Value)
    (body : src.Body) (content_length : ℕ) (delayed : Option Bool)
    (context : Option (Dict String)) where
  -- What it returns or raises is what `decrypt` does with the fetch in the state before.
  pub decrypt_in-given :
      (s : S)
      → (decrypt_in client src g b base64 prims json pipeline place object_dict body content_length
          delayed context s).0
        ≡ decrypt src g b base64 prims json
            (in_state client s pipeline)
            place
            object_dict
            body
            content_length
            delayed
            context
  unfolding decrypt_in decrypt check_policy
  decrypt_in-given s =
      go (resolve_metadata_in client json pipeline place object_dict s)
      ∙ ap (λ r. Errors.◌>>=◌ r rest)
          (resolve_metadata_in-given client json pipeline place object_dict s)
    where
      rest : ObjectMetadata → Result (Plaintext src g b)
      rest m =
          decrypt_resolved src g b base64 prims json pipeline body content_length delayed context m

      go :
          (r : Result ObjectMetadata × S)
          → (after_first (λ m. lift (rest m)) r).0 ≡ Errors.◌>>=◌ r.0 rest
      go (err e, s') = refl
      go (ok m, s') = refl

  -- A property of the state that the fetch keeps is kept.
  pub decrypt_in-Keeps :
      (P : S → Type 0)
      → ((fetch : Fetch S)
          → client ≡ some fetch
          → (bucket key : String) → Keeps P (fetch bucket key))
      → Keeps P (
          decrypt_in client src g b base64 prims json pipeline place object_dict body content_length
            delayed context)
  unfolding decrypt_in
  decrypt_in-Keeps P fetch-Keeps =
      >>=-Keeps P (resolve_metadata_in client json pipeline place object_dict)
        (λ m. lift (
          decrypt_resolved src g b base64 prims json pipeline body content_length delayed context
            m))
        (resolve_metadata_in-Keeps client json pipeline place object_dict P fetch-Keeps)
        λ m. lift-Keeps P (
          decrypt_resolved src g b base64 prims json pipeline body content_length delayed context m)
