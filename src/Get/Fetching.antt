-- ===== src/Get/Fetching.antt =====
-- `GetEncryptedObjectPipeline.decrypt` of pipelines.py with the state that the fetch of an
-- instruction file works on: the attributes of the thread, which a call may leave changed.
use amazon_s3_encryption_cli.Prelude.{Bool, ℕ, String, Dict, Option, if◌then◌else◌}
use amazon_s3_encryption_cli.Errors.{
  Result, ok, err, client_error, raise_if, instruction_files_disabled, s3_client_required,
  bucket_and_key_required, suffix_required,
}
use amazon_s3_encryption_cli.Values.{Value}
use amazon_s3_encryption_cli.External.{
  Base64, Json, Primitives, GcmDecryption, CbcDecryption, ByteSource,
}
use amazon_s3_encryption_cli.Metadata.{ObjectMetadata, from_dict, should_use_instruction_file}
use amazon_s3_encryption_cli.Keyring.{required}
use amazon_s3_encryption_cli.Get.{decrypt_resolved}
use amazon_s3_encryption_cli.Get.Resolve.{
  GetEncryptedObjectPipeline, Location, both, concat, merge_instruction_file,
}
use amazon_s3_encryption_cli.Get.Content.{Plaintext}

-- A call that may raise, and what it leaves of the state in either case.
abbrev pub M : Type 0 → Type 0 → Type 0
M S A = S → Result A × S

-- A call that leaves the state as it is.
abbrev pub lift : {S A : Type 0} → Result A → M S A
lift r s = (r, s)

abbrev pub after_first : {S A B : Type 0} → (A → M S B) → Result A × S → Result B × S
after_first next (err e, s) = (err e, s)
after_first next (ok a, s) = next a s

-- One call after another: the second starts in the state that the first left.
infixl 5 ◌>>=◌ ◌>>◌
abbrev pub ◌>>=◌ : {S A B : Type 0} → M S A → (A → M S B) → M S B
◌>>=◌ first next s = after_first next (first s)

abbrev pub ◌>>◌ : {S B : Type 0} → M S (Unit {0}) → M S B → M S B
first >> second = first >>= λ _. second

-- The fetch of an instruction file: bucket and key to metadata.
abbrev pub Fetch : Type 0 → Type 0
Fetch S = String → String → M S (Dict Value)

-- `client` is `self.s3_client`; the field of the pipeline is not read.
module _ {S : Type 0} (client : Option (Fetch S)) (json : Json)
    (pipeline : GetEncryptedObjectPipeline) (place : Location) (object_dict : Dict Value) where
  abbrev pub with_instruction_file_in : ObjectMetadata → M S ObjectMetadata
  with_instruction_file_in object_metadata = do
    lift (
        raise_if pipeline.instruction_file_config.disable_get_object
          (client_error instruction_files_disabled))
    fetch ← lift (required client (client_error s3_client_required))
    where_to ← lift (required (both place.bucket place.key) (client_error bucket_and_key_required))
    suffix ← lift (required place.instruction_suffix (client_error suffix_required))
    instruction ← fetch where_to.0 (concat where_to.1 suffix)
    lift (merge_instruction_file json object_dict object_metadata instruction)

  abbrev pub complete_metadata : ObjectMetadata → M S ObjectMetadata
  complete_metadata metadata =
      if should_use_instruction_file metadata
      then with_instruction_file_in metadata
      else lift (ok metadata)

  unfoldable pub resolve_metadata_in : M S ObjectMetadata
  resolve_metadata_in = lift (from_dict json object_dict) >>= complete_metadata

-- `decrypt`, with what its fetch of an instruction file leaves of the state.
module _ {S : Type 0} (client : Option (Fetch S)) (src : ByteSource) (g : GcmDecryption)
    (b : CbcDecryption) (base64 : Base64) (prims : Primitives) (json : Json)
    (pipeline : GetEncryptedObjectPipeline) (place : Location) (object_dict : Dict Value)
    (body : src.Body) (content_length : ℕ) (delayed : Option Bool)
    (context : Option (Dict String)) where
  unfoldable pub decrypt_in : M S (Plaintext src g b)
  decrypt_in = do
    m ← resolve_metadata_in client json pipeline place object_dict
    lift (decrypt_resolved src g b base64 prims json pipeline body content_length delayed context m)
