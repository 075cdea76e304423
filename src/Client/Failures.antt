-- ===== src/Client/Failures.antt =====
-- How the object operations of `S3EncryptionClient` fail, and what they leave behind.
use amazon_s3_encryption_cli.Prelude.{
  ◌≡◌, refl, Bool, true, false, String, Dict, List, [], ◌∷◌, Option, none, if◌then◌else◌, not, ◌||◌,
}
use amazon_s3_encryption_cli.Errors.{
  Error, Reason, Result, ok, err, client_error, ◌>>=◌, raise_if, ranged_get, context_not_ascii,
}
use amazon_s3_encryption_cli.Config.{S3EncryptionClientConfig}
use amazon_s3_encryption_cli.Plugin.{
  Libraries, ContextText, ContextArgument, no_context, context_dict, not_a_dict, string, not_string,
  both_strings, validate_entries, validate_encryption_context, ThreadContext, is_ascii,
}
use amazon_s3_encryption_cli.Client.{
  S3Service, State, PutArguments, GetArguments, wrap, wrapped, put_with, get_with, put_object,
  get_object, delete_object, delete_objects, validated, Handled,
}

-- An exception of the client's own class, as a call may raise it, or none at all.
abbrev pub OnlyClientErrors {ℓ} : {A : Type ℓ} → Result A → Type 0
OnlyClientErrors (ok a) = Unit
OnlyClientErrors (err e) = (r : Reason) × (e ≡ client_error r)

wrap-client_error : (reason : Reason) (e : Error) → (r : Reason) × (wrap reason e ≡ client_error r)
wrap-client_error reason (client_error r) = (r, refl)
wrap-client_error reason (Error.security_error r) = (reason, refl)
wrap-client_error reason (Error.runtime_error r) = (reason, refl)
wrap-client_error reason (Error.incomplete_read m n) = (reason, refl)
wrap-client_error reason Error.value_error = (reason, refl)
wrap-client_error reason Error.type_error = (reason, refl)
wrap-client_error reason Error.key_error = (reason, refl)
wrap-client_error reason Error.json_decode_error = (reason, refl)
wrap-client_error reason Error.invalid_tag = (reason, refl)
wrap-client_error reason Error.service_error = (reason, refl)
wrap-client_error reason Error.other_error = (reason, refl)

wrapped-OnlyClientErrors {ℓ} :
    {A : Type ℓ} (reason : Reason) (r : Result A) → OnlyClientErrors (wrapped reason r)
wrapped-OnlyClientErrors reason (ok a) = tt
wrapped-OnlyClientErrors reason (err e) = wrap-client_error reason e

bind-OnlyClientErrors {ℓ κ} :
    {A : Type ℓ} {B : Type κ} (r : Result A) (next : A → Result B)
    → OnlyClientErrors r
    → ((a : A) → OnlyClientErrors (next a))
    → OnlyClientErrors (r >>= next)
bind-OnlyClientErrors (ok a) next h k = k a
bind-OnlyClientErrors (err e) next h k = h

raise_if-OnlyClientErrors : (b : Bool) (r : Reason) → OnlyClientErrors (raise_if b (client_error r))
raise_if-OnlyClientErrors true r = (r, refl)
raise_if-OnlyClientErrors false r = tt

both_strings-OnlyClientErrors : (e : ContextText × ContextText) → OnlyClientErrors (both_strings e)
both_strings-OnlyClientErrors (string k, string v) = tt
both_strings-OnlyClientErrors (string k, not_string) = (_, refl)
both_strings-OnlyClientErrors (not_string, v) = (_, refl)

validate_entries-OnlyClientErrors :
    (d : List (ContextText × ContextText)) → OnlyClientErrors (validate_entries d)
unfolding validate_entries
validate_entries-OnlyClientErrors [] = tt
validate_entries-OnlyClientErrors (e ∷ d) =
    bind-OnlyClientErrors (both_strings e) _ (both_strings-OnlyClientErrors e) (λ pair.
      bind-OnlyClientErrors
        (raise_if (not (is_ascii pair.0) || not (is_ascii pair.1)) (client_error context_not_ascii))
        _ (raise_if-OnlyClientErrors _ _)
        (λ u.
          bind-OnlyClientErrors (validate_entries d) _ (validate_entries-OnlyClientErrors d)
            (λ rest. tt)))

pub validate-OnlyClientErrors :
    (argument : ContextArgument) → OnlyClientErrors (validate_encryption_context argument)
unfolding validate_encryption_context
validate-OnlyClientErrors no_context = tt
validate-OnlyClientErrors (context_dict d) =
    bind-OnlyClientErrors (validate_entries d) _ (validate_entries-OnlyClientErrors d) (λ valid. tt)
validate-OnlyClientErrors not_a_dict = (_, refl)

-- No attribute of a request is set.
pub record IsClean (c : ThreadContext) : Type 0 where
  pub no_encryption_context : c.encryption_context ≡ none
  pub no_bucket : c.bucket ≡ none
  pub no_key : c.key ≡ none
  pub no_suffix : c.instruction_file_suffix ≡ none

module _ (libs : Libraries) (config : S3EncryptionClientConfig)
    (service : S3Service libs.source.Body) where
  put_object-OnlyClientErrors :
      (args : PutArguments) (argument : ContextArgument) (s : State libs service)
      → OnlyClientErrors (put_object libs config service args argument s).0
  unfolding put_object
  put_object-OnlyClientErrors args argument s =
      go (validate_encryption_context argument) (validate-OnlyClientErrors argument)
    where
      go :
          (v : Result (Option (Dict String)))
          → OnlyClientErrors v
          → OnlyClientErrors
              (validated libs config service (put_with libs config service args) s v).0
      go (err e) h = h
      go (ok context) h = wrapped-OnlyClientErrors _ _

  -- Whatever boto3, S3, KMS, the cipher or the keyring raises, what PutObject, GetObject,
  -- DeleteObject and DeleteObjects of the client raise is the client's own exception.
  pub operations-OnlyClientErrors :
      (put : PutArguments) (argument : ContextArgument) (get : GetArguments) (bucket key : String)
      (keys : List String) (suffix : Option (Option String)) (s : State libs service)
      → OnlyClientErrors (put_object libs config service put argument s).0
        × OnlyClientErrors (get_object libs config service get s).0
        × OnlyClientErrors (delete_object libs config service bucket key suffix s).0
        × OnlyClientErrors (delete_objects libs config service bucket keys suffix s).0
  unfolding get_object delete_object delete_objects
  operations-OnlyClientErrors put argument get bucket key keys suffix s = (
    put_object-OnlyClientErrors put argument s,
    got get.has_range (validate_encryption_context get.encryption_context)
        (validate-OnlyClientErrors get.encryption_context),
    wrapped-OnlyClientErrors _ _,
    wrapped-OnlyClientErrors _ _,
  )
    where
      guarded :
          Bool
          → Result (Option (Dict String))
          → Result (Handled libs config service) × State libs service
      guarded ranged v =
          if ranged
          then (err (client_error ranged_get), s)
          else validated libs config service (get_with libs config service get) s v

      got :
          (ranged : Bool) (v : Result (Option (Dict String)))
          → OnlyClientErrors v
          → OnlyClientErrors (guarded ranged v).0
      got true v h = (_, refl)
      got false (err e) h = h
      got false (ok context) h = wrapped-OnlyClientErrors _ _
