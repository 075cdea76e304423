-- ===== src/Client/Fresh.antt =====
-- The pipeline that `create_multipart_upload` of the client makes is a new one.
use amazon_s3_encryption_cli.Prelude.{◌≡◌, refl, sym, Bytes, Dict, arith, Bool-cases, inl, inr}
use amazon_s3_encryption_cli.Errors.{
  Result, ok, err, ◌>>=◌, ok-injective, client_error, no_plaintext_data_key, no_encrypted_data_key,
}
use amazon_s3_encryption_cli.Config.{S3EncryptionClientConfig}
use amazon_s3_encryption_cli.Plugin.{Libraries, ContextArgument, validate_encryption_context}
use amazon_s3_encryption_cli.Values.{Value}
use amazon_s3_encryption_cli.Materials.{EncryptionMaterials}
use amazon_s3_encryption_cli.Put.{is_commit_key, encryption_request, context_or_empty}
use amazon_s3_encryption_cli.Suite.{
  commitment_nonce_length_bytes, cipher_iv_length_bytes, suite_id_bytes, kc_gcm_iv,
}
use amazon_s3_encryption_cli.Keyring.{required}
use amazon_s3_encryption_cli.KeyDerivation.{derive_keys}
use amazon_s3_encryption_cli.Multipart.{fresh, create, init_gcm, init_kc_gcm}
use amazon_s3_encryption_cli.Multipart.Calls.{IsWellFormed}
use amazon_s3_encryption_cli.Client.{S3Service}
use amazon_s3_encryption_cli.Client.Uploads.{Pipeline, new_pipeline}

module _ (libs : Libraries) (config : S3EncryptionClientConfig)
    (service : S3Service libs.source.Body) where
  -- A pipeline that no part was given to yet.
  abbrev pub IsFresh : Pipeline libs config service → Type 0
  IsFresh p = (e : libs.gcm_encryption.Context) × (m : Dict Value) × (p ≡ fresh e m)

  pub fresh-IsWellFormed :
      (p : Pipeline libs config service)
      → IsFresh p
      → IsWellFormed libs.runtime libs.gcm_encryption p
  fresh-IsWellFormed p (e, m, h) =
      rw h (record {
        behind = omega arith;
        nothing_yet = λ z. refl;
        cached = λ z. absurd (omega arith);
      })

  -- A pipeline that is made is fresh.
  abbrev pub Makes : Result (Pipeline libs config service) → Type 0
  Makes r = (p : Pipeline libs config service) → r ≡ ok p → IsFresh p

  bind-Makes {ℓ} :
      {V : Type ℓ} (r : Result V) (next : V → Result (Pipeline libs config service))
      → ((v : V) → Makes (next v))
      → Makes (r >>= next)
  bind-Makes (err e) next k p h = absurd (ground arith)
  bind-Makes (ok v) next k p h = k v p h

  fresh-Makes : (e : libs.gcm_encryption.Context) (m : Dict Value) → Makes (ok (fresh e m))
  fresh-Makes e m p h = (e, m, sym (ok-injective h))

  pub new_pipeline-IsFresh :
      (argument : ContextArgument) → Makes (new_pipeline libs config service argument)
  unfolding create init_kc_gcm init_gcm
  new_pipeline-IsFresh argument = bind-Makes (validate_encryption_context argument) _ (λ context.
      bind-Makes
        (config.cmm.get_encryption_materials
          (encryption_request config.encryption_algorithm (context_or_empty context)))
        _
        (λ materials.
          bind-Makes (required materials.plaintext_data_key (client_error no_plaintext_data_key)) _
            (λ data_key.
              bind-Makes
                (required materials.encrypted_data_key (client_error no_encrypted_data_key)) _
                (λ edk. elim (Bool-cases (is_commit_key config.encryption_algorithm)) [
                  | inl c ↦ rw c (kc_gcm materials data_key edk.encrypted_data_key)
                  | inr c ↦ rw c (gcm materials data_key edk.encrypted_data_key)
                ]))))
    where
      kc_gcm :
          (materials : EncryptionMaterials) (data_key edk : Bytes)
          → Makes (
              init_kc_gcm libs.base64 libs.json libs.primitives libs.runtime libs.gcm_encryption
                materials data_key edk)
      kc_gcm materials data_key edk =
          let suite = materials.encryption_algorithm in
          let message_id = libs.runtime.urandom (commitment_nonce_length_bytes suite) in
          bind-Makes (derive_keys libs.primitives data_key message_id suite) _ (λ keys.
            bind-Makes (kc_gcm_iv suite) _ (λ iv.
              bind-Makes (libs.gcm_encryption.encryptor keys.0 iv) _ (λ e.
                bind-Makes
                  (libs.gcm_encryption.authenticate_additional_data e (suite_id_bytes suite)) _
                  (λ c. fresh-Makes c _))))

      gcm :
          (materials : EncryptionMaterials) (data_key edk : Bytes)
          → Makes (
              init_gcm libs.base64 libs.json libs.primitives libs.runtime libs.gcm_encryption
                materials data_key edk)
      gcm materials data_key edk =
          bind-Makes
            (libs.gcm_encryption.encryptor data_key
              (libs.runtime.urandom (cipher_iv_length_bytes materials.encryption_algorithm)))
            _ (λ e. fresh-Makes e _)
