-- ===== src/Client/Returned.antt =====
-- `get_object` of a client of the default configuration, where S3 answers with an encrypted object.
use amazon_s3_encryption_cli.Prelude.{
  ℕ, ◌≡◌, refl, ◌∙◌, false, String, Bytes, Dict, Option, none, some,
}
use amazon_s3_encryption_cli.Errors.{ok}
use amazon_s3_encryption_cli.Values.{Value}
use amazon_s3_encryption_cli.External.{Base64Laws, KmsLaws, GcmDecryptionLaws}
use amazon_s3_encryption_cli.Suite.{alg_aes_256_gcm_hkdf_sha512_commit_key}
use amazon_s3_encryption_cli.Keyring.{KmsKeyring, kms_keyring}
use amazon_s3_encryption_cli.Keyring.Wrap.{wrapped_context, IsUnreserved}
use amazon_s3_encryption_cli.Config.{S3EncryptionClientConfig, client_defaults, get_pipeline}
use amazon_s3_encryption_cli.Put.{encrypt, encryption_request}
use amazon_s3_encryption_cli.Get.Content.{buffered}
use amazon_s3_encryption_cli.Get.Fetched.{in_state, decrypt_in-given}
use amazon_s3_encryption_cli.RoundTrip.{ReadsBack, AesGcmLaws}
use amazon_s3_encryption_cli.RoundTrip.KcGcm.{put_kc_gcm, decrypt_kc_gcm-encrypt_read}
use amazon_s3_encryption_cli.Plugin.{
  Libraries, ContextArgument, decrypted, validate_encryption_context, fetch_with, location,
  on_get_object_after_call, handle_object,
}
use amazon_s3_encryption_cli.Client.{S3Service, State, GetArguments, get_object, Handled}
use amazon_s3_encryption_cli.Client.{set_for_get, fetching_client, wrapped_get_object}
use amazon_s3_encryption_cli.Metadata.{from_dict}

-- GetObject of an object.
abbrev pub get_arguments : String → String → ContextArgument → Option (Option String) → GetArguments
get_arguments bucket key argument suffix = record {
  bucket = bucket;
  key = key;
  has_range = false;
  encryption_context = argument;
  instruction_file_suffix = suffix;
}

module _ (libs : Libraries) (service : S3Service libs.source.Body) (keyring : KmsKeyring) where
  abbrev pub config : S3EncryptionClientConfig
  config = client_defaults (kms_keyring keyring)

  -- Where S3 answers with what `encrypt` made, `get_object` returns the plaintext.
  pub get_object-encrypted :
      (bucket key : String) (argument : ContextArgument) (context : Dict String)
      (plaintext encrypted : Bytes) (dict : Dict Value) (body : libs.source.Body)
      (metadata : Dict Value) (n : ℕ) (suffix : Option (Option String)) (s : State libs service)
      → Base64Laws libs.base64
      → ReadsBack libs.json
          (wrapped_context (encryption_request alg_aes_256_gcm_hkdf_sha512_commit_key context))
      → KmsLaws keyring.kms_client
      → GcmDecryptionLaws libs.gcm_decryption
      → AesGcmLaws libs.primitives libs.gcm_decryption
      → IsUnreserved context
      → validate_encryption_context argument ≡ ok (some context)
      → service.send_get bucket key s.world
        ≡ ok (record { body = some body; metadata = some metadata; content_length = some n }, none)
      → libs.source.read_all body ≡ ok encrypted
      → from_dict libs.json metadata ≡ from_dict libs.json dict
      → s.context.instruction_file_mode ≡ false
      → encrypt libs.base64 libs.json libs.primitives libs.runtime
          (put_kc_gcm keyring)
          plaintext
          (some context)
        ≡ ok (encrypted, dict)
      → (r : Handled libs config service) × ((get_object libs config service
            (get_arguments bucket key argument suffix)
            s).0
          ≡ ok r)
        × (r.body ≡ some (decrypted (buffered plaintext)))
  unfolding get_object wrapped_get_object on_get_object_after_call handle_object
  get_object-encrypted bucket key argument context plaintext encrypted dict body metadata n suffix s
        names texts kms cipher aes unreserved valid answer whole same no_mode made =
      let c = set_for_get (some context) (get_arguments bucket key argument suffix) s.context in
      let fetch = fetch_with libs config (fetching_client libs config service s.world) c in
      let opens =
        decrypt_kc_gcm-encrypt_read libs.base64 libs.json libs.primitives libs.runtime keyring
          context libs.source libs.gcm_decryption libs.cbc_decryption body n
          (in_state fetch c (get_pipeline config none)) (location libs config c) plaintext encrypted
          dict metadata names texts kms cipher aes unreserved refl made same whole in
      let returns =
        decrypt_in-given fetch libs.source libs.gcm_decryption libs.cbc_decryption libs.base64
          libs.primitives libs.json (get_pipeline config none) (location libs config c) metadata
          body n (some false) (some context) c
        ∙ opens in
      let response : Handled libs config service = record {
        body = some (decrypted (buffered plaintext));
        metadata = some metadata;
        content_length = some n;
      } in
      (response, rw (valid, answer, returns, no_mode) refl, refl)
