-- ===== src/Multipart.antt =====
-- `MultipartUploadPipeline` of pipelines.py. Its lock makes each call of `encrypt_part` one step.
pub mod Calls
pub mod Sequence
pub mod AsPut
use amazon_s3_encryption_cli.Prelude.{
  Bool, true, false, ℕ, ◌+◌, String, Bytes, Dict, ◌++◌, Option, none, some, if◌then◌else◌, ◌==◌,
}
use amazon_s3_encryption_cli.Errors.{
  Result, ok, err, client_error, ◌>>=◌, no_plaintext_data_key, no_encrypted_data_key,
  after_final_part, out_of_sequence,
}
use amazon_s3_encryption_cli.Values.{Value}
use amazon_s3_encryption_cli.External.{Base64, Json, Primitives, Runtime, GcmEncryption}
use amazon_s3_encryption_cli.Suite.{
  AlgorithmSuite, suite_id_bytes, cipher_iv_length_bytes, commitment_nonce_length_bytes, kc_gcm_iv,
}
use amazon_s3_encryption_cli.Metadata.{to_dict}
use amazon_s3_encryption_cli.Materials.{EncryptionMaterials}
use amazon_s3_encryption_cli.Keyring.{Cmm, required}
use amazon_s3_encryption_cli.KeyDerivation.{derive_keys}
use amazon_s3_encryption_cli.Put.{gcm_metadata, kc_gcm_metadata, is_commit_key, encryption_request}

pub record MultipartUploadPipeline (E : Type 0) : Type 0 where
  pub encryptor : E
  pub metadata : Dict Value
  pub next_part : ℕ
  pub has_final_part_been_seen : Bool
  pub last_encrypted_part : ℕ
  pub last_encrypted_ciphertext : Option Bytes

abbrev pub fresh : {E : Type 0} → E → Dict Value → MultipartUploadPipeline E
fresh encryptor metadata = record {
  encryptor = encryptor;
  metadata = metadata;
  next_part = 1;
  has_final_part_been_seen = false;
  last_encrypted_part = 0;
  last_encrypted_ciphertext = none;
}

-- The data of a part: a text is encoded first.
pub data PartData : Type 0 where
  bytes : Bytes → PartData
  text : String → PartData

abbrev pub encoded : Runtime → PartData → Bytes
encoded runtime (bytes b) = b
encoded runtime (text s) = runtime.utf8 s

module _ (base64 : Base64) (json : Json) (prims : Primitives) (runtime : Runtime)
    (enc : GcmEncryption) where
  unfoldable pub init_gcm :
      EncryptionMaterials → Bytes → Bytes → Result (MultipartUploadPipeline enc.Context)
  init_gcm materials data_key edk_bytes = do
    let iv = runtime.urandom (cipher_iv_length_bytes materials.encryption_algorithm)
    encryptor ← enc.encryptor data_key iv
    ok (
        fresh encryptor
          (to_dict json (gcm_metadata base64 edk_bytes iv materials.encryption_context)))

  unfoldable pub init_kc_gcm :
      EncryptionMaterials → Bytes → Bytes → Result (MultipartUploadPipeline enc.Context)
  init_kc_gcm materials data_key edk_bytes = do
    let suite = materials.encryption_algorithm
    let message_id = runtime.urandom (commitment_nonce_length_bytes suite)
    keys ← derive_keys prims data_key message_id suite
    iv ← kc_gcm_iv suite
    encryptor ← enc.encryptor keys.0 iv
    authenticated ← enc.authenticate_additional_data encryptor (suite_id_bytes suite)
    ok (
        fresh authenticated (
          to_dict json (
            kc_gcm_metadata base64 suite edk_bytes message_id keys.1 materials.encryption_context)))

  -- `__attrs_post_init__`
  unfoldable pub create :
      Cmm → AlgorithmSuite → Dict String → Result (MultipartUploadPipeline enc.Context)
  unfolding init_gcm init_kc_gcm
  create cmm suite context = do
    materials ← cmm.get_encryption_materials (encryption_request suite context)
    data_key ← required materials.plaintext_data_key (client_error no_plaintext_data_key)
    edk ← required materials.encrypted_data_key (client_error no_encrypted_data_key)
    if is_commit_key suite
        then init_kc_gcm materials data_key edk.encrypted_data_key
        else init_gcm materials data_key edk.encrypted_data_key

module _ (runtime : Runtime) (enc : GcmEncryption) where
  abbrev pub Pipeline : Type 0
  Pipeline = MultipartUploadPipeline enc.Context

  -- The part is encrypted: it becomes the one that may be asked for again.
  abbrev pub remember : ℕ → Bytes → Pipeline → Result (Option Bytes) × Pipeline
  remember part_number ciphertext p = (
    ok (some ciphertext),
    record p { last_encrypted_part = part_number; last_encrypted_ciphertext = some ciphertext },
  )

  abbrev pub finish : ℕ → Bytes → Pipeline → Result enc.Context → Result (Option Bytes) × Pipeline
  finish part_number ciphertext p (err e) = (err e, p)
  finish part_number ciphertext p (ok c) =
      remember part_number (ciphertext ++ enc.tag c)
        (record p { encryptor = c; has_final_part_been_seen = true })

  abbrev pub after_encrypt :
      ℕ → Bool → Pipeline → Result (Bytes × enc.Context) → Result (Option Bytes) × Pipeline
  after_encrypt part_number is_last p (err e) = (err e, p)
  after_encrypt part_number is_last p (ok (ciphertext, c)) =
      if is_last
      then finish part_number ciphertext (record p { encryptor = c }) (enc.finalize c)
      else remember part_number ciphertext (record p { encryptor = c })

  unfoldable pub encrypt_part : ℕ → PartData → Bool → Pipeline → Result (Option Bytes) × Pipeline
  encrypt_part part_number part is_last p =
      if part_number == p.last_encrypted_part
      then (ok p.last_encrypted_ciphertext, p)
      else if p.has_final_part_been_seen
      then (err (client_error after_final_part), p)
      else if part_number == p.next_part
      then after_encrypt part_number is_last (record p { next_part = p.next_part + 1 })
          (enc.update p.encryptor (encoded runtime part))
      else (err (client_error out_of_sequence), p)
