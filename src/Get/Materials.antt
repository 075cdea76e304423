-- ===== src/Get/Materials.antt =====
-- The decryption materials of an object, by its message format, of pipelines.py.
use amazon_s3_encryption_cli.Prelude.{
  ◌||◌, String, Bytes, Dict, [], ◌∷◌, Option, none, some, if◌then◌else◌, str_eq,
}
use amazon_s3_encryption_cli.Errors.{
  Result, ok, err, client_error, type_error, ◌>>=◌, unknown_format, unknown_wrap_alg,
  unexpected_wrap_alg,
}
use amazon_s3_encryption_cli.Values.{Value, text, object, array, truthy}
use amazon_s3_encryption_cli.External.{Base64, Json}
use amazon_s3_encryption_cli.Suite.{AlgorithmSuite}
use amazon_s3_encryption_cli.Metadata.{ObjectMetadata, is_v1_format, is_v2_format, is_v3_format}
use amazon_s3_encryption_cli.Materials.{EncryptedDataKey, DecryptionMaterials, decryption_defaults}
use amazon_s3_encryption_cli.Keyring.{Cmm, required}

-- `x or {}`
abbrev pub or_empty : Option Value → Value
or_empty none = object []
or_empty (some v) = if truthy v then v else object []

-- `base64.b64decode(x)`: only a text is decoded.
unfoldable pub b64decode_value : Base64 → Option Value → Result Bytes
b64decode_value base64 (some (text s)) = base64.b64decode s
b64decode_value base64 _ = err type_error

abbrev pub s3_keyring_edk : Option Value → Bytes → EncryptedDataKey
s3_keyring_edk info edk_bytes = record {
  key_provider_info = info;
  key_provider_id = "S3Keyring";
  encrypted_data_key = edk_bytes;
}

-- `_V3_WRAP_ALG_MAP.get(x)`: a dictionary or a list cannot be looked up.
unfoldable pub v3_wrap_alg : Value → Result (Option String)
v3_wrap_alg (text s) =
    if str_eq s "02"
    then ok (some "AES/GCM")
    else if str_eq s "12"
    then ok (some "kms+context")
    else if str_eq s "22"
    then ok (some "RSA-OAEP-SHA1")
    else ok none
v3_wrap_alg (object d) = err type_error
v3_wrap_alg (array b) = err type_error
v3_wrap_alg _ = ok none

-- `metadata.encrypted_data_key_algorithm_v3 or "12"`
abbrev pub or_twelve : Option Value → Value
or_twelve none = text "12"
or_twelve (some v) = if truthy v then v else text "12"

-- Where the stored context of a V3 object is.
unfoldable pub v3_context : String → ObjectMetadata → Result (Option Value)
v3_context wrap_alg m =
    if str_eq wrap_alg "kms+context"
    then ok m.encryption_context_v3
    else if str_eq wrap_alg "AES/GCM" || str_eq wrap_alg "RSA-OAEP-SHA1"
    then ok m.mat_desc_v3
    else err (client_error unexpected_wrap_alg)

module _ (base64 : Base64) (json : Json) where
  -- A context that is neither a dictionary nor a text counts as empty.
  unfoldable pub stored_v3_context : Option Value → Result Value
  stored_v3_context (some (object d)) = ok (object d)
  stored_v3_context (some (text s)) = json.loads s
  stored_v3_context _ = ok (object [])

  unfoldable pub decrypt_v1_v2 :
      Cmm
      → Option Value
      → Option Value
      → Option Value
      → Value
      → Dict String
      → AlgorithmSuite
      → Result DecryptionMaterials
  decrypt_v1_v2 cmm iv_b64 edk_b64 wrap_alg stored_context context suite = do
    iv_bytes ← b64decode_value base64 iv_b64
    edk_bytes ← b64decode_value base64 edk_b64
    cmm.decrypt_materials (record decryption_defaults {
      iv = some iv_bytes;
      encrypted_data_keys = some (s3_keyring_edk wrap_alg edk_bytes ∷ []);
      encryption_context_stored = stored_context;
      encryption_context_from_request = context;
      algorithm_suite = some suite;
    })

  unfoldable pub decrypt_v3 :
      Cmm → ObjectMetadata → Dict String → AlgorithmSuite → Result DecryptionMaterials
  unfolding v3_wrap_alg v3_context stored_v3_context
  decrypt_v3 cmm m context suite = do
    edk_bytes ← b64decode_value base64 m.encrypted_data_key_v3
    found ← v3_wrap_alg (or_twelve m.encrypted_data_key_algorithm_v3)
    wrap_alg ← required found (client_error unknown_wrap_alg)
    raw ← v3_context wrap_alg m
    stored ← stored_v3_context raw
    cmm.decrypt_materials (record decryption_defaults {
      encrypted_data_keys = some (s3_keyring_edk (some (text wrap_alg)) edk_bytes ∷ []);
      encryption_context_stored = stored;
      encryption_context_from_request = context;
      algorithm_suite = some suite;
    })

  -- The data key, by the format of the metadata.
  unfoldable pub decryption_materials :
      Cmm → ObjectMetadata → Dict String → AlgorithmSuite → Result DecryptionMaterials
  unfolding decrypt_v1_v2 decrypt_v3
  decryption_materials cmm m context suite =
      if is_v1_format m
      then decrypt_v1_v2 cmm m.content_iv m.encrypted_data_key_v1 m.encrypted_data_key_algorithm
          (or_empty m.encrypted_data_key_context) context suite
      else if is_v2_format m
      then decrypt_v1_v2 cmm m.content_iv m.encrypted_data_key_v2 m.encrypted_data_key_algorithm
          (or_empty m.encrypted_data_key_context) context suite
      else if is_v3_format m
      then decrypt_v3 cmm m context suite
      else err (client_error unknown_format)
