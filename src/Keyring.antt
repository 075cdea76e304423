-- ===== src/Keyring.antt =====
-- materials/keyring.py, materials/kms_keyring.py and materials/crypto_materials_manager.py.
pub mod Accepted
pub mod Wrapping
pub mod Unwrap
pub mod Wrap
use amazon_s3_encryption_cli.Prelude.{
  ◌≡◌, Bool, true, false, not, ◌&&◌, ◌||◌, String, Bytes, Dict, lookup, insert, erase, contains,
  List, [], ◌∷◌, Option, none, some, is_some, is_empty, length, ◌==◌, if◌then◌else◌,
}
use amazon_s3_encryption_cli.Errors.{
  Error, Result, ok, err, client_error, other_error, ◌>>=◌, ◌>>◌, raise_if, no_edk,
  plaintext_key_present, edk_count, stored_context_not_dict, reserved_key, context_mismatch,
  no_suite_selected, cek_alg_mismatch, legacy_wrapping_disabled, context_with_kms_v1,
  invalid_wrap_alg,
}
use amazon_s3_encryption_cli.Values.{
  Value, null, text, object, number, array, Member, equals_text, member_is, same_pairs,
}
use amazon_s3_encryption_cli.External.{Kms}
use amazon_s3_encryption_cli.Suite.{AlgorithmSuite, content_cipher}
use amazon_s3_encryption_cli.Materials.{EncryptedDataKey, EncryptionMaterials, DecryptionMaterials}

abbrev pub kms_context_default_key : String
kms_context_default_key = "aws:x-amz-cek-alg"

abbrev pub kms_v1_default_key : String
kms_v1_default_key = "kms_cmk_id"

-- `AbstractKeyring` and `AbstractCryptoMaterialsManager`
pub record Keyring : Type 0 where
  pub on_encrypt : EncryptionMaterials → Result EncryptionMaterials
  pub on_decrypt : DecryptionMaterials → Option (List EncryptedDataKey) → Result DecryptionMaterials

pub record Cmm : Type 0 where
  pub get_encryption_materials : EncryptionMaterials → Result EncryptionMaterials
  pub decrypt_materials : DecryptionMaterials → Result DecryptionMaterials

-- `DefaultCryptoMaterialsManager` delegates to one keyring.
abbrev pub default_cmm : Keyring → Cmm
default_cmm keyring = record {
  get_encryption_materials = λ materials. keyring.on_encrypt materials;
  decrypt_materials = λ materials. keyring.on_decrypt materials materials.encrypted_data_keys;
}

-- `encrypted_data_keys if encrypted_data_keys is not None else dec_materials.encrypted_data_keys`
abbrev pub chosen_edks :
    DecryptionMaterials → Option (List EncryptedDataKey) → Option (List EncryptedDataKey)
chosen_edks materials none = materials.encrypted_data_keys
chosen_edks materials (some edks) = some edks

abbrev pub required {ℓ} : {A : Type ℓ} → Option A → Error → Result A
required none e = err e
required (some a) e = ok a

-- `isinstance(v, dict)`, with the dictionary
abbrev pub as_dict : Value → Error → Result (Dict Member)
as_dict (object d) e = ok d
as_dict _ e = err e

-- `S3Keyring.on_decrypt`, whose checks come before those of every S3 keyring.
unfoldable pub s3_on_decrypt :
    DecryptionMaterials → Option (List EncryptedDataKey) → Result DecryptionMaterials
s3_on_decrypt materials passed = do
  edks ← required (chosen_edks materials passed) (client_error no_edk)
  raise_if (is_some materials.plaintext_data_key) (client_error plaintext_key_present)
  raise_if (not (length edks == 1)) (client_error edk_count)
  _ ← as_dict materials.encryption_context_stored (client_error stored_context_not_dict)
  ok materials

pub record KmsKeyring : Type 0 where
  pub kms_client : Kms
  pub kms_key_id : String
  pub enable_legacy_wrapping_algorithms : Bool

unfoldable pub kms_on_encrypt : KmsKeyring → EncryptionMaterials → Result EncryptionMaterials
kms_on_encrypt keyring materials = do
  let context =
      insert kms_context_default_key (content_cipher materials.encryption_algorithm)
        materials.encryption_context
  response ← keyring.kms_client.generate_data_key keyring.kms_key_id "AES_256" context
  let edk : EncryptedDataKey = record {
    key_provider_info = some (text "kms+context");
    key_provider_id = "S3Keyring";
    encrypted_data_key = response.0;
  }
  ok (record materials {
    encryption_context = context;
    encrypted_data_key = some edk;
    plaintext_data_key = some response.1;
  })

-- `edks[0]`
abbrev pub first_edk : Option (List EncryptedDataKey) → Result EncryptedDataKey
first_edk none = err other_error
first_edk (some []) = err other_error
first_edk (some (edk ∷ rest)) = ok edk

abbrev pub info_is : Option Value → String → Bool
info_is none s = false
info_is (some v) s = equals_text v s

-- The stored context without the two keys that the client reserves.
unfoldable pub without_reserved : Dict Member → Dict Member
without_reserved stored = erase kms_context_default_key (erase kms_v1_default_key stored)

-- The checks of the Kms+Context mode.
unfoldable pub check_kms_context :
    Dict Member → Dict String → Option AlgorithmSuite → Result (Unit {0})
unfolding without_reserved
check_kms_context stored request suite = do
  raise_if (contains kms_context_default_key request) (client_error reserved_key)
  raise_if (not (same_pairs (without_reserved stored) request)) (client_error context_mismatch)
  selected ← required suite (client_error no_suite_selected)
  raise_if (not (member_is (lookup kms_context_default_key stored) (content_cipher selected)))
      (client_error cek_alg_mismatch)

-- The checks of the KmsV1 mode.
unfoldable pub check_kms_v1 : Bool → Dict String → Result (Unit {0})
check_kms_v1 legacy request = do
  raise_if (not legacy) (client_error legacy_wrapping_disabled)
  raise_if (not (is_empty request)) (client_error context_with_kms_v1)

unfoldable pub check_wrapping :
    Bool → Option Value → Dict Member → Dict String → Option AlgorithmSuite → Result (Unit {0})
unfolding check_kms_context check_kms_v1
check_wrapping legacy info stored request suite =
    if info_is info "kms+context"
    then check_kms_context stored request suite
    else if info_is info "kms"
    then check_kms_v1 legacy request
    else err (client_error invalid_wrap_alg)

unfoldable pub kms_on_decrypt :
    KmsKeyring → DecryptionMaterials → Option (List EncryptedDataKey) → Result DecryptionMaterials
unfolding s3_on_decrypt check_wrapping
kms_on_decrypt keyring materials passed = do
  checked ← s3_on_decrypt materials passed
  edk ← first_edk (chosen_edks checked passed)
  stored ← as_dict checked.encryption_context_stored (client_error stored_context_not_dict)
  check_wrapping keyring.enable_legacy_wrapping_algorithms edk.key_provider_info stored
      checked.encryption_context_from_request checked.algorithm_suite
  plaintext ← keyring.kms_client.decrypt keyring.kms_key_id edk.encrypted_data_key stored
  ok (record checked { plaintext_data_key = some plaintext })

abbrev pub kms_keyring : KmsKeyring → Keyring
kms_keyring keyring = record {
  on_encrypt = kms_on_encrypt keyring;
  on_decrypt = kms_on_decrypt keyring;
}
