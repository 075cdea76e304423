-- ===== src/Tests/Keys.antt =====
-- Data keys, derived keys and metadata.
use amazon_s3_encryption_cli.Prelude.{
  ◌≡◌, ◌≢◌, refl, ◌↔◌, true, false, ◌&&◌, ◌+◌, String, Bytes, Dict, lookup, insert, erase, [], ◌∷◌,
  none, some, is_some, replicate,
}
use amazon_s3_encryption_cli.Errors.{ok, err, security_error, commitment_mismatch}
use amazon_s3_encryption_cli.Values.{text, object, members, equals_text, same_pairs, member_is}
use amazon_s3_encryption_cli.Suite.{
  alg_aes_256_gcm_iv12_tag16_no_kdf, alg_aes_256_gcm_hkdf_sha512_commit_key,
}
use amazon_s3_encryption_cli.Metadata.{
  ObjectMetadata, blank, from_dict, to_dict, is_v1_format, is_v2_format, is_v3_format,
  should_use_instruction_file, has_exclusive_key_collision, count,
}
use amazon_s3_encryption_cli.Metadata.Formats.{
  formats_exclude, one_data_key, format-should_use_instruction_file, has_v3_content_only,
}
use amazon_s3_encryption_cli.Metadata.RoundTrip.{written, from_dict-to_dict}
use amazon_s3_encryption_cli.Materials.{EncryptionMaterials, DecryptionMaterials}
use amazon_s3_encryption_cli.Put.{encryption_request}
use amazon_s3_encryption_cli.Keyring.{
  KmsKeyring, kms_on_encrypt, kms_on_decrypt, check_wrapping, s3_on_decrypt, check_kms_context,
  without_reserved,
}
use amazon_s3_encryption_cli.Keyring.Wrapping.{IsAllowed, check_wrapping_iff}
use amazon_s3_encryption_cli.Keyring.Unwrap.{Unwrapped, kms_on_decrypt-Unwrapped}
use amazon_s3_encryption_cli.Keyring.Wrap.{
  IsUnreserved, kms_edk, unwrap_request, kms_on_decrypt-kms_on_encrypt, cmk_id_never_decrypts,
}
use amazon_s3_encryption_cli.KeyDerivation.{
  derive_keys, verify_commitment, verify_commitment_iff, Derived, derive_keys_iff,
}
use amazon_s3_encryption_cli.Tests.Libraries.{
  one_key, one_key-laws, the_blob, the_key, keys, one_context, gcm_context,
}

abbrev keyring : KmsKeyring
keyring = record {
  kms_client = one_key;
  kms_key_id = "key";
  enable_legacy_wrapping_algorithms = false;
}

abbrev request : Dict String
request = ("department", "crypto") ∷ []

abbrev materials : EncryptionMaterials
materials = encryption_request alg_aes_256_gcm_iv12_tag16_no_kdf request

abbrev stored : Dict String
stored = ("department", "crypto") ∷ ("aws:x-amz-cek-alg", "AES/GCM/NoPadding") ∷ []

abbrev wrapped : EncryptionMaterials
wrapped = record materials {
  encryption_context = stored;
  encrypted_data_key = some (kms_edk the_blob);
  plaintext_data_key = some the_key;
}

kms_on_encrypt-materials : kms_on_encrypt keyring materials ≡ ok wrapped
unfolding kms_on_encrypt insert
kms_on_encrypt-materials = refl

request-IsUnreserved : IsUnreserved request
unfolding lookup
request-IsUnreserved = record { is_dict = (refl, tt); no_cek_alg = refl; no_cmk_id = refl }

abbrev asked : DecryptionMaterials
asked = unwrap_request none (kms_edk the_blob) stored request alg_aes_256_gcm_iv12_tag16_no_kdf

kms_on_decrypt-kms_on_encrypt_example :
    kms_on_decrypt keyring asked (some (kms_edk the_blob ∷ []))
    ≡ ok (record asked { plaintext_data_key = some the_key })
kms_on_decrypt-kms_on_encrypt_example =
    kms_on_decrypt-kms_on_encrypt keyring materials wrapped (kms_edk the_blob) none one_key-laws
      request-IsUnreserved kms_on_encrypt-materials refl

kms_on_decrypt-Unwrapped_example :
    Unwrapped keyring asked
      (some (kms_edk the_blob ∷ []))
      (record asked { plaintext_data_key = some the_key })
unfolding kms_on_decrypt s3_on_decrypt check_wrapping check_kms_context without_reserved
kms_on_decrypt-Unwrapped_example =
    kms_on_decrypt-Unwrapped keyring asked (some (kms_edk the_blob ∷ []))
      (record asked { plaintext_data_key = some the_key })
      (kms_on_decrypt-kms_on_encrypt keyring materials wrapped (kms_edk the_blob) none one_key-laws
        request-IsUnreserved kms_on_encrypt-materials refl)

check_wrapping_iff_example :
    (check_wrapping false
        (some (text "kms+context"))
        (members stored)
        request
        (some alg_aes_256_gcm_iv12_tag16_no_kdf)
      ≡ ok tt)
    ↔ IsAllowed false
        (some (text "kms+context"))
        (members stored)
        request
        (some alg_aes_256_gcm_iv12_tag16_no_kdf)
unfolding lookup members
check_wrapping_iff_example =
    check_wrapping_iff false (some (text "kms+context")) (members stored) request
      (some alg_aes_256_gcm_iv12_tag16_no_kdf) (refl, (refl, tt)) (refl, tt)

-- The checks pass there.
stored_passes :
    check_wrapping false
      (some (text "kms+context"))
      (members stored)
      request
      (some alg_aes_256_gcm_iv12_tag16_no_kdf)
    ≡ ok tt
unfolding check_wrapping check_kms_context without_reserved lookup members erase equals_text
    same_pairs member_is
stored_passes = refl

abbrev cmk_request : Dict String
cmk_request = ("kms_cmk_id", "key") ∷ []

abbrev cmk_asked : DecryptionMaterials
cmk_asked =
    unwrap_request none (kms_edk the_blob)
      (("kms_cmk_id", "key") ∷ ("aws:x-amz-cek-alg", "AES/GCM/NoPadding") ∷ []) cmk_request
      alg_aes_256_gcm_iv12_tag16_no_kdf

cmk_id_never_decrypts_example :
    kms_on_decrypt keyring cmk_asked (some (kms_edk the_blob ∷ [])) ≢ ok cmk_asked
unfolding lookup
cmk_id_never_decrypts_example =
    cmk_id_never_decrypts keyring (kms_edk the_blob) none
      (("kms_cmk_id", "key") ∷ ("aws:x-amz-cek-alg", "AES/GCM/NoPadding") ∷ []) cmk_request
      alg_aes_256_gcm_iv12_tag16_no_kdf "key" refl cmk_asked

derive_keys_iff_example :
    (derive_keys keys the_key (replicate 28 0) alg_aes_256_gcm_hkdf_sha512_commit_key
      ≡ ok (replicate 32 9, replicate 28 9))
    ↔ Derived keys the_key
        (replicate 28 0)
        alg_aes_256_gcm_hkdf_sha512_commit_key
        (replicate 32 9)
        (replicate 28 9)
derive_keys_iff_example =
    derive_keys_iff keys the_key (replicate 28 0) alg_aes_256_gcm_hkdf_sha512_commit_key
      (replicate 32 9) (replicate 28 9)

verify_commitment_iff_example :
    ((verify_commitment (1 ∷ []) (2 ∷ []) ≡ ok tt) ↔ (let b : Bytes = 1 ∷ [] in b) ≡ (2 ∷ []))
    × (¬ ((let b : Bytes = 1 ∷ [] in b) ≡ (2 ∷ []))
        → verify_commitment (1 ∷ []) (2 ∷ []) ≡ err (security_error commitment_mismatch))
verify_commitment_iff_example = verify_commitment_iff (1 ∷ []) (2 ∷ [])

-- The metadata of a V2 object.
abbrev v2_metadata : ObjectMetadata
v2_metadata = record blank {
  encrypted_data_key_v2 = some (text "edk");
  encrypted_data_key_algorithm = some (text "kms+context");
  encrypted_data_key_context = some (object gcm_context);
  content_iv = some (text "iv");
  content_cipher = some (text "AES/GCM/NoPadding");
}

from_dict-to_dict_example :
    from_dict (one_context gcm_context) (to_dict (one_context gcm_context) v2_metadata)
    ≡ ok (written (one_context gcm_context) v2_metadata)
unfolding from_dict
from_dict-to_dict_example = from_dict-to_dict (one_context gcm_context) v2_metadata refl

formats_exclude_example :
    ((is_v1_format v2_metadata && is_v2_format v2_metadata) ≡ false)
    × ((is_v1_format v2_metadata && is_v3_format v2_metadata) ≡ false)
    × ((is_v2_format v2_metadata && is_v3_format v2_metadata) ≡ false)
formats_exclude_example = formats_exclude v2_metadata

one_data_key_example :
    count (is_some v2_metadata.encrypted_data_key_v1)
      + count (is_some v2_metadata.encrypted_data_key_v2)
      + count (is_some v2_metadata.encrypted_data_key_v3)
    ≡ 1
unfolding should_use_instruction_file has_exclusive_key_collision
one_data_key_example = one_data_key v2_metadata refl refl

-- The same metadata with the three V3 content keys.
abbrev v2_with_v3_content : ObjectMetadata
v2_with_v3_content = record v2_metadata {
  content_cipher_v3 = some (text "115");
  key_commitment_v3 = some (text "commitment");
  message_id_v3 = some (text "id");
}

format-should_use_instruction_file_example :
    (is_v3_format v2_with_v3_content ≡ true
      → should_use_instruction_file v2_with_v3_content ≡ false)
    × (is_v1_format v2_with_v3_content ≡ true
        → should_use_instruction_file v2_with_v3_content ≡ has_v3_content_only v2_with_v3_content)
    × (is_v2_format v2_with_v3_content ≡ true
        → should_use_instruction_file v2_with_v3_content ≡ has_v3_content_only v2_with_v3_content)
format-should_use_instruction_file_example = format-should_use_instruction_file v2_with_v3_content
