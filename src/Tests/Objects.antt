-- ===== src/Tests/Objects.antt =====
-- Objects that are decrypted, and the theorems on `decrypt` at them.
use amazon_s3_encryption_cli.Prelude.{
  true, insert, update, IsDict, ◌≡◌, refl, false, Bytes, Dict, lookup, erase, [], ◌∷◌, none, some,
  replicate,
}
use amazon_s3_encryption_cli.Metadata.{
  blank, ObjectMetadata, from_dict, field, is_v1_format, is_v2_format, is_v3_format,
  should_use_instruction_file, has_exclusive_key_collision,
}
use amazon_s3_encryption_cli.Stream.{decrypting_stream}
use amazon_s3_encryption_cli.Decryptor.{
  cbc, aes_cbc_decryptor, gcm_open, gcm_finalize, gcm_handler, finalize, update_if_any,
  one_shot_decrypt,
}
use amazon_s3_encryption_cli.Get.Content.{streaming, buffered, release, decrypt_content}
use amazon_s3_encryption_cli.Get.Resolve.{
  has_exclusive_keys, has_content_metadata, GetEncryptedObjectPipeline, Location, resolve_metadata,
}
use amazon_s3_encryption_cli.Get.Merge.{
  OwnsContentKeys, resolve_metadata-OwnsContentKeys, decrypt-not_v2,
}
use amazon_s3_encryption_cli.Errors.{ok}
use amazon_s3_encryption_cli.Values.{
  Value, text, truthy, equals_text, same_pairs, includes_all, included_in, member_is,
}
use amazon_s3_encryption_cli.Suite.{
  AlgorithmSuite, from_content_cipher, require_encrypt_require_decrypt,
  require_encrypt_allow_decrypt, CommitmentPolicy,
}
use amazon_s3_encryption_cli.Materials.{DecryptionMaterials}
use amazon_s3_encryption_cli.Keyring.{
  KmsKeyring, kms_keyring, default_cmm, kms_on_decrypt, check_wrapping, without_reserved,
}
use amazon_s3_encryption_cli.KeyDerivation.{derive_keys, verify_commitment}
use amazon_s3_encryption_cli.InstructionFile.{config_defaults}
use amazon_s3_encryption_cli.Get.{
  decrypt, determine_algorithm_suite, reject_mixed_keys, check_policy,
}
use amazon_s3_encryption_cli.Get.Materials.{decryption_materials, b64decode_value}
use amazon_s3_encryption_cli.Get.Policy.{Committed, strict-Committed}
use amazon_s3_encryption_cli.Get.Release.{IsVerified, decrypt-IsVerified}
use amazon_s3_encryption_cli.Tests.Libraries.{
  one_key, keys, names, one_context, gcm_context, kc_gcm_context, memory, plain_gcm, plain_cbc,
}

abbrev keyring : KmsKeyring
keyring = record {
  kms_client = one_key;
  kms_key_id = "key";
  enable_legacy_wrapping_algorithms = false;
}

abbrev pipeline : CommitmentPolicy → GetEncryptedObjectPipeline
pipeline policy = record {
  cmm = default_cmm (kms_keyring keyring);
  commitment_policy = policy;
  s3_client = none;
  enable_legacy_unauthenticated_modes = false;
  instruction_file_config = config_defaults;
}

abbrev place : Location
place = record { instruction_suffix = none; bucket = some "bucket"; key = some "key" }

abbrev v2_object : Dict Value
v2_object =
    ("x-amz-key-v2", text "edk")
    ∷ ("x-amz-wrap-alg", text "kms+context")
    ∷ ("x-amz-matdesc", text "context")
    ∷ ("x-amz-iv", text "iv")
    ∷ ("x-amz-cek-alg", text "AES/GCM/NoPadding")
    ∷ ("x-amz-tag-len", text "128")
    ∷ []

abbrev v3_object : Dict Value
v3_object =
    ("x-amz-c", text "115")
    ∷ ("x-amz-3", text "edk")
    ∷ ("x-amz-t", text "context")
    ∷ ("x-amz-w", text "12")
    ∷ ("x-amz-d", text "commitment")
    ∷ ("x-amz-i", text "id")
    ∷ []

abbrev content : Bytes
content = 1 ∷ 2 ∷ 3 ∷ replicate 16 3

decrypt-v2 :
    decrypt memory plain_gcm plain_cbc names keys
      (one_context gcm_context)
      (pipeline require_encrypt_allow_decrypt)
      place
      v2_object
      content
      19
      (some false)
      none
    ≡ ok (buffered (1 ∷ 2 ∷ 3 ∷ []))
unfolding decrypt resolve_metadata from_dict field lookup should_use_instruction_file
    determine_algorithm_suite is_v1_format is_v2_format is_v3_format from_content_cipher
    reject_mixed_keys has_exclusive_key_collision decryption_materials b64decode_value
    kms_on_decrypt check_wrapping check_policy decrypt_content release one_shot_decrypt finalize
    gcm_finalize gcm_open update_if_any gcm_handler equals_text truthy same_pairs includes_all
    included_in member_is without_reserved erase
decrypt-v2 = refl

decrypt-v3 :
    decrypt memory plain_gcm plain_cbc names keys
      (one_context kc_gcm_context)
      (pipeline require_encrypt_require_decrypt)
      place
      v3_object
      content
      19
      (some false)
      none
    ≡ ok (buffered (1 ∷ 2 ∷ 3 ∷ []))
unfolding decrypt resolve_metadata from_dict field lookup should_use_instruction_file
    determine_algorithm_suite is_v1_format is_v2_format is_v3_format from_content_cipher
    reject_mixed_keys has_exclusive_key_collision decryption_materials b64decode_value
    kms_on_decrypt check_wrapping check_policy decrypt_content derive_keys verify_commitment release
    one_shot_decrypt finalize gcm_finalize gcm_open update_if_any gcm_handler equals_text truthy
    same_pairs includes_all included_in member_is without_reserved erase
decrypt-v3 = refl

decrypt-IsVerified_example :
    IsVerified memory plain_gcm plain_cbc content (buffered (1 ∷ 2 ∷ 3 ∷ []))
decrypt-IsVerified_example =
    decrypt-IsVerified memory plain_gcm plain_cbc names keys (one_context gcm_context) keyring
      (pipeline require_encrypt_allow_decrypt) place v2_object content 19 none
      (buffered (1 ∷ 2 ∷ 3 ∷ [])) refl refl decrypt-v2

strict-Committed_example :
    (m : ObjectMetadata) × (materials : DecryptionMaterials) × (suite : AlgorithmSuite)
    × (resolve_metadata
          (one_context kc_gcm_context)
          (pipeline require_encrypt_require_decrypt)
          place
          v3_object
        ≡ ok m)
    × (determine_algorithm_suite m ≡ ok suite)
    × (decryption_materials names
          (one_context kc_gcm_context)
          (default_cmm (kms_keyring keyring))
          m
          []
          suite
        ≡ ok materials)
    × Committed names keys m materials
strict-Committed_example =
    strict-Committed memory plain_gcm plain_cbc names keys (one_context kc_gcm_context)
      (pipeline require_encrypt_require_decrypt) place v3_object content 19 (some false) none
      (buffered (1 ∷ 2 ∷ 3 ∷ [])) decrypt-v3 refl

-- The content keys of a V3 object whose data key is in an instruction file.
abbrev content_keys : Dict Value
content_keys =
    ("x-amz-c", text "115") ∷ ("x-amz-d", text "commitment") ∷ ("x-amz-i", text "id") ∷ []

abbrev v3_file : Dict Value
v3_file = ("x-amz-3", text "edk") ∷ ("x-amz-t", text "context") ∷ ("x-amz-w", text "12") ∷ []

abbrev with_file : Dict Value → GetEncryptedObjectPipeline
with_file file = record (pipeline require_encrypt_allow_decrypt) {
  s3_client = some (λ bucket key. ok file);
}

abbrev at_file : Location
at_file = record place { instruction_suffix = some ".instruction" }

decrypt-file :
    decrypt memory plain_gcm plain_cbc names keys
      (one_context kc_gcm_context)
      (with_file v3_file)
      at_file
      content_keys
      content
      19
      (some false)
      none
    ≡ ok (buffered (1 ∷ 2 ∷ 3 ∷ []))
unfolding decrypt resolve_metadata from_dict field lookup should_use_instruction_file
    determine_algorithm_suite is_v1_format is_v2_format is_v3_format from_content_cipher
    reject_mixed_keys has_exclusive_key_collision decryption_materials b64decode_value
    kms_on_decrypt check_wrapping check_policy decrypt_content derive_keys verify_commitment release
    one_shot_decrypt finalize gcm_finalize gcm_open update_if_any gcm_handler equals_text truthy
    same_pairs includes_all included_in member_is without_reserved erase update insert
    has_exclusive_keys has_content_metadata
decrypt-file = refl

content_keys-IsDict : IsDict content_keys
unfolding lookup
content_keys-IsDict = (refl, (refl, (refl, tt)))

decrypt-not_v2_example :
    (m : ObjectMetadata) × (resolve_metadata
        (one_context kc_gcm_context)
        (with_file v3_file)
        at_file
        content_keys
      ≡ ok m)
    × (m.content_cipher_v3 ≡ some (text "115"))
    × (is_v2_format m ≡ false)
unfolding field lookup
decrypt-not_v2_example =
    decrypt-not_v2 memory plain_gcm plain_cbc names keys (one_context kc_gcm_context)
      (with_file v3_file) at_file content_keys content 19 (some false) none
      (buffered (1 ∷ 2 ∷ 3 ∷ [])) (text "115") content_keys-IsDict refl decrypt-file

-- The metadata of that object, whole.
abbrev resolved : ObjectMetadata
resolved = record blank {
  content_cipher_tag_length = none;
  content_cipher_v3 = some (text "115");
  encrypted_data_key_v3 = some (text "edk");
  encryption_context_v3 = some (text "context");
  encrypted_data_key_algorithm_v3 = some (text "12");
  key_commitment_v3 = some (text "commitment");
  message_id_v3 = some (text "id");
}

resolve_metadata-file :
    resolve_metadata (one_context kc_gcm_context) (with_file v3_file) at_file content_keys
    ≡ ok resolved
unfolding decrypt resolve_metadata from_dict field lookup should_use_instruction_file
    determine_algorithm_suite is_v1_format is_v2_format is_v3_format from_content_cipher
    reject_mixed_keys has_exclusive_key_collision decryption_materials b64decode_value
    kms_on_decrypt check_wrapping check_policy decrypt_content derive_keys verify_commitment release
    one_shot_decrypt finalize gcm_finalize gcm_open update_if_any gcm_handler equals_text truthy
    same_pairs includes_all included_in member_is without_reserved erase update insert
    has_exclusive_keys has_content_metadata
resolve_metadata-file = refl

resolve_metadata-OwnsContentKeys_example : OwnsContentKeys content_keys resolved
resolve_metadata-OwnsContentKeys_example =
    resolve_metadata-OwnsContentKeys (one_context kc_gcm_context) (with_file v3_file) at_file
      content_keys resolved content_keys-IsDict resolve_metadata-file

-- A V1 instruction file beside the content keys of V3 is not refused: with legacy modes and legacy
-- wrapping on, the object is decrypted with AES-CBC.
abbrev v1_file : Dict Value
v1_file =
    ("x-amz-key", text "edk")
    ∷ ("x-amz-matdesc", text "context")
    ∷ ("x-amz-iv", text "iv")
    ∷ ("x-amz-wrap-alg", text "kms")
    ∷ []

abbrev legacy : GetEncryptedObjectPipeline
legacy = record (with_file v1_file) {
  cmm = default_cmm (kms_keyring (record keyring { enable_legacy_wrapping_algorithms = true }));
  enable_legacy_unauthenticated_modes = true;
}

decrypt-v1_file :
    decrypt memory plain_gcm plain_cbc names keys
      (one_context kc_gcm_context)
      legacy
      at_file
      content_keys
      content
      19
      (some false)
      none
    ≡ ok (streaming (decrypting_stream content (cbc (aes_cbc_decryptor 0 128 19)) 19))
unfolding decrypt resolve_metadata from_dict field lookup should_use_instruction_file
    determine_algorithm_suite is_v1_format is_v2_format is_v3_format from_content_cipher
    reject_mixed_keys has_exclusive_key_collision decryption_materials b64decode_value
    kms_on_decrypt check_wrapping check_policy decrypt_content derive_keys verify_commitment release
    one_shot_decrypt finalize gcm_finalize gcm_open update_if_any gcm_handler equals_text truthy
    same_pairs includes_all included_in member_is without_reserved erase update insert
    has_exclusive_keys has_content_metadata
decrypt-v1_file = refl
