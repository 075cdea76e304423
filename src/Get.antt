-- ===== src/Get.antt =====
-- `GetEncryptedObjectPipeline.decrypt` of pipelines.py: the suite of an object, and the checks
-- between its metadata, its data key and its content.
pub mod Resolve
pub mod Fetching
pub mod Fetched
pub mod Materials
pub mod Content
pub mod Cleared
pub mod Policy
pub mod Release
pub mod Merge
use amazon_s3_encryption_cli.Prelude.{
  ◌≡◌, Bool, true, false, not, ◌&&◌, ◌||◌, ℕ, String, Bytes, Dict, update, contains, List, [], ◌∷◌,
  ◌++◌, Option, none, some, is_some, if◌then◌else◌, str_eq,
}
use amazon_s3_encryption_cli.Errors.{
  Error, Result, ok, err, client_error, type_error, other_error, ◌>>=◌, ◌>>◌, raise_if,
  missing_cek_alg, unknown_cek_alg, unknown_format, instruction_files_disabled, s3_client_required,
  bucket_and_key_required, suffix_required, instruction_file_tampered, illegal_combination,
  key_collision, v3_keys_in_v2_object, legacy_not_enabled, commitment_conflict,
  delayed_authentication_not_set, unknown_suite, unknown_wrap_alg, unexpected_wrap_alg,
}
use amazon_s3_encryption_cli.Values.{
  Value, null, text, object, number, array, Member, truthy, equals_text,
}
use amazon_s3_encryption_cli.External.{
  Base64, Json, Primitives, GcmDecryption, CbcDecryption, ByteSource,
}
use amazon_s3_encryption_cli.Suite.{
  AlgorithmSuite, alg_aes_256_cbc_iv16_no_kdf, alg_aes_256_gcm_iv12_tag16_no_kdf,
  alg_aes_256_gcm_hkdf_sha512_commit_key, from_content_cipher, is_legacy, supports_key_commitment,
  cipher_tag_length_bytes, cipher_block_size_bits, suite_id_bytes, kc_gcm_iv, CommitmentPolicy,
  require_encrypt_require_decrypt,
}
use amazon_s3_encryption_cli.Metadata.{
  ObjectMetadata, from_dict, json_loads, is_v1_format, is_v2_format, is_v3_format,
  has_exclusive_key_collision, should_use_instruction_file,
}
use amazon_s3_encryption_cli.Materials.{EncryptedDataKey, DecryptionMaterials, decryption_defaults}
use amazon_s3_encryption_cli.Keyring.{Cmm, required}
use amazon_s3_encryption_cli.KeyDerivation.{derive_keys, verify_commitment}
use amazon_s3_encryption_cli.InstructionFile.{InstructionFileConfig}
use amazon_s3_encryption_cli.Put.{context_or_empty}
use amazon_s3_encryption_cli.Decryptor.{
  AnyDecryptor, gcm, cbc, aes_gcm_decryptor, aes_cbc_decryptor, one_shot_decrypt,
}
use amazon_s3_encryption_cli.Stream.{Stream, decrypting_stream}
use amazon_s3_encryption_cli.Get.Resolve.{GetEncryptedObjectPipeline, Location, resolve_metadata}
use amazon_s3_encryption_cli.Get.Materials.{decryption_materials}
use amazon_s3_encryption_cli.Get.Content.{Plaintext, decrypt_content}

-- `AlgorithmSuite.from_content_cipher(cek_alg)`, or an error if there is none
abbrev pub suite_of : Option Value → Result AlgorithmSuite
suite_of none = err (client_error missing_cek_alg)
suite_of (some cek_alg) = required (from_content_cipher cek_alg) (client_error unknown_cek_alg)

unfoldable pub determine_algorithm_suite : ObjectMetadata → Result AlgorithmSuite
determine_algorithm_suite m =
    if is_v1_format m
    then ok alg_aes_256_cbc_iv16_no_kdf
    else if is_v2_format m
    then suite_of m.content_cipher
    else if is_v3_format m
    then suite_of m.content_cipher_v3
    else err (client_error unknown_format)

-- The checks between the metadata and the data key.
unfoldable pub reject_mixed_keys : ObjectMetadata → Result (Unit {0})
reject_mixed_keys m = do
  raise_if (has_exclusive_key_collision m) (client_error key_collision)
  raise_if
      (is_v2_format m
        && (is_some m.content_cipher_v3 || is_some m.key_commitment_v3 || is_some m.message_id_v3))
      (client_error v3_keys_in_v2_object)

abbrev pub is_strict : CommitmentPolicy → Bool
is_strict require_encrypt_require_decrypt = true
is_strict _ = false

-- `algorithm_suite.supports_key_commitment`; `None` has no such attribute.
abbrev pub commits : Option AlgorithmSuite → Result Bool
commits none = err other_error
commits (some suite) = ok (supports_key_commitment suite)

abbrev pub check_commitment : CommitmentPolicy → Option AlgorithmSuite → Result (Unit {0})
check_commitment policy suite =
    if is_strict policy
    then (commits suite >>= λ committing.
        raise_if (not committing) (client_error commitment_conflict))
    else ok tt

-- The checks between the data key and the content.
unfoldable pub check_policy :
    GetEncryptedObjectPipeline → AlgorithmSuite → DecryptionMaterials → Option Bool → Result Bool
check_policy pipeline suite materials delayed = do
  raise_if (is_legacy suite && not pipeline.enable_legacy_unauthenticated_modes)
      (client_error legacy_not_enabled)
  check_commitment pipeline.commitment_policy materials.algorithm_suite
  required delayed (client_error delayed_authentication_not_set)

module _ (src : ByteSource) (g : GcmDecryption) (b : CbcDecryption) (base64 : Base64)
    (prims : Primitives) (json : Json) where
  -- What `decrypt` does with the metadata it has resolved.
  abbrev pub decrypt_resolved :
      GetEncryptedObjectPipeline
      → src.Body
      → ℕ
      → Option Bool
      → Option (Dict String)
      → ObjectMetadata
      → Result (Plaintext src g b)
  decrypt_resolved pipeline body content_length delayed context m = do
    suite ← determine_algorithm_suite m
    reject_mixed_keys m
    materials ← decryption_materials base64 json pipeline.cmm m (context_or_empty context) suite
    release_early ← check_policy pipeline suite materials delayed
    decrypt_content src g b base64 prims materials.algorithm_suite materials m body release_early
        content_length

  -- `decrypt`, with the response's metadata, its body and its content length.
  unfoldable pub decrypt :
      GetEncryptedObjectPipeline
      → Location
      → Dict Value
      → src.Body
      → ℕ
      → Option Bool
      → Option (Dict String)
      → Result (Plaintext src g b)
  decrypt pipeline place object_dict body content_length delayed context = do
    m ← resolve_metadata json pipeline place object_dict
    decrypt_resolved pipeline body content_length delayed context m
