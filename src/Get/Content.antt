-- ===== src/Get/Content.antt =====
-- How `GetEncryptedObjectPipeline` decrypts the content, by the algorithm suite, of pipelines.py.
use amazon_s3_encryption_cli.Prelude.{Bool, true, false, ℕ, Bytes, Option, none, some}
use amazon_s3_encryption_cli.Errors.{
  Result, ok, err, client_error, type_error, ◌>>=◌, ◌>>◌, unknown_suite,
}
use amazon_s3_encryption_cli.External.{Base64, Primitives, GcmDecryption, CbcDecryption, ByteSource}
use amazon_s3_encryption_cli.Suite.{
  AlgorithmSuite, alg_aes_256_cbc_iv16_no_kdf, alg_aes_256_gcm_iv12_tag16_no_kdf,
  alg_aes_256_gcm_hkdf_sha512_commit_key, cipher_tag_length_bytes, cipher_block_size_bits,
  suite_id_bytes, kc_gcm_iv,
}
use amazon_s3_encryption_cli.Metadata.{ObjectMetadata}
use amazon_s3_encryption_cli.Materials.{DecryptionMaterials}
use amazon_s3_encryption_cli.Keyring.{required}
use amazon_s3_encryption_cli.KeyDerivation.{derive_keys, verify_commitment}
use amazon_s3_encryption_cli.Get.Materials.{b64decode_value}
use amazon_s3_encryption_cli.Decryptor.{
  AnyDecryptor, gcm, cbc, aes_gcm_decryptor, aes_cbc_decryptor, one_shot_decrypt,
}
use amazon_s3_encryption_cli.Stream.{Stream, decrypting_stream}

module _ (src : ByteSource) (g : GcmDecryption) (b : CbcDecryption) where
  -- What `decrypt` returns: a stream that decrypts as it is read, or a plaintext that is verified.
  pub data Plaintext : Type 0 where
    streaming : Stream src g b → Plaintext
    buffered : Bytes → Plaintext

  -- A body is released as a stream, or decrypted at once, its tag verified.
  unfoldable pub release : Bool → src.Body → AnyDecryptor g b → ℕ → Result Plaintext
  release true body d content_length = ok (streaming (decrypting_stream body d content_length))
  release false body d content_length = do
    plaintext ← one_shot_decrypt g b (src.read_all body) d
    ok (buffered plaintext)

  unfoldable pub decrypt_cbc_streaming :
      DecryptionMaterials → AlgorithmSuite → src.Body → ℕ → Result Plaintext
  unfolding release
  decrypt_cbc_streaming materials suite body content_length = do
    data_key ← required materials.plaintext_data_key type_error
    iv ← required materials.iv type_error
    c ← b.decryptor data_key iv
    let unpadder = b.unpadder (cipher_block_size_bits suite)
    release true body (cbc (aes_cbc_decryptor c unpadder content_length)) content_length

  unfoldable pub decrypt_gcm_streaming :
      DecryptionMaterials → AlgorithmSuite → src.Body → Bool → ℕ → Result Plaintext
  unfolding release
  decrypt_gcm_streaming materials suite body delayed content_length = do
    data_key ← required materials.plaintext_data_key type_error
    iv ← required materials.iv type_error
    c ← g.decryptor data_key iv
    release delayed body (gcm (aes_gcm_decryptor c (cipher_tag_length_bytes suite) content_length))
        content_length

  module _ (base64 : Base64) (prims : Primitives) where
    unfoldable pub decrypt_kc_gcm_streaming :
        DecryptionMaterials
        → AlgorithmSuite
        → ObjectMetadata
        → src.Body
        → Bool
        → ℕ
        → Result Plaintext
    unfolding release
    decrypt_kc_gcm_streaming materials suite m body delayed content_length = do
      message_id ← b64decode_value base64 m.message_id_v3
      stored_commitment ← b64decode_value base64 m.key_commitment_v3
      data_key ← required materials.plaintext_data_key type_error
      keys ← derive_keys prims data_key message_id suite
      verify_commitment stored_commitment keys.1
      iv ← kc_gcm_iv suite
      c ← g.decryptor keys.0 iv
      authenticated ← g.authenticate_additional_data c (suite_id_bytes suite)
      release delayed body
          (gcm (aes_gcm_decryptor authenticated (cipher_tag_length_bytes suite) content_length))
          content_length

    -- The `match` on the suite of the decryption materials.
    unfoldable pub decrypt_content :
        Option AlgorithmSuite
        → DecryptionMaterials
        → ObjectMetadata
        → src.Body
        → Bool
        → ℕ
        → Result Plaintext
    unfolding decrypt_cbc_streaming decrypt_gcm_streaming decrypt_kc_gcm_streaming
    decrypt_content none materials m body delayed n = err (client_error unknown_suite)
    decrypt_content (some alg_aes_256_cbc_iv16_no_kdf) materials m body delayed n =
        decrypt_cbc_streaming materials alg_aes_256_cbc_iv16_no_kdf body n
    decrypt_content (some alg_aes_256_gcm_iv12_tag16_no_kdf) materials m body delayed n =
        decrypt_gcm_streaming materials alg_aes_256_gcm_iv12_tag16_no_kdf body delayed n
    decrypt_content (some alg_aes_256_gcm_hkdf_sha512_commit_key) materials m body delayed n =
        decrypt_kc_gcm_streaming materials alg_aes_256_gcm_hkdf_sha512_commit_key m body delayed n
