-- ===== src/Suite.antt =====
-- materials/materials.py: the algorithm suites and the commitment policies.
use amazon_s3_encryption_cli.Prelude.{
  ℕ, ◌/◌, Bool, true, false, String, Bytes, List, [], ◌∷◌, Option, none, some, replicate,
  if◌then◌else◌,
}
use amazon_s3_encryption_cli.Errors.{Result, ok, err, value_error}
use amazon_s3_encryption_cli.Values.{Value, equals_text}

pub data AlgorithmSuite : Type 0 where
  alg_aes_256_cbc_iv16_no_kdf : AlgorithmSuite
  alg_aes_256_gcm_iv12_tag16_no_kdf : AlgorithmSuite
  alg_aes_256_gcm_hkdf_sha512_commit_key : AlgorithmSuite

pub record Parameters : Type 0 where
  pub suite_id : ℕ
  pub is_legacy : Bool
  pub data_key_algorithm : String
  pub data_key_length_bits : ℕ
  pub cipher_name : String
  pub cipher_block_size_bits : ℕ
  pub cipher_iv_length_bits : ℕ
  pub cipher_tag_length_bits : ℕ
  pub is_committing : Bool
  pub commitment_length_bits : ℕ
  pub commitment_nonce_length_bits : ℕ
  pub kdf_hash_algorithm : Option String
  pub suite_id_bytes : Bytes
  pub content_cipher : String

abbrev pub parameters : AlgorithmSuite → Parameters
parameters alg_aes_256_cbc_iv16_no_kdf = record {
  suite_id = 0x0070;
  is_legacy = true;
  data_key_algorithm = "AES";
  data_key_length_bits = 256;
  cipher_name = "AES/CBC/PKCS5Padding";
  cipher_block_size_bits = 128;
  cipher_iv_length_bits = 128;
  cipher_tag_length_bits = 0;
  is_committing = false;
  commitment_length_bits = 0;
  commitment_nonce_length_bits = 0;
  kdf_hash_algorithm = none;
  suite_id_bytes = [];
  content_cipher = "AES/CBC/PKCS5Padding";
}
parameters alg_aes_256_gcm_iv12_tag16_no_kdf = record {
  suite_id = 0x0072;
  is_legacy = false;
  data_key_algorithm = "AES";
  data_key_length_bits = 256;
  cipher_name = "AES/GCM/NoPadding";
  cipher_block_size_bits = 128;
  cipher_iv_length_bits = 96;
  cipher_tag_length_bits = 128;
  is_committing = false;
  commitment_length_bits = 0;
  commitment_nonce_length_bits = 0;
  kdf_hash_algorithm = none;
  suite_id_bytes = [];
  content_cipher = "AES/GCM/NoPadding";
}
parameters alg_aes_256_gcm_hkdf_sha512_commit_key = record {
  suite_id = 0x0073;
  is_legacy = false;
  data_key_algorithm = "AES";
  data_key_length_bits = 256;
  cipher_name = "AES/GCM/HKDF/CommitKey";
  cipher_block_size_bits = 128;
  cipher_iv_length_bits = 96;
  cipher_tag_length_bits = 128;
  is_committing = true;
  commitment_length_bits = 224;
  commitment_nonce_length_bits = 224;
  kdf_hash_algorithm = some "sha512";
  suite_id_bytes = 0x00 ∷ 0x73 ∷ [];
  content_cipher = "115";
}

module _ (suite : AlgorithmSuite) where
  abbrev pub suite_id : ℕ
  suite_id = (parameters suite).suite_id

  abbrev pub is_legacy : Bool
  is_legacy = (parameters suite).is_legacy

  abbrev pub supports_key_commitment : Bool
  supports_key_commitment = (parameters suite).is_committing

  abbrev pub data_key_length_bytes : ℕ
  data_key_length_bytes = (parameters suite).data_key_length_bits / 8

  abbrev pub content_cipher : String
  content_cipher = (parameters suite).content_cipher

  abbrev pub cipher_iv_length_bytes : ℕ
  cipher_iv_length_bytes = (parameters suite).cipher_iv_length_bits / 8

  abbrev pub commitment_length_bytes : ℕ
  commitment_length_bytes = (parameters suite).commitment_length_bits / 8

  abbrev pub commitment_nonce_length_bytes : ℕ
  commitment_nonce_length_bytes = (parameters suite).commitment_nonce_length_bits / 8

  abbrev pub suite_id_bytes : Bytes
  suite_id_bytes = (parameters suite).suite_id_bytes

  abbrev pub kdf_hash_algorithm : Option String
  kdf_hash_algorithm = (parameters suite).kdf_hash_algorithm

  abbrev pub cipher_block_size_bits : ℕ
  cipher_block_size_bits = (parameters suite).cipher_block_size_bits

  abbrev pub cipher_tag_length_bytes : ℕ
  cipher_tag_length_bytes = (parameters suite).cipher_tag_length_bits / 8

  -- Only a committing suite has the fixed IV.
  abbrev pub kc_gcm_iv : Result Bytes
  kc_gcm_iv =
      if supports_key_commitment
      then ok (replicate cipher_iv_length_bytes 0x01)
      else err value_error

-- `for suite in cls`, in the order of the members
first_with_cipher : List AlgorithmSuite → Value → Option AlgorithmSuite
first_with_cipher [] cipher = none
first_with_cipher (suite ∷ rest) cipher =
    if equals_text cipher (content_cipher suite) then some suite else first_with_cipher rest cipher

unfoldable pub from_content_cipher : Value → Option AlgorithmSuite
unfolding first_with_cipher equals_text
from_content_cipher cipher =
    first_with_cipher
      (alg_aes_256_cbc_iv16_no_kdf ∷ alg_aes_256_gcm_iv12_tag16_no_kdf
        ∷ alg_aes_256_gcm_hkdf_sha512_commit_key ∷ [])
      cipher

pub data CommitmentPolicy : Type 0 where
  forbid_encrypt_allow_decrypt : CommitmentPolicy
  require_encrypt_allow_decrypt : CommitmentPolicy
  require_encrypt_require_decrypt : CommitmentPolicy
