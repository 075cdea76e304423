-- ===== src/Tests/Clients.antt =====
-- Configurations of a client.
use amazon_s3_encryption_cli.Prelude.{◌≡◌, ◌↔◌, refl, false, none, some}
use amazon_s3_encryption_cli.Errors.{ok}
use amazon_s3_encryption_cli.Suite.{
  alg_aes_256_gcm_hkdf_sha512_commit_key, require_encrypt_require_decrypt,
}
use amazon_s3_encryption_cli.Materials.{DecryptionMaterials, decryption_defaults}
use amazon_s3_encryption_cli.Keyring.{KmsKeyring, kms_keyring}
use amazon_s3_encryption_cli.Get.{check_policy}
use amazon_s3_encryption_cli.Config.{
  S3EncryptionClientConfig, client_defaults, configure, get_pipeline, suite_for, configure_iff,
  configure-check_policy,
}
use amazon_s3_encryption_cli.Tests.Libraries.{one_key}

abbrev keyring : KmsKeyring
keyring = record {
  kms_client = one_key;
  kms_key_id = "key";
  enable_legacy_wrapping_algorithms = false;
}

abbrev config : S3EncryptionClientConfig
config = client_defaults (kms_keyring keyring)

configure-config : configure config ≡ ok config
unfolding configure
configure-config = refl

configure_iff_example : (configure config ≡ ok config) ↔ (
    (config ≡ config)
    × (alg_aes_256_gcm_hkdf_sha512_commit_key ≡ suite_for require_encrypt_require_decrypt))
configure_iff_example = configure_iff config config

abbrev materials : DecryptionMaterials
materials = record decryption_defaults {
  algorithm_suite = some alg_aes_256_gcm_hkdf_sha512_commit_key;
}

configure-check_policy_example :
    check_policy
      (get_pipeline config none)
      alg_aes_256_gcm_hkdf_sha512_commit_key
      materials
      (some false)
    ≡ ok false
configure-check_policy_example =
    configure-check_policy config config none materials configure-config refl
