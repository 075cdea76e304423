-- ===== src/Config.antt =====
-- `S3EncryptionClientConfig` of __init__.py and the checks that it makes of itself.
use amazon_s3_encryption_cli.Prelude.{
  ◌≡◌, refl, ap, Bool, true, false, not, ◌&&◌, ◌↔◌, String, Dict, Option, some,
}
use amazon_s3_encryption_cli.Errors.{
  Result, ok, client_error, ◌>>◌, raise_if, legacy_suite_configured, policy_requires_commitment,
  policy_forbids_commitment, legacy_not_enabled, delayed_authentication_not_set,
}
use amazon_s3_encryption_cli.Suite.{
  AlgorithmSuite, alg_aes_256_cbc_iv16_no_kdf, alg_aes_256_gcm_iv12_tag16_no_kdf,
  alg_aes_256_gcm_hkdf_sha512_commit_key, is_legacy, supports_key_commitment, CommitmentPolicy,
  forbid_encrypt_allow_decrypt, require_encrypt_allow_decrypt, require_encrypt_require_decrypt,
}
use amazon_s3_encryption_cli.Values.{Value}
use amazon_s3_encryption_cli.Materials.{DecryptionMaterials}
use amazon_s3_encryption_cli.Keyring.{Cmm, Keyring, default_cmm, required}
use amazon_s3_encryption_cli.InstructionFile.{InstructionFileConfig, config_defaults}
use amazon_s3_encryption_cli.Get.{check_policy, check_commitment}
use amazon_s3_encryption_cli.Get.Resolve.{GetEncryptedObjectPipeline}

pub record S3EncryptionClientConfig : Type 0 where
  pub keyring : Keyring
  pub encryption_algorithm : AlgorithmSuite
  pub commitment_policy : CommitmentPolicy
  pub enable_legacy_unauthenticated_modes : Bool
  pub cmm : Cmm
  pub enable_delayed_authentication : Bool
  pub instruction_file_config : InstructionFileConfig

-- Every field but the keyring has its default.
abbrev pub client_defaults : Keyring → S3EncryptionClientConfig
client_defaults keyring = record {
  keyring = keyring;
  encryption_algorithm = alg_aes_256_gcm_hkdf_sha512_commit_key;
  commitment_policy = require_encrypt_require_decrypt;
  enable_legacy_unauthenticated_modes = false;
  cmm = default_cmm keyring;
  enable_delayed_authentication = false;
  instruction_file_config = config_defaults;
}

abbrev pub requires_commitment : CommitmentPolicy → Bool
requires_commitment forbid_encrypt_allow_decrypt = false
requires_commitment _ = true

abbrev pub forbids_commitment : CommitmentPolicy → Bool
forbids_commitment forbid_encrypt_allow_decrypt = true
forbids_commitment _ = false

-- `__attrs_post_init__`
unfoldable pub configure : S3EncryptionClientConfig → Result S3EncryptionClientConfig
configure c = do
  raise_if (is_legacy c.encryption_algorithm) (client_error legacy_suite_configured)
  raise_if
      (requires_commitment c.commitment_policy
        && not (supports_key_commitment c.encryption_algorithm))
      (client_error policy_requires_commitment)
  raise_if
      (forbids_commitment c.commitment_policy && supports_key_commitment c.encryption_algorithm)
      (client_error policy_forbids_commitment)
  ok c

-- The pipeline that the plugin makes for GetObject.
abbrev pub get_pipeline :
    S3EncryptionClientConfig
    → Option (String → String → Result (Dict Value))
    → GetEncryptedObjectPipeline
get_pipeline c s3_client = record {
  cmm = c.cmm;
  commitment_policy = c.commitment_policy;
  s3_client = s3_client;
  enable_legacy_unauthenticated_modes = c.enable_legacy_unauthenticated_modes;
  instruction_file_config = c.instruction_file_config;
}

-- The suite that a policy encrypts with.
abbrev pub suite_for : CommitmentPolicy → AlgorithmSuite
suite_for forbid_encrypt_allow_decrypt = alg_aes_256_gcm_iv12_tag16_no_kdf
suite_for _ = alg_aes_256_gcm_hkdf_sha512_commit_key

-- A configuration is accepted exactly if its suite is the one that its policy encrypts with: AES-GCM
-- without commitment under FORBID_ENCRYPT_ALLOW_DECRYPT, and the committing suite under the two
-- other policies. What is accepted is not changed.
pub configure_iff :
    (c d : S3EncryptionClientConfig)
    → (configure c ≡ ok d) ↔ ((c ≡ d) × (c.encryption_algorithm ≡ suite_for c.commitment_policy))
unfolding configure
configure_iff c d = (
  accepted c.encryption_algorithm c.commitment_policy,
  λ h. simp (h.1) (fits c.commitment_policy (h.0)),
)
  where
    checks : AlgorithmSuite → CommitmentPolicy → Result S3EncryptionClientConfig
    checks s p = do
      raise_if (is_legacy s) (client_error legacy_suite_configured)
      raise_if (requires_commitment p && not (supports_key_commitment s))
          (client_error policy_requires_commitment)
      raise_if (forbids_commitment p && supports_key_commitment s)
          (client_error policy_forbids_commitment)
      ok c

    accepted :
        (s : AlgorithmSuite) (p : CommitmentPolicy)
        → checks s p ≡ ok d
        → (c ≡ d) × (s ≡ suite_for p)
    accepted alg_aes_256_cbc_iv16_no_kdf p h = cc
    accepted alg_aes_256_gcm_iv12_tag16_no_kdf forbid_encrypt_allow_decrypt h = (cc, refl)
    accepted alg_aes_256_gcm_iv12_tag16_no_kdf require_encrypt_allow_decrypt h = cc
    accepted alg_aes_256_gcm_iv12_tag16_no_kdf require_encrypt_require_decrypt h = cc
    accepted alg_aes_256_gcm_hkdf_sha512_commit_key forbid_encrypt_allow_decrypt h = cc
    accepted alg_aes_256_gcm_hkdf_sha512_commit_key require_encrypt_allow_decrypt h = (cc, refl)
    accepted alg_aes_256_gcm_hkdf_sha512_commit_key require_encrypt_require_decrypt h = (cc, refl)

    fits : (p : CommitmentPolicy) → c ≡ d → checks (suite_for p) p ≡ ok d
    fits forbid_encrypt_allow_decrypt h = ap ok h
    fits require_encrypt_allow_decrypt h = ap ok h
    fits require_encrypt_require_decrypt h = ap ok h

-- With an accepted configuration, the checks before the content let through decryption materials of
-- the suite that the client encrypts with, and give the configured delayed authentication: what a
-- client encrypts, its own policy lets it decrypt.
pub configure-check_policy :
    (c d : S3EncryptionClientConfig) (s3_client : Option (String → String → Result (Dict Value)))
    (materials : DecryptionMaterials)
    → configure c ≡ ok d
    → materials.algorithm_suite ≡ some d.encryption_algorithm
    → check_policy
        (get_pipeline d s3_client)
        d.encryption_algorithm
        materials
        (some d.enable_delayed_authentication)
      ≡ ok d.enable_delayed_authentication
unfolding check_policy
configure-check_policy c d s3_client materials accepted same =
    let (kept, suits) = (configure_iff c d).0 accepted in
    let suite : d.encryption_algorithm ≡ suite_for d.commitment_policy = cc in
    rw (same, suite) (passes d.commitment_policy)
  where
    passes :
        (p : CommitmentPolicy)
        → (raise_if
              (is_legacy (suite_for p) && not d.enable_legacy_unauthenticated_modes)
              (client_error legacy_not_enabled)
            >> (check_commitment p (some (suite_for p))
                >> required
                    (some d.enable_delayed_authentication)
                    (client_error delayed_authentication_not_set)))
          ≡ ok d.enable_delayed_authentication
    passes forbid_encrypt_allow_decrypt = refl
    passes require_encrypt_allow_decrypt = refl
    passes require_encrypt_require_decrypt = refl
