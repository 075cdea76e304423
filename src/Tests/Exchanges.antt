-- ===== src/Tests/Exchanges.antt =====
-- Objects that are encrypted and then decrypted.
use amazon_s3_encryption_cli.Prelude.{
  ◌≡◌, refl, false, String, Bytes, Dict, lookup, [], ◌∷◌, ◌++◌, none, some, replicate,
}
use amazon_s3_encryption_cli.Errors.{ok}
use amazon_s3_encryption_cli.Values.{Value, members}
use amazon_s3_encryption_cli.External.{Json}
use amazon_s3_encryption_cli.Suite.{
  alg_aes_256_gcm_iv12_tag16_no_kdf, alg_aes_256_gcm_hkdf_sha512_commit_key, CommitmentPolicy,
  require_encrypt_allow_decrypt, require_encrypt_require_decrypt,
}
use amazon_s3_encryption_cli.Metadata.{to_dict}
use amazon_s3_encryption_cli.Materials.{EncryptionMaterials}
use amazon_s3_encryption_cli.Keyring.{KmsKeyring, kms_keyring, default_cmm, kms_on_encrypt}
use amazon_s3_encryption_cli.Keyring.Wrap.{IsUnreserved, wrapped_context}
use amazon_s3_encryption_cli.KeyDerivation.{derive_keys}
use amazon_s3_encryption_cli.InstructionFile.{config_defaults}
use amazon_s3_encryption_cli.Put.{
  encrypt, encrypt_gcm, encrypt_kc_gcm, gcm_metadata, kc_gcm_metadata, encryption_request,
}
use amazon_s3_encryption_cli.Get.{decrypt}
use amazon_s3_encryption_cli.Get.Resolve.{GetEncryptedObjectPipeline, Location}
use amazon_s3_encryption_cli.Get.Content.{buffered}
use amazon_s3_encryption_cli.RoundTrip.Gcm.{put_gcm, decrypt_gcm-encrypt}
use amazon_s3_encryption_cli.RoundTrip.KcGcm.{put_kc_gcm, decrypt_kc_gcm-encrypt}
use amazon_s3_encryption_cli.Tests.Libraries.{
  one_key, one_key-laws, the_blob, keys, letters, letters-laws, plain_aes, plain_gcm,
  plain_gcm-laws, plain_cbc, memory, one_context, zeros,
}

abbrev keyring : KmsKeyring
keyring = record {
  kms_client = one_key;
  kms_key_id = "key";
  enable_legacy_wrapping_algorithms = false;
}

abbrev pipeline : CommitmentPolicy → GetEncryptedObjectPipeline
pipeline policy = record {
  cmm = default_cmm (kms_keyring keyring);
  commitment_policy = policy;
  s3_client = none;
  enable_legacy_unauthenticated_modes = false;
  instruction_file_config = config_defaults;
}

abbrev place : Location
place = record { instruction_suffix = none; bucket = some "bucket"; key = some "key" }

abbrev context : Dict String
context = ("department", "crypto") ∷ []

context-IsUnreserved : IsUnreserved context
unfolding lookup
context-IsUnreserved = record { is_dict = (refl, tt); no_cek_alg = refl; no_cmk_id = refl }

abbrev text : Bytes
text = 4 ∷ 5 ∷ []

abbrev sealed : Bytes
sealed = text ++ replicate 16 2

abbrev gcm_request : EncryptionMaterials
gcm_request = encryption_request alg_aes_256_gcm_iv12_tag16_no_kdf context

abbrev gcm_json : Json
gcm_json = one_context (members (wrapped_context gcm_request))

abbrev gcm_dict : Dict Value
gcm_dict =
    to_dict gcm_json (gcm_metadata letters the_blob (replicate 12 0) (wrapped_context gcm_request))

encrypt-gcm :
    encrypt letters gcm_json keys zeros (put_gcm keyring) text (some context)
    ≡ ok (sealed, gcm_dict)
unfolding encrypt encrypt_gcm kms_on_encrypt
encrypt-gcm = refl

decrypt_gcm-encrypt_example :
    decrypt memory plain_gcm plain_cbc letters keys gcm_json
      (pipeline require_encrypt_allow_decrypt)
      place
      gcm_dict
      sealed
      18
      (some false)
      (some context)
    ≡ ok (buffered text)
decrypt_gcm-encrypt_example =
    decrypt_gcm-encrypt letters gcm_json keys zeros keyring context memory plain_gcm plain_cbc
      sealed 18 (pipeline require_encrypt_allow_decrypt) place text sealed gcm_dict letters-laws
      refl one_key-laws plain_gcm-laws plain_aes context-IsUnreserved refl refl encrypt-gcm refl

abbrev kc_gcm_request : EncryptionMaterials
kc_gcm_request = encryption_request alg_aes_256_gcm_hkdf_sha512_commit_key context

abbrev kc_gcm_json : Json
kc_gcm_json = one_context (members (wrapped_context kc_gcm_request))

abbrev kc_gcm_dict : Dict Value
kc_gcm_dict = to_dict kc_gcm_json (
    kc_gcm_metadata letters alg_aes_256_gcm_hkdf_sha512_commit_key the_blob (replicate 28 0)
      (replicate 28 9) (wrapped_context kc_gcm_request))

encrypt-kc_gcm :
    encrypt letters kc_gcm_json keys zeros (put_kc_gcm keyring) text (some context)
    ≡ ok (sealed, kc_gcm_dict)
unfolding encrypt encrypt_kc_gcm kms_on_encrypt derive_keys
encrypt-kc_gcm = refl

decrypt_kc_gcm-encrypt_example :
    decrypt memory plain_gcm plain_cbc letters keys kc_gcm_json
      (pipeline require_encrypt_require_decrypt)
      place
      kc_gcm_dict
      sealed
      18
      (some false)
      (some context)
    ≡ ok (buffered text)
decrypt_kc_gcm-encrypt_example =
    decrypt_kc_gcm-encrypt letters kc_gcm_json keys zeros keyring context memory plain_gcm plain_cbc
      sealed 18 (pipeline require_encrypt_require_decrypt) place text sealed kc_gcm_dict
      letters-laws refl one_key-laws plain_gcm-laws plain_aes context-IsUnreserved refl
      encrypt-kc_gcm refl
