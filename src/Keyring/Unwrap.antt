-- ===== src/Keyring/Unwrap.antt =====
-- What `KmsKeyring.on_decrypt` returns, and that it undoes `KmsKeyring.on_encrypt`.
use amazon_s3_encryption_cli.Prelude.{
  ◌≡◌, refl, Dict, List, [], ◌∷◌, Option, none, some, arith, Bytes,
}
use amazon_s3_encryption_cli.Errors.{ok, >>=-eq-ok}
use amazon_s3_encryption_cli.Values.{Value, null, text, object, number, array, Member}
use amazon_s3_encryption_cli.Materials.{EncryptedDataKey, DecryptionMaterials}
use amazon_s3_encryption_cli.Keyring.{
  KmsKeyring, chosen_edks, s3_on_decrypt, check_wrapping, kms_on_decrypt,
}
use amazon_s3_encryption_cli.Keyring.Accepted.{IsAccepted, check_wrapping_accepts}

-- A successful unwrapping: the one data key and the stored context that KMS was called with.
pub record Unwrapped (keyring : KmsKeyring) (materials : DecryptionMaterials)
    (passed : Option (List EncryptedDataKey)) (result : DecryptionMaterials) : Type 0 where
  pub edk : EncryptedDataKey
  pub stored : Dict Member
  pub plaintext : Bytes
  pub only_key : chosen_edks materials passed ≡ some (edk ∷ [])
  pub stored_context : materials.encryption_context_stored ≡ object stored
  pub had_none : materials.plaintext_data_key ≡ none
  pub accepted :
      IsAccepted keyring.enable_legacy_wrapping_algorithms edk.key_provider_info stored
        materials.encryption_context_from_request materials.algorithm_suite
  pub decrypted :
      keyring.kms_client.decrypt keyring.kms_key_id edk.encrypted_data_key stored ≡ ok plaintext
  pub filled : result ≡ record materials { plaintext_data_key = some plaintext }

s3_on_decrypt-ok :
    (m : DecryptionMaterials) (passed : Option (List EncryptedDataKey)) {r : DecryptionMaterials}
    → s3_on_decrypt m passed ≡ ok r
    → (edk : EncryptedDataKey) × (stored : Dict Member) × (chosen_edks m passed ≡ some (edk ∷ []))
      × (m.encryption_context_stored ≡ object stored)
      × (m.plaintext_data_key ≡ none)
      × (r ≡ m)
unfolding s3_on_decrypt
s3_on_decrypt-ok m passed {r} h = go (chosen_edks m passed) m.encryption_context_stored refl refl
  where
    go :
        (edks : Option (List EncryptedDataKey)) (v : Value)
        → chosen_edks m passed ≡ edks
        → m.encryption_context_stored ≡ v
        → (edk : EncryptedDataKey) × (stored : Dict Member) × (chosen_edks m passed
            ≡ some (edk ∷ []))
          × (m.encryption_context_stored ≡ object stored)
          × (m.plaintext_data_key ≡ none)
          × (r ≡ m)
    go (some (edk ∷ [])) (object d) e e' = (edk, d, e, e', ground arith, ground arith)
    go none v e e' = absurd (ground arith)
    go (some []) v e e' = absurd (ground arith)
    go (some (edk ∷ _ ∷ _)) v e e' = absurd (ground arith)
    go edks null e e' = absurd (ground arith)
    go edks (text s) e e' = absurd (ground arith)
    go edks (number s) e e' = absurd (ground arith)
    go edks (array s) e e' = absurd (ground arith)

-- Whatever `on_decrypt` returns is the materials with the data key that KMS gave for the one
-- encrypted data key under the whole stored context, and the wrapping checks have passed; a
-- data key that was there already, and any other number of keys, is refused.
pub kms_on_decrypt-Unwrapped :
    (keyring : KmsKeyring) (m : DecryptionMaterials) (passed : Option (List EncryptedDataKey))
    (r : DecryptionMaterials)
    → kms_on_decrypt keyring m passed ≡ ok r
    → Unwrapped keyring m passed r
unfolding kms_on_decrypt
kms_on_decrypt-Unwrapped keyring m passed r h =
    let (checked, s3, after) = >>=-eq-ok (s3_on_decrypt m passed) _ h in
    let (edk, stored, keys, context, fresh, same) = s3_on_decrypt-ok m passed s3 in
    let rest = rw (same, keys, context) at after in
    let (_, passes, then_kms) =
      >>=-eq-ok
        (check_wrapping keyring.enable_legacy_wrapping_algorithms edk.key_provider_info stored
          m.encryption_context_from_request m.algorithm_suite)
        _ rest in
    let (plaintext, decrypted, built) =
      >>=-eq-ok (keyring.kms_client.decrypt keyring.kms_key_id edk.encrypted_data_key stored) _
        then_kms in
    record {
      edk = edk;
      stored = stored;
      plaintext = plaintext;
      only_key = keys;
      stored_context = context;
      had_none = fresh;
      accepted =
          (check_wrapping_accepts _ _ stored m.encryption_context_from_request m.algorithm_suite).0
            passes;
      decrypted = decrypted;
      filled = cc;
    }
