-- ===== src/Get/Policy.antt =====
-- Key commitment, legacy suites and early release: what `GetEncryptedObjectPipeline` enforces.
use amazon_s3_encryption_cli.Prelude.{◌≡◌, Bool, true, ℕ, String, Bytes, Dict, Option, none, some}
use amazon_s3_encryption_cli.Errors.{Error, ok, type_error, >>=-eq-ok}
use amazon_s3_encryption_cli.Values.{Value}
use amazon_s3_encryption_cli.External.{
  Base64, Json, Primitives, GcmDecryption, CbcDecryption, ByteSource,
}
use amazon_s3_encryption_cli.Suite.{
  AlgorithmSuite, alg_aes_256_cbc_iv16_no_kdf, alg_aes_256_gcm_iv12_tag16_no_kdf,
  alg_aes_256_gcm_hkdf_sha512_commit_key, require_encrypt_require_decrypt,
}
use amazon_s3_encryption_cli.Metadata.{ObjectMetadata}
use amazon_s3_encryption_cli.Materials.{DecryptionMaterials}
use amazon_s3_encryption_cli.Keyring.{required}
use amazon_s3_encryption_cli.KeyDerivation.{derive_keys, verify_commitment, verify_commitment_iff}
use amazon_s3_encryption_cli.Get.Resolve.{GetEncryptedObjectPipeline, Location, resolve_metadata}
use amazon_s3_encryption_cli.Get.Materials.{b64decode_value, decryption_materials}
use amazon_s3_encryption_cli.Put.{context_or_empty}
use amazon_s3_encryption_cli.Get.Content.{Plaintext, decrypt_content, decrypt_kc_gcm_streaming}
use amazon_s3_encryption_cli.Get.{commits, decrypt, determine_algorithm_suite}
use amazon_s3_encryption_cli.Get.Cleared.{Cleared, decrypt-Cleared, check_policy-ok}

-- The commitment that the object stores is the one derived from the data key.
pub record Committed (base64 : Base64) (prims : Primitives) (m : ObjectMetadata)
    (materials : DecryptionMaterials) : Type 0 where
  pub data_key : Bytes
  pub message_id : Bytes
  pub encryption_key : Bytes
  pub commit_key : Bytes
  pub unwrapped : materials.plaintext_data_key ≡ some data_key
  pub message : b64decode_value base64 m.message_id_v3 ≡ ok message_id
  pub derived :
      derive_keys prims data_key message_id alg_aes_256_gcm_hkdf_sha512_commit_key
      ≡ ok (encryption_key, commit_key)
  pub same_commitment : b64decode_value base64 m.key_commitment_v3 ≡ ok commit_key

required-ok {ℓ} : {A : Type ℓ} (o : Option A) (e : Error) {a : A} → required o e ≡ ok a → o ≡ some a
required-ok none e h = cc
required-ok (some a) e h = cc

module _ (src : ByteSource) (g : GcmDecryption) (b : CbcDecryption) (base64 : Base64)
    (prims : Primitives) where
  kc_gcm-Committed :
      (materials : DecryptionMaterials) (m : ObjectMetadata) (body : src.Body) (early : Bool)
      (n : ℕ) (plaintext : Plaintext src g b)
      → decrypt_kc_gcm_streaming src g b base64 prims materials
          alg_aes_256_gcm_hkdf_sha512_commit_key m body early n
        ≡ ok plaintext
      → Committed base64 prims m materials
  unfolding decrypt_kc_gcm_streaming
  kc_gcm-Committed materials m body early n plaintext h =
      let (message_id, message, h1) = >>=-eq-ok (b64decode_value base64 m.message_id_v3) _ h in
      let (stored, commitment, h2) = >>=-eq-ok (b64decode_value base64 m.key_commitment_v3) _ h1 in
      let (data_key, unwrapped, h3) =
        >>=-eq-ok (required materials.plaintext_data_key type_error) _ h2 in
      let (keys, derived, h4) =
        >>=-eq-ok (derive_keys prims data_key message_id alg_aes_256_gcm_hkdf_sha512_commit_key) _
          h3 in
      let (_, verified, h5) = >>=-eq-ok (verify_commitment stored keys.1) _ h4 in
      let same : stored ≡ keys.1 = (verify_commitment_iff stored keys.1).0.0 verified in
      record {
        data_key = data_key;
        message_id = message_id;
        encryption_key = keys.0;
        commit_key = keys.1;
        unwrapped = required-ok materials.plaintext_data_key type_error unwrapped;
        message = message;
        derived = derived;
        same_commitment = rw same at commitment;
      }

  content-Committed :
      (suite : Option AlgorithmSuite) (materials : DecryptionMaterials) (m : ObjectMetadata)
      (body : src.Body) (early : Bool) (n : ℕ) (plaintext : Plaintext src g b)
      → commits suite ≡ ok true
      → decrypt_content src g b base64 prims suite materials m body early n ≡ ok plaintext
      → Committed base64 prims m materials
  unfolding decrypt_content
  content-Committed none materials m body early n p c h = cc
  content-Committed (some alg_aes_256_cbc_iv16_no_kdf) materials m body early n p c h = cc
  content-Committed (some alg_aes_256_gcm_iv12_tag16_no_kdf) materials m body early n p c h = cc
  content-Committed (some alg_aes_256_gcm_hkdf_sha512_commit_key) materials m body early n p c h =
      kc_gcm-Committed materials m body early n p h

module _ (src : ByteSource) (g : GcmDecryption) (b : CbcDecryption) (base64 : Base64)
    (prims : Primitives) (json : Json) (pipeline : GetEncryptedObjectPipeline) (place : Location)
    (object_dict : Dict Value) (body : src.Body) (content_length : ℕ) (delayed : Option Bool)
    (context : Option (Dict String)) (plaintext : Plaintext src g b)
    (returned : decrypt src g b base64 prims json pipeline place object_dict body content_length
        delayed context
      ≡ ok plaintext) where
  abbrev Taken : Type 0
  Taken =
      Cleared src g b base64 prims json pipeline place object_dict body content_length delayed
        context plaintext

  -- If `decrypt` returns under the policy REQUIRE_ENCRYPT_REQUIRE_DECRYPT, then the commitment in
  -- the resolved metadata is the one derived from the data key that the materials manager gave for
  -- that metadata and from its message id.
  pub strict-Committed :
      pipeline.commitment_policy ≡ require_encrypt_require_decrypt
      → (m : ObjectMetadata) × (materials : DecryptionMaterials) × (suite : AlgorithmSuite)
        × (resolve_metadata json pipeline place object_dict ≡ ok m)
        × (determine_algorithm_suite m ≡ ok suite)
        × (decryption_materials base64 json pipeline.cmm m (context_or_empty context) suite
            ≡ ok materials)
        × Committed base64 prims m materials
  strict-Committed strict =
      let c : Taken =
        decrypt-Cleared src g b base64 prims json pipeline place object_dict body content_length
          delayed context plaintext returned in
      let (_, _, committing) =
        check_policy-ok pipeline c.suite c.materials delayed c.release_early c.allowed in
      (
        c.metadata,
        c.materials,
        c.suite,
        c.resolved,
        c.determined,
        c.unwrapped,
        content-Committed src g b base64 prims c.materials.algorithm_suite c.materials c.metadata
            body c.release_early content_length plaintext (committing (rw strict)) c.decrypted,
      )
