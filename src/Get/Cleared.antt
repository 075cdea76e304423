-- ===== src/Get/Cleared.antt =====
-- What has held whenever `GetEncryptedObjectPipeline.decrypt` returns.
use amazon_s3_encryption_cli.Prelude.{◌≡◌, Bool, true, ℕ, String, Dict, Option, some, arith}
use amazon_s3_encryption_cli.Errors.{ok, >>=-eq-ok}
use amazon_s3_encryption_cli.Values.{Value}
use amazon_s3_encryption_cli.External.{
  Base64, Json, Primitives, GcmDecryption, CbcDecryption, ByteSource,
}
use amazon_s3_encryption_cli.Suite.{AlgorithmSuite, is_legacy}
use amazon_s3_encryption_cli.Metadata.{ObjectMetadata}
use amazon_s3_encryption_cli.Materials.{DecryptionMaterials}
use amazon_s3_encryption_cli.Put.{context_or_empty}
use amazon_s3_encryption_cli.Get.Resolve.{GetEncryptedObjectPipeline, Location, resolve_metadata}
use amazon_s3_encryption_cli.Get.Materials.{decryption_materials}
use amazon_s3_encryption_cli.Get.Content.{Plaintext, decrypt_content}
use amazon_s3_encryption_cli.Get.{
  determine_algorithm_suite, reject_mixed_keys, check_policy, is_strict, commits, decrypt,
}

-- The path of a successful call, step by step.
pub record Cleared (src : ByteSource) (g : GcmDecryption) (b : CbcDecryption) (base64 : Base64)
    (prims : Primitives) (json : Json) (pipeline : GetEncryptedObjectPipeline) (place : Location)
    (object_dict : Dict Value) (body : src.Body) (content_length : ℕ) (delayed : Option Bool)
    (context : Option (Dict String)) (plaintext : Plaintext src g b) : Type 0 where
  pub metadata : ObjectMetadata
  pub suite : AlgorithmSuite
  pub materials : DecryptionMaterials
  pub release_early : Bool
  pub resolved : resolve_metadata json pipeline place object_dict ≡ ok metadata
  pub determined : determine_algorithm_suite metadata ≡ ok suite
  pub unmixed : reject_mixed_keys metadata ≡ ok tt
  pub unwrapped :
      decryption_materials base64 json pipeline.cmm metadata (context_or_empty context) suite
      ≡ ok materials
  pub allowed : check_policy pipeline suite materials delayed ≡ ok release_early
  pub decrypted :
      decrypt_content src g b base64 prims materials.algorithm_suite materials metadata body
        release_early content_length
      ≡ ok plaintext

module _ (src : ByteSource) (g : GcmDecryption) (b : CbcDecryption) (base64 : Base64)
    (prims : Primitives) (json : Json) (pipeline : GetEncryptedObjectPipeline) (place : Location)
    (object_dict : Dict Value) (body : src.Body) (content_length : ℕ) (delayed : Option Bool)
    (context : Option (Dict String)) (plaintext : Plaintext src g b)
    (returned : decrypt src g b base64 prims json pipeline place object_dict body content_length
        delayed context
      ≡ ok plaintext) where
  pub decrypt-Cleared :
      Cleared src g b base64 prims json pipeline place object_dict body content_length delayed
        context plaintext
  unfolding decrypt
  decrypt-Cleared =
      let (m, resolved, a) =
        >>=-eq-ok (resolve_metadata json pipeline place object_dict) _ returned in
      let (suite, determined, c) = >>=-eq-ok (determine_algorithm_suite m) _ a in
      let (_, unmixed, d) = >>=-eq-ok (reject_mixed_keys m) _ c in
      let (materials, unwrapped, e) =
        >>=-eq-ok (decryption_materials base64 json pipeline.cmm m (context_or_empty context) suite)
          _ d in
      let (early, allowed, decrypted) =
        >>=-eq-ok (check_policy pipeline suite materials delayed) _ e in
      record {
        metadata = m;
        suite = suite;
        materials = materials;
        release_early = early;
        resolved = resolved;
        determined = determined;
        unmixed = unmixed;
        unwrapped = unwrapped;
        allowed = allowed;
        decrypted = decrypted;
      }

-- What the checks of the policy have let through.
pub check_policy-ok :
    (pipeline : GetEncryptedObjectPipeline) (suite : AlgorithmSuite)
    (materials : DecryptionMaterials) (delayed : Option Bool) (early : Bool)
    → check_policy pipeline suite materials delayed ≡ ok early
    → (delayed ≡ some early)
      × (is_legacy suite ≡ true → pipeline.enable_legacy_unauthenticated_modes ≡ true)
      × (is_strict pipeline.commitment_policy ≡ true → commits materials.algorithm_suite ≡ ok true)
unfolding check_policy
check_policy-ok pipeline suite materials delayed early h =
    (ground arith, ground arith, ground arith)
