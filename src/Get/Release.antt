-- ===== src/Get/Release.antt =====
-- Which plaintexts `GetEncryptedObjectPipeline.decrypt` releases, with the default materials manager
-- over a KMS keyring.
use amazon_s3_encryption_cli.Prelude.{
  [], ◌≡◌, refl, false, ℕ, String, Bytes, Dict, Option, some, arith, inl, inr, ap, ◌∙◌, replicate,
  Bool-cases,
}
use amazon_s3_encryption_cli.Errors.{ok, client_error, type_error, unknown_wrap_alg, >>=-eq-ok}
use amazon_s3_encryption_cli.Values.{Value}
use amazon_s3_encryption_cli.External.{
  Base64, Json, Primitives, GcmDecryption, CbcDecryption, ByteSource,
}
use amazon_s3_encryption_cli.Suite.{
  AlgorithmSuite, alg_aes_256_cbc_iv16_no_kdf, alg_aes_256_gcm_iv12_tag16_no_kdf,
  alg_aes_256_gcm_hkdf_sha512_commit_key, is_legacy, suite_id_bytes,
}
use amazon_s3_encryption_cli.Metadata.{ObjectMetadata, is_v1_format, is_v2_format, is_v3_format}
use amazon_s3_encryption_cli.Materials.{DecryptionMaterials}
use amazon_s3_encryption_cli.Keyring.{
  KmsKeyring, default_cmm, kms_keyring, kms_on_decrypt, required,
}
use amazon_s3_encryption_cli.Keyring.Unwrap.{kms_on_decrypt-Unwrapped}
use amazon_s3_encryption_cli.KeyDerivation.{derive_keys, verify_commitment}
use amazon_s3_encryption_cli.Decryptor.{
  AesGcmDecryptor, gcm, finalize, gcm_finalize, one_shot_decrypt,
}
use amazon_s3_encryption_cli.Put.{context_or_empty}
use amazon_s3_encryption_cli.Get.Resolve.{GetEncryptedObjectPipeline, Location}
use amazon_s3_encryption_cli.Get.Materials.{
  decryption_materials, decrypt_v1_v2, decrypt_v3, b64decode_value, v3_wrap_alg, or_twelve,
  v3_context, stored_v3_context,
}
use amazon_s3_encryption_cli.Get.Content.{Plaintext, streaming, buffered, decrypt_content, release}
use amazon_s3_encryption_cli.Get.{decrypt}
use amazon_s3_encryption_cli.Get.Cleared.{decrypt-Cleared, check_policy-ok}

-- Every way to the data key hands the suite on.
suite-decryption_materials :
    (base64 : Base64) (json : Json) (keyring : KmsKeyring) (m : ObjectMetadata)
    (context : Dict String) (suite : AlgorithmSuite) (materials : DecryptionMaterials)
    → decryption_materials base64 json (default_cmm (kms_keyring keyring)) m context suite
      ≡ ok materials
    → materials.algorithm_suite ≡ some suite
unfolding decryption_materials
suite-decryption_materials base64 json keyring m context suite materials h =
    elim (Bool-cases (is_v1_format m)) [
      | inl v1 ↦ from_v1_v2 _ _ _ _ (rw v1 at h)
      | inr n1 ↦ elim (Bool-cases (is_v2_format m)) [
        | inl v2 ↦ from_v1_v2 _ _ _ _ (rw (n1, v2) at h)
        | inr n2 ↦ elim (Bool-cases (is_v3_format m)) [
          | inl v3 ↦ from_v3 (rw (n1, n2, v3) at h)
          | inr n3 ↦ absurd (ground arith)
        ]
      ]
    ]
  where
    unwrapped-suite :
        (d : DecryptionMaterials)
        → d.algorithm_suite ≡ some suite
        → kms_on_decrypt keyring d d.encrypted_data_keys ≡ ok materials
        → materials.algorithm_suite ≡ some suite
    unwrapped-suite d e k =
        let u = kms_on_decrypt-Unwrapped keyring d d.encrypted_data_keys materials k in
        ap (λ r. r.algorithm_suite) u.filled ∙ e

    from_v1_v2 :
        (iv edk wrap : Option Value) (stored : Value)
        → decrypt_v1_v2 base64 json
            (default_cmm (kms_keyring keyring))
            iv
            edk
            wrap
            stored
            context
            suite
          ≡ ok materials
        → materials.algorithm_suite ≡ some suite
    from_v1_v2 iv edk wrap stored k =
        let (_, _, k1) = >>=-eq-ok (b64decode_value base64 iv) _ k in
        let (_, _, k2) = >>=-eq-ok (b64decode_value base64 edk) _ k1 in unwrapped-suite _ refl k2

    from_v3 :
        decrypt_v3 base64 json (default_cmm (kms_keyring keyring)) m context suite ≡ ok materials
        → materials.algorithm_suite ≡ some suite
    from_v3 k =
        let (_, _, k1) = >>=-eq-ok (b64decode_value base64 m.encrypted_data_key_v3) _ k in
        let (found, _, k2) =
          >>=-eq-ok (v3_wrap_alg (or_twelve m.encrypted_data_key_algorithm_v3)) _ k1 in
        let (wrap_alg, _, k3) = >>=-eq-ok (required found (client_error unknown_wrap_alg)) _ k2 in
        let (raw, _, k4) = >>=-eq-ok (v3_context wrap_alg m) _ k3 in
        let (_, _, k5) = >>=-eq-ok (stored_v3_context base64 json raw) _ k4 in
        unwrapped-suite _ refl k5

-- A plaintext that AES-GCM has authenticated: it is what `finalize` returned for the whole body, with
-- a tag of 16 bytes and nothing decrypted before.
abbrev pub IsVerified :
    (src : ByteSource) (g : GcmDecryption) (b : CbcDecryption)
    → src.Body
    → Plaintext src g b
    → Type 0
IsVerified src g b body (streaming s) = ⊥
IsVerified src g b body (buffered p) =
    (d : AesGcmDecryptor g.Context) × (bytes : Bytes) × (d.tag_length ≡ 16)
    × (d.tail ≡ [])
    × (src.read_all body ≡ ok bytes)
    × ((gcm_finalize g bytes d).0 ≡ ok p)

module _ (src : ByteSource) (g : GcmDecryption) (b : CbcDecryption) where
  release-IsVerified :
      (body : src.Body) (d : AesGcmDecryptor g.Context) (n : ℕ) (plaintext : Plaintext src g b)
      → d.tag_length ≡ 16
      → d.tail ≡ []
      → release src g b false body (gcm d) n ≡ ok plaintext
      → IsVerified src g b body plaintext
  unfolding release one_shot_decrypt finalize
  release-IsVerified body d n (streaming s) t e h =
      let (p, _, built) = >>=-eq-ok (one_shot_decrypt g b (src.read_all body) (gcm d)) _ h in cc
  release-IsVerified body d n (buffered q) t e h =
      let (p, opened, built) = >>=-eq-ok (one_shot_decrypt g b (src.read_all body) (gcm d)) _ h in
      let (bytes, read, finalized) = >>=-eq-ok (src.read_all body) _ opened in
      let same : p ≡ q = cc in (d, bytes, t, e, read, finalized ∙ ap (λ x. ok x) same)

  module _ (base64 : Base64) (prims : Primitives) where
    content-IsVerified :
        (suite : AlgorithmSuite) (materials : DecryptionMaterials) (m : ObjectMetadata)
        (body : src.Body) (n : ℕ) (plaintext : Plaintext src g b)
        → is_legacy suite ≡ false
        → decrypt_content src g b base64 prims (some suite) materials m body false n ≡ ok plaintext
        → IsVerified src g b body plaintext
    unfolding decrypt_content
    content-IsVerified alg_aes_256_cbc_iv16_no_kdf materials m body n p l h = cc
    content-IsVerified alg_aes_256_gcm_iv12_tag16_no_kdf materials m body n p l h =
        let (data_key, _, h1) = >>=-eq-ok (required materials.plaintext_data_key type_error) _ h in
        let (iv, _, h2) = >>=-eq-ok (required materials.iv type_error) _ h1 in
        let (c, _, h3) = >>=-eq-ok (g.decryptor data_key iv) _ h2 in
        release-IsVerified body _ n p refl refl h3
    content-IsVerified alg_aes_256_gcm_hkdf_sha512_commit_key materials m body n p l h =
        let suite = alg_aes_256_gcm_hkdf_sha512_commit_key in
        let (message_id, _, h1) = >>=-eq-ok (b64decode_value base64 m.message_id_v3) _ h in
        let (stored, _, h2) = >>=-eq-ok (b64decode_value base64 m.key_commitment_v3) _ h1 in
        let (data_key, _, h3) = >>=-eq-ok (required materials.plaintext_data_key type_error) _ h2 in
        let (keys, _, h4) = >>=-eq-ok (derive_keys prims data_key message_id suite) _ h3 in
        let (_, _, h5) = >>=-eq-ok (verify_commitment stored keys.1) _ h4 in
        let (c, _, h6) = >>=-eq-ok (g.decryptor keys.0 (replicate 12 0x01)) _ h5 in
        let (a, _, h7) = >>=-eq-ok (g.authenticate_additional_data c (suite_id_bytes suite)) _ h6 in
        release-IsVerified body _ n p refl refl h7

module _ (src : ByteSource) (g : GcmDecryption) (b : CbcDecryption) (base64 : Base64)
    (prims : Primitives) (json : Json) (keyring : KmsKeyring)
    (pipeline : GetEncryptedObjectPipeline) (place : Location) (object_dict : Dict Value)
    (body : src.Body) (content_length : ℕ) (context : Option (Dict String))
    (plaintext : Plaintext src g b) where
  -- With the default materials manager over a KMS keyring, with legacy modes and delayed
  -- authentication off, `decrypt` returns no stream and no plaintext of AES-CBC: what it returns is
  -- the result of `AesGcmDecryptor.finalize` on the whole body, with a tag of 16 bytes.
  pub decrypt-IsVerified :
      pipeline.cmm ≡ default_cmm (kms_keyring keyring)
      → pipeline.enable_legacy_unauthenticated_modes ≡ false
      → decrypt src g b base64 prims json pipeline place object_dict body content_length
          (some false)
          context
        ≡ ok plaintext
      → IsVerified src g b body plaintext
  decrypt-IsVerified manager modern returned =
      let c =
        decrypt-Cleared src g b base64 prims json pipeline place object_dict body content_length
          (some false) context plaintext returned in
      let (early, legacy, _) =
        check_policy-ok pipeline c.suite c.materials (some false) c.release_early c.allowed in
      let kept : c.materials.algorithm_suite ≡ some c.suite =
        suite-decryption_materials base64 json keyring c.metadata (context_or_empty context) c.suite
          c.materials (rw manager at (c.unwrapped)) in
      let late : c.release_early ≡ false = cc in
      let not_legacy : is_legacy c.suite ≡ false = elim (Bool-cases (is_legacy c.suite)) [
        | inl old ↦ cc (legacy old)
        | inr new ↦ new
      ] in
      content-IsVerified src g b base64 prims c.suite c.materials c.metadata body content_length
        plaintext not_legacy (rw (kept, late) at (c.decrypted))
