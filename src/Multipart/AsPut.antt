-- ===== src/Multipart/AsPut.antt =====
-- A multipart upload against `PutEncryptedObjectPipeline.encrypt`.
use amazon_s3_encryption_cli.Prelude.{
  ◌≡◌, ap, ◌∙◌, Bool, true, false, String, Bytes, Dict, Option, none, some, if◌then◌else◌,
}
use amazon_s3_encryption_cli.Errors.{
  Result, ok, client_error, runtime_error, ◌>>=◌, >>=-eq-ok, ok-injective, no_plaintext_data_key,
  no_encrypted_data_key, Error,
}
use amazon_s3_encryption_cli.External.{Base64, Json, Primitives, Runtime, GcmEncryption}
use amazon_s3_encryption_cli.Suite.{
  AlgorithmSuite, suite_id_bytes, cipher_iv_length_bytes, commitment_nonce_length_bytes, kc_gcm_iv,
}
use amazon_s3_encryption_cli.Materials.{EncryptionMaterials}
use amazon_s3_encryption_cli.Keyring.{Cmm, required}
use amazon_s3_encryption_cli.KeyDerivation.{derive_keys}
use amazon_s3_encryption_cli.Put.{
  encrypt, encrypt_gcm, encrypt_kc_gcm, encryption_request, is_commit_key,
}
use amazon_s3_encryption_cli.Multipart.{Pipeline, create, init_gcm, init_kc_gcm}
use amazon_s3_encryption_cli.Multipart.Sequence.{encrypt_whole}

-- A new encryptor, with the associated data if there is any.
abbrev pub encryption_started :
    (enc : GcmEncryption) → Bytes → Bytes → Option Bytes → Result enc.Context
encryption_started enc key nonce none = enc.encryptor key nonce
encryption_started enc key nonce (some aad) =
    enc.encryptor key nonce >>= λ c. enc.authenticate_additional_data c aad

-- `AESGCM(key).encrypt` gives what an encryptor of `Cipher(AES(key), GCM(nonce))` gives, with the
-- tag behind it.
pub record OneShotLaws (prims : Primitives) (runtime : Runtime) (enc : GcmEncryption) : Type 0 where
  pub at_once :
      (key nonce text ciphertext : Bytes) (aad : Option Bytes) (c : enc.Context)
      → encryption_started enc key nonce aad ≡ ok c
      → encrypt_whole runtime enc c text ≡ ok ciphertext
      → prims.aesgcm_encrypt key nonce text aad ≡ ok ciphertext

required-ok {ℓ} :
    {A : Type ℓ} (o : Option A) (e e' : Error) (a : A) → required o e ≡ ok a → required o e' ≡ ok a
required-ok none e e' a h = absurd (cc)
required-ok (some b) e e' a h = cc

module _ (base64 : Base64) (json : Json) (prims : Primitives) (runtime : Runtime)
    (enc : GcmEncryption) (laws : OneShotLaws prims runtime enc) where
  init_kc_gcm-encrypt :
      (materials : EncryptionMaterials) (data_key edk text ciphertext : Bytes)
      (p : Pipeline runtime enc)
      → init_kc_gcm base64 json prims runtime enc materials data_key edk ≡ ok p
      → encrypt_whole runtime enc p.encryptor text ≡ ok ciphertext
      → encrypt_kc_gcm base64 json prims runtime text materials data_key edk
        ≡ ok (ciphertext, p.metadata)
  unfolding init_kc_gcm encrypt_kc_gcm
  init_kc_gcm-encrypt materials data_key edk text ciphertext p h sealed =
      let suite = materials.encryption_algorithm in
      let message_id = runtime.urandom (commitment_nonce_length_bytes suite) in
      let (keys, derived, h₁) = >>=-eq-ok (derive_keys prims data_key message_id suite) _ h in
      let (iv, fixed, h₂) = >>=-eq-ok (kc_gcm_iv suite) _ h₁ in
      let (e, made, h₃) = >>=-eq-ok (enc.encryptor keys.0 iv) _ h₂ in
      let (c, started, h₄) =
        >>=-eq-ok (enc.authenticate_additional_data e (suite_id_bytes suite)) _ h₃ in
      let whole = ok-injective h₄ in
      let begun : encryption_started enc keys.0 iv (some (suite_id_bytes suite)) ≡ ok c =
        rw made started in
      let result =
        laws.at_once keys.0 iv text ciphertext (some (suite_id_bytes suite)) c begun
          (ap (λ q. encrypt_whole runtime enc q.encryptor text) whole ∙ sealed) in
      rw (derived, fixed, result) (ap (λ q. ok (ciphertext, q.metadata)) whole)

  init_gcm-encrypt :
      (materials : EncryptionMaterials) (data_key edk text ciphertext : Bytes)
      (p : Pipeline runtime enc)
      → init_gcm base64 json prims runtime enc materials data_key edk ≡ ok p
      → encrypt_whole runtime enc p.encryptor text ≡ ok ciphertext
      → encrypt_gcm base64 json prims runtime text materials data_key edk
        ≡ ok (ciphertext, p.metadata)
  unfolding init_gcm encrypt_gcm
  init_gcm-encrypt materials data_key edk text ciphertext p h sealed =
      let iv = runtime.urandom (cipher_iv_length_bytes materials.encryption_algorithm) in
      let (c, made, h₁) = >>=-eq-ok (enc.encryptor data_key iv) _ h in
      let whole = ok-injective h₁ in
      let result =
        laws.at_once data_key iv text ciphertext none c made
          (ap (λ q. encrypt_whole runtime enc q.encryptor text) whole ∙ sealed) in
      rw result (ap (λ q. ok (ciphertext, q.metadata)) whole)

  suited :
      (materials : EncryptionMaterials) (data_key edk text ciphertext : Bytes)
      (p : Pipeline runtime enc) (committing : Bool)
      → (if committing
          then init_kc_gcm base64 json prims runtime enc materials data_key edk
          else init_gcm base64 json prims runtime enc materials data_key edk)
        ≡ ok p
      → encrypt_whole runtime enc p.encryptor text ≡ ok ciphertext
      → (if committing
          then encrypt_kc_gcm base64 json prims runtime text materials data_key edk
          else encrypt_gcm base64 json prims runtime text materials data_key edk)
        ≡ ok (ciphertext, p.metadata)
  suited materials data_key edk text ciphertext p true h sealed =
      init_kc_gcm-encrypt materials data_key edk text ciphertext p h sealed
  suited materials data_key edk text ciphertext p false h sealed =
      init_gcm-encrypt materials data_key edk text ciphertext p h sealed

  -- A multipart upload writes the metadata and, over all of its parts, the ciphertext that
  -- `PutEncryptedObjectPipeline.encrypt` writes for the whole text with the same materials manager,
  -- suite, context and random bytes, of both suites; one-shot AES-GCM is AES-GCM in pieces.
  pub create-encrypt :
      (cmm : Cmm) (suite : AlgorithmSuite) (context : Dict String) (text ciphertext : Bytes)
      (p : Pipeline runtime enc)
      → create base64 json prims runtime enc cmm suite context ≡ ok p
      → encrypt_whole runtime enc p.encryptor text ≡ ok ciphertext
      → encrypt base64 json prims runtime
          (record { cmm = cmm; encryption_algorithm = suite })
          text
          (some context)
        ≡ ok (ciphertext, p.metadata)
  unfolding create encrypt
  create-encrypt cmm suite context text ciphertext p h sealed =
      let (materials, got, h₁) =
        >>=-eq-ok (cmm.get_encryption_materials (encryption_request suite context)) _ h in
      let (data_key, first, h₂) =
        >>=-eq-ok (required materials.plaintext_data_key (client_error no_plaintext_data_key)) _
          h₁ in
      let (edk, second, h₃) =
        >>=-eq-ok (required materials.encrypted_data_key (client_error no_encrypted_data_key)) _
          h₂ in
      rw
        (
          got,
          required-ok materials.plaintext_data_key _ (runtime_error no_plaintext_data_key) data_key
              first,
          required-ok materials.encrypted_data_key _ (runtime_error no_encrypted_data_key) edk
              second,
        )
        (suited materials data_key edk.encrypted_data_key text ciphertext p (is_commit_key suite) h₃
          sealed)
