-- ===== src/Put.antt =====
-- `PutEncryptedObjectPipeline` of pipelines.py.
use Prim.Native.Char.{Char}
use amazon_s3_encryption_cli.Prelude.{
  ◌≡◌, refl, Bool, true, false, ℕ, zero, suc, ◌/◌, ◌%◌, String, Bytes, Dict, [], ◌∷◌, Option, none,
  some, if◌then◌else◌, ◌==◌, ltb,
}
use amazon_s3_encryption_cli.Errors.{
  Result, ok, runtime_error, ◌>>=◌, no_plaintext_data_key, no_encrypted_data_key,
}
use amazon_s3_encryption_cli.Values.{Value, text, object, members}
use amazon_s3_encryption_cli.External.{Base64, Json, Primitives, Runtime}
use amazon_s3_encryption_cli.Suite.{
  AlgorithmSuite, alg_aes_256_gcm_hkdf_sha512_commit_key, suite_id, suite_id_bytes,
  cipher_iv_length_bytes, commitment_nonce_length_bytes, kc_gcm_iv,
}
use amazon_s3_encryption_cli.Metadata.{ObjectMetadata, blank, to_dict}
use amazon_s3_encryption_cli.Materials.{EncryptionMaterials}
use amazon_s3_encryption_cli.Keyring.{Cmm, required}
use amazon_s3_encryption_cli.KeyDerivation.{derive_keys}

-- `str(n)`
abbrev digit : ℕ → Char
digit n =
    if n == 0
    then "0"
    else if n == 1
    then "1"
    else if n == 2
    then "2"
    else if n == 3
    then "3"
    else if n == 4
    then "4"
    else if n == 5
    then "5"
    else if n == 6
    then "6"
    else if n == 7
    then "7"
    else if n == 8
    then "8"
    else "9"

-- The digits of `n` before `rest`; a number has fewer digits than the fuel of `decimal`.
decimal_from : ℕ → ℕ → String → String
decimal_from zero n rest = rest
decimal_from (suc fuel) n rest =
    let more = decimal_from fuel (n / 10) (String.◌∷◌ (digit (n % 10)) rest) in
    if ltb n 10 then String.◌∷◌ (digit n) rest else more

unfoldable pub decimal : ℕ → String
unfolding decimal_from
decimal n = decimal_from (suc n) n ""

-- The context of V3 metadata: `None` if it is empty.
abbrev pub some_context : Dict String → Option Value
some_context [] = none
some_context (e ∷ d) = some (object (members (e ∷ d)))

module _ (base64 : Base64) where
  -- The metadata of V2 objects.
  unfoldable pub gcm_metadata : Bytes → Bytes → Dict String → ObjectMetadata
  gcm_metadata edk_bytes iv context = record blank {
    encrypted_data_key_v2 = some (text (base64.b64encode edk_bytes));
    encrypted_data_key_algorithm = some (text "kms+context");
    content_iv = some (text (base64.b64encode iv));
    content_cipher = some (text "AES/GCM/NoPadding");
    encrypted_data_key_context = some (object (members context));
  }

  -- The metadata of V3 objects.
  unfoldable pub kc_gcm_metadata :
      AlgorithmSuite → Bytes → Bytes → Bytes → Dict String → ObjectMetadata
  kc_gcm_metadata suite edk_bytes message_id commit_key context = record blank {
    content_cipher_v3 = some (text (decimal (suite_id suite)));
    encrypted_data_key_algorithm_v3 = some (text "12");
    encrypted_data_key_v3 = some (text (base64.b64encode edk_bytes));
    message_id_v3 = some (text (base64.b64encode message_id));
    key_commitment_v3 = some (text (base64.b64encode commit_key));
    encryption_context_v3 = some_context context;
  }

-- `self.encryption_algorithm == AlgorithmSuite.ALG_AES_256_GCM_HKDF_SHA512_COMMIT_KEY`
abbrev pub is_commit_key : AlgorithmSuite → Bool
is_commit_key alg_aes_256_gcm_hkdf_sha512_commit_key = true
is_commit_key _ = false

pub record PutEncryptedObjectPipeline : Type 0 where
  pub cmm : Cmm
  pub encryption_algorithm : AlgorithmSuite

-- `EncryptionMaterials(encryption_algorithm=..., encryption_context=...)`
abbrev pub encryption_request : AlgorithmSuite → Dict String → EncryptionMaterials
encryption_request suite context = record {
  encryption_algorithm = suite;
  encryption_context = context;
  encrypted_data_key = none;
  plaintext_data_key = none;
}

-- `{} if encryption_context is None else encryption_context.copy()`
abbrev pub context_or_empty : Option (Dict String) → Dict String
context_or_empty none = []
context_or_empty (some d) = d

module _ (base64 : Base64) (json : Json) (prims : Primitives) (runtime : Runtime) where
  unfoldable pub encrypt_gcm :
      Bytes → EncryptionMaterials → Bytes → Bytes → Result (Bytes × Dict Value)
  unfolding gcm_metadata
  encrypt_gcm plaintext materials data_key edk_bytes = do
    let iv = runtime.urandom (cipher_iv_length_bytes materials.encryption_algorithm)
    encrypted ← prims.aesgcm_encrypt data_key iv plaintext none
    ok (encrypted, to_dict json (gcm_metadata base64 edk_bytes iv materials.encryption_context))

  unfoldable pub encrypt_kc_gcm :
      Bytes → EncryptionMaterials → Bytes → Bytes → Result (Bytes × Dict Value)
  unfolding kc_gcm_metadata
  encrypt_kc_gcm plaintext materials data_key edk_bytes = do
    let suite = materials.encryption_algorithm
    let message_id = runtime.urandom (commitment_nonce_length_bytes suite)
    keys ← derive_keys prims data_key message_id suite
    iv ← kc_gcm_iv suite
    encrypted ← prims.aesgcm_encrypt keys.0 iv plaintext (some (suite_id_bytes suite))
    ok (
      encrypted,
      to_dict json
          (kc_gcm_metadata base64 suite edk_bytes message_id keys.1 materials.encryption_context),
    )

  unfoldable pub encrypt :
      PutEncryptedObjectPipeline → Bytes → Option (Dict String) → Result (Bytes × Dict Value)
  encrypt pipeline plaintext context = do
    let request = encryption_request pipeline.encryption_algorithm (context_or_empty context)
    materials ← pipeline.cmm.get_encryption_materials request
    data_key ← required materials.plaintext_data_key (runtime_error no_plaintext_data_key)
    edk ← required materials.encrypted_data_key (runtime_error no_encrypted_data_key)
    if is_commit_key pipeline.encryption_algorithm
        then encrypt_kc_gcm plaintext materials data_key edk.encrypted_data_key
        else encrypt_gcm plaintext materials data_key edk.encrypted_data_key

decimal_suite_id : decimal (suite_id alg_aes_256_gcm_hkdf_sha512_commit_key) ≡ "115"
unfolding decimal
decimal_suite_id = refl
