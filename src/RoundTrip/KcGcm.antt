-- ===== src/RoundTrip/KcGcm.antt =====
-- An object of the committing suite, encrypted and decrypted.
use amazon_s3_encryption_cli.Prelude.{
  ◌≡◌, refl, sym, ap, ◌∙◌, true, false, ℕ, String, Bytes, Dict, [], ◌∷◌, none, some, insert, Bool,
  str_eq, if◌then◌else◌, replicate,
}
use amazon_s3_encryption_cli.Errors.{ok, >>=-eq-ok, bind_assoc, ok-pair}
use amazon_s3_encryption_cli.Values.{Value, object, members, truthy, equals_text}
use amazon_s3_encryption_cli.External.{
  Base64, Base64Laws, Json, KmsLaws, Primitives, Runtime, GcmDecryption, GcmDecryptionLaws,
  CbcDecryption, ByteSource,
}
use amazon_s3_encryption_cli.Suite.{
  AlgorithmSuite, from_content_cipher, alg_aes_256_gcm_hkdf_sha512_commit_key, content_cipher,
  suite_id_bytes, CommitmentPolicy, forbid_encrypt_allow_decrypt, require_encrypt_allow_decrypt,
  require_encrypt_require_decrypt,
}
use amazon_s3_encryption_cli.Metadata.{
  ObjectMetadata, to_dict, from_dict, parsed_context, json_loads, is_v1_format, is_v2_format,
  is_v3_format, should_use_instruction_file, has_exclusive_key_collision,
}
use amazon_s3_encryption_cli.Metadata.RoundTrip.{written, from_dict-to_dict}
use amazon_s3_encryption_cli.Materials.{EncryptionMaterials, DecryptionMaterials}
use amazon_s3_encryption_cli.Keyring.{
  KmsKeyring, kms_keyring, default_cmm, kms_on_encrypt, kms_on_decrypt, kms_context_default_key,
}
use amazon_s3_encryption_cli.Keyring.Wrap.{
  kms_on_encrypt-Wrapped, kms_edk, wrapped_context, IsUnreserved, unwrap_request,
  kms_on_decrypt-kms_on_encrypt,
}
use amazon_s3_encryption_cli.Put.{
  PutEncryptedObjectPipeline, encrypt, encryption_request, kc_gcm_metadata, encrypt_kc_gcm,
  some_context, decimal,
}
use amazon_s3_encryption_cli.Get.{
  decrypt, determine_algorithm_suite, reject_mixed_keys, check_policy, check_commitment,
}
use amazon_s3_encryption_cli.Get.Resolve.{GetEncryptedObjectPipeline, Location, resolve_metadata}
use amazon_s3_encryption_cli.Get.Materials.{decryption_materials, b64decode_value}
use amazon_s3_encryption_cli.Get.Content.{buffered, decrypt_content}
use amazon_s3_encryption_cli.RoundTrip.{ReadsBack, AesGcmLaws, release-Opened}
use amazon_s3_encryption_cli.KeyDerivation.{derive_keys, verify_commitment_iff}

abbrev suite : AlgorithmSuite
suite = alg_aes_256_gcm_hkdf_sha512_commit_key

-- A pipeline of a client with the default materials manager.
abbrev pub put_kc_gcm : KmsKeyring → PutEncryptedObjectPipeline
put_kc_gcm keyring = record {
  cmm = default_cmm (kms_keyring keyring);
  encryption_algorithm = suite;
}

some_context-insert :
    (k v : String) (d : Dict String)
    → some_context (insert k v d) ≡ some (object (members (insert k v d)))
unfolding insert
some_context-insert k v [] = refl
some_context-insert k v ((j, w) ∷ d) = go (str_eq j k)
  where
    go :
        (b : Bool)
        → some_context (if b then (j, v) ∷ d else (j, w) ∷ insert k v d)
          ≡ some (object (members (if b then (j, v) ∷ d else (j, w) ∷ insert k v d)))
    go true = refl
    go false = refl

check_commitment-suite : (policy : CommitmentPolicy) → check_commitment policy (some suite) ≡ ok tt
check_commitment-suite forbid_encrypt_allow_decrypt = refl
check_commitment-suite require_encrypt_allow_decrypt = refl
check_commitment-suite require_encrypt_require_decrypt = refl

module _ (base64 : Base64) (json : Json) (prims : Primitives) (runtime : Runtime)
    (keyring : KmsKeyring) (context : Dict String) where
  abbrev request : EncryptionMaterials
  request = encryption_request suite context

  abbrev message_id : Bytes
  message_id = runtime.urandom 28

  abbrev fixed_iv : Bytes
  fixed_iv = replicate 12 0x01

  abbrev description : Bytes → Bytes → ObjectMetadata
  description blob commit =
      kc_gcm_metadata base64 suite blob message_id commit (wrapped_context request)

  -- What `encrypt` did when it returned.
  record Sealed (plaintext encrypted : Bytes) (dict : Dict Value) : Type 0 where
    materials : EncryptionMaterials
    blob : Bytes
    data_key : Bytes
    encryption_key : Bytes
    commit : Bytes
    wrapped : kms_on_encrypt keyring request ≡ ok materials
    filled : materials ≡ record request {
      encryption_context = wrapped_context request;
      encrypted_data_key = some (kms_edk blob);
      plaintext_data_key = some data_key;
    }
    derived : derive_keys prims data_key message_id suite ≡ ok (encryption_key, commit)
    sealed :
        prims.aesgcm_encrypt encryption_key fixed_iv plaintext (some (suite_id_bytes suite))
        ≡ ok encrypted
    described : dict ≡ to_dict json (description blob commit)

  encrypt-Sealed :
      (plaintext encrypted : Bytes) (dict : Dict Value)
      → encrypt base64 json prims runtime (put_kc_gcm keyring) plaintext (some context)
        ≡ ok (encrypted, dict)
      → Sealed plaintext encrypted dict
  unfolding encrypt encrypt_kc_gcm
  encrypt-Sealed plaintext encrypted dict h =
      let (e, wrapped, h1) = >>=-eq-ok (kms_on_encrypt keyring request) _ h in
      let w = kms_on_encrypt-Wrapped keyring request e wrapped in
      let h2 = rw (w.filled) at h1 in
      let (keys, derived, h3) = >>=-eq-ok (derive_keys prims w.plaintext message_id suite) _ h2 in
      let (sealed, made, built) =
        >>=-eq-ok (prims.aesgcm_encrypt keys.0 fixed_iv plaintext (some (suite_id_bytes suite))) _
          h3 in
      let (same, same_dict) = ok-pair sealed encrypted _ dict built in
      record {
        materials = e;
        blob = w.blob;
        data_key = w.plaintext;
        encryption_key = keys.0;
        commit = keys.1;
        wrapped = wrapped;
        filled = w.filled;
        derived = derived;
        sealed = made ∙ ap ok same;
        described = sym same_dict;
      }

  -- The metadata that `decrypt` reads.
  abbrev stored : Bytes → Bytes → ObjectMetadata
  stored blob commit = written json (description blob commit)

  stored-resolved :
      (pipeline : GetEncryptedObjectPipeline) (place : Location) (blob commit : Bytes)
      (dict : Dict Value)
      → from_dict json dict ≡ from_dict json (to_dict json (description blob commit))
      → resolve_metadata json pipeline place dict ≡ ok (stored blob commit)
  unfolding resolve_metadata should_use_instruction_file kc_gcm_metadata parsed_context json_loads
  stored-resolved pipeline place blob commit dict same =
      rw (same, from_dict-to_dict json (description blob commit) refl)

  -- The decryption materials, with the data key.
  abbrev opened : Bytes → Bytes → DecryptionMaterials
  opened blob data_key =
      record (unwrap_request none (kms_edk blob) (wrapped_context request) context suite) {
        plaintext_data_key = some data_key;
      }

  stored-unwrapped :
      {plaintext encrypted : Bytes} {dict : Dict Value} (s : Sealed plaintext encrypted dict)
      → Base64Laws base64
      → ReadsBack json (wrapped_context request)
      → KmsLaws keyring.kms_client
      → IsUnreserved context
      → decryption_materials base64 json
          (default_cmm (kms_keyring keyring))
          (stored s.blob s.commit)
          context
          suite
        ≡ ok (opened s.blob s.data_key)
  unfolding decryption_materials is_v1_format is_v2_format is_v3_format kc_gcm_metadata
      b64decode_value truthy
  stored-unwrapped s names texts kms unreserved =
      let unwrapped =
        kms_on_decrypt-kms_on_encrypt keyring request s.materials (kms_edk s.blob) none kms
          unreserved s.wrapped (ap (λ e. e.encrypted_data_key) s.filled) in
      let found : kms_on_decrypt keyring
            (unwrap_request none (kms_edk s.blob) (wrapped_context request) context suite)
            (some (kms_edk s.blob ∷ []))
          ≡ ok (opened s.blob s.data_key) =
        rw (s.filled) at unwrapped in
      rw
        (
          names.decode-encode s.blob,
          some_context-insert kms_context_default_key (content_cipher suite) context,
          texts,
        )
        found

  stored-content :
      (src : ByteSource) (g : GcmDecryption) (b : CbcDecryption) (body : src.Body) (n : ℕ)
      {plaintext encrypted : Bytes} {dict : Dict Value} (s : Sealed plaintext encrypted dict)
      → Base64Laws base64
      → GcmDecryptionLaws g
      → AesGcmLaws prims g
      → src.read_all body ≡ ok encrypted
      → decrypt_content src g b base64 prims
          (some suite)
          (opened s.blob s.data_key)
          (stored s.blob s.commit)
          body
          false
          n
        ≡ ok (buffered plaintext)
  unfolding decrypt_content kc_gcm_metadata b64decode_value
  stored-content src g b body n {plaintext} {encrypted} s names cipher aes kept =
      let aad : Bytes = suite_id_bytes suite in
      let o = aes.opens s.encryption_key fixed_iv plaintext (some aad) s.sealed in
      let verified = (verify_commitment_iff s.commit s.commit).0.1 refl in
      rw (names.decode-encode message_id, names.decode-encode s.commit, s.derived, verified)
        (sym (
            bind_assoc (g.decryptor s.encryption_key fixed_iv)
              (λ c. g.authenticate_additional_data c aad) _)
          ∙ rw (o.starts) (
              release-Opened g cipher src b body n s.encryption_key fixed_iv plaintext (some aad)
                encrypted o kept))

  -- What `encrypt` writes is the dictionary form of some metadata.
  pub encrypt-described :
      (plaintext encrypted : Bytes) (dict : Dict Value)
      → encrypt base64 json prims runtime (put_kc_gcm keyring) plaintext (some context)
        ≡ ok (encrypted, dict)
      → (m : ObjectMetadata) × (dict ≡ to_dict json m)
  encrypt-described plaintext encrypted dict h =
      let s = encrypt-Sealed plaintext encrypted dict h in (_, s.described)

  -- As below, for metadata that reads as what `encrypt` has written.
  pub decrypt_kc_gcm-encrypt_read :
      (src : ByteSource) (g : GcmDecryption) (b : CbcDecryption) (body : src.Body) (n : ℕ)
      (pipeline : GetEncryptedObjectPipeline) (place : Location) (plaintext encrypted : Bytes)
      (dict read : Dict Value)
      → Base64Laws base64
      → ReadsBack json (wrapped_context request)
      → KmsLaws keyring.kms_client
      → GcmDecryptionLaws g
      → AesGcmLaws prims g
      → IsUnreserved context
      → pipeline.cmm ≡ default_cmm (kms_keyring keyring)
      → encrypt base64 json prims runtime (put_kc_gcm keyring) plaintext (some context)
        ≡ ok (encrypted, dict)
      → from_dict json read ≡ from_dict json dict
      → src.read_all body ≡ ok encrypted
      → decrypt src g b base64 prims json pipeline place read body n (some false) (some context)
        ≡ ok (buffered plaintext)
  unfolding decrypt determine_algorithm_suite is_v1_format is_v2_format is_v3_format
      from_content_cipher kc_gcm_metadata reject_mixed_keys has_exclusive_key_collision check_policy
      equals_text decimal
  decrypt_kc_gcm-encrypt_read src g b body n pipeline place plaintext encrypted dict read names
        texts kms cipher aes unreserved manager made same kept =
      let s = encrypt-Sealed plaintext encrypted dict made in
      rw (
        stored-resolved pipeline place s.blob s.commit read
            (same ∙ ap (from_dict json) s.described),
        manager,
        stored-unwrapped s names texts kms unreserved,
        check_commitment-suite pipeline.commitment_policy,
        stored-content src g b body n s names cipher aes kept,
      )

  -- With the default materials manager over the same KMS keyring on both sides, what `encrypt`
  -- makes of a plaintext and a context with the committing suite, `decrypt` turns back into the
  -- plaintext, given the same context, under every policy. The context has neither of the reserved
  -- keys, its JSON reads back, delayed authentication is off, and the libraries do what their laws
  -- say.
  pub decrypt_kc_gcm-encrypt :
      (src : ByteSource) (g : GcmDecryption) (b : CbcDecryption) (body : src.Body) (n : ℕ)
      (pipeline : GetEncryptedObjectPipeline) (place : Location) (plaintext encrypted : Bytes)
      (dict : Dict Value)
      → Base64Laws base64
      → ReadsBack json (wrapped_context request)
      → KmsLaws keyring.kms_client
      → GcmDecryptionLaws g
      → AesGcmLaws prims g
      → IsUnreserved context
      → pipeline.cmm ≡ default_cmm (kms_keyring keyring)
      → encrypt base64 json prims runtime (put_kc_gcm keyring) plaintext (some context)
        ≡ ok (encrypted, dict)
      → src.read_all body ≡ ok encrypted
      → decrypt src g b base64 prims json pipeline place dict body n (some false) (some context)
        ≡ ok (buffered plaintext)
  decrypt_kc_gcm-encrypt src g b body n pipeline place plaintext encrypted dict names texts kms
        cipher aes unreserved manager made kept =
      decrypt_kc_gcm-encrypt_read src g b body n pipeline place plaintext encrypted dict dict names
        texts kms cipher aes unreserved manager made refl kept
