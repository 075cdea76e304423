-- ===== src/RoundTrip/Gcm.antt =====
-- An object of the suite without commitment, encrypted and decrypted.
use amazon_s3_encryption_cli.Prelude.{
  ◌≡◌, refl, ap, false, ℕ, String, Bytes, Dict, [], ◌∷◌, none, some,
}
use amazon_s3_encryption_cli.Errors.{ok, >>=-eq-ok}
use amazon_s3_encryption_cli.Values.{Value, object, Member, members, truthy, equals_text}
use amazon_s3_encryption_cli.External.{
  Base64, Base64Laws, Json, KmsLaws, Primitives, Runtime, GcmDecryption, GcmDecryptionLaws,
  CbcDecryption, ByteSource,
}
use amazon_s3_encryption_cli.Suite.{
  AlgorithmSuite, alg_aes_256_gcm_iv12_tag16_no_kdf, from_content_cipher,
}
use amazon_s3_encryption_cli.Metadata.{
  ObjectMetadata, to_dict, parsed_context, json_loads, is_v1_format, is_v2_format,
  should_use_instruction_file, has_exclusive_key_collision,
}
use amazon_s3_encryption_cli.Metadata.RoundTrip.{written, from_dict-to_dict}
use amazon_s3_encryption_cli.Materials.{EncryptionMaterials, DecryptionMaterials}
use amazon_s3_encryption_cli.Keyring.{
  KmsKeyring, kms_keyring, default_cmm, kms_on_encrypt, kms_on_decrypt,
}
use amazon_s3_encryption_cli.Keyring.Wrap.{
  kms_on_encrypt-Wrapped, kms_edk, wrapped_context, IsUnreserved, unwrap_request,
  kms_on_decrypt-kms_on_encrypt,
}
use amazon_s3_encryption_cli.Put.{
  PutEncryptedObjectPipeline, encrypt, encrypt_gcm, gcm_metadata, encryption_request,
}
use amazon_s3_encryption_cli.Get.{
  decrypt, determine_algorithm_suite, reject_mixed_keys, check_policy, is_strict,
}
use amazon_s3_encryption_cli.Get.Resolve.{GetEncryptedObjectPipeline, Location, resolve_metadata}
use amazon_s3_encryption_cli.Get.Materials.{decryption_materials, b64decode_value, or_empty}
use amazon_s3_encryption_cli.Get.Content.{buffered, decrypt_content}
use amazon_s3_encryption_cli.RoundTrip.{ReadsBack, AesGcmLaws, release-Opened}

abbrev suite : AlgorithmSuite
suite = alg_aes_256_gcm_iv12_tag16_no_kdf

-- A pipeline of a client with the default materials manager.
abbrev pub put_gcm : KmsKeyring → PutEncryptedObjectPipeline
put_gcm keyring = record { cmm = default_cmm (kms_keyring keyring); encryption_algorithm = suite }

or_empty-object : (d : Dict Member) → or_empty (some (object d)) ≡ object d
unfolding truthy
or_empty-object [] = refl
or_empty-object (e ∷ d) = refl

module _ (base64 : Base64) (json : Json) (prims : Primitives) (runtime : Runtime)
    (keyring : KmsKeyring) (context : Dict String) where
  abbrev request : EncryptionMaterials
  request = encryption_request suite context

  abbrev iv : Bytes
  iv = runtime.urandom 12

  -- What `encrypt` did when it returned.
  record Sealed (plaintext encrypted : Bytes) (dict : Dict Value) : Type 0 where
    materials : EncryptionMaterials
    blob : Bytes
    data_key : Bytes
    wrapped : kms_on_encrypt keyring request ≡ ok materials
    filled : materials ≡ record request {
      encryption_context = wrapped_context request;
      encrypted_data_key = some (kms_edk blob);
      plaintext_data_key = some data_key;
    }
    sealed : prims.aesgcm_encrypt data_key iv plaintext none ≡ ok encrypted
    described : dict ≡ to_dict json (gcm_metadata base64 blob iv (wrapped_context request))

  encrypt-Sealed :
      (plaintext encrypted : Bytes) (dict : Dict Value)
      → encrypt base64 json prims runtime (put_gcm keyring) plaintext (some context)
        ≡ ok (encrypted, dict)
      → Sealed plaintext encrypted dict
  unfolding encrypt encrypt_gcm
  encrypt-Sealed plaintext encrypted dict h =
      let (e, wrapped, h1) = >>=-eq-ok (kms_on_encrypt keyring request) _ h in
      let w = kms_on_encrypt-Wrapped keyring request e wrapped in
      let h2 = rw (w.filled) at h1 in
      let (sealed, made, built) =
        >>=-eq-ok (prims.aesgcm_encrypt w.plaintext iv plaintext none) _ h2 in
      record {
        materials = e;
        blob = w.blob;
        data_key = w.plaintext;
        wrapped = wrapped;
        filled = w.filled;
        sealed = cc;
        described = cc;
      }

  -- The metadata that `decrypt` reads.
  abbrev stored : Bytes → ObjectMetadata
  stored blob = written json (gcm_metadata base64 blob iv (wrapped_context request))

  stored-resolved :
      (pipeline : GetEncryptedObjectPipeline) (place : Location) (blob : Bytes)
      → ReadsBack json (wrapped_context request)
      → resolve_metadata json pipeline place
          (to_dict json (gcm_metadata base64 blob iv (wrapped_context request)))
        ≡ ok (stored blob)
  unfolding resolve_metadata should_use_instruction_file gcm_metadata parsed_context json_loads
  stored-resolved pipeline place blob laws =
      rw (from_dict-to_dict json (gcm_metadata base64 blob iv (wrapped_context request)) (rw laws))

  -- The decryption materials, with the data key.
  abbrev opened : Bytes → Bytes → DecryptionMaterials
  opened blob data_key =
      record (unwrap_request (some iv) (kms_edk blob) (wrapped_context request) context suite) {
        plaintext_data_key = some data_key;
      }

  stored-unwrapped :
      {plaintext encrypted : Bytes} {dict : Dict Value} (s : Sealed plaintext encrypted dict)
      → Base64Laws base64
      → KmsLaws keyring.kms_client
      → IsUnreserved context
      → decryption_materials base64 json
          (default_cmm (kms_keyring keyring))
          (stored s.blob)
          context
          suite
        ≡ ok (opened s.blob s.data_key)
  unfolding decryption_materials is_v1_format is_v2_format gcm_metadata b64decode_value
  stored-unwrapped s names kms unreserved =
      let unwrapped =
        kms_on_decrypt-kms_on_encrypt keyring request s.materials (kms_edk s.blob) (some iv) kms
          unreserved s.wrapped (ap (λ e. e.encrypted_data_key) s.filled) in
      let found : kms_on_decrypt keyring
            (unwrap_request (some iv) (kms_edk s.blob) (wrapped_context request) context suite)
            (some (kms_edk s.blob ∷ []))
          ≡ ok (opened s.blob s.data_key) =
        rw (s.filled) at unwrapped in
      rw
        (
          names.decode-encode iv,
          names.decode-encode s.blob,
          or_empty-object (members (wrapped_context request)),
        )
        found

  stored-content :
      (src : ByteSource) (g : GcmDecryption) (b : CbcDecryption) (body : src.Body) (n : ℕ)
      {plaintext encrypted : Bytes} {dict : Dict Value} (s : Sealed plaintext encrypted dict)
      → GcmDecryptionLaws g
      → AesGcmLaws prims g
      → src.read_all body ≡ ok encrypted
      → decrypt_content src g b base64 prims
          (some suite)
          (opened s.blob s.data_key)
          (stored s.blob)
          body
          false
          n
        ≡ ok (buffered plaintext)
  unfolding decrypt_content
  stored-content src g b body n {plaintext} {encrypted} s cipher aes kept =
      let o = aes.opens s.data_key iv plaintext none s.sealed in
      rw (o.starts)
        (release-Opened g cipher src b body n s.data_key iv plaintext none encrypted o kept)

  -- With the default materials manager over the same KMS keyring on both sides, what `encrypt`
  -- makes of a plaintext and a context with the suite without commitment, `decrypt` turns back into
  -- the plaintext, given the same context, under a policy that does not require commitment. The
  -- context has neither of the reserved keys, its JSON reads back, delayed authentication is off,
  -- and the libraries do what their laws say.
  pub decrypt_gcm-encrypt :
      (src : ByteSource) (g : GcmDecryption) (b : CbcDecryption) (body : src.Body) (n : ℕ)
      (pipeline : GetEncryptedObjectPipeline) (place : Location) (plaintext encrypted : Bytes)
      (dict : Dict Value)
      → Base64Laws base64
      → ReadsBack json (wrapped_context request)
      → KmsLaws keyring.kms_client
      → GcmDecryptionLaws g
      → AesGcmLaws prims g
      → IsUnreserved context
      → pipeline.cmm ≡ default_cmm (kms_keyring keyring)
      → is_strict pipeline.commitment_policy ≡ false
      → encrypt base64 json prims runtime (put_gcm keyring) plaintext (some context)
        ≡ ok (encrypted, dict)
      → src.read_all body ≡ ok encrypted
      → decrypt src g b base64 prims json pipeline place dict body n (some false) (some context)
        ≡ ok (buffered plaintext)
  unfolding decrypt determine_algorithm_suite is_v1_format is_v2_format from_content_cipher
      gcm_metadata reject_mixed_keys has_exclusive_key_collision check_policy equals_text
  decrypt_gcm-encrypt src g b body n pipeline place plaintext encrypted dict names texts kms cipher
        aes unreserved manager lenient made kept =
      let s = encrypt-Sealed plaintext encrypted dict made in
      rw (
        s.described,
        stored-resolved pipeline place s.blob texts,
        manager,
        stored-unwrapped s names kms unreserved,
        lenient,
        stored-content src g b body n s cipher aes kept,
      )
