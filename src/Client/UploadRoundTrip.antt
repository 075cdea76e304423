-- ===== src/Client/UploadRoundTrip.antt =====
-- An upload in parts and then `get_object`, of a client of the default configuration.
use amazon_s3_encryption_cli.Prelude.{
  ◌≡◌, ◌∙◌, true, false, ℕ, ◌<◌, String, Bytes, Dict, lookup, lookup-update_new, IsDict, Option,
  none, some, Bool,
}
use amazon_s3_encryption_cli.Errors.{ok}
use amazon_s3_encryption_cli.External.{
  Base64Laws, KmsLaws, GcmDecryptionLaws, GcmEncryptionLaws, ByteSource, ByteSourceLaws,
}
use amazon_s3_encryption_cli.Suite.{alg_aes_256_gcm_hkdf_sha512_commit_key}
use amazon_s3_encryption_cli.Keyring.{KmsKeyring}
use amazon_s3_encryption_cli.Keyring.Wrap.{wrapped_context, IsUnreserved}
use amazon_s3_encryption_cli.Metadata.Agree.{from_dict-Agree, to_dict-IsDict}
use amazon_s3_encryption_cli.InstructionFile.{is_s3ec_key, safe_metadata}
use amazon_s3_encryption_cli.Put.{encrypt, encryption_request}
use amazon_s3_encryption_cli.Get.Content.{buffered}
use amazon_s3_encryption_cli.RoundTrip.{ReadsBack, AesGcmLaws}
use amazon_s3_encryption_cli.RoundTrip.KcGcm.{put_kc_gcm, encrypt-described}
use amazon_s3_encryption_cli.Multipart.AsPut.{OneShotLaws, create-encrypt}
use amazon_s3_encryption_cli.Plugin.{Libraries, decrypted, validate_encryption_context}
use amazon_s3_encryption_cli.Client.{S3Service, State, Handled, get_object}
use amazon_s3_encryption_cli.Client.Readable.{Destination, Readable, multipart_upload_from_readable}
use amazon_s3_encryption_cli.Client.Laws.{S3Laws, StoredLaws}
use amazon_s3_encryption_cli.Client.Returned.{get_arguments, config, get_object-encrypted}
use amazon_s3_encryption_cli.Client.Stored.{StoredWhole, multipart_upload-StoredWhole}

module _ (libs : Libraries) (service : S3Service libs.source.Body) (s3 : S3Laws service)
    (answers : StoredLaws libs.source service s3) (keyring : KmsKeyring) (files : ByteSource)
    (file_laws : ByteSourceLaws files) (enc_laws : GcmEncryptionLaws libs.gcm_encryption)
    (one_shot : OneShotLaws libs.primitives libs.runtime libs.gcm_encryption) where
  abbrev Whole : Destination → Bytes → service.World → Type 0
  Whole d content w =
      StoredWhole libs (config libs service keyring) service s3 enc_laws files file_laws d content w

  -- What was stored is what `encrypt` would have made.
  stored-encrypt :
      (d : Destination) (context : Dict String) (content : Bytes) (w : service.World)
      → validate_encryption_context d.encryption_context ≡ ok (some context)
      → (stored : Whole d content w)
      → encrypt libs.base64 libs.json libs.primitives libs.runtime
          (put_kc_gcm keyring)
          content
          (some context)
        ≡ ok (stored.ciphertext, stored.pipeline.metadata)
  stored-encrypt d context content w valid stored =
      create-encrypt libs.base64 libs.json libs.primitives libs.runtime libs.gcm_encryption one_shot
        _ alg_aes_256_gcm_hkdf_sha512_commit_key context content stored.ciphertext stored.pipeline
        (rw valid at (stored.made)) stored.encrypts

  -- A client of the default configuration over a KMS keyring: once an upload of a file-like object
  -- in parts of any positive size has returned, a `get_object` of its bucket and key, with the same
  -- encryption context and any suffix, in this state returns, and the body of its response is the
  -- whole content of the object, verified. The mode for instruction files is off, as in every state
  -- that calls reach; the context has neither of the reserved keys and its JSON reads back, the
  -- caller's own metadata has none of the client's keys, the file gives its content in order, S3
  -- stores the parts joined and answers with them, and the libraries do what their laws say.
  pub get_object-multipart_upload :
      (fuel : ℕ) (d : Destination) (size : ℕ) (owns : Bool) (f f' : Readable files.Body)
      (context : Dict String) (suffix : Option (Option String)) (s s' : State libs service)
      (reply : service.Reply)
      → Base64Laws libs.base64
      → ReadsBack libs.json
          (wrapped_context (encryption_request alg_aes_256_gcm_hkdf_sha512_commit_key context))
      → KmsLaws keyring.kms_client
      → GcmDecryptionLaws libs.gcm_decryption
      → AesGcmLaws libs.primitives libs.gcm_decryption
      → IsUnreserved context
      → validate_encryption_context d.encryption_context ≡ ok (some context)
      → ((k : String) → is_s3ec_key k ≡ true → lookup k (safe_metadata d.metadata) ≡ none)
      → 0 < size
      → s'.context.instruction_file_mode ≡ false
      → multipart_upload_from_readable libs
          (config libs service keyring)
          service
          files
          fuel
          d
          size
          owns
          f
          s
        ≡ some (ok reply, f', s')
      → (r : Handled libs (config libs service keyring) service) × ((get_object libs
            (config libs service keyring)
            service
            (get_arguments d.bucket d.key d.encryption_context suffix)
            s').0
          ≡ ok r)
        × (r.body ≡ some (decrypted (buffered (file_laws.left f.handle))))
  get_object-multipart_upload fuel d size owns f f' context suffix s s' reply names texts kms cipher
        aes unreserved valid free pos no_mode h =
      let content = file_laws.left f.handle in
      let stored : Whole d content s'.world =
        multipart_upload-StoredWhole libs (config libs service keyring) service s3 enc_laws files
          file_laws fuel d size owns f f' s s' reply pos h in
      let made = stored-encrypt d context content s'.world valid stored in
      let (m, described) =
        encrypt-described libs.base64 libs.json libs.primitives libs.runtime keyring context content
          stored.ciphertext stored.pipeline.metadata made in
      let once : IsDict stored.pipeline.metadata = rw described (to_dict-IsDict libs.json m) in
      let same =
        from_dict-Agree libs.json (answers.metadata_of s'.world d.bucket d.key)
          stored.pipeline.metadata
          (λ k known.
            answers.fields s'.world d.bucket d.key _ stored.ciphertext k stored.object known
            ∙ lookup-update_new k (safe_metadata d.metadata) stored.pipeline.metadata once
                (free k known)) in
      get_object-encrypted libs service keyring d.bucket d.key d.encryption_context context content
        stored.ciphertext stored.pipeline.metadata (answers.body_of s'.world d.bucket d.key)
        (answers.metadata_of s'.world d.bucket d.key) (answers.length_of s'.world d.bucket d.key)
        suffix s' names texts kms cipher aes unreserved valid
        (answers.answer s'.world d.bucket d.key _ stored.ciphertext stored.object)
        (answers.content s'.world d.bucket d.key _ stored.ciphertext stored.object) same no_mode
        made
