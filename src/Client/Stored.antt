-- ===== src/Client/Stored.antt =====
-- `_multipart_upload_from_readable` of __init__.py, against encrypting the content at once.
use mathlib.Core.List.{flatten}
use amazon_s3_encryption_cli.Prelude.{
  ◌≡◌, refl, sym, ap, ◌∙◌, Bool, ℕ, ◌<◌, String, Bytes, List, [], ◌∷◌, ◌++◌, Option, none, some,
  arith, update, insert, lookup-insert, eq_refl,
}
use amazon_s3_encryption_cli.Errors.{Error, Result, ok, err, ◌>>=◌}
use amazon_s3_encryption_cli.External.{GcmEncryptionLaws, ByteSource, ByteSourceLaws}
use amazon_s3_encryption_cli.Config.{S3EncryptionClientConfig}
use amazon_s3_encryption_cli.Plugin.{Libraries}
use amazon_s3_encryption_cli.Multipart.Sequence.{encrypt_whole}
use amazon_s3_encryption_cli.Client.{S3Service, State}
use amazon_s3_encryption_cli.Client.Uploads.{
  Pipeline, new_pipeline, create_multipart_upload, create_with, created, complete_multipart_upload,
  abort_multipart_upload,
}
use amazon_s3_encryption_cli.Client.Complete.{Completed, complete-Completed}
use amazon_s3_encryption_cli.Client.Fresh.{new_pipeline-IsFresh}
use amazon_s3_encryption_cli.InstructionFile.{safe_metadata}
use amazon_s3_encryption_cli.Client.Readable.{
  Destination, create_arguments, Readable, Parts, read_chunk, Uploaded, or_abort, close_if, tried,
  after_first_chunk, after_create, read_and_upload, multipart_upload_from_readable,
}
use amazon_s3_encryption_cli.Client.Laws.{S3Laws, up_to}
use amazon_s3_encryption_cli.Client.Sending.{Sending}
use amazon_s3_encryption_cli.Client.Loaded.{whole, Loaded, upload_chunks-nil, upload_chunks-Uploads}

module _ (libs : Libraries) (config : S3EncryptionClientConfig)
    (service : S3Service libs.source.Body) (s3 : S3Laws service)
    (enc_laws : GcmEncryptionLaws libs.gcm_encryption) (files : ByteSource)
    (file_laws : ByteSourceLaws files) where
  abbrev File : Type 0
  File = Readable files.Body

  -- What the upload of a file-like object has stored if it returns.
  pub record StoredWhole (d : Destination) (content : Bytes) (w : service.World) : Type 0 where
    pub pipeline : Pipeline libs config service
    pub ciphertext : Bytes
    pub made : new_pipeline libs config service d.encryption_context ≡ ok pipeline
    pub encrypts :
        encrypt_whole libs.runtime libs.gcm_encryption pipeline.encryptor content ≡ ok ciphertext
    pub object :
        s3.stored w d.bucket d.key
        ≡ some (update (safe_metadata d.metadata) pipeline.metadata, ciphertext)

  -- The upload as it is created.
  record Begun (d : Destination) (id : String) (s s' : State libs service) : Type 0 where
    pipeline : Pipeline libs config service
    made : new_pipeline libs config service d.encryption_context ≡ ok pipeline
    sending : Sending libs config service s3 id 0 [] pipeline s'
    nothing : s3.received s'.world id ≡ []
    metadata : s3.metadata_of s'.world id ≡ update (safe_metadata d.metadata) pipeline.metadata

  create-Begun :
      (d : Destination) (id : String) (s s' : State libs service)
      → create_multipart_upload libs config service (create_arguments d) s ≡ (ok id, s')
      → Begun d id s s'
  unfolding create_multipart_upload up_to
  create-Begun d id s s' h = go (new_pipeline libs config service d.encryption_context) refl h
    where
      answered :
          (p : Pipeline libs config service) (r : Result String × service.World)
          → new_pipeline libs config service d.encryption_context ≡ ok p
          → service.create_multipart_upload d.bucket d.key
              (update (safe_metadata d.metadata) p.metadata)
              s.world
            ≡ r
          → created libs config service p s r ≡ (ok id, s')
          → Begun d id s s'
      answered p (err e, w) made sent k = absurd (cc)
      answered p (ok id', w) made sent k =
          let (same, done) : (id' ≡ id)
              × (record s { uploads = insert id' p s.uploads; world = w } ≡ s') =
            (cc, cc) in
          let (nothing, kept) =
            s3.create-received d.bucket d.key (update (safe_metadata d.metadata) p.metadata) s.world
              w id' sent in
          let (e, m, new) = new_pipeline-IsFresh libs config service d.encryption_context p made in
          rw (sym done, sym same)
            (record {
              pipeline = p;
              made = made;
              sending = record {
                known = lookup-insert id' id' p s.uploads ∙ rw (eq_refl id');
                expects = rw new (record { next = refl; new = omega arith; open_upload = refl });
                count = rw nothing refl;
                numbers = refl;
              };
              nothing = nothing;
              metadata = kept;
            })

      go :
          (r : Result (Pipeline libs config service))
          → new_pipeline libs config service d.encryption_context ≡ r
          → create_with libs config service (create_arguments d) s r ≡ (ok id, s')
          → Begun d id s s'
      go (err e) made k = absurd (cc)
      go (ok p) made k = answered p _ made refl k

  -- An upload that completed has stored what S3 had received.
  finish_upload :
      (d : Destination) (id : String) (content ciphertext : Bytes) (parts : List (ℕ × String))
      (s s₁ s₂ s' : State libs service) (reply : service.Reply)
      → (begun : Begun d id s s₁)
      → whole libs config service s3 enc_laws files file_laws begun.pipeline content ≡ ok ciphertext
      → Loaded libs config service s3 enc_laws files file_laws id ciphertext parts s₁ s₂
      → Completed libs config service d.bucket d.key id parts reply s₂ s'
      → StoredWhole d content s'.world
  unfolding flatten
  finish_upload d id content ciphertext parts s s₁ s₂ s' reply begun encrypts loaded done =
      let object =
        s3.complete-stored d.bucket d.key id parts s₂.world s'.world reply loaded.numbers
          done.answered in
      let joined : flatten (s3.received s₂.world id) ≡ ciphertext =
        rw begun.nothing at loaded.joined in
      record {
        pipeline = begun.pipeline;
        ciphertext = ciphertext;
        made = begun.made;
        encrypts = encrypts;
        object =
            object
            ∙ ap (λ m. some (m, flatten (s3.received s₂.world id)))
                (loaded.same_metadata ∙ begun.metadata)
            ∙ ap (λ x. some (update (safe_metadata d.metadata) begun.pipeline.metadata, x)) joined;
      }

  -- An upload of no parts does not complete.
  nothing_sent :
      (d : Destination) (id : String) (s s₁ s' : State libs service) (reply : service.Reply)
      (parts : List (ℕ × String))
      → Begun d id s s₁
      → Completed libs config service d.bucket d.key id parts reply s₁ s'
      → ⊥
  nothing_sent d id s s₁ s' reply parts begun done =
      let same : ◌≡◌ {A = Option (Pipeline libs config service)} (some begun.pipeline)
          (some done.pipeline) =
        sym begun.sending.known ∙ done.known in
      let equal : begun.pipeline ≡ done.pipeline = cc in
      cc (begun.sending.expects.open_upload, done.final, equal)

  abbrev Reply : Type 0
  Reply = Result service.Reply

  not_ok : (r : Reply) (e : Error) (reply : service.Reply) → (r >>= λ _. err e) ≡ ok reply → ⊥
  not_ok (err x) e reply h = cc
  not_ok (ok x) e reply h = cc

  -- Uploading a file-like object in parts of any positive size, if it returns, has stored under the
  -- bucket and the key the metadata of a new pipeline over that of the caller, and the ciphertext
  -- and tag that encrypting the whole content at once with this pipeline's cipher gives: however
  -- the content falls into parts, they were all sent, in order, the last one with the tag. The file
  -- gives its content in order, the cipher takes a text in pieces as at once, and S3 joins the parts.
  pub multipart_upload-StoredWhole :
      (fuel : ℕ) (d : Destination) (size : ℕ) (owns : Bool) (f f' : File)
      (s s' : State libs service) (reply : service.Reply)
      → 0 < size
      → multipart_upload_from_readable libs config service files fuel d size owns f s
        ≡ some (ok reply, f', s')
      → StoredWhole d (file_laws.left f.handle) s'.world
  unfolding multipart_upload_from_readable read_and_upload
  multipart_upload-StoredWhole fuel d size owns f f' s s' reply pos h =
      begin (create_multipart_upload libs config service (create_arguments d) s) refl h
    where
      completing :
          (id : String) (g : File) (s₁ s₂ : State libs service) (parts : List (ℕ × String))
          (a : Reply × State libs service)
          → complete_multipart_upload libs config service d.bucket d.key id parts s₂ ≡ a
          → (let (r, g', t) = or_abort libs config service files d id (a.0, g, a.1) in
              ◌≡◌ {A = Option (Uploaded libs config service files)}
                (some (r, close_if libs config service files owns g', t))
                (some (ok reply, f', s')))
          → Completed libs config service d.bucket d.key id parts reply s₂ s'
      completing id g s₁ s₂ parts (err e, t) made k =
          absurd
            (not_ok (abort_multipart_upload libs config service d.bucket d.key id t).0 e reply (cc))
      completing id g s₁ s₂ parts (ok reply', t) made k =
          let (same, left) : (reply' ≡ reply) × (t ≡ s') = (cc, cc) in
          complete-Completed libs config service d.bucket d.key id parts reply s₂ s'
            (rw (same, left) at made)

      uploaded :
          (id : String) (s₁ : State libs service) (o : Option (Parts libs config service files))
          → ((parts : List (ℕ × String)) (g : File) (s₂ : State libs service)
              → o ≡ some (ok parts, g, s₂)
              → Completed libs config service d.bucket d.key id parts reply s₂ s'
              → StoredWhole d (file_laws.left f.handle) s'.world)
          → tried libs config service files d id owns o ≡ some (ok reply, f', s')
          → StoredWhole d (file_laws.left f.handle) s'.world
      uploaded id s₁ none rest k = absurd (cc)
      uploaded id s₁ (some (err e, g, s₂)) rest k =
          absurd (
            not_ok (abort_multipart_upload libs config service d.bucket d.key id s₂).0 e reply (cc))
      uploaded id s₁ (some (ok parts, g, s₂)) rest k =
          rest parts g s₂ refl (completing id g s₁ s₂ parts _ refl k)

      first :
          (id : String) (s₁ s₂ : State libs service) (parts : List (ℕ × String)) (g : File)
          (r : Result Bytes × File)
          → read_chunk libs config service files size f ≡ r
          → Begun d id s s₁
          → after_first_chunk libs config service files fuel d id size s₁ r ≡ some (ok parts, g, s₂)
          → Completed libs config service d.bucket d.key id parts reply s₂ s'
          → StoredWhole d (file_laws.left f.handle) s'.world
      first id s₁ s₂ parts g (err e, f₁) read begun k done = absurd (cc)
      first id s₁ s₂ parts g (ok [], f₁) read begun k done =
          let (listed, same) =
            upload_chunks-nil libs config service s3 enc_laws files file_laws fuel d id size 0 parts
              [] f₁ g s₁ s₂ k in
          absurd (nothing_sent d id s s₁ s' reply parts begun (rw (sym same) at done))
      first id s₁ s₂ parts g (ok (c ∷ cs), f₁) read begun k done =
          let ahead : file_laws.left f.handle ≡ (c ∷ cs) ++ file_laws.left f₁.handle =
            file_laws.read-left f.handle size (c ∷ cs) f₁.handle
              (ap (λ r. (r.0, r.1.handle)) read) in
          let (ciphertext, encrypts, loaded) =
            upload_chunks-Uploads libs config service s3 enc_laws files file_laws fuel d id size c
              cs 0 [] parts begun.pipeline f₁ g s₁ s₂ pos begun.sending k in
          rw ahead
            (finish_upload d id _ ciphertext parts s s₁ s₂ s' reply begun encrypts loaded done)

      begin :
          (r : Result String × State libs service)
          → create_multipart_upload libs config service (create_arguments d) s ≡ r
          → after_create libs config service files fuel d size owns f r ≡ some (ok reply, f', s')
          → StoredWhole d (file_laws.left f.handle) s'.world
      begin (err e, s₁) made k = absurd (cc)
      begin (ok id, s₁) made k =
          uploaded id s₁ _
            (λ parts g s₂ o done.
              first id s₁ s₂ parts g _ refl (create-Begun d id s s₁ made) o done)
            k
