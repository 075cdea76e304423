-- ===== src/Client/Complete.antt =====
-- `complete_multipart_upload` of the client, and what an upload from a file leaves in the map.
use amazon_s3_encryption_cli.Prelude.{
  ◌≡◌, refl, ◌∙◌, Bool, true, false, ℕ, String, lookup, erase, lookup-erase, List, Option, none,
  some, eq_refl, ◌⊎◌, inl, inr, Bool-cases,
}
use amazon_s3_encryption_cli.Errors.{Error, Result, ok, err}
use amazon_s3_encryption_cli.External.{ByteSource}
use amazon_s3_encryption_cli.Config.{S3EncryptionClientConfig}
use amazon_s3_encryption_cli.Plugin.{Libraries}
use amazon_s3_encryption_cli.Client.{S3Service, State}
use amazon_s3_encryption_cli.Client.Uploads.{
  Pipeline, complete_multipart_upload, complete_with, completed, create_multipart_upload,
  abort_multipart_upload,
}
use amazon_s3_encryption_cli.Client.Readable.{
  Destination, Readable, Parts, Uploaded, create_arguments, or_abort, tried, read_and_upload,
  multipart_upload_from_readable, close_if,
}

module _ (libs : Libraries) (config : S3EncryptionClientConfig)
    (service : S3Service libs.source.Body) where
  abbrev Answer : Type 0
  Answer = Result service.Reply × State libs service

  -- The upload was there with its last part, S3 has completed it, and it alone is forgotten.
  pub record Completed (bucket key id : String) (parts : List (ℕ × String)) (reply : service.Reply)
      (s s' : State libs service) : Type 0 where
    pub pipeline : Pipeline libs config service
    pub known : lookup id s.uploads ≡ some pipeline
    pub final : pipeline.has_final_part_been_seen ≡ true
    pub answered :
        service.complete_multipart_upload bucket key id parts s.world ≡ (ok reply, s'.world)
    pub forgotten : s'.uploads ≡ erase id s.uploads

  abbrev pub Settled :
      String → String → String → List (ℕ × String) → Answer → State libs service → Type 0
  Settled bucket key id parts r s =
      ((reply : service.Reply) × (r.0 ≡ ok reply) × Completed bucket key id parts reply s r.1)
      ⊎ ((e : Error) × (r.0 ≡ err e) × (r.1.uploads ≡ s.uploads))

  -- Completing an upload returns only if its last part was encrypted and S3 has completed it; then
  -- this upload alone is forgotten. If it raises, then every upload is as it was, so that it may be
  -- tried again.
  pub complete_multipart_upload-settles :
      (bucket key id : String) (parts : List (ℕ × String)) (s : State libs service)
      → Settled bucket key id parts
          (complete_multipart_upload libs config service bucket key id parts s)
          s
  unfolding complete_multipart_upload
  complete_multipart_upload-settles bucket key id parts s = found (lookup id s.uploads) refl
    where
      answer :
          (p : Pipeline libs config service) (r : Result service.Reply × service.World)
          → lookup id s.uploads ≡ some p
          → p.has_final_part_been_seen ≡ true
          → service.complete_multipart_upload bucket key id parts s.world ≡ r
          → Settled bucket key id parts (completed libs config service id s r) s
      answer p (err e, w) k final sent = inr (_, refl, refl)
      answer p (ok reply, w) k final sent = inl (
        reply,
        refl,
        record { pipeline = p; known = k; final = final; answered = sent; forgotten = refl },
      )

      found :
          (o : Option (Pipeline libs config service))
          → lookup id s.uploads ≡ o
          → Settled bucket key id parts
              (complete_with libs config service bucket key id parts s o)
              s
      found none k = inr (_, refl, refl)
      found (some p) k = elim (Bool-cases p.has_final_part_been_seen) [
        | inl final ↦ rw final (answer p _ k final refl)
        | inr unfinished ↦ rw unfinished (inr (_, refl, refl))
      ]

  pub complete-Completed :
      (bucket key id : String) (parts : List (ℕ × String)) (reply : service.Reply)
      (s s' : State libs service)
      → complete_multipart_upload libs config service bucket key id parts s ≡ (ok reply, s')
      → Completed bucket key id parts reply s s'
  complete-Completed bucket key id parts reply s s' h =
      go (rw h at (complete_multipart_upload-settles bucket key id parts s))
    where
      go : Settled bucket key id parts (ok reply, s') s → Completed bucket key id parts reply s s'
      go (inl (reply', e, c)) = let same : reply ≡ reply' = cc in rw same c
      go (inr (x, e, u)) = absurd (cc)

  module _ (files : ByteSource) where
    abbrev File : Type 0
    File = Readable files.Body

    -- The upload is forgotten, and the file is closed if the client has opened it.
    abbrev Left : String → Bool → Option (Uploaded libs config service files) → Type 0
    Left id owns none = Unit
    Left id owns (some (r, f, s)) =
        (lookup id s.uploads ≡ none) × (owns ≡ true → f.is_closed ≡ true)

    closed :
        (owns : Bool) (f : File)
        → owns ≡ true
        → (close_if libs config service files owns f).is_closed ≡ true
    closed true f h = refl
    closed false f h = absurd (cc)

    aborted :
        (d : Destination) (id : String) (s : State libs service)
        → lookup id (abort_multipart_upload libs config service d.bucket d.key id s).1.uploads
          ≡ none
    unfolding abort_multipart_upload
    aborted d id s = lookup-erase id id s.uploads ∙ rw (eq_refl id)

    tried-Left :
        (d : Destination) (id : String) (owns : Bool) (o : Option (Parts libs config service files))
        → Left id owns (tried libs config service files d id owns o)
    tried-Left d id owns none = tt
    tried-Left d id owns (some (err e, f, s)) = (aborted d id s, closed owns f)
    tried-Left d id owns (some (ok parts, f, s)) = (
      completing (complete_multipart_upload libs config service d.bucket d.key id parts s) refl,
      closed owns _,
    )
      where
        completing :
            (r : Answer)
            → complete_multipart_upload libs config service d.bucket d.key id parts s ≡ r
            → lookup id (or_abort libs config service files d id (r.0, f, r.1)).2.uploads ≡ none
        completing (err e, s') h = aborted d id s'
        completing (ok reply, s') h =
            let c = complete-Completed d.bucket d.key id parts reply s s' h in
            rw c.forgotten (lookup-erase id id s.uploads ∙ rw (eq_refl id))

    -- However the upload of a file-like object ends once S3 has created it, with a reply, with an
    -- error of reading, of encrypting or of S3, or with one of aborting: it is not among the
    -- uploads that are under way any more, and a file that the client has opened is closed.
    pub multipart_upload-forgets :
        (fuel : ℕ) (d : Destination) (size : ℕ) (owns : Bool) (f f' : File)
        (s s₁ s' : State libs service) (id : String) (r : Result service.Reply)
        → create_multipart_upload libs config service (create_arguments d) s ≡ (ok id, s₁)
        → multipart_upload_from_readable libs config service files fuel d size owns f s
          ≡ some (r, f', s')
        → (lookup id s'.uploads ≡ none) × (owns ≡ true → f'.is_closed ≡ true)
    unfolding multipart_upload_from_readable
    multipart_upload-forgets fuel d size owns f f' s s₁ s' id r made h =
        let o = read_and_upload libs config service files fuel d id size f s₁ in
        let ended : tried libs config service files d id owns o ≡ some (r, f', s') = rw made at h in
        rw ended at (tried-Left d id owns o)
