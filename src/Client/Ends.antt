-- ===== src/Client/Ends.antt =====
-- `upload_fileobj` of __init__.py ends.
use amazon_s3_encryption_cli.Prelude.{
  ◌≡◌, refl, ap, Bool, false, ℕ, zero, suc, ◌+◌, ◌<◌, String, Bytes, List, [], ◌∷◌, ◌++◌, Option,
  none, some, length, length-append, arith,
}
use amazon_s3_encryption_cli.Errors.{Result, ok, err}
use amazon_s3_encryption_cli.External.{ByteSource, ByteSourceLaws}
use amazon_s3_encryption_cli.Config.{S3EncryptionClientConfig}
use amazon_s3_encryption_cli.Plugin.{Libraries}
use amazon_s3_encryption_cli.Client.{S3Service, State}
use amazon_s3_encryption_cli.Client.Uploads.{upload_part, create_multipart_upload}
use amazon_s3_encryption_cli.Client.Readable.{
  Destination, part_arguments, create_arguments, Readable, Parts, Uploaded, Round, over, again,
  after_part, after_chunk, upload_round, upload_chunks, read_chunk, tried, after_first_chunk,
  after_create, read_and_upload, multipart_upload_from_readable, upload_fileobj, check_chunksize,
  or_default, default_multipart_chunksize, opened,
}

module _ (libs : Libraries) (config : S3EncryptionClientConfig)
    (service : S3Service libs.source.Body) (files : ByteSource)
    (file_laws : ByteSourceLaws files) where
  abbrev File : Type 0
  File = Readable files.Body

  -- The rounds that the loop has left at most, less the last one.
  abbrev rounds : Bytes → File → ℕ
  rounds [] f = 0
  rounds (c ∷ cs) f = suc (length (file_laws.left f.handle))

  rounds-read :
      (size : ℕ) (next : Bytes) (f g : File)
      → files.read f.handle size ≡ (ok next, g.handle)
      → rounds next g < suc (length (file_laws.left f.handle))
  rounds-read size [] f g h = omega arith
  rounds-read size (y ∷ ys) f g h =
      let split : length (file_laws.left f.handle) ≡ length ((y ∷ ys) ++ file_laws.left g.handle) =
        ap length (file_laws.read-left f.handle size (y ∷ ys) g.handle h) in
      omega (arith, split, length-append (y ∷ ys) (file_laws.left g.handle))

  Ends : {A : Type 0} → Option A → Type 0
  Ends {A} o = (r : A) × (o ≡ some r)

  upload_chunks_total :
      (fuel : ℕ) (d : Destination) (id : String) (size : ℕ) (chunk : Bytes) (n : ℕ)
      (parts : List (ℕ × String)) (f : File) (s : State libs service)
      → rounds chunk f < fuel
      → Ends (upload_chunks libs config service files fuel d id size chunk n parts f s)
  unfolding upload_chunks upload_round Ends
  upload_chunks_total zero d id size chunk n parts f s h = absurd (omega arith)
  upload_chunks_total (suc fuel) d id size [] n parts f s h = (_, refl)
  upload_chunks_total (suc fuel) d id size (c ∷ cs) n parts f s h =
      read_ahead (read_chunk libs config service files size f) refl
        (λ next more g t. upload_chunks_total fuel d id size next (n + 1) more g t)
    where
      Later : Type 0
      Later =
          (next : Bytes) (more : List (ℕ × String)) (g : File) (t : State libs service)
          → rounds next g < fuel
          → Ends (upload_chunks libs config service files fuel d id size next (n + 1) more g t)

      continued : Round libs config service files → Option (Parts libs config service files)
      continued r = elim r as (λ _. Option (Parts libs config service files)) [
        | over q ↦ some q
        | again next more g t ↦
            upload_chunks libs config service files fuel d id size next (n + 1) more g t
      ]

      sent :
          (next : Bytes) (g : File) (r : Result String × State libs service)
          → rounds next g < fuel
          → Later
          → Ends (continued (after_part libs config service files next (n + 1) parts g r))
      sent next g (err e, t) few later = (_, refl)
      sent next g (ok etag, t) few later = later next _ g t few

      read_ahead :
          (r : Result Bytes × File)
          → read_chunk libs config service files size f ≡ r
          → Later
          → Ends (continued (after_chunk libs config service files d id (c ∷ cs) (n + 1) parts s r))
      read_ahead (err e, g) read later = (_, refl)
      read_ahead (ok next, g) read later =
          let fewer = rounds-read size next f g (ap (λ r. (r.0, r.1.handle)) read) in
          sent next g
            (upload_part libs config service (part_arguments d id (n + 1) (c ∷ cs) next) s)
            (omega (arith, fewer, h)) later

  tried_total :
      (d : Destination) (id : String) (owns : Bool) (o : Option (Parts libs config service files))
      → Ends o
      → Ends (tried libs config service files d id owns o)
  unfolding Ends
  tried_total d id owns none (r, h) = absurd (cc)
  tried_total d id owns (some p) h = (_, refl)

  multipart_upload_total :
      (d : Destination) (size : ℕ) (owns : Bool) (f : File) (s : State libs service)
      → Ends (
          multipart_upload_from_readable libs config service files
            (suc (suc (length (file_laws.left f.handle))))
            d
            size
            owns
            f
            s)
  unfolding multipart_upload_from_readable read_and_upload Ends
  multipart_upload_total d size owns f s =
      begin (create_multipart_upload libs config service (create_arguments d) s)
    where
      fuel : ℕ
      fuel = suc (suc (length (file_laws.left f.handle)))

      first :
          (id : String) (t : State libs service) (r : Result Bytes × File)
          → read_chunk libs config service files size f ≡ r
          → Ends (after_first_chunk libs config service files fuel d id size t r)
      first id t (err e, g) read = (_, refl)
      first id t (ok chunk, g) read =
          let few = rounds-read size chunk f g (ap (λ r. (r.0, r.1.handle)) read) in
          upload_chunks_total fuel d id size chunk 0 [] g t (omega (arith, few))

      begin :
          (r : Result String × State libs service)
          → Ends (after_create libs config service files fuel d size owns f r)
      begin (err e, t) = (_, refl)
      begin (ok id, t) = tried_total d id owns _ (first id t _ refl)

  -- Uploading a file-like object ends, whatever the chunk size, in at most two rounds more than the
  -- object has bytes left, with a reply or an error; short reads are no harm.
  pub upload_fileobj_total :
      (d : Destination) (chunksize : Option ℕ) (handle : files.Body) (s : State libs service)
      → (r : Uploaded libs config service files) × (upload_fileobj libs config service files
            (suc (suc (length (file_laws.left handle))))
            d
            chunksize
            handle
            s
          ≡ some r)
  unfolding upload_fileobj Ends
  upload_fileobj_total d chunksize handle s =
      go (check_chunksize (or_default default_multipart_chunksize chunksize))
    where
      size : ℕ
      size = or_default default_multipart_chunksize chunksize

      fuel : ℕ
      fuel = suc (suc (length (file_laws.left handle)))

      go :
          (r : Result (Unit {0}))
          → Ends (elim r as (λ _. Option (Uploaded libs config service files)) [
            | err e ↦ some (err e, opened libs config service files handle, s)
            | ok _ ↦
                multipart_upload_from_readable libs config service files fuel d size false
                  (opened libs config service files handle)
                  s
          ])
      go (err e) = (_, refl)
      go (ok u) = multipart_upload_total d size false (opened libs config service files handle) s
