-- ===== src/Client/Keeps.antt =====
-- What every multipart operation and `put_object` of the client keep true, the uploads of files and
-- of file-like objects keep true.
use amazon_s3_encryption_cli.Prelude.{
  Bool, true, false, ℕ, zero, suc, ◌+◌, String, Bytes, List, [], ◌∷◌, Option, none, some, ltb,
}
use amazon_s3_encryption_cli.Errors.{Result, ok, err}
use amazon_s3_encryption_cli.External.{ByteSource}
use amazon_s3_encryption_cli.Config.{S3EncryptionClientConfig}
use amazon_s3_encryption_cli.Plugin.{Libraries, ContextArgument}
use amazon_s3_encryption_cli.Client.{S3Service, State, PutArguments, put_object}
use amazon_s3_encryption_cli.Client.Uploads.{
  CreateArguments, PartArguments, create_multipart_upload, upload_part, complete_multipart_upload,
  abort_multipart_upload,
}
use amazon_s3_encryption_cli.Client.Readable.{
  FileSystem, Destination, File, Parts, Round, over, again, Uploaded, Outcome, after_part,
  after_chunk, upload_round, upload_chunks, or_abort, tried, after_first_chunk, read_and_upload,
  after_create, create_arguments, multipart_upload_from_readable, upload_fileobj, check_chunksize,
  or_default, default_multipart_chunksize, default_multipart_threshold, opened, without_file,
  upload_opened, upload_file, check_file, put_arguments, read_chunk,
}

module _ (libs : Libraries) (config : S3EncryptionClientConfig)
    (service : S3Service libs.source.Body) where
  pub record Keeps (P : State libs service → Type 0) : Type 0 where
    pub put :
        (args : PutArguments) (argument : ContextArgument) (s : State libs service)
        → P s
        → P (put_object libs config service args argument s).1
    pub create :
        (args : CreateArguments) (s : State libs service)
        → P s
        → P (create_multipart_upload libs config service args s).1
    pub part :
        (args : PartArguments) (s : State libs service)
        → P s
        → P (upload_part libs config service args s).1
    pub complete :
        (bucket key id : String) (parts : List (ℕ × String)) (s : State libs service)
        → P s
        → P (complete_multipart_upload libs config service bucket key id parts s).1
    pub abort :
        (bucket key id : String) (s : State libs service)
        → P s
        → P (abort_multipart_upload libs config service bucket key id s).1

  module _ (P : State libs service → Type 0) (keeps : Keeps P) where
    abbrev Left : {A : Type 0} → Option (A × State libs service) → Type 0
    Left none = Unit
    Left (some (a, s)) = P s

    module _ (files : ByteSource) where
      abbrev LeftRound : Round libs config service files → Type 0
      LeftRound (over (r, f, s)) = P s
      LeftRound (again next parts f s) = P s

      abbrev LeftFile :
          {A : Type 0} → Option (A × File libs config service files × State libs service) → Type 0
      LeftFile none = Unit
      LeftFile (some (a, f, s)) = P s

      upload_round-kept :
          (d : Destination) (id : String) (size : ℕ) (chunk : Bytes) (n : ℕ)
          (parts : List (ℕ × String)) (f : File libs config service files) (s : State libs service)
          → P s
          → LeftRound (upload_round libs config service files d id size chunk n parts f s)
      unfolding upload_round
      upload_round-kept d id size [] n parts f s p = p
      upload_round-kept d id size (c ∷ cs) n parts f s p =
          read_ahead (read_chunk libs config service files size f)
        where
          sent :
              (next : Bytes) (f' : File libs config service files)
              (r : Result String × State libs service)
              → P r.1
              → LeftRound (after_part libs config service files next (n + 1) parts f' r)
          sent next f' (err e, s') q = q
          sent next f' (ok etag, s') q = q

          read_ahead :
              (r : Result Bytes × File libs config service files)
              → LeftRound (after_chunk libs config service files d id (c ∷ cs) (n + 1) parts s r)
          read_ahead (err e, f') = p
          read_ahead (ok next, f') = sent next f' _ (keeps.part _ s p)

      upload_chunks-kept :
          (fuel : ℕ) (d : Destination) (id : String) (size : ℕ) (chunk : Bytes) (n : ℕ)
          (parts : List (ℕ × String)) (f : File libs config service files) (s : State libs service)
          → P s
          → LeftFile (upload_chunks libs config service files fuel d id size chunk n parts f s)
      unfolding upload_chunks
      upload_chunks-kept zero d id size chunk n parts f s p = tt
      upload_chunks-kept (suc fuel) d id size chunk n parts f s p =
          go (upload_round libs config service files d id size chunk n parts f s)
            (upload_round-kept d id size chunk n parts f s p)
            (λ next parts' f' s'. upload_chunks-kept fuel d id size next (n + 1) parts' f' s')
        where
          go :
              (r : Round libs config service files)
              → LeftRound r
              → ((next : Bytes) (parts' : List (ℕ × String)) (f' : File libs config service files)
                    (s' : State libs service)
                  → P s'
                  → LeftFile (
                      upload_chunks libs config service files fuel d id size next
                        (n + 1)
                        parts'
                        f'
                        s'))
              → LeftFile (elim r as (λ _. Option (Parts libs config service files)) [
                | over q ↦ some q
                | again next parts' f' s' ↦
                    upload_chunks libs config service files fuel d id size next (n + 1) parts' f' s'
              ])
          go (over q) h later = h
          go (again next parts' f' s') h later = later next parts' f' s' h

      tried-kept :
          (d : Destination) (id : String) (owns : Bool)
          (o : Option (Parts libs config service files))
          → LeftFile o
          → LeftFile (tried libs config service files d id owns o)
      tried-kept d id owns none h = tt
      tried-kept d id owns (some (err e, f, s)) h = keeps.abort _ _ id s h
      tried-kept d id owns (some (ok parts, f, s)) h =
          completed (complete_multipart_upload libs config service d.bucket d.key id parts s)
            (keeps.complete _ _ id parts s h)
        where
          completed :
              (r : Result service.Reply × State libs service)
              → P r.1
              → P (or_abort libs config service files d id (r.0, f, r.1)).2
          completed (ok reply, s') q = q
          completed (err e, s') q = keeps.abort _ _ id s' q

      multipart_upload-kept :
          (fuel : ℕ) (d : Destination) (size : ℕ) (owns : Bool) (f : File libs config service files)
          (s : State libs service)
          → P s
          → LeftFile (multipart_upload_from_readable libs config service files fuel d size owns f s)
      unfolding multipart_upload_from_readable read_and_upload
      multipart_upload-kept fuel d size owns f s p =
          after (create_multipart_upload libs config service (create_arguments d) s)
            (keeps.create _ s p)
        where
          first :
              (id : String) (s' : State libs service)
              (r : Result Bytes × File libs config service files)
              → P s'
              → LeftFile (after_first_chunk libs config service files fuel d id size s' r)
          first id s' (err e, f') q = q
          first id s' (ok chunk, f') q = upload_chunks-kept fuel d id size chunk 0 [] f' s' q

          after :
              (r : Result String × State libs service)
              → P r.1
              → LeftFile (after_create libs config service files fuel d size owns f r)
          after (err e, s') q = q
          after (ok id, s') q = tried-kept d id owns _ (first id s' _ q)

      pub upload_fileobj-kept :
          (fuel : ℕ) (d : Destination) (chunksize : Option ℕ) (handle : files.Body)
          (s : State libs service)
          → P s
          → LeftFile (upload_fileobj libs config service files fuel d chunksize handle s)
      unfolding upload_fileobj
      upload_fileobj-kept fuel d chunksize handle s p =
          go (check_chunksize (or_default default_multipart_chunksize chunksize))
        where
          size : ℕ
          size = or_default default_multipart_chunksize chunksize

          go :
              (r : Result (Unit {0}))
              → LeftFile (elim r as (λ _. Option (Uploaded libs config service files)) [
                | err e ↦ some (err e, opened libs config service files handle, s)
                | ok _ ↦
                    multipart_upload_from_readable libs config service files fuel d size false
                      (opened libs config service files handle)
                      s
              ])
          go (err e) = p
          go (ok u) = multipart_upload-kept fuel d size false _ s p

    module _ (fs : FileSystem) where
      upload_opened-kept :
          (fuel : ℕ) (d : Destination) (small : Bool) (size : ℕ) (r : Result fs.files.Body)
          (s : State libs service)
          → P s
          → Left (upload_opened libs config service fs fuel d small size r s)
      upload_opened-kept fuel d small size (err e) s p = p
      upload_opened-kept fuel d true size (ok handle) s p = go (fs.files.read_all handle)
        where
          go :
              (r : Result Bytes)
              → Left (elim r as (λ _. Outcome libs config service fs) [
                | err e ↦ some (err e, s)
                | ok content ↦ some (
                    put_object libs config service (put_arguments d content) d.encryption_context s)
              ])
          go (err e) = p
          go (ok content) = keeps.put _ _ s p
      upload_opened-kept fuel d false size (ok handle) s p =
          go
            (multipart_upload_from_readable libs config service fs.files fuel d size true
              (record { handle = handle; is_closed = false }) s)
            (multipart_upload-kept fs.files fuel d size true _ s p)
        where
          go :
              (o : Option (Uploaded libs config service fs.files))
              → LeftFile fs.files o
              → Left (without_file libs config service fs o)
          go none h = tt
          go (some (r, f, s')) h = h

      pub upload_file-kept :
          (fuel : ℕ) (d : Destination) (filename : String) (threshold chunksize : Option ℕ)
          (s : State libs service)
          → P s
          → Left (upload_file libs config service fs fuel d filename threshold chunksize s)
      unfolding upload_file
      upload_file-kept fuel d filename threshold chunksize s p =
          go (or_default default_multipart_threshold threshold) (
            check_file libs config service fs filename
              (or_default default_multipart_threshold threshold)
              (or_default default_multipart_chunksize chunksize))
        where
          go :
              (limit : ℕ) (r : Result ℕ)
              → Left (elim r as (λ _. Outcome libs config service fs) [
                | err e ↦ some (err e, s)
                | ok file_size ↦
                    upload_opened libs config service fs fuel d
                      (ltb file_size limit)
                      (or_default default_multipart_chunksize chunksize)
                      (fs.open_file filename)
                      s
              ])
          go limit (err e) = p
          go limit (ok n) = upload_opened-kept fuel d (ltb n limit) _ (fs.open_file filename) s p
