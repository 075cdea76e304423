-- ===== src/Client/Readable.antt =====
-- `upload_file`, `upload_fileobj` and `_multipart_upload_from_readable` of __init__.py.
use amazon_s3_encryption_cli.Prelude.{
  Bool, true, false, ℕ, zero, suc, ◌+◌, ◌*◌, String, Bytes, Dict, List, [], ◌∷◌, ◌++◌, Option, none,
  some, ltb, leb, is_empty,
}
use amazon_s3_encryption_cli.Errors.{
  Result, ok, err, client_error, ◌>>=◌, ◌>>◌, raise_if, threshold_not_positive,
  chunksize_not_positive, chunksize_too_small,
}
use amazon_s3_encryption_cli.Values.{Value}
use amazon_s3_encryption_cli.External.{ByteSource}
use amazon_s3_encryption_cli.Config.{S3EncryptionClientConfig}
use amazon_s3_encryption_cli.Plugin.{Libraries, ContextArgument}
use amazon_s3_encryption_cli.Client.{S3Service, State, PutArguments, BodyArgument, put_object}
use amazon_s3_encryption_cli.Client.Uploads.{
  CreateArguments, PartArguments, PartBody, create_multipart_upload, upload_part,
  complete_multipart_upload, abort_multipart_upload,
}

abbrev pub default_multipart_threshold : ℕ
default_multipart_threshold = 8 * 1024 * 1024

abbrev pub default_multipart_chunksize : ℕ
default_multipart_chunksize = 8 * 1024 * 1024

abbrev pub min_multipart_part_size : ℕ
min_multipart_part_size = 5 * 1024 * 1024

abbrev pub or_default : ℕ → Option ℕ → ℕ
or_default default none = default
or_default default (some n) = n

-- The checks of a chunk size. A negative one is refused as 0 is.
unfoldable pub check_chunksize : ℕ → Result (Unit {0})
check_chunksize chunksize = do
  raise_if (leb chunksize 0) (client_error chunksize_not_positive)
  raise_if (ltb chunksize min_multipart_part_size) (client_error chunksize_too_small)

-- `os.path.getsize`, `open(filename, "rb")`, and reading what it opened.
pub record FileSystem : Type 1 where
  pub files : ByteSource
  pub getsize : String → Result ℕ
  pub open_file : String → Result files.Body

-- Where an upload goes, and the arguments that are handed on.
pub record Destination : Type 0 where
  pub bucket : String
  pub key : String
  pub metadata : Option (Dict Value)
  pub encryption_context : ContextArgument

abbrev pub create_arguments : Destination → CreateArguments
create_arguments d = record {
  bucket = d.bucket;
  key = d.key;
  metadata = d.metadata;
  encryption_context = d.encryption_context;
}

abbrev pub part_arguments : Destination → String → ℕ → Bytes → Bytes → PartArguments
part_arguments d upload_id part_number chunk next = record {
  bucket = d.bucket;
  key = d.key;
  upload_id = upload_id;
  part_number = part_number;
  body = PartBody.of_bytes chunk;
  is_last = is_empty next;
}

abbrev pub put_arguments : Destination → Bytes → PutArguments
put_arguments d content = record {
  bucket = d.bucket;
  key = d.key;
  body = BodyArgument.of_bytes content;
  metadata = d.metadata;
}

-- A file-like object, and whether the client has closed it.
pub record Readable (B : Type 0) : Type 0 where
  pub handle : B
  pub is_closed : Bool

module _ (libs : Libraries) (config : S3EncryptionClientConfig)
    (service : S3Service libs.source.Body) (files : ByteSource) where
  abbrev pub ClientState : Type 0
  ClientState = State libs service

  abbrev pub File : Type 0
  File = Readable files.Body

  -- `parts`, how the loop ends, and what it leaves.
  abbrev pub Parts : Type 0
  Parts = Result (List (ℕ × String)) × File × ClientState

  abbrev pub read_chunk : ℕ → File → Result Bytes × File
  read_chunk chunksize f =
      let (r, handle) = files.read f.handle chunksize in (r, record f { handle = handle })

  -- One round of the loop: it is over, or it goes on with the chunk that was read ahead.
  pub data Round : Type 0 where
    over : Parts → Round
    again : Bytes → List (ℕ × String) → File → ClientState → Round

  abbrev pub after_part : Bytes → ℕ → List (ℕ × String) → File → Result String × ClientState → Round
  after_part next n parts f (err e, s) = over (err e, f, s)
  after_part next n parts f (ok etag, s) = again next (parts ++ (n, etag) ∷ []) f s

  abbrev pub after_chunk :
      Destination
      → String
      → Bytes
      → ℕ
      → List (ℕ × String)
      → ClientState
      → Result Bytes × File
      → Round
  after_chunk d id chunk n parts s (err e, f) = over (err e, f, s)
  after_chunk d id chunk n parts s (ok next, f) =
      after_part next n parts f
        (upload_part libs config service (part_arguments d id n chunk next) s)

  unfoldable pub upload_round :
      Destination → String → ℕ → Bytes → ℕ → List (ℕ × String) → File → ClientState → Round
  upload_round d id size [] n parts f s = over (ok parts, f, s)
  upload_round d id size (c ∷ cs) n parts f s =
      after_chunk d id (c ∷ cs) (n + 1) parts s (read_chunk size f)

  -- The loop, with the chunk that it has read ahead; `none` means that the fuel ran out.
  unfoldable pub upload_chunks :
      ℕ
      → Destination
      → String
      → ℕ
      → Bytes
      → ℕ
      → List (ℕ × String)
      → File
      → ClientState
      → Option Parts
  unfolding upload_round
  upload_chunks zero d id size chunk n parts f s = none
  upload_chunks (suc fuel) d id size chunk n parts f s =
      elim (upload_round d id size chunk n parts f s) [
        | over p ↦ some p
        | again next parts' f' s' ↦ upload_chunks fuel d id size next (n + 1) parts' f' s'
      ]

  abbrev pub Uploaded : Type 0
  Uploaded = Result service.Reply × File × ClientState

  -- `except Exception`: the upload is aborted, and what that raises takes the place of the error.
  abbrev pub or_abort : Destination → String → Uploaded → Uploaded
  or_abort d id (ok reply, f, s) = (ok reply, f, s)
  or_abort d id (err e, f, s) =
      let (r, s') = abort_multipart_upload libs config service d.bucket d.key id s in
      (r >>= λ _. err e, f, s')

  abbrev pub complete_parts : Destination → String → Parts → Uploaded
  complete_parts d id (err e, f, s) = (err e, f, s)
  complete_parts d id (ok parts, f, s) =
      let (r, s') = complete_multipart_upload libs config service d.bucket d.key id parts s in
      (r, f, s')

  -- `finally`
  abbrev pub close_if : Bool → File → File
  close_if true f = record f { is_closed = true }
  close_if false f = f

  -- The `try` statement, after the upload was created.
  abbrev pub tried : Destination → String → Bool → Option Parts → Option Uploaded
  tried d id owns none = none
  tried d id owns (some p) =
      let (r, f, s) = or_abort d id (complete_parts d id p) in some (r, close_if owns f, s)

  abbrev pub after_first_chunk :
      ℕ → Destination → String → ℕ → ClientState → Result Bytes × File → Option Parts
  after_first_chunk fuel d id size s (err e, f) = some (err e, f, s)
  after_first_chunk fuel d id size s (ok chunk, f) = upload_chunks fuel d id size chunk 0 [] f s

  unfoldable pub read_and_upload : ℕ → Destination → String → ℕ → File → ClientState → Option Parts
  unfolding upload_chunks
  read_and_upload fuel d id size f s = after_first_chunk fuel d id size s (read_chunk size f)

  abbrev pub after_create :
      ℕ → Destination → ℕ → Bool → File → Result String × ClientState → Option Uploaded
  after_create fuel d size owns f (err e, s) = some (err e, f, s)
  after_create fuel d size owns f (ok id, s) = tried d id owns (read_and_upload fuel d id size f s)

  unfoldable pub multipart_upload_from_readable :
      ℕ → Destination → ℕ → Bool → File → ClientState → Option Uploaded
  unfolding read_and_upload
  multipart_upload_from_readable fuel d size owns f s =
      after_create fuel d size owns f
        (create_multipart_upload libs config service (create_arguments d) s)

  -- A file-like object as the caller hands it over.
  abbrev pub opened : files.Body → File
  opened handle = record { handle = handle; is_closed = false }

  unfoldable pub upload_fileobj :
      ℕ → Destination → Option ℕ → files.Body → ClientState → Option Uploaded
  unfolding multipart_upload_from_readable check_chunksize
  upload_fileobj fuel d chunksize handle s =
      let size = or_default default_multipart_chunksize chunksize in
      elim (check_chunksize size) [
        | err e ↦ some (err e, opened handle, s)
        | ok _ ↦ multipart_upload_from_readable fuel d size false (opened handle) s
      ]

module _ (libs : Libraries) (config : S3EncryptionClientConfig)
    (service : S3Service libs.source.Body) (fs : FileSystem) where
  -- `threshold` and `chunksize`, after the checks, with the size of the file
  unfoldable pub check_file : String → ℕ → ℕ → Result ℕ
  unfolding check_chunksize
  check_file filename threshold chunksize = do
    raise_if (leb threshold 0) (client_error threshold_not_positive)
    check_chunksize chunksize
    fs.getsize filename

  abbrev pub Outcome : Type 0
  Outcome = Option (Result service.Reply × State libs service)

  abbrev pub without_file : Option (Uploaded libs config service fs.files) → Outcome
  without_file none = none
  without_file (some (r, f, s)) = some (r, s)

  -- The file is open: a small one is put at once.
  abbrev pub upload_opened :
      ℕ → Destination → Bool → ℕ → Result fs.files.Body → State libs service → Outcome
  upload_opened fuel d small size (err e) s = some (err e, s)
  upload_opened fuel d true size (ok handle) s = elim (fs.files.read_all handle) [
    | err e ↦ some (err e, s)
    | ok content ↦
        some (put_object libs config service (put_arguments d content) d.encryption_context s)
  ]
  upload_opened fuel d false size (ok handle) s = without_file (
      multipart_upload_from_readable libs config service fs.files fuel d size true
        (record { handle = handle; is_closed = false }) s)

  unfoldable pub upload_file :
      ℕ → Destination → String → Option ℕ → Option ℕ → State libs service → Outcome
  unfolding check_file
  upload_file fuel d filename multipart_threshold multipart_chunksize s =
      let threshold = or_default default_multipart_threshold multipart_threshold in
      let size = or_default default_multipart_chunksize multipart_chunksize in
      elim (check_file filename threshold size) [
        | err e ↦ some (err e, s)
        | ok file_size ↦
            upload_opened fuel d (ltb file_size threshold) size (fs.open_file filename) s
      ]
