-- ===== src/Client/Uploads.antt =====
-- The multipart operations of `S3EncryptionClient` of __init__.py.
use amazon_s3_encryption_cli.Prelude.{
  Bool, ℕ, String, Bytes, Dict, lookup, insert, erase, update, List, Option, none, some,
  if◌then◌else◌,
}
use amazon_s3_encryption_cli.Errors.{
  Result, ok, err, client_error, ◌>>=◌, create_failed, part_failed, complete_failed, no_upload,
  final_part_missing,
}
use amazon_s3_encryption_cli.Values.{Value}
use amazon_s3_encryption_cli.Put.{context_or_empty}
use amazon_s3_encryption_cli.Multipart.{
  MultipartUploadPipeline, PartData, bytes, create, encrypt_part,
}
use amazon_s3_encryption_cli.InstructionFile.{safe_metadata}
use amazon_s3_encryption_cli.Config.{S3EncryptionClientConfig}
use amazon_s3_encryption_cli.Plugin.{Libraries, ContextArgument, validate_encryption_context}
use amazon_s3_encryption_cli.Client.{S3Service, State, wrapped}

pub record CreateArguments : Type 0 where
  pub bucket : String
  pub key : String
  pub metadata : Option (Dict Value)
  pub encryption_context : ContextArgument

-- The argument Body of UploadPart; a missing one is no bytes.
pub data PartBody : Type 0 where
  of_bytes : Bytes → PartBody
  of_text : String → PartBody
  of_file : Result Bytes → PartBody

pub record PartArguments : Type 0 where
  pub bucket : String
  pub key : String
  pub upload_id : String
  pub part_number : ℕ
  pub body : PartBody
  pub is_last : Bool

module _ (libs : Libraries) (config : S3EncryptionClientConfig)
    (service : S3Service libs.source.Body) where
  abbrev pub Pipeline : Type 0
  Pipeline = MultipartUploadPipeline libs.gcm_encryption.Context

  abbrev pub ClientState : Type 0
  ClientState = State libs service

  -- `except Exception`
  abbrev pub created :
      Pipeline → ClientState → Result String × service.World → Result String × ClientState
  created p s (err e, w) = (err (client_error create_failed), record s { world = w })
  created p s (ok upload_id, w) =
      (ok upload_id, record s { uploads = insert upload_id p s.uploads; world = w })

  -- The pipeline of a new upload.
  abbrev pub new_pipeline : ContextArgument → Result Pipeline
  new_pipeline argument = do
    context ← validate_encryption_context argument
    create libs.base64 libs.json libs.primitives libs.runtime libs.gcm_encryption config.cmm
        config.encryption_algorithm (context_or_empty context)

  abbrev pub create_with :
      CreateArguments → ClientState → Result Pipeline → Result String × ClientState
  create_with args s (err e) = (err e, s)
  create_with args s (ok p) = created p s (
      service.create_multipart_upload args.bucket args.key
        (update (safe_metadata args.metadata) p.metadata) s.world)

  -- The response is its UploadId.
  unfoldable pub create_multipart_upload :
      CreateArguments → ClientState → Result String × ClientState
  create_multipart_upload args s = create_with args s (new_pipeline args.encryption_context)

  -- The text is encoded here already, as `encrypt_part` would.
  abbrev pub part_data : PartBody → Result PartData
  part_data (of_bytes b) = ok (bytes b)
  part_data (of_text t) = ok (bytes (libs.runtime.utf8 t))
  part_data (of_file (err e)) = err e
  part_data (of_file (ok b)) = ok (bytes b)

  -- The pipeline in the map is the one that `encrypt_part` has changed.
  abbrev pub sent_part :
      PartArguments → ClientState → Result (Option Bytes) × Pipeline → Result String × ClientState
  sent_part args s (err e, p) =
      (wrapped part_failed (err e), record s { uploads = insert args.upload_id p s.uploads })
  sent_part args s (ok ciphertext, p) =
      let (r, w) =
        service.upload_part args.bucket args.key args.upload_id args.part_number ciphertext
          s.world in
      (r, record s { uploads = insert args.upload_id p s.uploads; world = w })

  abbrev pub part_of :
      PartArguments → ClientState → Pipeline → Result PartData → Result String × ClientState
  part_of args s p (err e) = (err e, s)
  part_of args s p (ok part) =
      sent_part args s
        (encrypt_part libs.runtime libs.gcm_encryption args.part_number part args.is_last p)

  abbrev pub part_with : PartArguments → ClientState → Option Pipeline → Result String × ClientState
  part_with args s none = (err (client_error no_upload), s)
  part_with args s (some p) = part_of args s p (part_data args.body)

  -- The response is its ETag.
  unfoldable pub upload_part : PartArguments → ClientState → Result String × ClientState
  upload_part args s = part_with args s (lookup args.upload_id s.uploads)

  abbrev pub completed :
      String
      → ClientState
      → Result service.Reply × service.World
      → Result service.Reply × ClientState
  completed upload_id s (err e, w) = (wrapped complete_failed (err e), record s { world = w })
  completed upload_id s (ok reply, w) =
      (ok reply, record s { uploads = erase upload_id s.uploads; world = w })

  abbrev pub complete_with :
      String
      → String
      → String
      → List (ℕ × String)
      → ClientState
      → Option Pipeline
      → Result service.Reply × ClientState
  complete_with bucket key upload_id parts s none = (err (client_error no_upload), s)
  complete_with bucket key upload_id parts s (some p) =
      if p.has_final_part_been_seen
      then completed upload_id s
          (service.complete_multipart_upload bucket key upload_id parts s.world)
      else (err (client_error final_part_missing), s)

  unfoldable pub complete_multipart_upload :
      String
      → String
      → String
      → List (ℕ × String)
      → ClientState
      → Result service.Reply × ClientState
  complete_multipart_upload bucket key upload_id parts s =
      complete_with bucket key upload_id parts s (lookup upload_id s.uploads)

  unfoldable pub abort_multipart_upload :
      String → String → String → ClientState → Result service.Reply × ClientState
  abort_multipart_upload bucket key upload_id s =
      let (r, w) = service.abort_multipart_upload bucket key upload_id s.world in
      (r, record s { uploads = erase upload_id s.uploads; world = w })
