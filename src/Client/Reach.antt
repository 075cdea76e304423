-- ===== src/Client/Reach.antt =====
-- The states that a client reaches by its calls.
use amazon_s3_encryption_cli.Prelude.{◌≡◌, sym, ℕ, String, List, Option, some}
use amazon_s3_encryption_cli.Errors.{Result}
use amazon_s3_encryption_cli.Config.{S3EncryptionClientConfig}
use amazon_s3_encryption_cli.Plugin.{Libraries, ContextArgument}
use amazon_s3_encryption_cli.Client.{
  S3Service, State, PutArguments, GetArguments, put_object, get_object, delete_object,
  delete_objects,
}
use amazon_s3_encryption_cli.Client.Uploads.{
  CreateArguments, PartArguments, create_multipart_upload, upload_part, complete_multipart_upload,
  abort_multipart_upload,
}
use amazon_s3_encryption_cli.Client.Readable.{
  FileSystem, Destination, Uploaded, upload_fileobj, upload_file,
}
use amazon_s3_encryption_cli.Client.Keeps.{upload_fileobj-kept, upload_file-kept}
use amazon_s3_encryption_cli.Client.Consistent.{
  IsConsistent, keeps_IsConsistent, put_object-IsConsistent, get_object-IsConsistent,
  create-IsConsistent, upload_part-IsConsistent, complete-IsConsistent, abort-IsConsistent,
  delete_object-IsConsistent, delete_objects-IsConsistent,
}

module _ (libs : Libraries) (config : S3EncryptionClientConfig)
    (service : S3Service libs.source.Body) where
  module _ (fs : FileSystem) where
    -- A call of the client: it may raise, and it takes the state to the next one.
    pub data Call (s s' : State libs service) : Type 0 where
      put :
          (args : PutArguments) (argument : ContextArgument)
          → (put_object libs config service args argument s).1 ≡ s'
          → Call s s'
      get : (args : GetArguments) → (get_object libs config service args s).1 ≡ s' → Call s s'
      delete :
          (bucket key : String) (suffix : Option (Option String))
          → (delete_object libs config service bucket key suffix s).1 ≡ s'
          → Call s s'
      delete_all :
          (bucket : String) (keys : List String) (suffix : Option (Option String))
          → (delete_objects libs config service bucket keys suffix s).1 ≡ s'
          → Call s s'
      begin :
          (args : CreateArguments)
          → (create_multipart_upload libs config service args s).1 ≡ s'
          → Call s s'
      part : (args : PartArguments) → (upload_part libs config service args s).1 ≡ s' → Call s s'
      complete :
          (bucket key id : String) (parts : List (ℕ × String))
          → (complete_multipart_upload libs config service bucket key id parts s).1 ≡ s'
          → Call s s'
      abort :
          (bucket key id : String)
          → (abort_multipart_upload libs config service bucket key id s).1 ≡ s'
          → Call s s'
      fileobj :
          (fuel : ℕ) (d : Destination) (chunksize : Option ℕ) (handle : fs.files.Body)
          (r : Uploaded libs config service fs.files)
          → upload_fileobj libs config service fs.files fuel d chunksize handle s ≡ some r
          → r.2 ≡ s'
          → Call s s'
      file :
          (fuel : ℕ) (d : Destination) (filename : String) (threshold chunksize : Option ℕ)
          (r : Result service.Reply × State libs service)
          → upload_file libs config service fs fuel d filename threshold chunksize s ≡ some r
          → r.1 ≡ s'
          → Call s s'

    Call-IsConsistent :
        (s s' : State libs service)
        → Call s s'
        → IsConsistent libs config service s
        → IsConsistent libs config service s'
    Call-IsConsistent s s' (put args argument e) i =
        rw (sym e) (put_object-IsConsistent libs config service args argument s i)
    Call-IsConsistent s s' (get args e) i =
        rw (sym e) (get_object-IsConsistent libs config service args s i)
    Call-IsConsistent s s' (delete bucket key suffix e) i =
        rw (sym e) (delete_object-IsConsistent libs config service bucket key suffix s i)
    Call-IsConsistent s s' (delete_all bucket keys suffix e) i =
        rw (sym e) (delete_objects-IsConsistent libs config service bucket keys suffix s i)
    Call-IsConsistent s s' (begin args e) i =
        rw (sym e) (create-IsConsistent libs config service args s i)
    Call-IsConsistent s s' (part args e) i =
        rw (sym e) (upload_part-IsConsistent libs config service args s i)
    Call-IsConsistent s s' (complete bucket key id parts e) i =
        rw (sym e) (complete-IsConsistent libs config service bucket key id parts s i)
    Call-IsConsistent s s' (abort bucket key id e) i =
        rw (sym e) (abort-IsConsistent libs config service bucket key id s i)
    Call-IsConsistent s s' (fileobj fuel d chunksize handle r found e) i = rw (sym e) (
        rw found at (
          upload_fileobj-kept libs config service (IsConsistent libs config service)
            (keeps_IsConsistent libs config service) fs.files fuel d chunksize handle s i))
    Call-IsConsistent s s' (file fuel d filename threshold chunksize r found e) i = rw (sym e) (
        rw found at (
          upload_file-kept libs config service (IsConsistent libs config service)
            (keeps_IsConsistent libs config service) fs fuel d filename threshold chunksize s i))

    -- Calls one after the other.
    pub data Calls : State libs service → State libs service → Type 0 where
      none_made : {s : State libs service} → Calls s s
      next : {s s' s'' : State libs service} → Calls s s' → Call s' s'' → Calls s s''

    -- Whatever calls the client has made, whether they raised or not: no request's attributes are
    -- left in the thread, the mode for instruction files is off, and each upload that is under way
    -- has a well-formed pipeline, if this was so at the start.
    pub Calls-IsConsistent :
        (s s' : State libs service)
        → Calls s s'
        → IsConsistent libs config service s
        → IsConsistent libs config service s'
    Calls-IsConsistent s s' none_made i = i
    Calls-IsConsistent s s'' (next {s' = s'} calls call) i =
        Call-IsConsistent s' s'' call (Calls-IsConsistent s s' calls i)
