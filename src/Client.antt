-- ===== src/Client.antt =====
-- `S3EncryptionClient` of __init__.py: the operations on objects. A call of the client is one step
-- on its state: the thread's attributes, the multipart uploads, and the world of the service.
pub mod Uploads
pub mod Readable
pub mod Failures
pub mod Keeps
pub mod Fresh
pub mod Mode
pub mod Consistent
pub mod Reach
pub mod Laws
pub mod Sending
pub mod Complete
pub mod Loaded
pub mod Stored
pub mod Ends
pub mod Returned
pub mod RoundTrip
pub mod UploadRoundTrip
use amazon_s3_encryption_cli.Prelude.{
  Bool, true, false, not, ℕ, String, Bytes, Dict, List, [], ◌∷◌, Option, none, some, if◌then◌else◌,
  is_some,
}
use amazon_s3_encryption_cli.Errors.{
  Error, Reason, Result, ok, err, client_error, type_error, ◌>>=◌, ranged_get, put_failed,
  get_failed, delete_failed,
}
use amazon_s3_encryption_cli.Values.{Value}
use amazon_s3_encryption_cli.Keyring.{required}
use amazon_s3_encryption_cli.Multipart.{MultipartUploadPipeline}
use amazon_s3_encryption_cli.Get.Resolve.{concat}
use amazon_s3_encryption_cli.InstructionFile.{Response, S3Client}
use amazon_s3_encryption_cli.Config.{S3EncryptionClientConfig}
use amazon_s3_encryption_cli.Plugin.{
  Libraries, ThreadContext, ContextArgument, SerializedPut, HandledBody, attribute_or,
  validate_encryption_context, on_put_object_before_call, on_get_object_after_call,
  handle_instruction_file,
}

-- The argument Body of PutObject.
pub data BodyArgument : Type 0 where
  missing : BodyArgument
  of_bytes : Bytes → BodyArgument
  of_file : Result Bytes → BodyArgument
  of_other : BodyArgument

pub record PutArguments : Type 0 where
  pub bucket : String
  pub key : String
  pub body : BodyArgument
  pub metadata : Option (Dict Value)

-- What boto3 and S3 do. `serialize` makes the request of PutObject, and `send_get` returns the
-- parsed response of GetObject, with the error that boto3 raises for it after the handlers. Reading
-- leaves the world as it is.
pub record S3Service (Body : Type 0) : Type 1 where
  pub World : Type 0
  pub Reply : Type 0
  pub serialize : PutArguments → Result SerializedPut
  pub send_put : PutArguments → Bytes → Dict Value → World → Result Reply × World
  pub send_get : String → String → World → Result (Response Body × Option Error)
  pub delete_object : String → String → World → Result Reply × World
  pub delete_objects : String → List String → World → Result Reply × World
  pub create_multipart_upload : String → String → Dict Value → World → Result String × World
  pub upload_part : String → String → String → ℕ → Option Bytes → World → Result String × World
  pub complete_multipart_upload :
      String → String → String → List (ℕ × String) → World → Result Reply × World
  pub abort_multipart_upload : String → String → String → World → Result Reply × World

-- The state of a client, in the thread that calls it.
pub record State (libs : Libraries) (service : S3Service libs.source.Body) : Type 0 where
  pub context : ThreadContext
  pub uploads : Dict (MultipartUploadPipeline libs.gcm_encryption.Context)
  pub world : service.World

-- `except S3EncryptionClientError: raise`, and any other exception is wrapped.
abbrev pub wrap : Reason → Error → Error
wrap reason (client_error r) = client_error r
wrap reason _ = client_error reason

abbrev pub wrapped {ℓ} : {A : Type ℓ} → Reason → Result A → Result A
wrapped reason (err e) = err (wrap reason e)
wrapped reason (ok a) = ok a

-- `kwargs.pop("InstructionFileSuffix", ".instruction")`
abbrev pub suffix_argument : Option (Option String) → Option String
suffix_argument s = attribute_or (some ".instruction") s

-- `key + suffix`
abbrev pub instruction_key : String → Option String → Result String
instruction_key key suffix = required suffix type_error >>= λ s. ok (concat key s)

abbrev pub instruction_keys : List String → Option String → Result (List String)
instruction_keys [] suffix = ok []
instruction_keys (key ∷ keys) suffix =
    instruction_key key suffix >>= λ k. instruction_keys keys suffix >>= λ ks. ok (k ∷ ks)

pub record GetArguments : Type 0 where
  pub bucket : String
  pub key : String
  pub has_range : Bool
  pub encryption_context : ContextArgument
  pub instruction_file_suffix : Option (Option String)

-- The attributes that `get_object` sets.
abbrev pub set_for_get : Option (Dict String) → GetArguments → ThreadContext → ThreadContext
set_for_get context args c = record c {
  encryption_context = some context;
  instruction_file_suffix = some (suffix_argument args.instruction_file_suffix);
  s3_client = true;
  bucket = some (some args.bucket);
  key = some (some args.key);
}

-- `_GET_OBJECT_CLEANUP_ATTRS` are deleted.
abbrev pub clean_up : ThreadContext → ThreadContext
clean_up c = record c {
  encryption_context = none;
  bucket = none;
  key = none;
  instruction_file_suffix = none;
}

-- A boto3 call after which the handlers ran: it may still raise.
abbrev pub raised {ℓ} : {A : Type ℓ} → Option Error → A → Result A
raised none a = ok a
raised (some e) a = err e

module _ (libs : Libraries) (config : S3EncryptionClientConfig)
    (service : S3Service libs.source.Body) where
  abbrev pub ClientState : Type 0
  ClientState = State libs service

  abbrev pub Handled : Type 0
  Handled = Response (HandledBody libs config)

  -- A call goes on with the encryption context that passed, or raises before it does anything.
  abbrev pub validated :
      {A : Type 0}
      → (Option (Dict String) → ClientState → Result A × ClientState)
      → ClientState
      → Result (Option (Dict String))
      → Result A × ClientState
  validated call s (err e) = (err e, s)
  validated call s (ok context) = call context s

  -- What the handler returns is sent.
  abbrev pub send :
      PutArguments
      → service.World
      → Result (Bytes × Dict Value)
      → Result service.Reply × service.World
  send args w (err e) = (err e, w)
  send args w (ok (body, headers)) = service.send_put args body headers w

  -- `wrapped_s3_client.put_object`, with the handler
  unfoldable pub wrapped_put_object :
      ThreadContext → PutArguments → service.World → Result service.Reply × service.World
  wrapped_put_object c args w =
      send args w
        (service.serialize args >>= λ params. on_put_object_before_call libs config c params)

  abbrev pub put_with :
      PutArguments → Option (Dict String) → ClientState → Result service.Reply × ClientState
  put_with args context s =
      let c = record s.context { encryption_context = some context } in
      let (r, w) = wrapped_put_object c args s.world in
      (
        wrapped put_failed r,
        record s { context = record c { encryption_context = none }; world = w },
      )

  unfoldable pub put_object :
      PutArguments → ContextArgument → ClientState → Result service.Reply × ClientState
  unfolding wrapped_put_object
  put_object args argument s = validated (put_with args) s (validate_encryption_context argument)

  -- The wrapped client as the fetch of an instruction file calls it. The fetch has set the mode, so
  -- the handler takes the response for an instruction file.
  abbrev pub fetching_client : service.World → S3Client
  fetching_client w = record {
    has_plugin = true;
    get_object = λ c bucket key. service.send_get bucket key w >>= λ (parsed, failure).
        handle_instruction_file libs config parsed >>= λ r. raised failure r.metadata;
  }

  -- What boto3 raises after the handlers.
  abbrev pub finished :
      Option Error → Result Handled × ThreadContext → Result Handled × ThreadContext
  finished failure (r, c) = (r >>= raised failure, c)

  -- The handler is called for an answer.
  abbrev pub answer_with :
      ThreadContext
      → service.World
      → Result (Response libs.source.Body × Option Error)
      → Result Handled × ThreadContext
  answer_with c w (err e) = (err e, c)
  answer_with c w (ok (parsed, failure)) =
      finished failure (on_get_object_after_call libs config (fetching_client w) c parsed)

  -- `wrapped_s3_client.get_object`, with the handler: what it returns or raises, and the attributes
  -- that it leaves.
  unfoldable pub wrapped_get_object :
      ThreadContext → String → String → service.World → Result Handled × ThreadContext
  wrapped_get_object c bucket key w = answer_with c w (service.send_get bucket key w)

  abbrev pub get_with :
      GetArguments → Option (Dict String) → ClientState → Result Handled × ClientState
  get_with args context s =
      let (r, c) =
        wrapped_get_object (set_for_get context args s.context) args.bucket args.key s.world in
      (wrapped get_failed r, record s { context = clean_up c })

  unfoldable pub get_object : GetArguments → ClientState → Result Handled × ClientState
  unfolding wrapped_get_object
  get_object args s =
      if args.has_range
      then (err (client_error ranged_get), s)
      else validated (get_with args) s (validate_encryption_context args.encryption_context)

  -- The second of two calls is made if the first returned; what the first returned is returned.
  abbrev pub also :
      Result service.Reply × service.World
      → (service.World → Result service.Reply × service.World)
      → Result service.Reply × service.World
  also (err e, w) second = (err e, w)
  also (ok reply, w) second = let (r, w') = second w in (r >>= λ _. ok reply, w')

  abbrev pub delete_instruction_file :
      String → Result String → service.World → Result service.Reply × service.World
  delete_instruction_file bucket (err e) w = (err e, w)
  delete_instruction_file bucket (ok key) w = service.delete_object bucket key w

  unfoldable pub delete_object :
      String → String → Option (Option String) → ClientState → Result service.Reply × ClientState
  delete_object bucket key suffix s =
      let first = service.delete_object bucket key s.world in
      let (r, w) =
        (if config.instruction_file_config.disable_delete_object
          then first
          else also first
              (delete_instruction_file bucket (instruction_key key (suffix_argument suffix)))) in
      (wrapped delete_failed r, record s { world = w })

  abbrev pub delete_instruction_files :
      String → Result (List String) → service.World → Result service.Reply × service.World
  delete_instruction_files bucket (err e) w = (err e, w)
  delete_instruction_files bucket (ok keys) w = service.delete_objects bucket keys w

  unfoldable pub delete_objects :
      String
      → List String
      → Option (Option String)
      → ClientState
      → Result service.Reply × ClientState
  delete_objects bucket keys suffix s =
      let first = service.delete_objects bucket keys s.world in
      let (r, w) =
        (if config.instruction_file_config.disable_delete_objects
          then first
          else also first
              (delete_instruction_files bucket (instruction_keys keys (suffix_argument suffix)))) in
      (wrapped delete_failed r, record s { world = w })
