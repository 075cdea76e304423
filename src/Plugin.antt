-- ===== src/Plugin.antt =====
-- `S3EncryptionClientPlugin` and `_validate_encryption_context` of __init__.py: the handlers that
-- boto3 calls before a PutObject request and after a GetObject response.
pub mod Headers
use Prim.Native.Char.{code}
use amazon_s3_encryption_cli.Prelude.{
  Bool, true, not, ◌||◌, String, Bytes, Dict, insert, List, [], ◌∷◌, Option, none, some,
  if◌then◌else◌, str_eq, ltb, ◌&&◌, ℕ,
}
use amazon_s3_encryption_cli.Errors.{
  Result, ok, err, client_error, ◌>>=◌, ◌>>◌, raise_if, put_in_instruction_file_mode,
  unexpected_body, missing_content_length, context_not_dict, context_not_strings, context_not_ascii,
}
use amazon_s3_encryption_cli.Values.{Value}
use amazon_s3_encryption_cli.External.{
  Base64, Json, Primitives, Runtime, GcmEncryption, GcmDecryption, CbcDecryption, ByteSource,
}
use amazon_s3_encryption_cli.Keyring.{required}
use amazon_s3_encryption_cli.InstructionFile.{
  Response, S3Client, safe_metadata, process_instruction_file, fetch_instruction_file,
}
use amazon_s3_encryption_cli.Config.{S3EncryptionClientConfig, get_pipeline}
use amazon_s3_encryption_cli.Put.{encrypt}
use amazon_s3_encryption_cli.Get.Fetching.{Fetch, decrypt_in}
use amazon_s3_encryption_cli.Get.Content.{Plaintext}
use amazon_s3_encryption_cli.Get.Resolve.{Location, concat}

-- The libraries that a client runs with.
pub record Libraries : Type 1 where
  pub base64 : Base64
  pub json : Json
  pub primitives : Primitives
  pub runtime : Runtime
  pub gcm_encryption : GcmEncryption
  pub gcm_decryption : GcmDecryption
  pub cbc_decryption : CbcDecryption
  pub source : ByteSource

-- `append_user_agent` of _utils.py: what `user_agent_extra` of a client becomes.
unfoldable pub append_user_agent : Option String → String → String
append_user_agent none suffix = suffix
append_user_agent (some existing) suffix =
    if str_eq existing "" then suffix else concat existing (concat " " suffix)

-- A key or a value of the argument EncryptionContext.
pub data ContextText : Type 0 where
  string : String → ContextText
  not_string : ContextText

-- The argument EncryptionContext: missing or `None`, a dict, or an object of another type.
pub data ContextArgument : Type 0 where
  no_context : ContextArgument
  context_dict : List (ContextText × ContextText) → ContextArgument
  not_a_dict : ContextArgument

-- `s.isascii()`
unfoldable pub is_ascii : String → Bool
is_ascii String.[] = true
is_ascii (String.◌∷◌ c s) = ltb (code c) 128 && is_ascii s

abbrev pub both_strings : ContextText × ContextText → Result (String × String)
both_strings (string k, string v) = ok (k, v)
both_strings _ = err (client_error context_not_strings)

unfoldable pub validate_entries : List (ContextText × ContextText) → Result (Dict String)
validate_entries [] = ok []
validate_entries (e ∷ d) = do
  pair ← both_strings e
  raise_if (not (is_ascii pair.0) || not (is_ascii pair.1)) (client_error context_not_ascii)
  rest ← validate_entries d
  ok (pair ∷ rest)

-- `_validate_encryption_context`; what passes is a dict of strings.
unfoldable pub validate_encryption_context : ContextArgument → Result (Option (Dict String))
validate_encryption_context no_context = ok none
validate_encryption_context (context_dict d) = validate_entries d >>= λ valid. ok (some valid)
validate_encryption_context not_a_dict = err (client_error context_not_dict)

-- The thread-local attributes; `none` is an attribute that is not set. `instruction_file_mode` is
-- `getattr(context, "instruction_file_mode", False)`.
pub record ThreadContext : Type 0 where
  pub encryption_context : Option (Option (Dict String))
  pub bucket : Option (Option String)
  pub key : Option (Option String)
  pub s3_client : Bool
  pub instruction_file_mode : Bool
  pub instruction_file_suffix : Option (Option String)

-- `getattr(context, name, default)`
abbrev pub attribute_or {ℓ} : {A : Type ℓ} → A → Option A → A
attribute_or default none = default
attribute_or default (some a) = a

-- `params["body"]` after serialization; reading a file may raise.
pub data SerializedBody : Type 0 where
  no_body : SerializedBody
  body_bytes : Bytes → SerializedBody
  readable_body : Result Bytes → SerializedBody
  unexpected_type : SerializedBody

pub record SerializedPut : Type 0 where
  pub body : SerializedBody
  pub headers : Option (Dict Value)

unfoldable pub read_body : SerializedBody → Result Bytes
read_body no_body = ok []
read_body (body_bytes b) = ok b
read_body (readable_body r) = r
read_body unexpected_type = err (client_error unexpected_body)

abbrev pub s3_metadata_prefix : String
s3_metadata_prefix = "x-amz-meta-"

-- `for key, value in encryption_metadata.items(): headers[S3_METADATA_PREFIX + key] = value`
unfoldable pub with_metadata_headers : Dict Value → Dict Value → Dict Value
with_metadata_headers headers [] = headers
with_metadata_headers headers ((k, v) ∷ metadata) =
    with_metadata_headers (insert (concat s3_metadata_prefix k) v headers) metadata

module _ (libs : Libraries) (config : S3EncryptionClientConfig) where
  -- The body and the headers that are sent.
  unfoldable pub on_put_object_before_call :
      ThreadContext → SerializedPut → Result (Bytes × Dict Value)
  on_put_object_before_call c params = do
    raise_if c.instruction_file_mode (client_error put_in_instruction_file_mode)
    plaintext ← read_body params.body
    encrypted ←
        encrypt libs.base64 libs.json libs.primitives libs.runtime
          (record { cmm = config.cmm; encryption_algorithm = config.encryption_algorithm })
          plaintext (attribute_or none c.encryption_context)
    ok (encrypted.0, with_metadata_headers (safe_metadata params.headers) encrypted.1)

  -- The body of a response that the handler has seen: decrypted, or emptied because it was that of
  -- an instruction file.
  pub data HandledBody : Type 0 where
    decrypted : Plaintext libs.source libs.gcm_decryption libs.cbc_decryption → HandledBody
    emptied : HandledBody

  abbrev pub handled :
      Response libs.source.Body → Option HandledBody → Option (Dict Value) → Response HandledBody
  handled parsed body metadata = record {
    body = body;
    metadata = metadata;
    content_length = parsed.content_length;
  }

  -- The body of a response that is read whole.
  abbrev pub whole_body : Option libs.source.Body → Option (Result Bytes)
  whole_body none = none
  whole_body (some body) = some (libs.source.read_all body)

  -- The handler in the mode for instruction files.
  unfoldable pub handle_instruction_file : Response libs.source.Body → Result (Response HandledBody)
  handle_instruction_file parsed = do
    metadata ← process_instruction_file libs.runtime (whole_body parsed.body) parsed.metadata
    ok (handled parsed (some emptied) (some metadata))

  -- The attribute `key` after a fetch; a fetch that does not set it leaves it.
  abbrev pub key_after : Option (Option String) → Option String → Option (Option String)
  key_after before none = before
  key_after before (some key) = some (some key)

  -- The fetch of an instruction file by a client, and the attributes that it leaves.
  unfoldable pub fetch_by : S3Client → Fetch ThreadContext
  fetch_by client bucket key c =
      let (answer, left) = fetch_instruction_file client bucket key (record {
        instruction_file_mode = c.instruction_file_mode;
        key = attribute_or none c.key;
      }) in
      (
        answer,
        record c {
          instruction_file_mode = left.instruction_file_mode;
          key = key_after c.key left.key;
        },
      )

  -- `getattr(self._context, "s3_client", None)`
  abbrev pub fetch_with : S3Client → ThreadContext → Option (Fetch ThreadContext)
  fetch_with client c = if c.s3_client then some (fetch_by client) else none

  abbrev pub location : ThreadContext → Location
  location c = record {
    instruction_suffix = attribute_or (some ".instruction") c.instruction_file_suffix;
    bucket = attribute_or none c.bucket;
    key = attribute_or none c.key;
  }

  -- What becomes of the response.
  abbrev pub answered :
      Response libs.source.Body
      → Result (Plaintext libs.source libs.gcm_decryption libs.cbc_decryption)
      → Result (Response HandledBody)
  answered parsed r =
      r >>= λ plaintext. ok (handled parsed (some (decrypted plaintext)) parsed.metadata)

  -- The call of `decrypt`: what it returns or raises, and the attributes that its fetch leaves.
  abbrev pub decrypt_object :
      S3Client
      → ThreadContext
      → Response libs.source.Body
      → libs.source.Body
      → Result ℕ
      → Result (Response HandledBody) × ThreadContext
  decrypt_object client c parsed body (err e) = (err e, c)
  decrypt_object client c parsed body (ok content_length) =
      let (r, left) =
        decrypt_in (fetch_with client c) libs.source libs.gcm_decryption libs.cbc_decryption
          libs.base64 libs.primitives libs.json (get_pipeline config none) (location c)
          (safe_metadata parsed.metadata) body content_length
          (some config.enable_delayed_authentication) (attribute_or none c.encryption_context) c in
      (answered parsed r, left)

  -- The handler for an object: the response it makes, and the attributes it leaves.
  unfoldable pub handle_object :
      S3Client
      → ThreadContext
      → Response libs.source.Body
      → Result (Response HandledBody) × ThreadContext
  handle_object client c parsed = elim parsed.body [
    | none ↦ (ok (handled parsed none parsed.metadata), c)
    | some body ↦
        decrypt_object client c parsed body
          (required parsed.content_length (client_error missing_content_length))
  ]

  unfoldable pub on_get_object_after_call :
      S3Client
      → ThreadContext
      → Response libs.source.Body
      → Result (Response HandledBody) × ThreadContext
  unfolding handle_instruction_file handle_object
  on_get_object_after_call client c parsed =
      if c.instruction_file_mode
      then (handle_instruction_file parsed, c)
      else handle_object client c parsed
