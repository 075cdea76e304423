-- ===== src/InstructionFile.antt =====
-- instruction_file.py, instruction_file_config.py, `safe_get_dict` of _utils.py and
-- `process_instruction_file` of the plugin in __init__.py.
pub mod Keys
use amazon_s3_encryption_cli.Prelude.{
  Bool, true, false, not, ◌&&◌, ◌||◌, String, Bytes, Dict, update, List, [], ◌∷◌, Option, none,
  some, str_eq, is_empty, if◌then◌else◌, ℕ,
}
use amazon_s3_encryption_cli.Errors.{
  Error, Result, ok, err, client_error, service_error, json_decode_error, ◌>>=◌, ◌>>◌, raise_if,
  not_json, not_json_object, invalid_keys, plugin_missing, fetch_failed, empty_metadata,
  no_s3ec_keys, instruction_body_empty,
}
use amazon_s3_encryption_cli.Values.{Value}
use amazon_s3_encryption_cli.External.{Runtime, Document, json_object, other_value}
use amazon_s3_encryption_cli.Metadata.{valid_s3ec_metadata_keys}

pub record InstructionFileConfig : Type 0 where
  pub disable_get_object : Bool
  pub disable_delete_object : Bool
  pub disable_delete_objects : Bool

abbrev pub config_defaults : InstructionFileConfig
config_defaults = record {
  disable_get_object = false;
  disable_delete_object = false;
  disable_delete_objects = false;
}

-- `key in VALID_S3EC_METADATA_KEYS`
abbrev pub is_among : List String → String → Bool
is_among [] k = false
is_among (j ∷ js) k = str_eq j k || is_among js k

unfoldable pub is_s3ec_key : String → Bool
is_s3ec_key k = is_among valid_s3ec_metadata_keys k

unfoldable pub all_s3ec_keys : Dict Value → Bool
all_s3ec_keys [] = true
all_s3ec_keys ((k, v) ∷ d) = is_s3ec_key k && all_s3ec_keys d

unfoldable pub any_s3ec_key : Dict Value → Bool
any_s3ec_key [] = false
any_s3ec_key ((k, v) ∷ d) = is_s3ec_key k || any_s3ec_key d

-- `except json.JSONDecodeError`; any other exception goes on.
abbrev pub decode_handler : Error → Error
decode_handler json_decode_error = client_error not_json
decode_handler e = e

abbrev pub parsed_object : Result Document → Result (Dict Value)
parsed_object (err e) = err (decode_handler e)
parsed_object (ok other_value) = err (client_error not_json_object)
parsed_object (ok (json_object d)) = ok d

unfoldable pub parse_instruction_file : Runtime → Bytes → Result (Dict Value)
parse_instruction_file runtime bytes = do
  metadata ← parsed_object (runtime.loads_document bytes)
  raise_if (not (all_s3ec_keys metadata)) (client_error invalid_keys)
  ok metadata

-- A parsed response of GetObject. `B` is the type of bodies.
pub record Response (B : Type 0) : Type 0 where
  pub body : Option B
  pub metadata : Option (Dict Value)
  pub content_length : Option ℕ

-- `safe_get_dict(response, "Metadata")`
abbrev pub safe_metadata : Option (Dict Value) → Dict Value
safe_metadata none = []
safe_metadata (some d) = d

-- `process_instruction_file`: the response's metadata with that of the file, which wins. `bytes`
-- is what reading the body gives.
unfoldable pub process_instruction_file :
    Runtime → Option (Result Bytes) → Option (Dict Value) → Result (Dict Value)
process_instruction_file runtime none metadata = err (client_error instruction_body_empty)
process_instruction_file runtime (some read) metadata = do
  bytes ← read
  parsed ← parse_instruction_file runtime bytes
  ok (update (safe_metadata metadata) parsed)

-- What the plugin keeps for a thread, as far as the fetch of an instruction file uses it.
pub record PluginContext : Type 0 where
  pub instruction_file_mode : Bool
  pub key : Option String

-- A boto3 client: the context of the plugin, if it is installed, and its `get_object`, which sees
-- that context in the event handler and returns the metadata of the response.
pub record S3Client : Type 0 where
  pub has_plugin : Bool
  pub get_object : PluginContext → String → String → Result (Option (Dict Value))

-- `except ClientError`
abbrev pub fetch_handler : Error → Error
fetch_handler service_error = client_error fetch_failed
fetch_handler e = e

abbrev pub fetched : Result (Option (Dict Value)) → Result (Dict Value)
fetched (err e) = err (fetch_handler e)
fetched (ok metadata) = do
  raise_if (is_empty (safe_metadata metadata)) (client_error empty_metadata)
  raise_if (not (any_s3ec_key (safe_metadata metadata))) (client_error no_s3ec_keys)
  ok (safe_metadata metadata)

-- The flag is cleared by `finally`, whatever the call gave; the key stays.
unfoldable pub fetch_instruction_file :
    S3Client → String → String → PluginContext → Result (Dict Value) × PluginContext
fetch_instruction_file client bucket key c =
    if client.has_plugin
    then (
      fetched
          (client.get_object (record { instruction_file_mode = true; key = some key }) bucket key),
      record { instruction_file_mode = false; key = some key },
    )
    else (err (client_error plugin_missing), c)
