-- ===== src/Tests/Fetches.antt =====
-- Calls of GetObject that fetch an instruction file, and what they leave of the thread's attributes.
use amazon_s3_encryption_cli.Prelude.{
  ◌≡◌, refl, true, false, [], ◌∷◌, none, some, if◌then◌else◌, lookup,
}
use amazon_s3_encryption_cli.Errors.{
  ok, err, client_error, service_error, not_json_object, fetch_failed,
}
use amazon_s3_encryption_cli.Metadata.{from_dict, field, should_use_instruction_file}
use amazon_s3_encryption_cli.InstructionFile.{
  S3Client, fetch_instruction_file, process_instruction_file, parse_instruction_file,
}
use amazon_s3_encryption_cli.Get.Fetching.{decrypt_in, resolve_metadata_in}
use amazon_s3_encryption_cli.Plugin.{
  ThreadContext, fetch_by, on_get_object_after_call, handle_instruction_file,
  validate_encryption_context, no_context,
}
use amazon_s3_encryption_cli.Client.{State, GetArguments, get_object}
use amazon_s3_encryption_cli.Tests.Service.{libraries, config, in_memory, new_client}

abbrev pub get : GetArguments
get = record {
  bucket = "bucket";
  key = "key";
  has_range = false;
  encryption_context = no_context;
  instruction_file_suffix = none;
}

-- An object that has none of the client's metadata, which an instruction file has to complete.
abbrev pub foreign : State libraries in_memory
foreign = record new_client {
  world = record { parts = []; metadata = []; object = some ([], 4 ∷ 5 ∷ []) };
}

-- The attributes that `get_object` has set when the handler is called.
abbrev attributes : ThreadContext
attributes = record {
  encryption_context = some none;
  bucket = some (some "bucket");
  key = some (some "key");
  s3_client = true;
  instruction_file_mode = false;
  instruction_file_suffix = some (some ".instruction");
}

-- A client that reports the mode that it is called in.
abbrev watching : S3Client
watching = record {
  has_plugin = true;
  get_object = λ c bucket key. if c.instruction_file_mode then err service_error else ok none;
}

-- The mode is on while the file is fetched and off afterwards; the key is that of the file.
fetch_in_mode :
    fetch_by libraries config watching "bucket" "key.instruction" attributes
    ≡ (err (client_error fetch_failed), record attributes { key = some (some "key.instruction") })
unfolding fetch_by fetch_instruction_file
fetch_in_mode = refl

-- The handler fetches the file and leaves what the fetch left.
handler_fetches :
    on_get_object_after_call libraries config watching attributes
      (record { body = some (4 ∷ 5 ∷ []); metadata = none; content_length = some 2 })
    ≡ (err (client_error fetch_failed), record attributes { key = some (some "key.instruction") })
unfolding on_get_object_after_call decrypt_in resolve_metadata_in from_dict field lookup
    should_use_instruction_file fetch_by fetch_instruction_file
handler_fetches = refl

-- `get_object` has deleted the key again, and the mode is off.
get_object_fetches : get_object libraries config in_memory get foreign ≡ (
  err (client_error not_json_object),
  record foreign { context = record foreign.context { s3_client = true } },
)
unfolding get_object validate_encryption_context on_get_object_after_call decrypt_in
    resolve_metadata_in from_dict field lookup should_use_instruction_file fetch_by
    fetch_instruction_file handle_instruction_file process_instruction_file parse_instruction_file
get_object_fetches = refl
