-- ===== src/Tests/Client.antt =====
-- Calls of a client with a service in memory.
use amazon_s3_encryption_cli.Prelude.{
  ◌≡◌, refl, true, false, Bytes, [], ◌∷◌, Option, none, some, arith, lookup, insert, erase, update,
  String,
}
use amazon_s3_encryption_cli.Errors.{Result, ok}
use amazon_s3_encryption_cli.Multipart.{create, init_kc_gcm, encrypt_part}
use amazon_s3_encryption_cli.Keyring.{kms_on_encrypt}
use amazon_s3_encryption_cli.KeyDerivation.{derive_keys}
use amazon_s3_encryption_cli.Put.{kc_gcm_metadata}
use amazon_s3_encryption_cli.Metadata.{to_dict}
use amazon_s3_encryption_cli.Plugin.{
  no_context, validate_encryption_context, context_dict, validate_entries,
}
use amazon_s3_encryption_cli.Client.{
  State, PutArguments, of_bytes, put_object, get_object, delete_object, delete_objects,
}
use amazon_s3_encryption_cli.Client.Uploads.{
  create_multipart_upload, complete_multipart_upload, upload_part,
}
use amazon_s3_encryption_cli.Client.Readable.{
  FileSystem, upload_chunks, upload_round, read_and_upload, Destination, Readable, Uploaded,
  create_arguments, multipart_upload_from_readable, upload_fileobj,
}
use amazon_s3_encryption_cli.Client.Failures.{OnlyClientErrors, operations-OnlyClientErrors}
use amazon_s3_encryption_cli.Client.Stored.{StoredWhole, multipart_upload-StoredWhole}
use amazon_s3_encryption_cli.Client.Complete.{multipart_upload-forgets}
use amazon_s3_encryption_cli.Client.Ends.{upload_fileobj_total}
use amazon_s3_encryption_cli.Client.Reach.{Call, Calls, Calls-IsConsistent}
use amazon_s3_encryption_cli.Client.Consistent.{IsConsistent}
use amazon_s3_encryption_cli.Plugin.{append_user_agent, string, is_ascii}
use amazon_s3_encryption_cli.Errors.{err, client_error, final_part_missing, context_not_ascii}
use amazon_s3_encryption_cli.Client.Uploads.{abort_multipart_upload}
use amazon_s3_encryption_cli.Client.Readable.{check_chunksize}
use amazon_s3_encryption_cli.Client.{fetching_client}
use amazon_s3_encryption_cli.Errors.{instruction_body_empty}
use amazon_s3_encryption_cli.InstructionFile.{process_instruction_file}
use amazon_s3_encryption_cli.Plugin.{handle_instruction_file}
use amazon_s3_encryption_cli.Tests.Fetches.{get, foreign}
use amazon_s3_encryption_cli.Tests.Libraries.{memory, memory-laws, plain_gcm_encryption-laws}
use amazon_s3_encryption_cli.Tests.Service.{
  libraries, config, in_memory, in_memory-laws, new_client,
}

abbrev pub place : Destination
place = record { bucket = "bucket"; key = "key"; metadata = none; encryption_context = no_context }

abbrev pub put : PutArguments
put = record { bucket = "bucket"; key = "key"; body = of_bytes (4 ∷ 5 ∷ []); metadata = none }

operations-OnlyClientErrors_example :
    OnlyClientErrors (put_object libraries config in_memory put no_context new_client).0
    × OnlyClientErrors (get_object libraries config in_memory get new_client).0
    × OnlyClientErrors (delete_object libraries config in_memory "bucket" "key" none new_client).0
    × OnlyClientErrors
        (delete_objects libraries config in_memory "bucket" ("key" ∷ []) none new_client).0
operations-OnlyClientErrors_example =
    operations-OnlyClientErrors libraries config in_memory put no_context get "bucket" "key"
      ("key" ∷ []) none new_client

abbrev pub file : Readable Bytes
file = record { handle = 4 ∷ 5 ∷ 6 ∷ []; is_closed = false }

abbrev pub Run : Type 0
Run = Option (Uploaded libraries config in_memory memory)

-- Three bytes in parts of two.
abbrev uploaded : Run
uploaded =
    multipart_upload_from_readable libraries config in_memory memory 5 place 2 true file new_client

abbrev pub file_after : Run → Readable Bytes
file_after none = file
file_after (some (r, f, s)) = f

abbrev pub client_after : Run → State libraries in_memory
client_after none = new_client
client_after (some (r, f, s)) = s

uploaded_ok : uploaded ≡ some (ok tt, file_after uploaded, client_after uploaded)
unfolding multipart_upload_from_readable create_multipart_upload validate_encryption_context create
    init_kc_gcm kms_on_encrypt derive_keys to_dict kc_gcm_metadata read_and_upload upload_chunks
    upload_round upload_part complete_multipart_upload encrypt_part lookup insert erase update
uploaded_ok = refl

multipart_upload-StoredWhole_example :
    StoredWhole libraries config in_memory in_memory-laws plain_gcm_encryption-laws memory
      memory-laws place
      (4 ∷ 5 ∷ 6 ∷ [])
      (client_after uploaded).world
multipart_upload-StoredWhole_example =
    multipart_upload-StoredWhole libraries config in_memory in_memory-laws plain_gcm_encryption-laws
      memory memory-laws 5 place 2 true file (file_after uploaded) new_client
      (client_after uploaded) tt (omega arith) uploaded_ok

abbrev created : Result String × State libraries in_memory
created = create_multipart_upload libraries config in_memory (create_arguments place) new_client

created_ok : created ≡ (ok "upload", created.1)
unfolding create_multipart_upload validate_encryption_context create init_kc_gcm kms_on_encrypt
    derive_keys lookup
created_ok = refl

multipart_upload-forgets_example :
    (lookup "upload" (client_after uploaded).uploads ≡ none)
    × (true ≡ true → (file_after uploaded).is_closed ≡ true)
multipart_upload-forgets_example =
    multipart_upload-forgets libraries config in_memory memory 5 place 2 true file
      (file_after uploaded) new_client created.1 (client_after uploaded) "upload" (ok tt) created_ok
      uploaded_ok

upload_fileobj_total_example :
    (r : Uploaded libraries config in_memory memory) × (upload_fileobj libraries config in_memory
        memory 5 place none
        (4 ∷ 5 ∷ 6 ∷ [])
        new_client
      ≡ some r)
upload_fileobj_total_example =
    upload_fileobj_total libraries config in_memory memory memory-laws place none (4 ∷ 5 ∷ 6 ∷ [])
      new_client

foreign-IsConsistent : IsConsistent libraries config in_memory foreign
unfolding lookup
foreign-IsConsistent = record {
  clean = record {
    no_encryption_context = refl;
    no_bucket = refl;
    no_key = refl;
    no_suffix = refl;
  };
  no_mode = refl;
  well_formed = λ id p h. absurd (ground arith);
}

abbrev file_system : FileSystem
file_system = record {
  files = memory;
  getsize = λ name. ok 3;
  open_file = λ name. ok (4 ∷ 5 ∷ 6 ∷ []);
}

-- GetObject fetches an instruction file, and PutObject comes after it.
abbrev after_get : State libraries in_memory
after_get = (get_object libraries config in_memory get foreign).1

get_then_put :
    Calls libraries config in_memory file_system foreign
      (put_object libraries config in_memory put no_context after_get).1
get_then_put =
    Calls.next (Calls.next Calls.none_made (Call.get get refl)) (Call.put put no_context refl)

Calls-IsConsistent_example :
    IsConsistent libraries config in_memory
      (put_object libraries config in_memory put no_context after_get).1
Calls-IsConsistent_example =
    Calls-IsConsistent libraries config in_memory file_system foreign
      (put_object libraries config in_memory put no_context after_get).1 get_then_put
      foreign-IsConsistent

user_agent : append_user_agent (some "app/1") "S3ECPy/4" ≡ "app/1 S3ECPy/4"
unfolding append_user_agent
user_agent = refl

-- An empty file-like object is not uploaded: no part of it is the last one.
abbrev nothing_uploaded : Run
nothing_uploaded = upload_fileobj libraries config in_memory memory 5 place none [] new_client

upload_nothing :
    nothing_uploaded
    ≡ some (
      err (client_error final_part_missing),
      file_after nothing_uploaded,
      client_after nothing_uploaded,
    )
unfolding upload_fileobj multipart_upload_from_readable create_multipart_upload
    validate_encryption_context create init_kc_gcm kms_on_encrypt derive_keys to_dict
    kc_gcm_metadata read_and_upload upload_chunks upload_round complete_multipart_upload
    abort_multipart_upload lookup insert erase update check_chunksize
upload_nothing = refl

-- A context that is not ASCII is refused before anything is set.
refused :
    put_object libraries config in_memory put
      (context_dict ((string "k", string "é") ∷ []))
      new_client
    ≡ (err (client_error context_not_ascii), new_client)
unfolding put_object validate_encryption_context validate_entries is_ascii
refused = refl

-- The fetch of an instruction file that is missing: the handler raises before boto3 can.
missing_file :
    (fetching_client libraries config in_memory new_client.world).get_object
      (record { instruction_file_mode = true; key = some "key.instruction" })
      "bucket"
      "key.instruction"
    ≡ err (client_error instruction_body_empty)
unfolding handle_instruction_file process_instruction_file
missing_file = refl
