-- ===== src/Tests/ClientReturns.antt =====
-- What a client puts and uploads, and then gets.
use amazon_s3_encryption_cli.Prelude.{
  ◌≡◌, refl, true, [], ◌∷◌, none, some, arith, lookup, insert, erase, update,
}
use amazon_s3_encryption_cli.Errors.{Result, ok}
use amazon_s3_encryption_cli.Multipart.{create, init_kc_gcm, encrypt_part}
use amazon_s3_encryption_cli.Keyring.{kms_on_encrypt}
use amazon_s3_encryption_cli.KeyDerivation.{derive_keys}
use amazon_s3_encryption_cli.Put.{kc_gcm_metadata, encrypt, encrypt_kc_gcm}
use amazon_s3_encryption_cli.Metadata.{to_dict}
use amazon_s3_encryption_cli.Plugin.{
  validate_encryption_context, context_dict, validate_entries, read_body, body_bytes,
  on_put_object_before_call, decrypted,
}
use amazon_s3_encryption_cli.Get.Content.{buffered}
use amazon_s3_encryption_cli.Client.RoundTrip.{get_object-put_object}
use amazon_s3_encryption_cli.Client.{State, Handled, wrapped_put_object, put_object, get_object}
use amazon_s3_encryption_cli.Client.Uploads.{
  create_multipart_upload, complete_multipart_upload, upload_part,
}
use amazon_s3_encryption_cli.Client.Readable.{
  upload_chunks, upload_round, read_and_upload, Destination, multipart_upload_from_readable,
}
use amazon_s3_encryption_cli.Plugin.{ContextArgument}
use amazon_s3_encryption_cli.Values.{members}
use amazon_s3_encryption_cli.Client.UploadRoundTrip.{get_object-multipart_upload}
use amazon_s3_encryption_cli.Client.Returned.{get_arguments}
use amazon_s3_encryption_cli.Tests.Service.{in_memory-stored, plain_one_shot}
use amazon_s3_encryption_cli.Tests.Libraries.{
  memory, memory-laws, plain_gcm_encryption-laws, letters-laws, one_key-laws, plain_gcm-laws,
  plain_aes,
}
use amazon_s3_encryption_cli.Tests.Service.{
  libraries, config, in_memory, in_memory-laws, new_client, keyring, in_memory-objects,
}
use amazon_s3_encryption_cli.Tests.Client.{place, put, file, Run, file_after, client_after}

abbrev no_pairs : ContextArgument
no_pairs = context_dict []

abbrev put_two : Result (Unit {0}) × State libraries in_memory
put_two = put_object libraries config in_memory put no_pairs new_client

put_two_ok : put_two ≡ (ok tt, put_two.1)
unfolding put_object wrapped_put_object on_put_object_before_call validate_encryption_context
    validate_entries read_body encrypt encrypt_kc_gcm kms_on_encrypt derive_keys lookup
put_two_ok = refl

get_object-put_object_example :
    (r : Handled libraries config in_memory) × ((get_object libraries config in_memory
        (get_arguments "bucket" "key" no_pairs none)
        put_two.1).0
      ≡ ok r)
    × (r.body ≡ some (decrypted (buffered (4 ∷ 5 ∷ []))))
unfolding validate_encryption_context validate_entries read_body lookup insert members
get_object-put_object_example =
    get_object-put_object libraries in_memory in_memory-objects keyring put no_pairs []
      (record { body = body_bytes (4 ∷ 5 ∷ []); headers = none }) (4 ∷ 5 ∷ []) none new_client
      put_two.1 tt letters-laws refl one_key-laws plain_gcm-laws plain_aes
      (record { is_dict = tt; no_cek_alg = refl; no_cmk_id = refl }) refl refl refl
      (λ k known. refl) put_two_ok

abbrev place_with_context : Destination
place_with_context = record place { encryption_context = no_pairs }

abbrev uploaded_with_context : Run
uploaded_with_context =
    multipart_upload_from_readable libraries config in_memory memory 5 place_with_context 2 true
      file new_client

uploaded_with_context_ok :
    uploaded_with_context
    ≡ some (ok tt, file_after uploaded_with_context, client_after uploaded_with_context)
unfolding multipart_upload_from_readable create_multipart_upload validate_encryption_context
    validate_entries create init_kc_gcm kms_on_encrypt derive_keys to_dict kc_gcm_metadata
    read_and_upload upload_chunks upload_round upload_part complete_multipart_upload encrypt_part
    lookup insert erase update
uploaded_with_context_ok = refl

get_object-multipart_upload_example :
    (r : Handled libraries config in_memory) × ((get_object libraries config in_memory
        (get_arguments "bucket" "key" no_pairs none)
        (client_after uploaded_with_context)).0
      ≡ ok r)
    × (r.body ≡ some (decrypted (buffered (4 ∷ 5 ∷ 6 ∷ []))))
unfolding validate_encryption_context validate_entries lookup insert members
    multipart_upload_from_readable create_multipart_upload create init_kc_gcm kms_on_encrypt
    derive_keys to_dict kc_gcm_metadata read_and_upload upload_chunks upload_round upload_part
    complete_multipart_upload encrypt_part erase update
get_object-multipart_upload_example =
    get_object-multipart_upload libraries in_memory in_memory-laws in_memory-stored keyring memory
      memory-laws plain_gcm_encryption-laws plain_one_shot 5 place_with_context 2 true file
      (file_after uploaded_with_context) [] none new_client (client_after uploaded_with_context) tt
      letters-laws refl one_key-laws plain_gcm-laws plain_aes
      (record { is_dict = tt; no_cek_alg = refl; no_cmk_id = refl }) refl (λ k known. refl)
      (omega arith) refl uploaded_with_context_ok
