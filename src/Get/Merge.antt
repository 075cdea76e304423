-- ===== src/Get/Merge.antt =====
-- Which of the resolved metadata an instruction file can set.
use amazon_s3_encryption_cli.Prelude.{
  ◌≡◌, refl, ap, ◌∙◌, Bool, false, ◌&&◌, ◌||◌, ℕ, String, Dict, IsDict, lookup, update, contains,
  lookup-update_new, Option, none, some, is_some, arith, Bool-cases, inl, inr,
}
use amazon_s3_encryption_cli.Errors.{
  ok, client_error, >>=-eq-ok, raise_if, instruction_file_tampered, illegal_combination,
  instruction_files_disabled, s3_client_required, bucket_and_key_required, suffix_required,
}
use amazon_s3_encryption_cli.Values.{Value}
use amazon_s3_encryption_cli.External.{
  Base64, Json, Primitives, GcmDecryption, CbcDecryption, ByteSource,
}
use amazon_s3_encryption_cli.Metadata.{
  ObjectMetadata, from_dict, field, present, parsed_context, is_v1_format, is_v2_format,
  should_use_instruction_file,
}
use amazon_s3_encryption_cli.Keyring.{required}
use amazon_s3_encryption_cli.Get.{decrypt, reject_mixed_keys}
use amazon_s3_encryption_cli.Get.Resolve.{
  GetEncryptedObjectPipeline, Location, both, concat, has_exclusive_keys, has_content_metadata,
  merge_instruction_file, with_instruction_file, resolve_metadata,
}
use amazon_s3_encryption_cli.Get.Content.{Plaintext}
use amazon_s3_encryption_cli.Get.Cleared.{decrypt-Cleared}

-- The V3 content keys of metadata are those of the dictionary of the object.
pub record OwnsContentKeys (object_dict : Dict Value) (m : ObjectMetadata) : Type 0 where
  pub cipher : m.content_cipher_v3 ≡ field "x-amz-c" object_dict
  pub commitment : m.key_commitment_v3 ≡ field "x-amz-d" object_dict
  pub message_id : m.message_id_v3 ≡ field "x-amz-i" object_dict

none_of_contains : (k : String) (d : Dict Value) → contains k d ≡ false → lookup k d ≡ none
none_of_contains k d h = go (lookup k d) h
  where
    go : (o : Option Value) → is_some o ≡ false → o ≡ none
    go none e = refl
    go (some v) e = cc

field-update :
    (k : String) (instruction object_dict : Dict Value)
    → IsDict object_dict
    → contains k instruction ≡ false
    → field k (update instruction object_dict) ≡ field k object_dict
unfolding field
field-update k instruction object_dict d h =
    ap present (lookup-update_new k instruction object_dict d (none_of_contains k instruction h))

from_dict-OwnsContentKeys :
    (json : Json) (d : Dict Value) (m : ObjectMetadata)
    → from_dict json d ≡ ok m
    → OwnsContentKeys d m
unfolding from_dict
from_dict-OwnsContentKeys json d m h =
    let (c, _, built) = >>=-eq-ok (parsed_context json (field "x-amz-matdesc" d)) _ h in
    record { cipher = cc; commitment = cc; message_id = cc }

merge-OwnsContentKeys :
    (json : Json) (object_dict instruction : Dict Value) (object_metadata m : ObjectMetadata)
    → IsDict object_dict
    → merge_instruction_file json object_dict object_metadata instruction ≡ ok m
    → OwnsContentKeys object_dict m
unfolding merge_instruction_file has_exclusive_keys
merge-OwnsContentKeys json object_dict instruction object_metadata m d h =
    let (_, clean, h1) =
      >>=-eq-ok (raise_if (has_exclusive_keys instruction) (client_error instruction_file_tampered))
        _ h in
    let (merged, parsed, h2) = >>=-eq-ok (from_dict json (update instruction object_dict)) _ h1 in
    let (_, _, built) =
      >>=-eq-ok
        (raise_if
          ((is_v1_format merged || is_v2_format merged) && has_content_metadata object_metadata)
          (client_error illegal_combination))
        _ h2 in
    let same : merged ≡ m = cc in
    let owns =
      from_dict-OwnsContentKeys json (update instruction object_dict) m (rw same at parsed) in
    let no_c : contains "x-amz-c" instruction ≡ false = ground arith in
    let no_d : contains "x-amz-d" instruction ≡ false = ground arith in
    let no_i : contains "x-amz-i" instruction ≡ false = ground arith in
    record {
      cipher = owns.cipher ∙ field-update "x-amz-c" instruction object_dict d no_c;
      commitment = owns.commitment ∙ field-update "x-amz-d" instruction object_dict d no_d;
      message_id = owns.message_id ∙ field-update "x-amz-i" instruction object_dict d no_i;
    }

-- For object metadata with no key twice: whether or not an instruction file completes it, the
-- content keys of V3 (the cipher, the commitment and the message id) in what is resolved are
-- exactly those of the object's own metadata.
pub resolve_metadata-OwnsContentKeys :
    (json : Json) (pipeline : GetEncryptedObjectPipeline) (place : Location)
    (object_dict : Dict Value) (m : ObjectMetadata)
    → IsDict object_dict
    → resolve_metadata json pipeline place object_dict ≡ ok m
    → OwnsContentKeys object_dict m
unfolding resolve_metadata with_instruction_file
resolve_metadata-OwnsContentKeys json pipeline place object_dict m d h =
    let (first, parsed, h1) = >>=-eq-ok (from_dict json object_dict) _ h in
    elim (Bool-cases (should_use_instruction_file first)) [
      | inl needed ↦
          let h2 = simp needed at h1 in
          let (_, _, h3) =
            >>=-eq-ok
              (raise_if pipeline.instruction_file_config.disable_get_object
                (client_error instruction_files_disabled))
              _ h2 in
          let (fetch, _, h4) =
            >>=-eq-ok (required pipeline.s3_client (client_error s3_client_required)) _ h3 in
          let (at_place, _, h5) =
            >>=-eq-ok
              (required (both place.bucket place.key) (client_error bucket_and_key_required)) _
              h4 in
          let (suffix, _, h6) =
            >>=-eq-ok (required place.instruction_suffix (client_error suffix_required)) _ h5 in
          let (instruction, _, h7) = >>=-eq-ok (fetch at_place.0 (concat at_place.1 suffix)) _ h6 in
          merge-OwnsContentKeys json object_dict instruction first m d h7
      | inr own ↦ from_dict-OwnsContentKeys json object_dict m (parsed ∙ (simp own at h1))
    ]

not_v2_of_cipher :
    (m : ObjectMetadata) (v : Value)
    → reject_mixed_keys m ≡ ok tt
    → m.content_cipher_v3 ≡ some v
    → is_v2_format m ≡ false
unfolding reject_mixed_keys
not_v2_of_cipher m v h c = ground arith

-- An object whose own metadata, with no key twice, has the cipher of V3 is never decrypted as a V2
-- object, whatever an instruction file says: if `decrypt` returns, the resolved metadata has that
-- cipher and is not in the V2 format.
pub decrypt-not_v2 :
    (src : ByteSource) (g : GcmDecryption) (b : CbcDecryption) (base64 : Base64)
    (prims : Primitives) (json : Json) (pipeline : GetEncryptedObjectPipeline) (place : Location)
    (object_dict : Dict Value) (body : src.Body) (content_length : ℕ) (delayed : Option Bool)
    (context : Option (Dict String)) (plaintext : Plaintext src g b) (v : Value)
    → IsDict object_dict
    → field "x-amz-c" object_dict ≡ some v
    → decrypt src g b base64 prims json pipeline place object_dict body content_length delayed
        context
      ≡ ok plaintext
    → (m : ObjectMetadata) × (resolve_metadata json pipeline place object_dict ≡ ok m)
      × (m.content_cipher_v3 ≡ some v)
      × (is_v2_format m ≡ false)
decrypt-not_v2 src g b base64 prims json pipeline place object_dict body n delayed context plaintext
      v d has returned =
    let c =
      decrypt-Cleared src g b base64 prims json pipeline place object_dict body n delayed context
        plaintext returned in
    let owns =
      resolve_metadata-OwnsContentKeys json pipeline place object_dict c.metadata d c.resolved in
    let cipher : c.metadata.content_cipher_v3 ≡ some v = owns.cipher ∙ has in
    (c.metadata, c.resolved, cipher, not_v2_of_cipher c.metadata v c.unmixed cipher)
