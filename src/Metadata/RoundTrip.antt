-- ===== src/Metadata/RoundTrip.antt =====
-- `ObjectMetadata.from_dict` after `ObjectMetadata.to_dict`.
use amazon_s3_encryption_cli.Prelude.{
  ◌≡◌, refl, String, Dict, lookup, lookup-insert, Option, none, some, arith, str_eq, if◌then◌else◌,
  [],
}
use amazon_s3_encryption_cli.Errors.{ok}
use amazon_s3_encryption_cli.Values.{Value}
use amazon_s3_encryption_cli.External.{Json}
use amazon_s3_encryption_cli.Metadata.{
  ObjectMetadata, present, field, is_v3_format, put_some, dumped, always_dumped, to_dict, from_dict,
  parsed_context,
}

abbrev or_else {ℓ} : {A : Type ℓ} → Option A → Option A → Option A
or_else none b = b
or_else (some a) b = some a

or_else-none {ℓ} : {A : Type ℓ} (o : Option A) → or_else o none ≡ o
or_else-none none = refl
or_else-none (some a) = refl

lookup-put_some :
    (k j : String) (v : Option Value) (d : Dict Value)
    → lookup j (put_some k v d) ≡ (if str_eq k j then or_else v (lookup j d) else lookup j d)
lookup-put_some k j none d = ground arith
lookup-put_some k j (some v) d = lookup-insert k j v d

lookup-nil : (k : String) → lookup {V = Value} k [] ≡ none
unfolding lookup
lookup-nil k = refl

-- What is left of metadata that was written and read back: dictionaries of V3 have become JSON
-- text, and V3 has no tag length.
abbrev pub written : Json → ObjectMetadata → ObjectMetadata
written json m = record {
  encrypted_data_key_v1 = present m.encrypted_data_key_v1;
  encrypted_data_key_v2 = present m.encrypted_data_key_v2;
  encrypted_data_key_algorithm = present m.encrypted_data_key_algorithm;
  encrypted_data_key_context = m.encrypted_data_key_context;
  content_iv = present m.content_iv;
  content_cipher = present m.content_cipher;
  content_cipher_tag_length =
      present (if is_v3_format m then none else m.content_cipher_tag_length);
  instruction_file = present m.instruction_file;
  content_cipher_v3 = present m.content_cipher_v3;
  encrypted_data_key_v3 = present m.encrypted_data_key_v3;
  mat_desc_v3 = present (dumped json m.mat_desc_v3);
  encryption_context_v3 = present (dumped json m.encryption_context_v3);
  encrypted_data_key_algorithm_v3 = present m.encrypted_data_key_algorithm_v3;
  key_commitment_v3 = present m.key_commitment_v3;
  message_id_v3 = present m.message_id_v3;
}

present-always_dumped :
    (json : Json) (v : Option Value) → present (always_dumped json v) ≡ always_dumped json v
present-always_dumped json none = refl
present-always_dumped json (some v) = refl

-- Reading back what was written gives the metadata again, with values that are `None` missing,
-- dictionaries of V3 as JSON text and no tag length in V3, if the JSON of the V1 and V2 context
-- reads back as the context.
pub from_dict-to_dict :
    (json : Json) (m : ObjectMetadata)
    → parsed_context json (always_dumped json m.encrypted_data_key_context)
      ≡ ok m.encrypted_data_key_context
    → from_dict json (to_dict json m) ≡ ok (written json m)
unfolding from_dict to_dict field
from_dict-to_dict json m h =
    simp (lookup-put_some, lookup-nil, or_else-none, present-always_dumped, h)
