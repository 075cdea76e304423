-- ===== src/Metadata.antt =====
-- metadata.py: `ObjectMetadata`, its dictionary form and the tests for the three message formats.
pub mod Formats
pub mod Agree
pub mod RoundTrip
use amazon_s3_encryption_cli.Prelude.{
  ◌+◌, ◌≡◌, Bool, true, false, not, ◌&&◌, ◌||◌, String, Dict, lookup, insert, contains, List, [],
  ◌∷◌, Option, none, some, is_some, ltb, if◌then◌else◌, ℕ,
}
use amazon_s3_encryption_cli.Errors.{Result, ok, err, type_error, ◌>>=◌}
use amazon_s3_encryption_cli.Values.{Value, null, text, object, number, array}
use amazon_s3_encryption_cli.External.{Json}

pub record ObjectMetadata : Type 0 where
  pub encrypted_data_key_v1 : Option Value
  pub encrypted_data_key_v2 : Option Value
  pub encrypted_data_key_algorithm : Option Value
  pub encrypted_data_key_context : Option Value
  pub content_iv : Option Value
  pub content_cipher : Option Value
  pub content_cipher_tag_length : Option Value
  pub instruction_file : Option Value
  pub content_cipher_v3 : Option Value
  pub encrypted_data_key_v3 : Option Value
  pub mat_desc_v3 : Option Value
  pub encryption_context_v3 : Option Value
  pub encrypted_data_key_algorithm_v3 : Option Value
  pub key_commitment_v3 : Option Value
  pub message_id_v3 : Option Value

-- `ObjectMetadata()`: every field has its default.
abbrev pub blank : ObjectMetadata
blank = record {
  encrypted_data_key_v1 = none;
  encrypted_data_key_v2 = none;
  encrypted_data_key_algorithm = none;
  encrypted_data_key_context = none;
  content_iv = none;
  content_cipher = none;
  content_cipher_tag_length = some (text "128");
  instruction_file = none;
  content_cipher_v3 = none;
  encrypted_data_key_v3 = none;
  mat_desc_v3 = none;
  encryption_context_v3 = none;
  encrypted_data_key_algorithm_v3 = none;
  key_commitment_v3 = none;
  message_id_v3 = none;
}

-- A value that is `None` counts as missing.
abbrev pub present : Option Value → Option Value
present none = none
present (some null) = none
present (some v) = some v

-- `metadata_dict.get(k)`
unfoldable pub field : String → Dict Value → Option Value
field k d = present (lookup k d)

abbrev pub count : Bool → ℕ
count b = if b then 1 else 0

module _ (m : ObjectMetadata) where
  unfoldable pub is_v1_format : Bool
  is_v1_format =
      is_some m.content_iv
      && is_some m.encrypted_data_key_context
      && is_some m.encrypted_data_key_v1
      && not (is_some m.encrypted_data_key_v2)

  unfoldable pub is_v2_format : Bool
  is_v2_format =
      is_some m.content_cipher
      && is_some m.content_iv
      && is_some m.encrypted_data_key_algorithm
      && is_some m.encrypted_data_key_v2
      && not (is_some m.encrypted_data_key_v1)

  unfoldable pub is_v3_format : Bool
  is_v3_format =
      is_some m.content_cipher_v3
      && is_some m.encrypted_data_key_algorithm_v3
      && is_some m.key_commitment_v3
      && is_some m.message_id_v3
      && is_some m.encrypted_data_key_v3
      && not (is_some m.encrypted_data_key_v2)
      && not (is_some m.encrypted_data_key_v1)

  unfoldable pub has_exclusive_key_collision : Bool
  has_exclusive_key_collision = ltb 1 (
      count (is_some m.encrypted_data_key_v1)
      + count (is_some m.encrypted_data_key_v2)
      + count (is_some m.encrypted_data_key_v3))

  unfoldable pub is_v3_in_object_metadata : Bool
  is_v3_in_object_metadata =
      is_some m.content_cipher_v3
      && is_some m.key_commitment_v3
      && is_some m.message_id_v3
      && not (is_some m.encrypted_data_key_v3)

  unfoldable pub should_use_instruction_file : Bool
  unfolding is_v3_in_object_metadata
  should_use_instruction_file =
      is_v3_in_object_metadata
      || not (
          is_some m.encrypted_data_key_v1
          || is_some m.encrypted_data_key_v2
          || is_some m.encrypted_data_key_v3)

-- `json.loads(v)`: only a text is parsed.
unfoldable pub json_loads : Json → Value → Result Value
json_loads json (text s) = json.loads s
json_loads json v = err type_error

-- The parsed encryption context; a missing one, and a parsed `null`, is `None`.
unfoldable pub parsed_context : Json → Option Value → Result (Option Value)
unfolding json_loads
parsed_context json none = ok none
parsed_context json (some v) = do c ← json_loads json v; ok (present (some c))

unfoldable pub from_dict : Json → Dict Value → Result ObjectMetadata
unfolding parsed_context
from_dict json d = do
  context ← parsed_context json (field "x-amz-matdesc" d)
  ok (record {
    encrypted_data_key_v1 = field "x-amz-key" d;
    encrypted_data_key_v2 = field "x-amz-key-v2" d;
    encrypted_data_key_algorithm = field "x-amz-wrap-alg" d;
    encrypted_data_key_context = context;
    content_iv = field "x-amz-iv" d;
    content_cipher = field "x-amz-cek-alg" d;
    content_cipher_tag_length = field "x-amz-tag-len" d;
    instruction_file = field "x-amz-crypto-instr-file" d;
    content_cipher_v3 = field "x-amz-c" d;
    encrypted_data_key_v3 = field "x-amz-3" d;
    mat_desc_v3 = field "x-amz-m" d;
    encryption_context_v3 = field "x-amz-t" d;
    encrypted_data_key_algorithm_v3 = field "x-amz-w" d;
    key_commitment_v3 = field "x-amz-d" d;
    message_id_v3 = field "x-amz-i" d;
  })

-- `if v is not None: result[k] = v`
abbrev pub put_some : String → Option Value → Dict Value → Dict Value
put_some k none d = d
put_some k (some v) d = insert k v d

-- A dictionary is written as its JSON text, any other value as it is.
abbrev pub dumped : Json → Option Value → Option Value
dumped json none = none
dumped json (some (object o)) = some (text (json.dumps (object o)))
dumped json (some v) = some v

-- The context of V1 and V2 is always written as JSON.
abbrev pub always_dumped : Json → Option Value → Option Value
always_dumped json none = none
always_dumped json (some v) = some (text (json.dumps v))

unfoldable pub to_dict : Json → ObjectMetadata → Dict Value
to_dict json m = put_some "x-amz-i" m.message_id_v3 (
    put_some "x-amz-d" m.key_commitment_v3 (
      put_some "x-amz-w" m.encrypted_data_key_algorithm_v3 (
        put_some "x-amz-t" (dumped json m.encryption_context_v3) (
          put_some "x-amz-m" (dumped json m.mat_desc_v3) (
            put_some "x-amz-3" m.encrypted_data_key_v3 (
              put_some "x-amz-c" m.content_cipher_v3 (
                put_some "x-amz-crypto-instr-file" m.instruction_file (
                  put_some "x-amz-tag-len"
                    (if is_v3_format m then none else m.content_cipher_tag_length)
                    (put_some "x-amz-cek-alg" m.content_cipher (
                      put_some "x-amz-iv" m.content_iv (
                        put_some "x-amz-matdesc" (always_dumped json m.encrypted_data_key_context) (
                          put_some "x-amz-wrap-alg" m.encrypted_data_key_algorithm (
                            put_some "x-amz-key-v2" m.encrypted_data_key_v2
                              (put_some "x-amz-key" m.encrypted_data_key_v1 []))))))))))))))

abbrev pub valid_s3ec_metadata_keys : List String
valid_s3ec_metadata_keys =
    "x-amz-key" ∷ "x-amz-key-v2" ∷ "x-amz-wrap-alg" ∷ "x-amz-matdesc" ∷ "x-amz-iv" ∷ "x-amz-cek-alg"
    ∷ "x-amz-tag-len" ∷ "x-amz-crypto-instr-file" ∷ "x-amz-c" ∷ "x-amz-3" ∷ "x-amz-m" ∷ "x-amz-t"
    ∷ "x-amz-w" ∷ "x-amz-d" ∷ "x-amz-i" ∷ []
