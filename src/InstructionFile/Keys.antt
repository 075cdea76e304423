-- ===== src/InstructionFile/Keys.antt =====
-- Which metadata an instruction file can set.
use amazon_s3_encryption_cli.Prelude.{
  ◌≡◌, refl, Bool, true, false, not, String, Bytes, Dict, lookup, update, lookup-update_missing, [],
  ◌∷◌, Option, none, some, str_eq, eq_iff, arith, Bool-cases, inl, inr,
}
use amazon_s3_encryption_cli.Errors.{Result, ok, client_error, raise_if, >>=-eq-ok, invalid_keys}
use amazon_s3_encryption_cli.Values.{Value}
use amazon_s3_encryption_cli.External.{Runtime}
use amazon_s3_encryption_cli.InstructionFile.{
  is_s3ec_key, all_s3ec_keys, parsed_object, parse_instruction_file, safe_metadata,
  process_instruction_file,
}

all_s3ec_keys-lookup :
    (k : String) (d : Dict Value)
    → all_s3ec_keys d ≡ true
    → is_s3ec_key k ≡ false
    → lookup k d ≡ none
unfolding all_s3ec_keys lookup
all_s3ec_keys-lookup k [] h other = refl
all_s3ec_keys-lookup k ((j, v) ∷ d) h other = elim (Bool-cases (str_eq j k)) [
  | inl s ↦
      let same : j ≡ k = (eq_iff j k).0 s in
      let own : is_s3ec_key j ≡ true = ground arith in absurd (cc (own, same, other))
  | inr s ↦ rw s (all_s3ec_keys-lookup k d (ground arith) other)
]

parse_instruction_file-keys :
    (runtime : Runtime) (bytes : Bytes) (d : Dict Value)
    → parse_instruction_file runtime bytes ≡ ok d
    → all_s3ec_keys d ≡ true
unfolding parse_instruction_file
parse_instruction_file-keys runtime bytes d h =
    let (metadata, _, h1) = >>=-eq-ok (parsed_object (runtime.loads_document bytes)) _ h in
    let (_, valid, built) =
      >>=-eq-ok (raise_if (not (all_s3ec_keys metadata)) (client_error invalid_keys)) _ h1 in
    let same : metadata ≡ d = cc in rw same at (passed (all_s3ec_keys metadata) valid)
  where
    passed : (b : Bool) → raise_if (not b) (client_error invalid_keys) ≡ ok tt → b ≡ true
    passed true e = refl
    passed false e = cc

-- If an instruction file is accepted, then it sets no key but those of the client: any other key of
-- the response's metadata is what it was, missing if it was missing.
pub process_instruction_file-others :
    (runtime : Runtime) (body : Option (Result Bytes)) (metadata : Option (Dict Value))
    (merged : Dict Value) (k : String)
    → process_instruction_file runtime body metadata ≡ ok merged
    → is_s3ec_key k ≡ false
    → lookup k merged ≡ lookup k (safe_metadata metadata)
unfolding process_instruction_file
process_instruction_file-others runtime none metadata merged k h other = absurd (cc h)
process_instruction_file-others runtime (some read) metadata merged k h other =
    let (bytes, _, h1) = >>=-eq-ok read _ h in
    let (parsed, accepted, built) = >>=-eq-ok (parse_instruction_file runtime bytes) _ h1 in
    let same : update (safe_metadata metadata) parsed ≡ merged = cc in
    rw same at (
      lookup-update_missing k (safe_metadata metadata) parsed (
        all_s3ec_keys-lookup k parsed (parse_instruction_file-keys runtime bytes parsed accepted)
          other))
