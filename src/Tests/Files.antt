-- ===== src/Tests/Files.antt =====
-- An instruction file.
use amazon_s3_encryption_cli.Prelude.{
  ◌≡◌, refl, Dict, lookup, insert, update, [], ◌∷◌, some, replicate,
}
use amazon_s3_encryption_cli.Errors.{ok, err, client_error, invalid_keys}
use amazon_s3_encryption_cli.Values.{Value, text}
use amazon_s3_encryption_cli.External.{Runtime, json_object}
use amazon_s3_encryption_cli.InstructionFile.{
  is_s3ec_key, all_s3ec_keys, parse_instruction_file, process_instruction_file,
}
use amazon_s3_encryption_cli.InstructionFile.Keys.{process_instruction_file-others}

-- A file that holds the dictionary `file`.
abbrev one_file : Dict Value → Runtime
one_file file = record {
  urandom = λ n. replicate n 0;
  utf8 = λ s. [];
  loads_document = λ bytes. ok (json_object file);
}

abbrev file : Dict Value
file = ("x-amz-iv", text "iv") ∷ []

abbrev metadata : Dict Value
metadata = ("owner", text "me") ∷ ("x-amz-iv", text "old") ∷ []

abbrev merged : Dict Value
merged = ("owner", text "me") ∷ ("x-amz-iv", text "iv") ∷ []

process-file : process_instruction_file (one_file file) (some (ok [])) (some metadata) ≡ ok merged
unfolding process_instruction_file parse_instruction_file all_s3ec_keys is_s3ec_key update insert
process-file = refl

process-foreign_key :
    process_instruction_file (one_file (("owner", text "you") ∷ [])) (some (ok [])) (some metadata)
    ≡ err (client_error invalid_keys)
unfolding process_instruction_file parse_instruction_file all_s3ec_keys is_s3ec_key
process-foreign_key = refl

process_instruction_file-others_example : lookup "owner" merged ≡ lookup "owner" metadata
unfolding is_s3ec_key
process_instruction_file-others_example =
    process_instruction_file-others (one_file file) (some (ok [])) (some metadata) merged "owner"
      process-file refl
