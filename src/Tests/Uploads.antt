-- ===== src/Tests/Uploads.antt =====
-- A multipart upload of three parts.
use amazon_s3_encryption_cli.Prelude.{none, ◌≡◌, refl, true, false, [], ◌∷◌, some, arith}
use mathlib.Core.List.{flatten}
use amazon_s3_encryption_cli.Errors.{ok}
use amazon_s3_encryption_cli.Multipart.{Pipeline, bytes, fresh, encrypt_part}
use amazon_s3_encryption_cli.Multipart.Calls.{
  IsWellFormed, encrypt_part-IsWellFormed, encrypt_part-retry,
}
use amazon_s3_encryption_cli.Multipart.Sequence.{
  Expects, encrypt_parts, encrypt_whole, encrypt_parts-eq-encrypt_whole,
}
use amazon_s3_encryption_cli.Tests.Libraries.{
  plain_gcm_encryption, plain_gcm_encryption-laws, zeros,
}

abbrev start : Pipeline zeros plain_gcm_encryption
start = fresh 0 []

abbrev after_first : Pipeline zeros plain_gcm_encryption
after_first = record start {
  encryptor = 2;
  next_part = 2;
  last_encrypted_part = 1;
  last_encrypted_ciphertext = some (8 ∷ 9 ∷ []);
}

first_part :
    encrypt_part zeros plain_gcm_encryption 1 (bytes (8 ∷ 9 ∷ [])) false start
    ≡ (ok (some (8 ∷ 9 ∷ [])), after_first)
unfolding encrypt_part
first_part = refl

start-IsWellFormed : IsWellFormed zeros plain_gcm_encryption start
start-IsWellFormed = record {
  behind = omega arith;
  nothing_yet = λ h. refl;
  cached = λ h. absurd (omega arith);
}

encrypt_part-IsWellFormed_example :
    IsWellFormed zeros plain_gcm_encryption
      (encrypt_part zeros plain_gcm_encryption 1 (bytes (8 ∷ [])) true start).1
encrypt_part-IsWellFormed_example =
    encrypt_part-IsWellFormed zeros plain_gcm_encryption 1 (bytes (8 ∷ [])) true start
      start-IsWellFormed

encrypt_part-retry_example :
    encrypt_part zeros plain_gcm_encryption 1 (bytes (4 ∷ [])) true after_first
    ≡ (ok (some (8 ∷ 9 ∷ [])), after_first)
encrypt_part-retry_example =
    encrypt_part-retry zeros plain_gcm_encryption 1 (bytes (8 ∷ 9 ∷ [])) (bytes (4 ∷ [])) false true
      start after_first (some (8 ∷ 9 ∷ [])) first_part

start-Expects : Expects zeros plain_gcm_encryption 1 start
start-Expects = record { next = refl; new = omega arith; open_upload = refl }

encrypt_parts-eq-encrypt_whole_example :
    encrypt_parts zeros plain_gcm_encryption 1 ((8 ∷ 9 ∷ []) ∷ [] ∷ []) (7 ∷ []) start
    ≡ encrypt_whole zeros plain_gcm_encryption 0 (8 ∷ 9 ∷ 7 ∷ [])
unfolding flatten
encrypt_parts-eq-encrypt_whole_example =
    encrypt_parts-eq-encrypt_whole zeros plain_gcm_encryption plain_gcm_encryption-laws 1
      ((8 ∷ 9 ∷ []) ∷ [] ∷ []) (7 ∷ []) start start-Expects

-- Before any part, part number 0 is not refused: the call returns no ciphertext.
part_zero : encrypt_part zeros plain_gcm_encryption 0 (bytes (8 ∷ [])) true start ≡ (ok none, start)
unfolding encrypt_part
part_zero = refl
