-- ===== src/Tests/Lines.antt =====
-- Lines of a stream.
use amazon_s3_encryption_cli.Prelude.{
  ◌≡◌, refl, true, false, ℕ, ◌≤◌, length, Bytes, List, [], ◌∷◌, Option, none, some, replicate,
  arith,
}
use amazon_s3_encryption_cli.Errors.{Result, ok}
use amazon_s3_encryption_cli.Decryptor.{
  AesGcmDecryptor, gcm, aes_gcm_decryptor, gcm_update, gcm_finalize, gcm_open, update_if_any,
  gcm_handler, update, finalize,
}
use amazon_s3_encryption_cli.Stream.{
  Stream, decrypting_stream, read, read_loop, read_round, finalize_stream, verify_content_length,
  iter_chunks,
}
use amazon_s3_encryption_cli.Stream.Lines.{lines, splitlines, lines_of_chunks, iter_lines}
use amazon_s3_encryption_cli.Stream.Lines.Plaintext.{iter_lines-splitlines}
use amazon_s3_encryption_cli.Stream.Bounds.{IsGcm, readinto-fits}
use amazon_s3_encryption_cli.Stream.Lines.{readinto}
use amazon_s3_encryption_cli.Tests.Libraries.{
  plain_gcm, plain_gcm-laws, plain_cbc, memory, memory-laws, memory-sizes, plain_gcm-sizes,
}

-- `b"a\r\nb\rc\n\n"` has four lines.
four_lines :
    splitlines false (97 ∷ 13 ∷ 10 ∷ 98 ∷ 13 ∷ 99 ∷ 10 ∷ 10 ∷ [])
    ≡ (97 ∷ []) ∷ (98 ∷ []) ∷ (99 ∷ []) ∷ [] ∷ []
unfolding splitlines lines
four_lines = refl

-- The first chunk ends between a carriage return and a line feed.
abbrev content : Bytes
content = 97 ∷ 13 ∷ 10 ∷ 98 ∷ replicate 16 4

abbrev decryptor : AesGcmDecryptor ℕ
decryptor = aes_gcm_decryptor 0 16 20

abbrev stream : Stream memory plain_gcm plain_cbc
stream = decrypting_stream content (gcm decryptor) 20

abbrev two_lines : Option (List Bytes × Result (Unit {0}) × Stream memory plain_gcm plain_cbc)
two_lines = iter_lines memory plain_gcm plain_cbc 30 18 true stream

abbrev left_by :
    Option (List Bytes × Result (Unit {0}) × Stream memory plain_gcm plain_cbc)
    → Stream memory plain_gcm plain_cbc
left_by none = stream
left_by (some (ls, r, t)) = t

iter_lines-content :
    two_lines ≡ some ((97 ∷ 13 ∷ 10 ∷ []) ∷ (98 ∷ []) ∷ [], ok tt, left_by two_lines)
unfolding iter_lines lines_of_chunks splitlines lines iter_chunks read read_loop read_round
    finalize_stream verify_content_length update finalize gcm_update gcm_finalize gcm_open
    update_if_any gcm_handler
iter_lines-content = refl

iter_lines-splitlines_example :
    (text : Bytes) × ((gcm_finalize plain_gcm content decryptor).0 ≡ ok text)
    × ((97 ∷ 13 ∷ 10 ∷ []) ∷ (98 ∷ []) ∷ [] ≡ splitlines true text)
iter_lines-splitlines_example =
    iter_lines-splitlines memory plain_gcm plain_cbc memory-laws plain_gcm-laws 30 18 true content
      decryptor 20 ((97 ∷ 13 ∷ 10 ∷ []) ∷ (98 ∷ []) ∷ []) (left_by two_lines) (omega arith)
      (omega arith) refl iter_lines-content

-- A buffer of eighteen bytes: two are decrypted, the others are as they were.
abbrev buffer : Bytes
buffer = replicate 18 9

abbrev filled : Bytes
filled = 97 ∷ 13 ∷ replicate 16 9

abbrev written : Option (Result ℕ × Bytes × Stream memory plain_gcm plain_cbc)
written = readinto memory plain_gcm plain_cbc buffer stream

abbrev left_reading :
    Option (Result ℕ × Bytes × Stream memory plain_gcm plain_cbc)
    → Stream memory plain_gcm plain_cbc
left_reading none = stream
left_reading (some (r, b, t)) = t

readinto-stream : written ≡ some (ok 2, filled, left_reading written)
unfolding readinto read read_loop read_round finalize_stream verify_content_length update finalize
    gcm_update gcm_finalize gcm_open update_if_any gcm_handler
readinto-stream = refl

readinto-fits_example :
    (2 ≤ 18)
    × (length filled ≡ 18)
    × IsGcm memory plain_gcm plain_cbc memory-sizes plain_gcm-sizes (left_reading written)
readinto-fits_example =
    readinto-fits memory plain_gcm plain_cbc memory-sizes plain_gcm-sizes buffer filled stream
      (left_reading written) 2
      (record {
        d = decryptor;
        is_gcm = refl;
        holds = record { tagged = omega arith; held = omega arith };
      })
      readinto-stream
