-- ===== src/Tests/Content.antt =====
-- Content that is decrypted in chunks and through a stream.
use amazon_s3_encryption_cli.Prelude.{
  ◌≤◌, length, ◌≡◌, refl, true, false, ℕ, Bytes, List, [], ◌∷◌, Option, none, some, replicate,
  arith, ◌⊎◌,
}
use mathlib.Core.List.{flatten}
use amazon_s3_encryption_cli.Errors.{
  Result, ok, err, client_error, security_error, decrypt_failed, incomplete_gcm_data,
}
use amazon_s3_encryption_cli.Decryptor.{
  AesGcmDecryptor, gcm, aes_gcm_decryptor, gcm_update, gcm_open, gcm_finalize, gcm_handler, update,
  finalize, update_if_any,
}
use amazon_s3_encryption_cli.Decryptor.Chunks.{
  value, decrypt_chunks, decrypt_chunks-eq-gcm_finalize,
}
use amazon_s3_encryption_cli.Stream.{
  Stream, decrypting_stream, read, read_loop, read_round, finalize_stream, verify_content_length,
  iter_chunks,
}
use amazon_s3_encryption_cli.Stream.Ends.{Settles, read_total, read-Settles}
use amazon_s3_encryption_cli.Stream.Whole.{read-nil_whole}
use amazon_s3_encryption_cli.Decryptor.{amount_read}
use amazon_s3_encryption_cli.Stream.Plaintext.{Pending, prefixed, read-Read}
use amazon_s3_encryption_cli.Stream.Chunks.{iter_chunks-Plaintext}
use amazon_s3_encryption_cli.Stream.Complete.{iter_chunks_complete}
use amazon_s3_encryption_cli.Stream.Iteration.{iter_chunks_total}
use amazon_s3_encryption_cli.Tests.Libraries.{
  plain_gcm, plain_gcm-laws, plain_cbc, memory, memory-laws,
}

abbrev content : Bytes
content = 1 ∷ 2 ∷ 3 ∷ replicate 16 3

abbrev decryptor : AesGcmDecryptor ℕ
decryptor = aes_gcm_decryptor 0 16 19

abbrev stream : Stream memory plain_gcm plain_cbc
stream = decrypting_stream content (gcm decryptor) 19

abbrev finished : Stream memory plain_gcm plain_cbc
finished = record {
  body = [];
  decryptor = gcm (record decryptor { decryptor = 2; amount_read = 19; tail = replicate 16 3 });
  content_length = 19;
  bytes_consumed = 19;
  finalized = true;
}

decrypt_chunks-eq-gcm_finalize_example :
    value
      (decrypt_chunks plain_gcm ((1 ∷ []) ∷ [] ∷ (2 ∷ 3 ∷ 3 ∷ []) ∷ []) (replicate 15 3) decryptor)
    ≡ value (gcm_finalize plain_gcm content decryptor).0
unfolding flatten
decrypt_chunks-eq-gcm_finalize_example =
    decrypt_chunks-eq-gcm_finalize plain_gcm plain_gcm-laws ((1 ∷ []) ∷ [] ∷ (2 ∷ 3 ∷ 3 ∷ []) ∷ [])
      (replicate 15 3) decryptor (omega arith)

gcm_finalize-content : (gcm_finalize plain_gcm content decryptor).0 ≡ ok (1 ∷ 2 ∷ 3 ∷ [])
unfolding gcm_finalize gcm_open update_if_any gcm_handler
gcm_finalize-content = refl

gcm_finalize-tampered :
    (gcm_finalize plain_gcm (1 ∷ content) decryptor).0 ≡ err (security_error decrypt_failed)
unfolding gcm_finalize gcm_open update_if_any gcm_handler
gcm_finalize-tampered = refl

iter_chunks-content :
    iter_chunks memory plain_gcm plain_cbc 21 18 stream
    ≡ some ((1 ∷ 2 ∷ []) ∷ (3 ∷ []) ∷ [], ok tt, finished)
unfolding iter_chunks read read_loop read_round finalize_stream verify_content_length update
    finalize gcm_update gcm_finalize gcm_open update_if_any gcm_handler
iter_chunks-content = refl

iter_chunks-Plaintext_example : (gcm_finalize plain_gcm content decryptor).0 ≡ ok (1 ∷ 2 ∷ 3 ∷ [])
unfolding flatten
iter_chunks-Plaintext_example =
    iter_chunks-Plaintext memory plain_gcm plain_cbc memory-laws plain_gcm-laws 21 18 content
      decryptor 19 ((1 ∷ 2 ∷ []) ∷ (3 ∷ []) ∷ []) finished (omega arith) (omega arith) refl
      iter_chunks-content

iter_chunks_total_example :
    (r : List Bytes × Result (Unit {0}) × Stream memory plain_gcm plain_cbc) × (iter_chunks memory
        plain_gcm plain_cbc 21 0 stream
      ≡ some r)
iter_chunks_total_example = iter_chunks_total memory plain_gcm plain_cbc 0 stream

read_total_example :
    (r : Result Bytes × Stream memory plain_gcm plain_cbc) × (read memory plain_gcm plain_cbc none
        stream
      ≡ some r)
read_total_example = read_total memory plain_gcm plain_cbc none stream

-- The stream after its first read.
abbrev half : Stream memory plain_gcm plain_cbc
half = record {
  body = 3 ∷ [];
  decryptor = gcm (record decryptor { decryptor = 2; amount_read = 18; tail = replicate 16 3 });
  content_length = 19;
  bytes_consumed = 18;
  finalized = false;
}

first_read : read memory plain_gcm plain_cbc (some 18) stream ≡ some (ok (1 ∷ 2 ∷ []), half)
unfolding read read_loop read_round update gcm_update
first_read = refl

stream-Pending :
    Pending memory plain_gcm plain_cbc memory-laws plain_gcm-laws (some (1 ∷ 2 ∷ 3 ∷ [])) stream
unfolding gcm_open update_if_any
stream-Pending = record {
  d = decryptor;
  is_gcm = refl;
  tagged = omega arith;
  unfinished = refl;
  exact = refl;
  rest = refl;
}

abbrev whole_text : Bytes
whole_text = 1 ∷ 2 ∷ 3 ∷ []

read-Read_example :
    (half.finalized ≡ true) × (some whole_text ≡ some (1 ∷ 2 ∷ []))
    ⊎ ((after : Option Bytes) × Pending memory plain_gcm plain_cbc memory-laws plain_gcm-laws after
          half
        × (some whole_text ≡ prefixed (1 ∷ 2 ∷ []) after))
read-Read_example =
    read-Read memory plain_gcm plain_cbc memory-laws plain_gcm-laws (some (1 ∷ 2 ∷ 3 ∷ []))
      (some 18) stream half (1 ∷ 2 ∷ []) (omega arith) stream-Pending first_read

read-Settles_example : Settles memory plain_gcm plain_cbc stream (ok (1 ∷ 2 ∷ []), half)
read-Settles_example =
    read-Settles memory plain_gcm plain_cbc (some 18) stream (ok (1 ∷ 2 ∷ []), half) refl first_read

-- An empty content: its tag alone.
abbrev empty_stream : Stream memory plain_gcm plain_cbc
empty_stream = decrypting_stream (replicate 16 0) (gcm (aes_gcm_decryptor 0 16 16)) 16

abbrev empty_finished : Stream memory plain_gcm plain_cbc
empty_finished = record empty_stream {
  body = [];
  decryptor = gcm (record decryptor { content_length = 16; amount_read = 16 });
  bytes_consumed = 16;
  finalized = true;
}

empty_read : read memory plain_gcm plain_cbc none empty_stream ≡ some (ok [], empty_finished)
unfolding read read_loop read_round finalize_stream verify_content_length update finalize gcm_update
    gcm_finalize gcm_open update_if_any gcm_handler
empty_read = refl

read-nil_whole_example :
    (empty_finished.finalized ≡ true)
    × (amount_read plain_gcm plain_cbc empty_finished.decryptor ≡ empty_stream.content_length)
read-nil_whole_example =
    read-nil_whole memory plain_gcm plain_cbc none empty_stream empty_finished refl empty_read

-- `read(0)` in the middle of the content finalizes the stream, of which nothing was read, and raises.
read_zero :
    read memory plain_gcm plain_cbc (some 0) stream
    ≡ some (err (client_error incomplete_gcm_data), record stream { finalized = true })
unfolding read read_loop read_round finalize_stream verify_content_length update finalize gcm_update
    gcm_finalize gcm_open update_if_any gcm_handler
read_zero = refl

iter_chunks_complete_example : 19 ≤ length content
iter_chunks_complete_example =
    iter_chunks_complete memory plain_gcm plain_cbc memory-laws 21 18 content (gcm decryptor) 19
      ((1 ∷ 2 ∷ []) ∷ (3 ∷ []) ∷ []) finished refl iter_chunks-content
