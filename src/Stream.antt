-- ===== src/Stream.antt =====
-- stream.py: `DecryptingStream`, which decrypts a body as it is read.
pub mod Ends
pub mod Whole
pub mod Plaintext
pub mod Chunks
pub mod Iteration
pub mod Complete
pub mod Lines
pub mod Bounds
use amazon_s3_encryption_cli.Prelude.{
  List, ◌≡◌, Bool, true, false, not, ℕ, zero, suc, ◌+◌, ◌-◌, Bytes, [], ◌∷◌, ◌++◌, Option, none,
  some, length, ◌==◌, leb, min, is_empty, if◌then◌else◌,
}
use amazon_s3_encryption_cli.Errors.{Error, Result, ok, err, incomplete_read}
use amazon_s3_encryption_cli.External.{GcmDecryption, CbcDecryption, ByteSource}
use amazon_s3_encryption_cli.Decryptor.{AnyDecryptor, update, finalize, amount_read}
use amazon_s3_encryption_cli.Decryptor

pub record DecryptingStream (B D : Type 0) : Type 0 where
  pub body : B
  pub decryptor : D
  pub content_length : ℕ
  pub bytes_consumed : ℕ
  pub finalized : Bool

abbrev pub decrypting_stream : {B D : Type 0} → B → D → ℕ → DecryptingStream B D
decrypting_stream body decryptor content_length = record {
  body = body;
  decryptor = decryptor;
  content_length = content_length;
  bytes_consumed = 0;
  finalized = false;
}

-- `readable()` and `tell()`
abbrev pub readable : {B D : Type 0} → DecryptingStream B D → Bool
readable s = not s.finalized

abbrev pub tell : {B D : Type 0} → DecryptingStream B D → ℕ
tell s = s.bytes_consumed

-- `remaining if amt is None else min(amt, remaining)`
abbrev pub to_read : Option ℕ → ℕ → ℕ
to_read none remaining = remaining
to_read (some amt) remaining = min amt remaining

abbrev pub default_chunk_size : ℕ
default_chunk_size = 1024

module _ (src : ByteSource) (g : GcmDecryption) (b : CbcDecryption) where
  abbrev pub Stream : Type 0
  Stream = DecryptingStream src.Body (AnyDecryptor g b)

  -- `_verify_content_length`, after `finalize` has returned the plaintext.
  unfoldable pub verify_content_length : Bytes → Stream → Result Bytes
  verify_content_length plaintext s =
      if amount_read g b s.decryptor == s.content_length
      then ok plaintext
      else err
          (incomplete_read (amount_read g b s.decryptor) (Decryptor.content_length g b s.decryptor))

  abbrev pub after_finalize : Stream → Result Bytes × AnyDecryptor g b → Result Bytes × Stream
  after_finalize s (ok plaintext, d) =
      let s' = record s { decryptor = d } in (verify_content_length plaintext s', s')
  after_finalize s (err e, d) = (err e, record s { decryptor = d })

  -- `_finalize`: the stream counts as finalized also if this raises.
  unfoldable pub finalize_stream : Bytes → Stream → Result Bytes × Stream
  unfolding verify_content_length
  finalize_stream trailing s =
      if s.finalized
      then (ok [], s)
      else after_finalize (record s { finalized = true }) (finalize g b trailing s.decryptor)

  -- One round of the loop of `read`: the call returns, or the loop goes on.
  pub data Round : Type 0 where
    return : Result Bytes × Stream → Round
    again : Stream → Round

  abbrev pub after_decrypt : Stream → Result Bytes × AnyDecryptor g b → Round
  after_decrypt s (err e, d) = return (err e, record s { decryptor = d })
  after_decrypt s (ok [], d) = again (record s { decryptor = d })
  after_decrypt s (ok (x ∷ xs), d) = return (ok (x ∷ xs), record s { decryptor = d })

  abbrev pub consume : Bytes → Stream → Round
  consume raw s =
      if leb s.content_length s.bytes_consumed
      then return (finalize_stream raw s)
      else after_decrypt s (update g b raw s.decryptor)

  abbrev pub after_read : Stream → Result Bytes × src.Body → Round
  after_read s (err e, body) = return (err e, record s { body = body })
  after_read s (ok [], body) = return (finalize_stream [] (record s { body = body }))
  after_read s (ok (x ∷ xs), body) =
      consume (x ∷ xs)
        (record s { body = body; bytes_consumed = s.bytes_consumed + length (x ∷ xs) })

  unfoldable pub read_round : Option ℕ → Stream → Round
  read_round amt s =
      if leb s.content_length s.bytes_consumed
      then return (finalize_stream [] s)
      else after_read s (src.read s.body (to_read amt (s.content_length - s.bytes_consumed)))

  -- `while not result`; `none` means that the fuel ran out.
  unfoldable pub read_loop : ℕ → Option ℕ → Stream → Option (Result Bytes × Stream)
  read_loop zero amt s = none
  read_loop (suc fuel) amt s = elim (read_round amt s) [
    | return r ↦ some r
    | again s' ↦ read_loop fuel amt s'
  ]

  -- Each round but the last consumes a byte of `content_length`.
  unfoldable pub read : Option ℕ → Stream → Option (Result Bytes × Stream)
  read amt s =
      if s.finalized
      then some (ok [], s)
      else read_loop (suc (s.content_length - s.bytes_consumed)) amt s

  abbrev pub yielded :
      Bytes
      → Option (List Bytes × Result (Unit {0}) × Stream)
      → Option (List Bytes × Result (Unit {0}) × Stream)
  yielded chunk none = none
  yielded chunk (some (chunks, r, s)) = some (chunk ∷ chunks, r, s)

  -- `iter_chunks`: the chunks that it yields, and how it ends; `none` means that the fuel ran out.
  -- Iterating over the stream is `iter_chunks` with `default_chunk_size`.
  unfoldable pub iter_chunks : ℕ → ℕ → Stream → Option (List Bytes × Result (Unit {0}) × Stream)
  iter_chunks zero chunk_size s = none
  iter_chunks (suc fuel) chunk_size s = elim (read (some chunk_size) s) [
    | none ↦ none
    | some (r, s') ↦ elim r [
      | err e ↦ some ([], err e, s')
      | ok [] ↦ some ([], ok tt, s')
      | ok (x ∷ xs) ↦ yielded (x ∷ xs) (iter_chunks fuel chunk_size s')
    ]
  ]
