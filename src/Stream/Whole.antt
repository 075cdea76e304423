-- ===== src/Stream/Whole.antt =====
-- `DecryptingStream.read` that returns no bytes: when the content is over.
use amazon_s3_encryption_cli.Prelude.{
  ◌≡◌, refl, true, false, ℕ, Bytes, [], ◌∷◌, Option, some, ◌==◌, leb, ◌-◌, arith, Bool-cases, inl,
  inr,
}
use amazon_s3_encryption_cli.Errors.{Result, ok, err}
use amazon_s3_encryption_cli.External.{GcmDecryption, CbcDecryption, ByteSource}
use amazon_s3_encryption_cli.Decryptor.{AnyDecryptor, update, finalize, amount_read}
use amazon_s3_encryption_cli.Stream.{
  Stream, after_finalize, read_round, read, finalize_stream, verify_content_length, after_read,
  consume, after_decrypt, to_read,
}
use amazon_s3_encryption_cli.Stream.Ends.{After, read_rule}

module _ (src : ByteSource) (g : GcmDecryption) (b : CbcDecryption) (n : ℕ) where
  -- A stream over content of `n` bytes that is not over.
  abbrev IsOpen : Stream src g b → Type 0
  IsOpen s = (s.finalized ≡ false) × (s.content_length ≡ n)

  -- No bytes come only from a stream whose decryptor was fed the whole content.
  abbrev IsWholeIfNil : Result Bytes × Stream src g b → Type 0
  IsWholeIfNil (r, s) = r ≡ ok [] → (s.finalized ≡ true) × (amount_read g b s.decryptor ≡ n)

  after_finalize-IsWholeIfNil :
      (s : Stream src g b) (r : Result Bytes × AnyDecryptor g b)
      → s.finalized ≡ true
      → s.content_length ≡ n
      → IsWholeIfNil (after_finalize src g b s r)
  unfolding verify_content_length
  after_finalize-IsWholeIfNil s (err e, d) f c = λ h. cc
  after_finalize-IsWholeIfNil s (ok p, d) f c =
      elim (Bool-cases (amount_read g b d == s.content_length)) [
        | inl all ↦ λ h. (f, ground (arith, all, c))
        | inr short ↦ rw short (λ h. cc)
      ]

  finalize_stream-IsWholeIfNil :
      (trailing : Bytes) (s : Stream src g b)
      → IsOpen s
      → IsWholeIfNil (finalize_stream src g b trailing s)
  unfolding finalize_stream
  finalize_stream-IsWholeIfNil trailing s (f, c) = simp f (
      after_finalize-IsWholeIfNil (record s { finalized = true })
        (finalize g b trailing s.decryptor) refl c)

  after_decrypt-IsWholeIfNil :
      (s : Stream src g b) (r : Result Bytes × AnyDecryptor g b)
      → IsOpen s
      → After src g b IsOpen IsWholeIfNil (after_decrypt src g b s r)
  after_decrypt-IsWholeIfNil s (err e, d) i = λ h. cc
  after_decrypt-IsWholeIfNil s (ok [], d) i = i
  after_decrypt-IsWholeIfNil s (ok (x ∷ xs), d) i = λ h. cc

  consume-IsWholeIfNil :
      (s : Stream src g b) (raw : Bytes)
      → IsOpen s
      → After src g b IsOpen IsWholeIfNil (consume src g b raw s)
  consume-IsWholeIfNil s raw i = elim (Bool-cases (leb s.content_length s.bytes_consumed)) [
    | inl all ↦ rw all (finalize_stream-IsWholeIfNil raw s i)
    | inr more ↦ rw more (after_decrypt-IsWholeIfNil s (update g b raw s.decryptor) i)
  ]

  after_read-IsWholeIfNil :
      (s : Stream src g b) (r : Result Bytes × src.Body)
      → IsOpen s
      → After src g b IsOpen IsWholeIfNil (after_read src g b s r)
  after_read-IsWholeIfNil s (err e, body) i = λ h. cc
  after_read-IsWholeIfNil s (ok [], body) i =
      finalize_stream-IsWholeIfNil [] (record s { body = body }) i
  after_read-IsWholeIfNil s (ok (x ∷ xs), body) i = consume-IsWholeIfNil _ (x ∷ xs) i

  read_round-IsWholeIfNil :
      (amt : Option ℕ) (s : Stream src g b)
      → IsOpen s
      → After src g b IsOpen IsWholeIfNil (read_round src g b amt s)
  unfolding read_round
  read_round-IsWholeIfNil amt s i = elim (Bool-cases (leb s.content_length s.bytes_consumed)) [
    | inl all ↦ rw all (finalize_stream-IsWholeIfNil [] s i)
    | inr more ↦ rw more (
        after_read-IsWholeIfNil s
          (src.read s.body (to_read amt (s.content_length - s.bytes_consumed))) i)
  ]

-- A read of a stream that is not finalized, of any amount and from any body, that returns no bytes
-- has finalized the stream, and its decryptor was fed exactly as many bytes as the content is long.
pub read-nil_whole :
    (src : ByteSource) (g : GcmDecryption) (b : CbcDecryption) (amt : Option ℕ)
    (s s' : Stream src g b)
    → s.finalized ≡ false
    → read src g b amt s ≡ some (ok [], s')
    → (s'.finalized ≡ true) × (amount_read g b s'.decryptor ≡ s.content_length)
read-nil_whole src g b amt s s' unfinished h =
    read_rule src g b (IsOpen src g b s.content_length) (IsWholeIfNil src g b s.content_length) amt
      (read_round-IsWholeIfNil src g b s.content_length amt) s (ok [], s') unfinished
      (unfinished, refl) h refl
