-- ===== src/Stream/Complete.antt =====
-- A body that is cut short: iterating over its stream does not end without an error.
use amazon_s3_encryption_cli.Prelude.{
  ◌≡◌, refl, ap, ◌∙◌, true, false, ℕ, zero, suc, ◌+◌, ◌-◌, ◌≤◌, Bytes, List, [], ◌∷◌, Option, some,
  length, length-append, ◌==◌, leb, arith, Bool-cases, inl, inr, ◌⊎◌,
}
use amazon_s3_encryption_cli.Errors.{Result, ok, err}
use amazon_s3_encryption_cli.External.{GcmDecryption, CbcDecryption, ByteSource, ByteSourceLaws}
use amazon_s3_encryption_cli.Decryptor.{
  AnyDecryptor, gcm, cbc, update, finalize, amount_read, gcm_update, gcm_finalize, cbc_update,
  cbc_finalize,
}
use amazon_s3_encryption_cli.Stream.{
  decrypting_stream, Stream, after_finalize, read_round, finalize_stream, verify_content_length,
  after_read, consume, after_decrypt, to_read, iter_chunks,
}
use amazon_s3_encryption_cli.Stream.Ends.{After, read_rule, read-nil}
use amazon_s3_encryption_cli.Stream.Chunks.{Iterates, iter_chunks-Iterates}

module _ (g : GcmDecryption) (b : CbcDecryption) where
  amount_read-update :
      (raw : Bytes) (d : AnyDecryptor g b)
      → amount_read g b (update g b raw d).1 ≡ amount_read g b d + length raw
  unfolding update gcm_update cbc_update
  amount_read-update raw (gcm d) = ground arith
  amount_read-update raw (cbc d) = ground arith

  amount_read-finalize :
      (raw : Bytes) (d : AnyDecryptor g b)
      → amount_read g b (finalize g b raw d).1 ≡ amount_read g b d + length raw
  unfolding finalize gcm_finalize cbc_finalize
  amount_read-finalize raw (gcm d) = refl
  amount_read-finalize raw (cbc d) = refl

module _ (src : ByteSource) (g : GcmDecryption) (b : CbcDecryption) (body_laws : ByteSourceLaws src)
    (n total : ℕ) where
  -- A stream over content of `n` bytes in the middle of a body of `total` bytes.
  record Tracks (s : Stream src g b) : Type 0 where
    unfinished : s.finalized ≡ false
    content : s.content_length ≡ n
    fed : amount_read g b s.decryptor ≡ s.bytes_consumed
    in_body : s.bytes_consumed + length (body_laws.left s.body) ≡ total

  abbrev Tracked : Result Bytes × Stream src g b → Type 0
  Tracked (err e, s) = Unit
  Tracked (ok out, s) = (n ≤ total) ⊎ Tracks s

  after_finalize-Tracked :
      (s : Stream src g b) (r : Result Bytes × AnyDecryptor g b)
      → s.content_length ≡ n
      → amount_read g b r.1 ≤ total
      → Tracked (after_finalize src g b s r)
  unfolding verify_content_length
  after_finalize-Tracked s (err e, d) c h = tt
  after_finalize-Tracked s (ok p, d) c h =
      elim (Bool-cases (amount_read g b d == s.content_length)) [
        | inl all ↦ rw all (inl (ground arith))
        | inr short ↦ rw short tt
      ]

  finalize_stream-Tracked :
      (trailing : Bytes) (s : Stream src g b)
      → s.finalized ≡ false
      → s.content_length ≡ n
      → amount_read g b s.decryptor + length trailing ≤ total
      → Tracked (finalize_stream src g b trailing s)
  unfolding finalize_stream
  finalize_stream-Tracked trailing s u c h = simp u (
      after_finalize-Tracked (record s { finalized = true }) (finalize g b trailing s.decryptor) c
        (omega (arith, h, amount_read-finalize g b trailing s.decryptor)))

  after_decrypt-Tracked :
      (s : Stream src g b) (r : Result Bytes) (d : AnyDecryptor g b)
      → Tracks (record s { decryptor = d })
      → After src g b Tracks Tracked (after_decrypt src g b s (r, d))
  after_decrypt-Tracked s (err e) d t = tt
  after_decrypt-Tracked s (ok []) d t = t
  after_decrypt-Tracked s (ok (x ∷ xs)) d t = inr t

  consume-Tracked :
      (s : Stream src g b) (raw : Bytes)
      → s.finalized ≡ false
      → s.content_length ≡ n
      → amount_read g b s.decryptor + length raw ≡ s.bytes_consumed
      → s.bytes_consumed + length (body_laws.left s.body) ≡ total
      → After src g b Tracks Tracked (consume src g b raw s)
  consume-Tracked s raw u c fed inside = elim (Bool-cases (leb s.content_length s.bytes_consumed)) [
    | inl all ↦ rw all (finalize_stream-Tracked raw s u c (omega arith))
    | inr more ↦ rw more (
        after_decrypt-Tracked s (update g b raw s.decryptor).0 (update g b raw s.decryptor).1
          (record {
            unfinished = u;
            content = c;
            fed = amount_read-update g b raw s.decryptor ∙ fed;
            in_body = inside;
          }))
  ]

  after_read-Tracked :
      (s : Stream src g b) (asked : ℕ) (r : Result Bytes × src.Body)
      → Tracks s
      → src.read s.body asked ≡ r
      → After src g b Tracks Tracked (after_read src g b s r)
  after_read-Tracked s asked (err e, body) t h = tt
  after_read-Tracked s asked (ok [], body) t h =
      finalize_stream-Tracked [] (record s { body = body }) t.unfinished t.content
        (omega (arith, t.fed, t.in_body))
  after_read-Tracked s asked (ok (x ∷ xs), body) t h =
      let split = body_laws.read-left s.body asked (x ∷ xs) body h in
      consume-Tracked _ (x ∷ xs) t.unfinished t.content (omega (arith, t.fed))
        (omega (arith, t.in_body, ap length split, length-append (x ∷ xs) (body_laws.left body)))

  read_round-Tracked :
      (amt : Option ℕ) (s : Stream src g b)
      → Tracks s
      → After src g b Tracks Tracked (read_round src g b amt s)
  unfolding read_round
  read_round-Tracked amt s t = elim (Bool-cases (leb s.content_length s.bytes_consumed)) [
    | inl all ↦
        rw all
          (finalize_stream-Tracked [] s t.unfinished t.content (omega (arith, t.fed, t.in_body)))
    | inr more ↦
        let asked = to_read amt (s.content_length - s.bytes_consumed) in
        rw more (after_read-Tracked s asked (src.read s.body asked) t refl)
  ]

  chunks-Tracked :
      (fuel size : ℕ) (s : Stream src g b) (chunks : List Bytes) (t : Stream src g b)
      → Tracks s
      → iter_chunks src g b fuel size s ≡ some (chunks, ok tt, t)
      → n ≤ total
  unfolding iter_chunks
  chunks-Tracked zero size s chunks t k h = absurd (ground arith)
  chunks-Tracked (suc fuel) size s chunks t k h =
      go (iter_chunks-Iterates src g b fuel size s chunks t h)
        (λ s' xs. chunks-Tracked fuel size s' xs t)
    where
      go :
          Iterates src g b size fuel s chunks t
          → ((s' : Stream src g b) (xs : List Bytes)
              → Tracks s'
              → iter_chunks src g b fuel size s' ≡ some (xs, ok tt, t)
              → n ≤ total)
          → n ≤ total
      go (Iterates.over e none_read) later =
          elim (read_rule src g b Tracks Tracked (some size) (read_round-Tracked (some size)) s
            (ok [], t) k.unfinished k e) [
              | inl complete ↦ complete
              | inr k' ↦ cc (read-nil src g b (some size) s t e, k'.unfinished)
            ]
      go (Iterates.more c cs xs s' e rest split) later =
          elim (read_rule src g b Tracks Tracked (some size) (read_round-Tracked (some size)) s
            (ok (c ∷ cs), s') k.unfinished k e) [
              | inl complete ↦ complete
              | inr k' ↦ later s' xs k' rest
            ]

-- If iterating over a new stream ends without an error, then its body held at least as many bytes
-- as the content length says, whatever the decryptor, which has read nothing yet, and the size of
-- the chunks: a body cut short is noticed.
pub iter_chunks_complete :
    (src : ByteSource) (g : GcmDecryption) (b : CbcDecryption) (body_laws : ByteSourceLaws src)
    (fuel size : ℕ) (body : src.Body) (d : AnyDecryptor g b) (content_length : ℕ)
    (chunks : List Bytes) (t : Stream src g b)
    → amount_read g b d ≡ 0
    → iter_chunks src g b fuel size (decrypting_stream body d content_length)
      ≡ some (chunks, ok tt, t)
    → content_length ≤ length (body_laws.left body)
iter_chunks_complete src g b body_laws fuel size body d n chunks t fresh h =
    chunks-Tracked src g b body_laws n (length (body_laws.left body)) fuel size
      (decrypting_stream body d n) chunks t
      (record { unfinished = refl; content = refl; fed = fresh; in_body = omega arith }) h
