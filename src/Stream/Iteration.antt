-- ===== src/Stream/Iteration.antt =====
-- `DecryptingStream.iter_chunks` ends, whatever the body gives.
use amazon_s3_encryption_cli.Prelude.{
  ◌≡◌, true, false, ℕ, zero, suc, ◌+◌, ◌-◌, ◌<◌, Bytes, List, [], ◌∷◌, some, if◌then◌else◌, arith,
  Bool-cases, inl, inr, ◌⊎◌,
}
use amazon_s3_encryption_cli.Errors.{Error, Result, ok, err}
use amazon_s3_encryption_cli.External.{GcmDecryption, CbcDecryption, ByteSource}
use amazon_s3_encryption_cli.Stream.{Stream, read, iter_chunks}
use amazon_s3_encryption_cli.Stream.Ends.{read-finalized, read-Settles, read_total}

module _ (src : ByteSource) (g : GcmDecryption) (b : CbcDecryption) where
  abbrev Iteration : Type 0
  Iteration = List Bytes × Result (Unit {0}) × Stream src g b

  -- The rounds that an iteration has left at most, less the last one.
  abbrev measure : Stream src g b → ℕ
  measure s = if s.finalized then 0 else suc (s.content_length - s.bytes_consumed)

  measure-read :
      (size : ℕ) (s s' : Stream src g b) (c : ℕ) (cs : Bytes)
      → read src g b (some size) s ≡ some (ok (c ∷ cs), s')
      → measure s' < measure s
  measure-read size s s' c cs h = elim (Bool-cases s.finalized) [
    | inl done ↦ cc (read-finalized src g b (some size) s done)
    | inr unfinished ↦
        settled (read-Settles src g b (some size) s (ok (c ∷ cs), s') unfinished h) unfinished
  ]
    where
      settled :
          ((e : Error) × (ok (c ∷ cs) ≡ err e))
            ⊎ (s'.finalized ≡ true)
            ⊎ (s'.content_length ≡ s.content_length)
              × (s.bytes_consumed < s'.bytes_consumed)
              × (s'.bytes_consumed < s.content_length)
          → s.finalized ≡ false
          → measure s' < measure s
      settled (inl (e, bad)) u = cc
      settled (inr (inl done)) u = ground arith
      settled (inr (inr further)) u = ground arith

  iter_chunks_from :
      (fuel size : ℕ) (s : Stream src g b)
      → measure s < fuel
      → (r : Iteration) × (iter_chunks src g b fuel size s ≡ some r)
  unfolding iter_chunks
  iter_chunks_from zero size s h = elim h [ ]
  iter_chunks_from (suc fuel) size s h =
      let (r, found) = read_total src g b (some size) s in
      go r found (λ s'. iter_chunks_from fuel size s')
    where
      go :
          (r : Result Bytes × Stream src g b)
          → read src g b (some size) s ≡ some r
          → ((s' : Stream src g b)
              → measure s' < fuel
              → (i : Iteration) × (iter_chunks src g b fuel size s' ≡ some i))
          → (i : Iteration) × (iter_chunks src g b (suc fuel) size s ≡ some i)
      go (err e, s') found later = (([], err e, s'), rw (found, iter_chunks))
      go (ok [], s') found later = (([], ok tt, s'), rw (found, iter_chunks))
      go (ok (c ∷ cs), s') found later =
          let ((chunks, r, t), rest) =
            later s' (omega (arith, measure-read size s s' c cs found)) in
          (((c ∷ cs) ∷ chunks, r, t), rw (found, iter_chunks, rest))

  -- With two more rounds than there are bytes left in the content, an iteration over a stream comes
  -- to its end or raises, for any size of the chunks.
  pub iter_chunks_total :
      (size : ℕ) (s : Stream src g b)
      → (r : Iteration) × (iter_chunks src g b (s.content_length - s.bytes_consumed + 2) size s
          ≡ some r)
  iter_chunks_total size s =
      iter_chunks_from (s.content_length - s.bytes_consumed + 2) size s (ground arith)
