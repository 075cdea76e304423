-- ===== src/Stream/Chunks.antt =====
-- `DecryptingStream.iter_chunks`: the chunks make up the plaintext, and the iteration ends.
use mathlib.Core.List.{flatten}
use amazon_s3_encryption_cli.Prelude.{
  ◌≡◌, refl, ap, ◌∙◌, true, ℕ, zero, suc, ◌<◌, Bytes, List, [], ◌∷◌, Option, none, some, length,
  arith, inl, inr, append-nil,
}
use amazon_s3_encryption_cli.Errors.{Result, ok, err}
use amazon_s3_encryption_cli.External.{
  GcmDecryption, GcmDecryptionLaws, CbcDecryption, ByteSource, ByteSourceLaws,
}
use amazon_s3_encryption_cli.Decryptor.{
  AnyDecryptor, AesGcmDecryptor, gcm, gcm_finalize, gcm_handler,
}
use amazon_s3_encryption_cli.Decryptor.Chunks.{value, value-handled}
use amazon_s3_encryption_cli.Stream.{decrypting_stream, Stream, read, iter_chunks, yielded}
use amazon_s3_encryption_cli.Stream.Ends.{read-finalized, read-nil}
use amazon_s3_encryption_cli.Stream.Plaintext.{Pending, read-Read, prefixed}

ok_of_value : (r : Result Bytes) (p : Bytes) → value r ≡ some p → r ≡ ok p
ok_of_value (ok a) p h = cc
ok_of_value (err e) p h = cc

module _ (src : ByteSource) (g : GcmDecryption) (b : CbcDecryption) where
  abbrev pub Iteration : Type 0
  Iteration = Option (List Bytes × Result (Unit {0}) × Stream src g b)

  -- A finished iteration has read no bytes, or a chunk and what the rest of it gave.
  pub data Iterates (size fuel : ℕ) (s : Stream src g b) (chunks : List Bytes) (t : Stream src g b)
      : Type 0 where
    over :
        read src g b (some size) s ≡ some (ok [], t) → chunks ≡ [] → Iterates size fuel s chunks t
    more :
        (c : ℕ) (cs : Bytes) (xs : List Bytes) (s' : Stream src g b)
        → read src g b (some size) s ≡ some (ok (c ∷ cs), s')
        → iter_chunks src g b fuel size s' ≡ some (xs, ok tt, t)
        → chunks ≡ (c ∷ cs) ∷ xs
        → Iterates size fuel s chunks t

  Iterates-yielded :
      (x : Bytes) (i : Iteration) (chunks : List Bytes) (t : Stream src g b)
      → yielded src g b x i ≡ some (chunks, ok tt, t)
      → (xs : List Bytes) × (i ≡ some (xs, ok tt, t)) × (chunks ≡ x ∷ xs)
  Iterates-yielded x none chunks t h = absurd (ground arith)
  Iterates-yielded x (some (xs, r, t')) chunks t h = (xs, cc, cc)

  pub iter_chunks-Iterates :
      (fuel size : ℕ) (s : Stream src g b) (chunks : List Bytes) (t : Stream src g b)
      → iter_chunks src g b (suc fuel) size s ≡ some (chunks, ok tt, t)
      → Iterates size fuel s chunks t
  unfolding iter_chunks
  iter_chunks-Iterates fuel size s chunks t h = go (read src g b (some size) s) refl
    where
      go :
          (o : Option (Result Bytes × Stream src g b))
          → read src g b (some size) s ≡ o
          → Iterates size fuel s chunks t
      go none e = absurd (cc (rw (e, iter_chunks) at h))
      go (some (err x, s')) e = absurd (cc (rw (e, iter_chunks) at h))
      go (some (ok [], s')) e =
          let found : ◌≡◌ {A = Iteration} (some ([], ok tt, s')) (some (chunks, ok tt, t)) =
            rw (e, iter_chunks) at h in
          Iterates.over (cc) (cc)
      go (some (ok (x ∷ xs), s')) e =
          let (rest, later, split) =
            Iterates-yielded (x ∷ xs) (iter_chunks src g b fuel size s') chunks t
              (rw (e, iter_chunks) at h) in
          Iterates.more x xs rest s' e later split

  Iterates-finalized :
      (size fuel : ℕ) (s : Stream src g b) (chunks : List Bytes) (t : Stream src g b)
      → s.finalized ≡ true
      → Iterates size fuel s chunks t
      → chunks ≡ []
  Iterates-finalized size fuel s chunks t done (Iterates.over e none_read) = none_read
  Iterates-finalized size fuel s chunks t done (Iterates.more c cs xs s' e later split) =
      cc (read-finalized src g b (some size) s done)

  chunks-finalized :
      (fuel size : ℕ) (s : Stream src g b) (chunks : List Bytes) (t : Stream src g b)
      → s.finalized ≡ true
      → iter_chunks src g b fuel size s ≡ some (chunks, ok tt, t)
      → chunks ≡ []
  unfolding iter_chunks
  chunks-finalized zero size s chunks t done h = absurd (ground arith)
  chunks-finalized (suc fuel) size s chunks t done h =
      Iterates-finalized size fuel s chunks t done (iter_chunks-Iterates fuel size s chunks t h)

module _ (src : ByteSource) (g : GcmDecryption) (b : CbcDecryption) (body_laws : ByteSourceLaws src)
    (laws : GcmDecryptionLaws g) where
  chunks-Pending :
      (fuel size : ℕ) (whole : Option Bytes) (s : Stream src g b) (chunks : List Bytes)
      (t : Stream src g b)
      → 0 < size
      → Pending src g b body_laws laws whole s
      → iter_chunks src g b fuel size s ≡ some (chunks, ok tt, t)
      → whole ≡ some (flatten chunks)
  unfolding iter_chunks flatten
  chunks-Pending zero size whole s chunks t p i h = absurd (ground arith)
  chunks-Pending (suc fuel) size whole s chunks t p i h =
      go (iter_chunks-Iterates src g b fuel size s chunks t h)
        (λ after s' xs. chunks-Pending fuel size after s' xs t p)
    where
      go :
          Iterates src g b size fuel s chunks t
          → ((after : Option Bytes) (s' : Stream src g b) (xs : List Bytes)
              → Pending src g b body_laws laws after s'
              → iter_chunks src g b fuel size s' ≡ some (xs, ok tt, t)
              → after ≡ some (flatten xs))
          → whole ≡ some (flatten chunks)
      go (Iterates.over e none_read) later =
          elim (read-Read src g b body_laws laws whole (some size) s t [] p i e) [
            | inl (done, all) ↦ rw none_read all
            | inr (after, i', part) ↦ cc (read-nil src g b (some size) s t e, i'.unfinished)
          ]
      go (Iterates.more c cs xs s' e rest split) later =
          elim (read-Read src g b body_laws laws whole (some size) s s' (c ∷ cs) p i e) [
            | inl (done, all) ↦
                let none_left = chunks-finalized src g b fuel size s' xs t done rest in
                rw (split, none_left, append-nil) all
            | inr (after, i', part) ↦
                let found : after ≡ some (flatten xs) = later after s' xs i' rest in
                rw split (part ∙ ap (prefixed (c ∷ cs)) found)
          ]

  -- A new stream over an AES-GCM decryptor, whose body holds as many bytes as it should: if
  -- iterating over it in chunks of any positive size ends without an error, then the chunks make up
  -- the plaintext of the whole body, whose tag was verified.
  pub iter_chunks-Plaintext :
      (fuel size : ℕ) (body : src.Body) (d : AesGcmDecryptor g.Context) (content_length : ℕ)
      (chunks : List Bytes) (t : Stream src g b)
      → 0 < size
      → 0 < d.tag_length
      → length (body_laws.left body) ≡ content_length
      → iter_chunks src g b fuel size (decrypting_stream body (gcm d) content_length)
        ≡ some (chunks, ok tt, t)
      → (gcm_finalize g (body_laws.left body) d).0 ≡ ok (flatten chunks)
  unfolding gcm_finalize
  iter_chunks-Plaintext fuel size body d n chunks t p tagged exact h =
      let s = decrypting_stream {D = AnyDecryptor g b} body (gcm d) n in
      let start : Pending src g b body_laws laws (value (gcm_finalize g (body_laws.left body) d).0)
          s =
        record {
          d = d;
          is_gcm = refl;
          tagged = tagged;
          unfinished = refl;
          exact = omega arith;
          rest = value-handled gcm_handler _;
        } in
      ok_of_value _ (flatten chunks) (chunks-Pending fuel size _ s chunks t p start h)
