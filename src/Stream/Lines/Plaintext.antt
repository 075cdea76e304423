-- ===== src/Stream/Lines/Plaintext.antt =====
-- `DecryptingStream.iter_lines` of an AES-GCM stream: its lines are those of the verified plaintext.
use mathlib.Core.List.{flatten}
use amazon_s3_encryption_cli.Prelude.{
  ◌≡◌, refl, Bool, ℕ, ◌<◌, Bytes, List, [], ◌∷◌, ◌++◌, Option, none, some, length, arith, inl,
}
use amazon_s3_encryption_cli.Errors.{Result, ok, err}
use amazon_s3_encryption_cli.External.{
  GcmDecryption, GcmDecryptionLaws, CbcDecryption, ByteSource, ByteSourceLaws,
}
use amazon_s3_encryption_cli.Decryptor.{AesGcmDecryptor, gcm, gcm_finalize}
use amazon_s3_encryption_cli.Stream.{decrypting_stream, Stream, iter_chunks}
use amazon_s3_encryption_cli.Stream.Chunks.{iter_chunks-Plaintext}
use amazon_s3_encryption_cli.Stream.Lines.{
  splitlines, first, Yields, yield_line, yield_lines, lines_of_chunks, iter_lines, iterated, last,
  lines,
}
use amazon_s3_encryption_cli.Stream.Lines.Split.{lines_of_chunks-eq-splitlines}

-- Lines before an iteration that fails do not make it succeed.
yield_line-ok : (l : Result Bytes) (rest : Yields) → (yield_line l rest).1 ≡ ok tt → rest.1 ≡ ok tt
yield_line-ok (err e) rest h = absurd (ground arith)
yield_line-ok (ok l) rest h = h

yield_lines-ok :
    (keepends : Bool) (ls : List Bytes) (rest : Yields)
    → (yield_lines keepends ls rest).1 ≡ ok tt
    → rest.1 ≡ ok tt
yield_lines-ok keepends [] rest h = h
yield_lines-ok keepends (l ∷ ls) rest h =
    yield_lines-ok keepends ls rest (yield_line-ok (first (splitlines keepends l)) _ h)

lines_of_chunks-ok :
    (keepends : Bool) (pending : Bytes) (chunks : List Bytes) (r : Result (Unit {0}))
    → (lines_of_chunks keepends pending chunks r).1 ≡ ok tt
    → r ≡ ok tt
unfolding lines_of_chunks
lines_of_chunks-ok keepends pending [] (err e) h = h
lines_of_chunks-ok keepends pending [] (ok u) h = refl
lines_of_chunks-ok keepends pending (chunk ∷ chunks) r h =
    lines_of_chunks-ok keepends (last (lines (pending ++ chunk))) chunks r
      (yield_lines-ok keepends _ _ h)

module _ (src : ByteSource) (g : GcmDecryption) (b : CbcDecryption) (body_laws : ByteSourceLaws src)
    (laws : GcmDecryptionLaws g) where
  -- A new stream over an AES-GCM decryptor, whose body holds as many bytes as it should: if
  -- iterating over its lines ends without an error, then they are the lines of the plaintext of the
  -- whole body, whose tag was verified, split at once; the positive size of the chunks, and where
  -- they end in a line or between a carriage return and a line feed, makes no difference.
  pub iter_lines-splitlines :
      (fuel size : ℕ) (keepends : Bool) (body : src.Body) (d : AesGcmDecryptor g.Context)
      (content_length : ℕ) (ls : List Bytes) (t : Stream src g b)
      → 0 < size
      → 0 < d.tag_length
      → length (body_laws.left body) ≡ content_length
      → iter_lines src g b fuel size keepends (decrypting_stream body (gcm d) content_length)
        ≡ some (ls, ok tt, t)
      → (text : Bytes) × ((gcm_finalize g (body_laws.left body) d).0 ≡ ok text)
        × (ls ≡ splitlines keepends text)
  unfolding iter_lines
  iter_lines-splitlines fuel size keepends body d n ls t p tagged exact h =
      go (iter_chunks src g b fuel size (decrypting_stream body (gcm d) n)) refl h
    where
      go :
          (i : Option (List Bytes × Result (Unit {0}) × Stream src g b))
          → iter_chunks src g b fuel size (decrypting_stream body (gcm d) n) ≡ i
          → iterated src g b keepends i ≡ some (ls, ok tt, t)
          → (text : Bytes) × ((gcm_finalize g (body_laws.left body) d).0 ≡ ok text)
            × (ls ≡ splitlines keepends text)
      go none e k = absurd (ground arith)
      go (some (chunks, r, t')) e k =
          let (same, ended, left) : ((lines_of_chunks keepends [] chunks r).0 ≡ ls)
              × ((lines_of_chunks keepends [] chunks r).1 ≡ ok tt)
              × (t' ≡ t) =
            (cc, cc, cc) in
          let whole : r ≡ ok tt = lines_of_chunks-ok keepends [] chunks r ended in
          let verified =
            iter_chunks-Plaintext src g b body_laws laws fuel size body d n chunks t' p tagged exact
              (rw whole at e) in
          let split = lines_of_chunks-eq-splitlines keepends [] chunks (inl refl) in
          (flatten chunks, verified, cc)
