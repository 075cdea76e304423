-- ===== src/Stream/Plaintext.antt =====
-- Reading a `DecryptingStream` over AES-GCM gives the plaintext of the whole content.
use amazon_s3_encryption_cli.Prelude.{
  ◌≡◌, refl, sym, ap, ◌∙◌, true, false, ℕ, ◌+◌, ◌-◌, ◌<◌, Bytes, [], ◌∷◌, ◌++◌, Option, none, some,
  length, length-append, ◌==◌, leb, arith, Bool-cases, inl, inr, ◌⊎◌, append-nil,
}
use amazon_s3_encryption_cli.Errors.{Result, ok, err, ◌>>=◌}
use amazon_s3_encryption_cli.External.{
  GcmDecryption, GcmDecryptionLaws, CbcDecryption, ByteSource, ByteSourceLaws,
}
use amazon_s3_encryption_cli.Decryptor.{
  AnyDecryptor, AesGcmDecryptor, gcm, update, finalize, amount_read, gcm_update, gcm_finalize,
  gcm_open, gcm_handler,
}
use amazon_s3_encryption_cli.Decryptor.Chunks.{
  value, value-handled, open-gcm_update, tag_length-gcm_update,
}
use amazon_s3_encryption_cli.Stream.{
  Stream, after_finalize, read_round, read, finalize_stream, verify_content_length, after_read,
  consume, after_decrypt, to_read,
}
use amazon_s3_encryption_cli.Stream.Ends.{After, read_rule}

abbrev pub prefixed : Bytes → Option Bytes → Option Bytes
prefixed a none = none
prefixed a (some p) = some (a ++ p)

prefixed-nil : (o : Option Bytes) → prefixed [] o ≡ o
prefixed-nil none = refl
prefixed-nil (some p) = refl

value-prefix :
    (a : Bytes) (m : Result Bytes) → value (m >>= λ p. ok (a ++ p)) ≡ prefixed a (value m)
value-prefix a (ok p) = refl
value-prefix a (err e) = refl

nil_of_length : (xs : Bytes) → length xs ≡ 0 → xs ≡ []
nil_of_length [] h = refl
nil_of_length (x ∷ xs) h = absurd (omega arith)

module _ (src : ByteSource) (g : GcmDecryption) (b : CbcDecryption) (body_laws : ByteSourceLaws src)
    (laws : GcmDecryptionLaws g) where
  -- The plaintext that is still to come from an AES-GCM decryptor and the bytes that follow.
  abbrev to_come : AesGcmDecryptor g.Context → Bytes → Option Bytes
  to_come d rest = value (gcm_open g d.tag_length d.decryptor (d.tail ++ rest))

  -- A stream in the middle of its content, of which `whole` is to come.
  pub record Pending (whole : Option Bytes) (s : Stream src g b) : Type 0 where
    pub d : AesGcmDecryptor g.Context
    pub is_gcm : s.decryptor ≡ gcm d
    pub tagged : 0 < d.tag_length
    pub unfinished : s.finalized ≡ false
    pub exact : s.bytes_consumed + length (body_laws.left s.body) ≡ s.content_length
    pub rest : whole ≡ to_come d (body_laws.left s.body)

  -- What is to come after a read that returned `out`.
  abbrev Read : Option Bytes → Result Bytes × Stream src g b → Type 0
  Read whole (err e, s) = Unit
  Read whole (ok out, s) =
      (s.finalized ≡ true) × (whole ≡ some out)
      ⊎ ((after : Option Bytes) × Pending after s × (whole ≡ prefixed out after))

  finalize-gcm :
      (trailing : Bytes) (d : AesGcmDecryptor g.Context)
      → value (finalize g b trailing (gcm d)).0 ≡ to_come d trailing
  unfolding finalize gcm_finalize
  finalize-gcm trailing d = value-handled gcm_handler _

  after_finalize-Read :
      (whole : Option Bytes) (s : Stream src g b) (r : Result Bytes × AnyDecryptor g b)
      → s.finalized ≡ true
      → whole ≡ value r.0
      → Read whole (after_finalize src g b s r)
  unfolding verify_content_length
  after_finalize-Read whole s (err e, d) done h = tt
  after_finalize-Read whole s (ok p, d) done h =
      elim (Bool-cases (amount_read g b d == s.content_length)) [
        | inl all ↦ rw all (inl (done, h))
        | inr short ↦ rw short tt
      ]

  finalize_stream-Read :
      (whole : Option Bytes) (trailing : Bytes) (s : Stream src g b) (d : AesGcmDecryptor g.Context)
      → s.decryptor ≡ gcm d
      → s.finalized ≡ false
      → whole ≡ to_come d trailing
      → Read whole (finalize_stream src g b trailing s)
  unfolding finalize_stream
  finalize_stream-Read whole trailing s d is_gcm unfinished rest =
      simp (unfinished, is_gcm)
        (after_finalize-Read whole (record s { finalized = true }) (finalize g b trailing (gcm d))
          refl (rest ∙ sym (finalize-gcm trailing d)))

  -- One chunk that is not the last.
  after_decrypt-Read :
      (whole : Option Bytes) (s : Stream src g b) (r : Result Bytes) (d : AesGcmDecryptor g.Context)
      → s.finalized ≡ false
      → 0 < d.tag_length
      → s.bytes_consumed + length (body_laws.left s.body) ≡ s.content_length
      → whole
        ≡ value (
            r >>= λ a.
            gcm_open g d.tag_length d.decryptor (d.tail ++ body_laws.left s.body) >>= λ p.
            ok (a ++ p))
      → After src g b (Pending whole) (Read whole) (after_decrypt src g b s (r, gcm d))
  after_decrypt-Read whole s (err e) d unfinished tagged exact h = tt
  after_decrypt-Read whole s (ok []) d unfinished tagged exact h = record {
    d = d;
    is_gcm = refl;
    tagged = tagged;
    unfinished = unfinished;
    exact = exact;
    rest = h ∙ value-prefix [] _ ∙ prefixed-nil _;
  }
  after_decrypt-Read whole s (ok (x ∷ xs)) d unfinished tagged exact h = inr (
    to_come d (body_laws.left s.body),
    record {
      d = d;
      is_gcm = refl;
      tagged = tagged;
      unfinished = unfinished;
      exact = exact;
      rest = refl;
    },
    h ∙ value-prefix (x ∷ xs) _,
  )

  consume-Read :
      (whole : Option Bytes) (s : Stream src g b) (raw : Bytes) (d : AesGcmDecryptor g.Context)
      → s.decryptor ≡ gcm d
      → s.finalized ≡ false
      → 0 < d.tag_length
      → s.bytes_consumed + length (body_laws.left s.body) ≡ s.content_length
      → whole ≡ to_come d (raw ++ body_laws.left s.body)
      → After src g b (Pending whole) (Read whole) (consume src g b raw s)
  unfolding update
  consume-Read whole s raw d is_gcm unfinished tagged exact rest =
      elim (Bool-cases (leb s.content_length s.bytes_consumed)) [
        | inl all ↦
            let none_left : body_laws.left s.body ≡ [] = nil_of_length _ (ground arith) in
            rw all (
              finalize_stream-Read whole raw s d is_gcm unfinished
                (rw (none_left, append-nil) at rest))
        | inr more ↦
            simp (more, is_gcm)
              (after_decrypt-Read whole s (gcm_update g raw d).0 (gcm_update g raw d).1 unfinished
                (rw tag_length-gcm_update tagged) exact
                (rest ∙ ap value (open-gcm_update g laws d raw (body_laws.left s.body) tagged)))
      ]

  after_read-Read :
      (whole : Option Bytes) (s : Stream src g b) (n : ℕ) (r : Result Bytes × src.Body)
      → 0 < n
      → Pending whole s
      → src.read s.body n ≡ r
      → After src g b (Pending whole) (Read whole) (after_read src g b s r)
  after_read-Read whole s n (err e, body) some_asked i h = tt
  after_read-Read whole s n (ok [], body) some_asked i h =
      let none_left = body_laws.read-nil s.body n body some_asked h in
      finalize_stream-Read whole [] (record s { body = body }) i.d i.is_gcm i.unfinished
        (rw none_left at (i.rest))
  after_read-Read whole s n (ok (x ∷ xs), body) some_asked i h =
      let split = body_laws.read-left s.body n (x ∷ xs) body h in
      consume-Read whole _ (x ∷ xs) i.d i.is_gcm i.unfinished i.tagged
        (omega (arith, i.exact, ap length split, length-append (x ∷ xs) (body_laws.left body)))
        (rw split at (i.rest))

  -- `None`, or a positive number of bytes.
  abbrev pub AsksForSome : Option ℕ → Type 0
  AsksForSome none = Unit
  AsksForSome (some n) = 0 < n

  to_read_pos :
      (amt : Option ℕ) (remaining : ℕ) → AsksForSome amt → 0 < remaining → 0 < to_read amt remaining
  to_read_pos none remaining h k = k
  to_read_pos (some n) remaining h k = omega arith

  read_round-Read :
      (whole : Option Bytes) (amt : Option ℕ)
      → AsksForSome amt
      → (s : Stream src g b) → Pending whole s
      → After src g b (Pending whole) (Read whole) (read_round src g b amt s)
  unfolding read_round
  read_round-Read whole amt asks s i =
      let remaining = s.content_length - s.bytes_consumed in
      elim (Bool-cases (leb s.content_length s.bytes_consumed)) [
        | inl all ↦
            let none_left : body_laws.left s.body ≡ [] =
              nil_of_length _ (ground (arith, i.exact)) in
            rw all
              (finalize_stream-Read whole [] s i.d i.is_gcm i.unfinished (rw none_left at (i.rest)))
        | inr more ↦ rw more (
            after_read-Read whole s (to_read amt remaining)
              (src.read s.body (to_read amt remaining))
              (to_read_pos amt remaining asks (ground arith)) i refl)
      ]

  -- In the middle of AES-GCM content whose body has as many bytes left as the content length says,
  -- a read of some bytes or of all that returns gives the next part of the plaintext: the whole of
  -- what was to come if it has finalized the stream, and else the part before what is still to
  -- come.
  pub read-Read :
      (whole : Option Bytes) (amt : Option ℕ) (s s' : Stream src g b) (out : Bytes)
      → AsksForSome amt
      → Pending whole s
      → read src g b amt s ≡ some (ok out, s')
      → (s'.finalized ≡ true) × (whole ≡ some out)
        ⊎ ((after : Option Bytes) × Pending after s' × (whole ≡ prefixed out after))
  read-Read whole amt s s' out asks i h =
      read_rule src g b (Pending whole) (Read whole) amt (read_round-Read whole amt asks) s
        (ok out, s') i.unfinished i h
