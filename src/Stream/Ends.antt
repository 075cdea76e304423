-- ===== src/Stream/Ends.antt =====
-- The loop of `DecryptingStream.read` ends, and what a finalized stream does.
use amazon_s3_encryption_cli.Prelude.{
  ◌≡◌, refl, true, false, ℕ, zero, suc, ◌-◌, ◌<◌, ◌≤◌, Bytes, [], ◌∷◌, Option, some, leb, arith,
  Bool-cases, inl, inr, ◌⊎◌,
}
use mathlib.Core.Path.{subst}
use amazon_s3_encryption_cli.Errors.{Error, Result, ok, err}
use amazon_s3_encryption_cli.External.{GcmDecryption, CbcDecryption, ByteSource}
use amazon_s3_encryption_cli.Decryptor.{AnyDecryptor, update}
use amazon_s3_encryption_cli.Stream.{
  Stream, Round, read_round, read_loop, read, finalize_stream, after_read, consume, after_decrypt,
  to_read,
}

module _ (src : ByteSource) (g : GcmDecryption) (b : CbcDecryption) where
  -- `s'` is further in the content than `s`, and not at its end.
  abbrev pub Progress : Stream src g b → Stream src g b → Type 0
  Progress s s' =
      (s'.content_length ≡ s.content_length)
      × (s.bytes_consumed < s'.bytes_consumed)
      × (s'.bytes_consumed < s.content_length)

  -- A call that raises, finalizes the stream or has gone further.
  abbrev pub Settles : Stream src g b → Result Bytes × Stream src g b → Type 0
  Settles s (r, s') = ((e : Error) × (r ≡ err e)) ⊎ (s'.finalized ≡ true) ⊎ Progress s s'

  abbrev Goes : Stream src g b → Round src g b → Type 0
  Goes s (Round.return r) = Settles s r
  Goes s (Round.again s') = Progress s s'

  finalize_stream-finalized :
      (trailing : Bytes) (s : Stream src g b)
      → (finalize_stream src g b trailing s).1.finalized ≡ true
  unfolding finalize_stream
  finalize_stream-finalized trailing s = ground arith

  after_decrypt-Goes :
      (s t : Stream src g b) (r : Result Bytes × AnyDecryptor g b)
      → t.content_length ≡ s.content_length
      → s.bytes_consumed < t.bytes_consumed
      → t.bytes_consumed < s.content_length
      → Goes s (after_decrypt src g b t r)
  after_decrypt-Goes s t (err e, d) h k l = inl (e, refl)
  after_decrypt-Goes s t (ok [], d) h k l = (h, k, l)
  after_decrypt-Goes s t (ok (x ∷ xs), d) h k l = inr (inr (h, k, l))

  consume-Goes :
      (s t : Stream src g b) (raw : Bytes)
      → t.content_length ≡ s.content_length
      → s.bytes_consumed < t.bytes_consumed
      → Goes s (consume src g b raw t)
  consume-Goes s t raw h k = elim (Bool-cases (leb t.content_length t.bytes_consumed)) [
    | inl all ↦ rw all (inr (inl (finalize_stream-finalized raw t)))
    | inr more ↦ rw more (after_decrypt-Goes s t (update g b raw t.decryptor) h k (ground arith))
  ]

  after_read-Goes :
      (s : Stream src g b) (r : Result Bytes × src.Body) → Goes s (after_read src g b s r)
  after_read-Goes s (err e, body) = inl (e, refl)
  after_read-Goes s (ok [], body) =
      inr (inl (finalize_stream-finalized [] (record s { body = body })))
  after_read-Goes s (ok (x ∷ xs), body) = consume-Goes s _ (x ∷ xs) refl (omega arith)

  read_round-Goes : (amt : Option ℕ) (s : Stream src g b) → Goes s (read_round src g b amt s)
  unfolding read_round
  read_round-Goes amt s = elim (Bool-cases (leb s.content_length s.bytes_consumed)) [
    | inl all ↦ rw all (inr (inl (finalize_stream-finalized [] s)))
    | inr more ↦
        rw more
          (after_read-Goes s (src.read s.body (to_read amt (s.content_length - s.bytes_consumed))))
  ]

  read_loop_total :
      (fuel : ℕ) (amt : Option ℕ) (s : Stream src g b)
      → s.content_length - s.bytes_consumed < fuel
      → (r : Result Bytes × Stream src g b) × (read_loop src g b fuel amt s ≡ some r)
  unfolding read_loop
  read_loop_total zero amt s h = elim h [ ]
  read_loop_total (suc fuel) amt s h =
      go (read_round src g b amt s) refl (read_round-Goes amt s) (λ s'. read_loop_total fuel amt s')
    where
      go :
          (round : Round src g b)
          → read_round src g b amt s ≡ round
          → Goes s round
          → ((s' : Stream src g b)
              → s'.content_length - s'.bytes_consumed < fuel
              → (r : Result Bytes × Stream src g b) × (read_loop src g b fuel amt s' ≡ some r))
          → (r : Result Bytes × Stream src g b) × (read_loop src g b (suc fuel) amt s ≡ some r)
      go (Round.return r) e k later = (r, rw (e, read_loop))
      go (Round.again s') e k later =
          let (r, found) = later s' (omega arith) in (r, rw (e, read_loop) found)

  -- A read always returns or raises, whatever the body gives: the loop ends.
  pub read_total :
      (amt : Option ℕ) (s : Stream src g b)
      → (r : Result Bytes × Stream src g b) × (read src g b amt s ≡ some r)
  unfolding read
  read_total amt s = elim (Bool-cases s.finalized) [
    | inl done ↦ ((ok [], s), rw done)
    | inr open_stream ↦
        let (r, found) =
          read_loop_total (suc (s.content_length - s.bytes_consumed)) amt s (omega arith) in
        (r, simp open_stream found)
  ]

  -- What holds after a round that returns, or before the next one.
  abbrev pub After {ℓ} :
      (Stream src g b → Type ℓ) → (Result Bytes × Stream src g b → Type ℓ) → Round src g b → Type ℓ
  After I Q (Round.return r) = Q r
  After I Q (Round.again s') = I s'

  module _ {ℓ} (I : Stream src g b → Type ℓ) (Q : Result Bytes × Stream src g b → Type ℓ)
      (amt : Option ℕ)
      (step : (s : Stream src g b) → I s → After I Q (read_round src g b amt s)) where
    read_loop_rule :
        (fuel : ℕ) (s : Stream src g b) (r : Result Bytes × Stream src g b)
        → I s
        → read_loop src g b fuel amt s ≡ some r
        → Q r
    unfolding read_loop
    read_loop_rule zero s r i h = absurd (ground arith)
    read_loop_rule (suc fuel) s r i h =
        go (read_round src g b amt s) refl (step s i) (λ s'. read_loop_rule fuel s' r)
      where
        go :
            (round : Round src g b)
            → read_round src g b amt s ≡ round
            → After I Q round
            → ((s' : Stream src g b) → I s' → read_loop src g b fuel amt s' ≡ some r → Q r)
            → Q r
        go (Round.return r') e q later =
            let found : ◌≡◌ {A = Option (Result Bytes × Stream src g b)} (some r') (some r) =
              rw (e, read_loop) at h in
            let same : r' ≡ r = cc in subst Q same q
        go (Round.again s') e i' later = later s' i' (rw (e, read_loop) at h)

    -- The rule for `read`: a round keeps `I` or returns with `Q`.
    pub read_rule :
        (s : Stream src g b) (r : Result Bytes × Stream src g b)
        → s.finalized ≡ false
        → I s
        → read src g b amt s ≡ some r
        → Q r
    unfolding read
    read_rule s r unfinished i h =
        read_loop_rule (suc (s.content_length - s.bytes_consumed)) s r i (simp unfinished at h)

  -- What a read gives that says that the content is over.
  abbrev EndsFinal : Result Bytes × Stream src g b → Type 0
  EndsFinal (r, s') = r ≡ ok [] → s'.finalized ≡ true

  after_decrypt-EndsFinal :
      (s : Stream src g b) (r : Result Bytes × AnyDecryptor g b)
      → After (λ _. Unit {0}) EndsFinal (after_decrypt src g b s r)
  after_decrypt-EndsFinal s (err e, d) = λ h. cc
  after_decrypt-EndsFinal s (ok [], d) = tt
  after_decrypt-EndsFinal s (ok (x ∷ xs), d) = λ h. cc

  consume-EndsFinal :
      (s : Stream src g b) (raw : Bytes) → After (λ _. Unit {0}) EndsFinal (consume src g b raw s)
  consume-EndsFinal s raw = elim (Bool-cases (leb s.content_length s.bytes_consumed)) [
    | inl all ↦ rw all (λ _. finalize_stream-finalized raw s)
    | inr more ↦ rw more (after_decrypt-EndsFinal s (update g b raw s.decryptor))
  ]

  after_read-EndsFinal :
      (s : Stream src g b) (r : Result Bytes × src.Body)
      → After (λ _. Unit {0}) EndsFinal (after_read src g b s r)
  after_read-EndsFinal s (err e, body) = λ h. cc
  after_read-EndsFinal s (ok [], body) =
      λ h. finalize_stream-finalized [] (record s { body = body })
  after_read-EndsFinal s (ok (x ∷ xs), body) = consume-EndsFinal _ (x ∷ xs)

  read_round-EndsFinal :
      (amt : Option ℕ) (s : Stream src g b)
      → After (λ _. Unit {0}) EndsFinal (read_round src g b amt s)
  unfolding read_round
  read_round-EndsFinal amt s = elim (Bool-cases (leb s.content_length s.bytes_consumed)) [
    | inl all ↦ rw all (λ _. finalize_stream-finalized [] s)
    | inr more ↦ rw more (
        after_read-EndsFinal s
          (src.read s.body (to_read amt (s.content_length - s.bytes_consumed))))
  ]

  -- A read that returns no bytes leaves the stream finalized.
  pub read-nil :
      (amt : Option ℕ) (s s' : Stream src g b)
      → read src g b amt s ≡ some (ok [], s')
      → s'.finalized ≡ true
  unfolding read
  read-nil amt s s' h = elim (Bool-cases s.finalized) [
    | inl done ↦ ground arith
    | inr unfinished ↦
        read_rule (λ _. Unit {0}) EndsFinal amt (λ t _. read_round-EndsFinal amt t) s (ok [], s')
          unfinished tt h refl
  ]

  -- A read of a finalized stream, also of one whose last read has raised, returns no bytes and
  -- changes nothing.
  pub read-finalized :
      (amt : Option ℕ) (s : Stream src g b)
      → s.finalized ≡ true
      → read src g b amt s ≡ some (ok [], s)
  unfolding read
  read-finalized amt s h = simp h

  -- A read of a stream that is not finalized raises, finalizes the stream, or leaves it further on
  -- in the content than it was, before the end of it.
  pub read-Settles :
      (amt : Option ℕ) (s : Stream src g b) (r : Result Bytes × Stream src g b)
      → s.finalized ≡ false
      → read src g b amt s ≡ some r
      → Settles s r
  read-Settles amt s r unfinished h =
      read_rule From (Settles s) amt from s r unfinished (refl, omega arith) h
    where
      From : Stream src g b → Type 0
      From t = (t.content_length ≡ s.content_length) × (s.bytes_consumed ≤ t.bytes_consumed)

      from : (t : Stream src g b) → From t → After From (Settles s) (read_round src g b amt t)
      from t i = widen (read_round src g b amt t) (read_round-Goes amt t)
        where
          widen : (round : Round src g b) → Goes t round → After From (Settles s) round
          widen (Round.return (r, s')) (inl e) = inl e
          widen (Round.return (r, s')) (inr (inl done)) = inr (inl done)
          widen (Round.return (r, s')) (inr (inr more)) = inr (inr (omega (arith, i, more)))
          widen (Round.again s') more = omega (arith, i, more)
