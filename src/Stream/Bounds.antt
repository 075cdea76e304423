-- ===== src/Stream/Bounds.antt =====
-- A `DecryptingStream` over AES-GCM gives no more bytes than were asked for.
use amazon_s3_encryption_cli.Prelude.{
  ◌≡◌, refl, sym, ◌∙◌, true, ℕ, ◌-◌, ◌≤◌, Bytes, [], ◌∷◌, Option, none, some, length, drop,
  length-append, length-drop, ◌==◌, leb, arith, Bool-cases, inl, inr,
}
use amazon_s3_encryption_cli.Errors.{Result, ok, err}
use amazon_s3_encryption_cli.External.{
  GcmDecryption, GcmSizeLaws, CbcDecryption, ByteSource, ByteSourceSizeLaws,
}
use amazon_s3_encryption_cli.Decryptor.{
  AesGcmDecryptor, gcm, update, finalize, amount_read, gcm_update, gcm_finalize,
}
use amazon_s3_encryption_cli.Stream.{
  Stream, after_finalize, read_round, read, finalize_stream, verify_content_length, after_read,
  consume, after_decrypt, to_read,
}
use amazon_s3_encryption_cli.Stream.Ends.{After, read_rule, read-finalized}
use amazon_s3_encryption_cli.Stream.Lines.{readinto, after_readinto, written_into}
use amazon_s3_encryption_cli.Decryptor.Bounds.{
  AtMost, AtMost-weaken, HoldsTag, gcm_update-AtMost, gcm_finalize-AtMost,
}

module _ (src : ByteSource) (g : GcmDecryption) (b : CbcDecryption)
    (body_sizes : ByteSourceSizeLaws src) (sizes : GcmSizeLaws g) where
  -- A stream over AES-GCM that holds back no more than a tag.
  pub record IsGcm (s : Stream src g b) : Type 0 where
    pub d : AesGcmDecryptor g.Context
    pub is_gcm : s.decryptor ≡ gcm d
    pub holds : HoldsTag g sizes d

  abbrev Bounded : ℕ → Result Bytes × Stream src g b → Type 0
  Bounded n (r, s) = IsGcm s × AtMost n r

  finalize-Bounded :
      (n : ℕ) (trailing : Bytes) (s : Stream src g b)
      → length trailing ≤ n
      → IsGcm s
      → Bounded n (finalize_stream src g b trailing s)
  unfolding finalize_stream verify_content_length finalize
  finalize-Bounded n trailing s h i = elim (Bool-cases s.finalized) [
    | inl done ↦ simp done (i, omega arith)
    | inr unfinished ↦
        let (held, few) = gcm_finalize-AtMost g sizes trailing i.d i.holds in
        simp (unfinished, i.is_gcm)
          (verified (gcm_finalize g trailing i.d) held (AtMost-weaken _ n _ h few))
  ]
    where
      checked :
          (d : AesGcmDecryptor g.Context) (p : Bytes)
          → length p ≤ n
          → AtMost n
              (verify_content_length src g b p (record s { finalized = true; decryptor = gcm d }))
      checked d p few = elim (Bool-cases (amount_read g b (gcm d) == s.content_length)) [
        | inl all ↦ rw all few
        | inr short ↦ rw short tt
      ]

      verified :
          (r : Result Bytes × AesGcmDecryptor g.Context)
          → HoldsTag g sizes r.1
          → AtMost n r.0
          → Bounded n (after_finalize src g b (record s { finalized = true }) (r.0, gcm r.1))
      verified (err e, d) held few = (record { d = d; is_gcm = refl; holds = held }, tt)
      verified (ok p, d) held few = (record { d = d; is_gcm = refl; holds = held }, checked d p few)

  after_decrypt-Bounded :
      (n : ℕ) (s : Stream src g b) (r : Result Bytes) (d : AesGcmDecryptor g.Context)
      → HoldsTag g sizes d
      → AtMost n r
      → After src g b IsGcm (Bounded n) (after_decrypt src g b s (r, gcm d))
  after_decrypt-Bounded n s (err e) d held few = (record { d = d; is_gcm = refl; holds = held }, tt)
  after_decrypt-Bounded n s (ok []) d held few = record { d = d; is_gcm = refl; holds = held }
  after_decrypt-Bounded n s (ok (x ∷ xs)) d held few =
      (record { d = d; is_gcm = refl; holds = held }, few)

  consume-Bounded :
      (n : ℕ) (raw : Bytes) (s : Stream src g b)
      → length raw ≤ n
      → IsGcm s
      → After src g b IsGcm (Bounded n) (consume src g b raw s)
  unfolding update
  consume-Bounded n raw s h i = elim (Bool-cases (leb s.content_length s.bytes_consumed)) [
    | inl all ↦ rw all (finalize-Bounded n raw s h i)
    | inr more ↦
        let (held, few) = gcm_update-AtMost g sizes raw i.d i.holds in
        simp (more, i.is_gcm)
          (after_decrypt-Bounded n s (gcm_update g raw i.d).0 (gcm_update g raw i.d).1 held
            (AtMost-weaken _ n _ h few))
  ]

  after_read-Bounded :
      (n : ℕ) (s : Stream src g b) (asked : ℕ) (r : Result Bytes × src.Body)
      → asked ≤ n
      → IsGcm s
      → src.read s.body asked ≡ r
      → After src g b IsGcm (Bounded n) (after_read src g b s r)
  after_read-Bounded n s asked (err e, body) few i h =
      (record { d = i.d; is_gcm = i.is_gcm; holds = i.holds }, tt)
  after_read-Bounded n s asked (ok [], body) few i h =
      finalize-Bounded n [] (record s { body = body }) (omega arith)
        (record { d = i.d; is_gcm = i.is_gcm; holds = i.holds })
  after_read-Bounded n s asked (ok (x ∷ xs), body) few i h =
      consume-Bounded n (x ∷ xs) _
        (omega (arith, body_sizes.length-read s.body body asked (x ∷ xs) h, few))
        (record { d = i.d; is_gcm = i.is_gcm; holds = i.holds })

  read_round-Bounded :
      (n : ℕ) (s : Stream src g b)
      → IsGcm s
      → After src g b IsGcm (Bounded n) (read_round src g b (some n) s)
  unfolding read_round
  read_round-Bounded n s i = elim (Bool-cases (leb s.content_length s.bytes_consumed)) [
    | inl all ↦ rw all (finalize-Bounded n [] s (omega arith) i)
    | inr more ↦ rw more (
        after_read-Bounded n s (to_read (some n) (s.content_length - s.bytes_consumed)) _
          (omega arith) i refl)
  ]

  read-Bounded :
      (n : ℕ) (s : Stream src g b) (r : Result Bytes × Stream src g b)
      → IsGcm s
      → read src g b (some n) s ≡ some r
      → Bounded n r
  read-Bounded n s r i h = elim (Bool-cases s.finalized) [
    | inl done ↦
        let found : ◌≡◌ {A = Option (Result Bytes × Stream src g b)} (some (ok [], s)) (some r) =
          sym (read-finalized src g b (some n) s done) ∙ h in
        let same : (ok [], s) ≡ r = cc in rw (sym same) (i, omega arith)
    | inr unfinished ↦
        read_rule src g b IsGcm (Bounded n) (some n) (read_round-Bounded n) s r unfinished i h
  ]

  -- Reading into a buffer from a stream over AES-GCM that holds back no more than a tag: what it
  -- writes fits, the buffer keeps its length, and the stream holds back no more than a tag again.
  -- The cipher turns each byte into one, and the body returns no more than was asked for.
  pub readinto-fits :
      (buffer buffer' : Bytes) (s s' : Stream src g b) (n : ℕ)
      → IsGcm s
      → readinto src g b buffer s ≡ some (ok n, buffer', s')
      → (n ≤ length buffer) × (length buffer' ≡ length buffer) × IsGcm s'
  unfolding readinto
  readinto-fits buffer buffer' s s' n i h = go (read src g b (some (length buffer)) s) refl h
    where
      go :
          (o : Option (Result Bytes × Stream src g b))
          → read src g b (some (length buffer)) s ≡ o
          → after_readinto src g b buffer o ≡ some (ok n, buffer', s')
          → (n ≤ length buffer) × (length buffer' ≡ length buffer) × IsGcm s'
      go none e k = absurd (cc)
      go (some (err x, t)) e k = absurd (cc)
      go (some (ok text, t)) e k =
          let (count, full, left) : (length text ≡ n)
              × (written_into src g b buffer text ≡ buffer')
              × (t ≡ s') =
            (cc, cc, cc) in
          let (gcm', few) = read-Bounded (length buffer) s (ok text, t) i e in
          (
            rw (sym count) few,
            rw (sym full) (
                omega (
                  arith,
                  few,
                  length-append text (drop (length text) buffer),
                  length-drop (length text) buffer,
                )),
            rw (sym left) gcm',
          )
