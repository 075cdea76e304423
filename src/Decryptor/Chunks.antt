-- ===== src/Decryptor/Chunks.antt =====
-- Decrypting with AES-GCM chunk by chunk, and at once: the tail buffer of `AesGcmDecryptor`.
use amazon_s3_encryption_cli.Prelude.{
  suc, ◌≡◌, refl, sym, ap, ◌∙◌, false, ℕ, ◌-◌, ◌<◌, ◌≤◌, Bytes, List, [], ◌∷◌, ◌++◌, Option, none,
  some, append_assoc, length, take, drop, length-append, length-drop, take-append-drop, ltb, leb,
  arith, Bool-cases, inl, inr, ◌==◌,
}
use mathlib.Core.List.{flatten}
use amazon_s3_encryption_cli.Errors.{
  Error, Result, ok, err, ◌>>=◌, bind_assoc, bind-ok, Result-cases,
}
use amazon_s3_encryption_cli.External.{GcmDecryption, GcmDecryptionLaws}
use amazon_s3_encryption_cli.Decryptor.{
  AesGcmDecryptor, last_bytes, all_but_last, gcm_handler, handled, gcm_update, gcm_open,
  gcm_finalize, update_if_any,
}

-- What a call returned, if it did not raise.
abbrev pub value {ℓ} : {A : Type ℓ} → Result A → Option A
value (ok a) = some a
value (err e) = none

pub value-handled {ℓ} :
    {A : Type ℓ} (h : Error → Error) (r : Result A) → value (handled h r) ≡ value r
value-handled h (ok a) = refl
value-handled h (err e) = refl

value-bind {ℓ} :
    {A B : Type ℓ} (f : A → B) (r s : Result A)
    → value r ≡ value s
    → value (r >>= λ a. ok (f a)) ≡ value (s >>= λ a. ok (f a))
value-bind f (ok a) (ok b) h = cc
value-bind f (ok a) (err e) h = cc
value-bind f (err e) (ok a) h = cc
value-bind f (err e) (err e') h = refl

-- A split that leaves at least the tag on the right is a split of what stands before it.
cut_right :
    (n : ℕ) (a z : Bytes)
    → 0 < n
    → n ≤ length z
    → (all_but_last n (a ++ z) ≡ a ++ all_but_last n z) × (last_bytes n (a ++ z) ≡ last_bytes n z)
cut_right n [] z p h = (refl, refl)
cut_right n (x ∷ a) z p h =
    let nonzero : (n == 0) ≡ false = ground arith in
    let room : suc (length (a ++ z)) - n ≡ suc (length (a ++ z) - n) =
      omega (arith, length-append a z) in
    let ih = cut_right n a z p h in
    let init : take (length (a ++ z) - n) (a ++ z) ≡ a ++ take (length z - n) z =
      rw nonzero at (ih.0) in
    let rest : drop (length (a ++ z) - n) (a ++ z) ≡ drop (length z - n) z = rw nonzero at (ih.1) in
    (rw (nonzero, room, init), rw (nonzero, room, rest))

-- A text as what stands before the tag and the tag.
split_tag :
    (n : ℕ) (buf : Bytes)
    → 0 < n
    → n ≤ length buf
    → (all_but_last n buf ++ last_bytes n buf ≡ buf) × (length (last_bytes n buf) ≡ n)
split_tag n buf p h =
    let nonzero : (n == 0) ≡ false = ground arith in
    (
      rw nonzero (take-append-drop (length buf - n) buf),
      rw nonzero (omega (arith, length-drop (length buf - n) buf)),
    )

module _ (g : GcmDecryption) where
  -- `update` on each chunk and `finalize` on the last one, the results joined.
  pub decrypt_chunks : List Bytes → Bytes → AesGcmDecryptor g.Context → Result Bytes
  decrypt_chunks [] last d = (gcm_finalize g last d).0
  decrypt_chunks (x ∷ xs) last d =
      let (r, d') = gcm_update g x d in r >>= λ a. decrypt_chunks xs last d' >>= λ p. ok (a ++ p)

module _ (g : GcmDecryption) (laws : GcmDecryptionLaws g) where
  update_if_any_lem : (c : g.Context) (a : Bytes) → update_if_any g c a ≡ g.update c a
  unfolding update_if_any
  update_if_any_lem c [] = sym (laws.update-nil c)
  update_if_any_lem c (x ∷ a) = refl

  pub open-append :
      (n : ℕ) (c : g.Context) (a z : Bytes)
      → 0 < n
      → n ≤ length z
      → gcm_open g n c (a ++ z) ≡ (g.update c a >>= λ r. gcm_open g n r.1 z >>= λ p. ok (r.0 ++ p))
  unfolding gcm_open
  open-append n c a z p h =
      let long : ltb (length (a ++ z)) n ≡ false = ground (arith, length-append a z) in
      let enough : ltb (length z) n ≡ false = ground arith in
      let (init, rest) = cut_right n a z p h in
      simp
        (init, rest, long, enough, update_if_any_lem, laws.update-append, bind_assoc, append_assoc)

  -- One chunk, and then what is left: `gcm_open` of both at once.
  pub open-gcm_update :
      (d : AesGcmDecryptor g.Context) (x rest : Bytes)
      → 0 < d.tag_length
      → let (r, d') = gcm_update g x d in
        gcm_open g d.tag_length d.decryptor (d.tail ++ (x ++ rest))
        ≡ (r >>= λ a. gcm_open g d'.tag_length d'.decryptor (d'.tail ++ rest) >>= λ p. ok (a ++ p))
  unfolding gcm_update
  open-gcm_update d x rest p = elim (Bool-cases (leb (length (d.tail ++ x)) d.tag_length)) [
    | inl absorbed ↦ rw absorbed (simp (append_assoc, bind-ok))
    | inr full ↦
        let buf : Bytes = d.tail ++ x in
        let (whole, tagged) = split_tag d.tag_length buf p (ground arith) in
        let opened =
          open-append d.tag_length d.decryptor (all_but_last d.tag_length buf)
            (last_bytes d.tag_length buf ++ rest) p
            (omega (arith, tagged, length-append (last_bytes d.tag_length buf) rest)) in
        let regrouped : d.tail ++ (x ++ rest)
            ≡ all_but_last d.tag_length buf ++ (last_bytes d.tag_length buf ++ rest) =
          sym (append_assoc d.tail x rest)
          ∙ ap (λ b. b ++ rest) (sym whole)
          ∙ append_assoc (all_but_last d.tag_length buf) (last_bytes d.tag_length buf) rest in
        elim (Result-cases (g.update d.decryptor (all_but_last d.tag_length buf))) [
          | inl (r, e) ↦ rw (regrouped, opened, full, e)
          | inr (e, raised) ↦ rw (regrouped, opened, full, raised)
        ]
  ]

  pub tag_length-gcm_update :
      (d : AesGcmDecryptor g.Context) (x : Bytes) → (gcm_update g x d).1.tag_length ≡ d.tag_length
  unfolding gcm_update
  tag_length-gcm_update d x = ground arith

  chunks-open :
      (chunks : List Bytes) (last : Bytes) (d : AesGcmDecryptor g.Context)
      → 0 < d.tag_length
      → value (decrypt_chunks g chunks last d)
        ≡ value (gcm_open g d.tag_length d.decryptor (d.tail ++ (flatten chunks ++ last)))
  unfolding decrypt_chunks gcm_finalize flatten
  chunks-open [] last d p = value-handled gcm_handler _
  chunks-open (x ∷ xs) last d p =
      let (r, d') = gcm_update g x d in
      let ih = chunks-open xs last d' (rw tag_length-gcm_update p) in
      rw (append_assoc x (flatten xs) last, open-gcm_update d x (flatten xs ++ last) p)
        (after r d' ih)
    where
      after :
          (r : Result Bytes) (d' : AesGcmDecryptor g.Context)
          → value (decrypt_chunks g xs last d')
            ≡ value (gcm_open g d'.tag_length d'.decryptor (d'.tail ++ (flatten xs ++ last)))
          → value (r >>= λ a. decrypt_chunks g xs last d' >>= λ q. ok (a ++ q))
            ≡ value (
                r >>= λ a.
                gcm_open g d'.tag_length d'.decryptor (d'.tail ++ (flatten xs ++ last)) >>= λ q.
                ok (a ++ q))
      after (ok a) d' h = value-bind (λ q. a ++ q) _ _ h
      after (err e) d' h = refl

  -- However the content is cut into chunks, empty ones included, decrypting it chunk by chunk
  -- returns the plaintext that decrypting it at once returns, and raises where that raises; the
  -- tag is at least one byte long.
  pub decrypt_chunks-eq-gcm_finalize :
      (chunks : List Bytes) (last : Bytes) (d : AesGcmDecryptor g.Context)
      → 0 < d.tag_length
      → value (decrypt_chunks g chunks last d) ≡ value (gcm_finalize g (flatten chunks ++ last) d).0
  unfolding gcm_finalize
  decrypt_chunks-eq-gcm_finalize chunks last d p =
      chunks-open chunks last d p ∙ sym (value-handled gcm_handler _)
