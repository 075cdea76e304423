-- ===== src/Multipart/Calls.antt =====
-- What any sequence of calls of `encrypt_part` keeps true, and what asking for a part again does.
use amazon_s3_encryption_cli.Prelude.{
  ◌≡◌, refl, Bool, true, false, ℕ, ◌+◌, ◌<◌, Bytes, Option, none, is_some, if◌then◌else◌, ◌==◌,
  arith,
}
use amazon_s3_encryption_cli.Errors.{
  Result, ok, err, client_error, after_final_part, out_of_sequence,
}
use amazon_s3_encryption_cli.External.{Runtime, GcmEncryption}
use amazon_s3_encryption_cli.Multipart.{
  Pipeline, PartData, encoded, finish, after_encrypt, encrypt_part,
}

module _ (runtime : Runtime) (enc : GcmEncryption) where
  -- What holds of a pipeline between two calls.
  pub record IsWellFormed (p : Pipeline runtime enc) : Type 0 where
    pub behind : p.last_encrypted_part < p.next_part
    pub nothing_yet : p.last_encrypted_part ≡ 0 → p.last_encrypted_ciphertext ≡ none
    pub cached : 0 < p.last_encrypted_part → is_some p.last_encrypted_ciphertext ≡ true

  after_encrypt-IsWellFormed :
      (n : ℕ) (is_last : Bool) (p : Pipeline runtime enc) (r : Result (Bytes × enc.Context))
      → IsWellFormed p
      → 0 < n
      → n < p.next_part
      → IsWellFormed (after_encrypt runtime enc n is_last p r).1
  after_encrypt-IsWellFormed n is_last p (err e) w h k = w
  after_encrypt-IsWellFormed n false p (ok (x, c)) w h k = ground arith
  after_encrypt-IsWellFormed n true p (ok (x, c)) w h k = finished (enc.finalize c)
    where
      finished :
          (r : Result enc.Context)
          → IsWellFormed (finish runtime enc n x (record p { encryptor = c }) r).1
      finished (ok f) = ground arith
      finished (err e) = ground arith

  -- Every call, whatever its part number and whether it raises or not, keeps a pipeline well formed.
  pub encrypt_part-IsWellFormed :
      (n : ℕ) (part : PartData) (is_last : Bool) (p : Pipeline runtime enc)
      → IsWellFormed p
      → IsWellFormed (encrypt_part runtime enc n part is_last p).1
  unfolding encrypt_part
  encrypt_part-IsWellFormed n part is_last p w =
      routed (n == p.last_encrypted_part) p.has_final_part_been_seen (n == p.next_part) refl refl
    where
      routed :
          (retried over next : Bool)
          → (n == p.last_encrypted_part) ≡ retried
          → (n == p.next_part) ≡ next
          → IsWellFormed
              (if retried
                then (ok p.last_encrypted_ciphertext, p)
                else if over
                then (err (client_error after_final_part), p)
                else if next
                then after_encrypt runtime enc n is_last
                    (record p { next_part = p.next_part + 1 })
                    (enc.update p.encryptor (encoded runtime part))
                else (err (client_error out_of_sequence), p)).1
      routed true over next h k = w
      routed false true next h k = w
      routed false false false h k = w
      routed false false true h k =
          after_encrypt-IsWellFormed n is_last (record p { next_part = p.next_part + 1 })
            (enc.update p.encryptor (encoded runtime part))
            (ground (arith, w.behind, w.nothing_yet, w.cached)) (ground (arith, w.behind))
            (ground arith)

  -- A call that returns has made its part the one that is remembered, with what it returned.
  remembered :
      (n : ℕ) (is_last : Bool) (p p' : Pipeline runtime enc) (r : Result (Bytes × enc.Context))
      (out : Option Bytes)
      → after_encrypt runtime enc n is_last p r ≡ (ok out, p')
      → (p'.last_encrypted_part ≡ n) × (p'.last_encrypted_ciphertext ≡ out)
  remembered n is_last p p' (err e) out h = absurd (ground arith)
  remembered n false p p' (ok (x, c)) out h = (cc, cc)
  remembered n true p p' (ok (x, c)) out h = finished (enc.finalize c) h
    where
      finished :
          (r : Result enc.Context)
          → finish runtime enc n x (record p { encryptor = c }) r ≡ (ok out, p')
          → (p'.last_encrypted_part ≡ n) × (p'.last_encrypted_ciphertext ≡ out)
      finished (ok f) k = (cc, cc)
      finished (err e) k = absurd (ground arith)

  encrypt_part-remembered :
      (n : ℕ) (part : PartData) (is_last : Bool) (p p' : Pipeline runtime enc) (out : Option Bytes)
      → encrypt_part runtime enc n part is_last p ≡ (ok out, p')
      → (p'.last_encrypted_part ≡ n) × (p'.last_encrypted_ciphertext ≡ out)
  unfolding encrypt_part
  encrypt_part-remembered n part is_last p p' out h =
      routed (n == p.last_encrypted_part) p.has_final_part_been_seen (n == p.next_part) refl h
    where
      routed :
          (retried over next : Bool)
          → (n == p.last_encrypted_part) ≡ retried
          → (if retried
              then (ok p.last_encrypted_ciphertext, p)
              else if over
              then (err (client_error after_final_part), p)
              else if next
              then after_encrypt runtime enc n is_last
                  (record p { next_part = p.next_part + 1 })
                  (enc.update p.encryptor (encoded runtime part))
              else (err (client_error out_of_sequence), p))
            ≡ (ok out, p')
          → (p'.last_encrypted_part ≡ n) × (p'.last_encrypted_ciphertext ≡ out)
      routed true over next k e = let number : n ≡ p.last_encrypted_part = ground arith in (cc, cc)
      routed false true next k e = absurd (ground arith)
      routed false false false k e = absurd (ground arith)
      routed false false true k e =
          remembered n is_last (record p { next_part = p.next_part + 1 }) p'
            (enc.update p.encryptor (encoded runtime part)) out e

  -- Once a part has been returned, asking for it again, with any data, returns the same ciphertext
  -- and leaves the pipeline as it is: the cipher does not advance twice.
  pub encrypt_part-retry :
      (n : ℕ) (part again : PartData) (is_last is_last' : Bool) (p p' : Pipeline runtime enc)
      (out : Option Bytes)
      → encrypt_part runtime enc n part is_last p ≡ (ok out, p')
      → encrypt_part runtime enc n again is_last' p' ≡ (ok out, p')
  unfolding encrypt_part
  encrypt_part-retry n part again is_last is_last' p p' out h =
      let (number, ciphertext) = encrypt_part-remembered n part is_last p p' out h in
      let same : (n == p'.last_encrypted_part) ≡ true = ground arith in simp (same, ciphertext)
