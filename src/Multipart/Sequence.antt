-- ===== src/Multipart/Sequence.antt =====
-- Parts encrypted in sequence, against encrypting the whole text at once.
use mathlib.Core.List.{flatten}
use amazon_s3_encryption_cli.Prelude.{
  ◌≡◌, refl, sym, ap, ◌∙◌, Bool, true, false, ℕ, ◌+◌, ◌<◌, Bytes, List, [], ◌∷◌, ◌++◌, Option, none,
  some, if◌then◌else◌, ◌==◌, arith, append_assoc,
}
use amazon_s3_encryption_cli.Errors.{Result, ok, err, other_error, ◌>>=◌}
use amazon_s3_encryption_cli.External.{Runtime, GcmEncryption, GcmEncryptionLaws}
use amazon_s3_encryption_cli.Multipart.{
  Pipeline, PartData, bytes, encoded, finish, after_encrypt, encrypt_part,
}

-- A returned ciphertext; `None` is no ciphertext.
abbrev pub collected : Option Bytes → Result Bytes
collected none = err other_error
collected (some c) = ok c

module _ (runtime : Runtime) (enc : GcmEncryption) where
  -- Parts from the number `n` on, the last one with `is_last`; what they return, joined.
  pub encrypt_parts : ℕ → List Bytes → Bytes → Pipeline runtime enc → Result Bytes
  encrypt_parts n [] last p =
      (encrypt_part runtime enc n (bytes last) true p).0 >>= λ c. collected c
  encrypt_parts n (x ∷ xs) last p =
      let (r, p') = encrypt_part runtime enc n (bytes x) false p in
      r >>= λ c. collected c >>= λ a. encrypt_parts (n + 1) xs last p' >>= λ rest. ok (a ++ rest)

  -- The whole text encrypted at once, with the tag behind it.
  unfoldable pub encrypt_whole : enc.Context → Bytes → Result Bytes
  encrypt_whole c text = enc.update c text >>= λ r. enc.finalize r.1 >>= λ f. ok (r.0 ++ enc.tag f)

  -- A pipeline that expects the part `n`.
  pub record Expects (n : ℕ) (p : Pipeline runtime enc) : Type 0 where
    pub next : p.next_part ≡ n
    pub new : p.last_encrypted_part < n
    pub open_upload : p.has_final_part_been_seen ≡ false

  third :
      {A : Type 0} (a b c : Bool) (x y z w : A)
      → a ≡ false
      → b ≡ false
      → c ≡ true
      → (if a then x else if b then y else if c then z else w) ≡ z
  third a b c x y z w h k l = simp (h, k, l)

  -- The part that a pipeline expects is encrypted.
  pub encrypt_part-expected :
      (n : ℕ) (part : PartData) (is_last : Bool) (p : Pipeline runtime enc)
      → Expects n p
      → encrypt_part runtime enc n part is_last p
        ≡ after_encrypt runtime enc n is_last
            (record p { next_part = p.next_part + 1 })
            (enc.update p.encryptor (encoded runtime part))
  unfolding encrypt_part
  encrypt_part-expected n part is_last p e =
      third (n == p.last_encrypted_part) p.has_final_part_been_seen (n == p.next_part) _ _ _ _
        (ground (arith, e.new)) e.open_upload (ground (arith, e.next))

  module _ (laws : GcmEncryptionLaws enc) where
    pub encrypt_whole-append :
        (c : enc.Context) (a b : Bytes)
        → encrypt_whole c (a ++ b)
          ≡ (enc.update c a >>= λ u. encrypt_whole u.1 b >>= λ rest. ok (u.0 ++ rest))
    unfolding encrypt_whole
    encrypt_whole-append c a b = rw (laws.update-append c a b) (first (enc.update c a))
      where
        joined : Bytes → Bytes × enc.Context → Result (Bytes × enc.Context)
        joined x s = ok (x ++ s.0, s.1)

        third_step :
            (x y : Bytes) (r : Result enc.Context)
            → (r >>= λ f. ok ((x ++ y) ++ enc.tag f))
              ≡ ((r >>= λ f. ok (y ++ enc.tag f)) >>= λ rest. ok (x ++ rest))
        third_step x y (ok f) = ap ok (append_assoc x y (enc.tag f))
        third_step x y (err e) = refl

        second :
            (x : Bytes) (r : Result (Bytes × enc.Context))
            → ((r >>= λ s. joined x s) >>= λ r. enc.finalize r.1 >>= λ f. ok (r.0 ++ enc.tag f)) ≡ (
                (r >>= λ r. enc.finalize r.1 >>= λ f. ok (r.0 ++ enc.tag f)) >>= λ rest.
                ok (x ++ rest))
        second x (ok (y, d)) = third_step x y (enc.finalize d)
        second x (err e) = refl

        first :
            (r : Result (Bytes × enc.Context))
            → ((r >>= λ r. enc.update r.1 b >>= λ s. joined r.0 s) >>= λ r.
                enc.finalize r.1 >>= λ f. ok (r.0 ++ enc.tag f))
              ≡ (r >>= λ u.
                  (enc.update u.1 b >>= λ r. enc.finalize r.1 >>= λ f. ok (r.0 ++ enc.tag f))
                  >>= λ rest. ok (u.0 ++ rest))
        first (ok (x, d)) = second x (enc.update d b)
        first (err e) = refl

    -- Parts of bytes encrypted in sequence, from the number that the pipeline expects on and the
    -- last one marked as last, are the whole text encrypted at once: the same ciphertext and tag,
    -- and the same error if the cipher raises one. The cipher takes a text in pieces as it takes it
    -- at once.
    pub encrypt_parts-eq-encrypt_whole :
        (n : ℕ) (parts : List Bytes) (last : Bytes) (p : Pipeline runtime enc)
        → Expects n p
        → encrypt_parts n parts last p ≡ encrypt_whole p.encryptor (flatten parts ++ last)
    unfolding encrypt_parts encrypt_whole flatten
    encrypt_parts-eq-encrypt_whole n [] last p e =
        rw (encrypt_part-expected n (bytes last) true p e) (last_part (enc.update p.encryptor last))
      where
        finished :
            (x : Bytes) (q : Pipeline runtime enc) (r : Result enc.Context)
            → ((finish runtime enc n x q r).0 >>= λ c. collected c)
              ≡ (r >>= λ f. ok (x ++ enc.tag f))
        finished x q (ok f) = refl
        finished x q (err e) = refl

        last_part :
            (r : Result (Bytes × enc.Context))
            → ((after_encrypt runtime enc n true (record p { next_part = p.next_part + 1 }) r).0
                >>= λ c. collected c)
              ≡ (r >>= λ r. enc.finalize r.1 >>= λ f. ok (r.0 ++ enc.tag f))
        last_part (err x) = refl
        last_part (ok (x, c)) = finished x _ (enc.finalize c)
    encrypt_parts-eq-encrypt_whole n (x ∷ xs) last p e =
        rw (encrypt_part-expected n (bytes x) false p e) (
          first_part (encrypt_parts-eq-encrypt_whole (n + 1) xs last) (enc.update p.encryptor x)
          ∙ sym (encrypt_whole-append p.encryptor x (flatten xs ++ last))
          ∙ ap (encrypt_whole p.encryptor) (sym (append_assoc x (flatten xs) last)))
      where
        first_part :
            ((q : Pipeline runtime enc)
              → Expects (n + 1) q
              → encrypt_parts (n + 1) xs last q ≡ encrypt_whole q.encryptor (flatten xs ++ last))
            → (r : Result (Bytes × enc.Context))
            → ((after_encrypt runtime enc n false (record p { next_part = p.next_part + 1 }) r).0
                >>= λ c. collected c >>= λ a.
                    encrypt_parts
                      (n + 1)
                      xs
                      last
                      (after_encrypt runtime enc n false
                        (record p { next_part = p.next_part + 1 })
                        r).1
                    >>= λ rest. ok (a ++ rest))
              ≡ (r >>= λ u. encrypt_whole u.1 (flatten xs ++ last) >>= λ rest. ok (u.0 ++ rest))
        first_part rest (err y) = refl
        first_part rest (ok (a, c)) =
            ap (λ r. r >>= λ rest. ok (a ++ rest))
              (rest _ (record {
                next = ground (arith, e.next);
                new = ground arith;
                open_upload = e.open_upload;
              }))
