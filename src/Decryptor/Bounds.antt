-- ===== src/Decryptor/Bounds.antt =====
-- An `AesGcmDecryptor` holds back no more than a tag, and gives no more bytes than it is fed.
use amazon_s3_encryption_cli.Prelude.{
  ◌≡◌, refl, sym, false, ℕ, ◌+◌, ◌-◌, ◌<◌, ◌≤◌, Bytes, [], ◌++◌, length, length-append, length-take,
  length-drop, ◌==◌, leb, ltb, arith, Bool-cases, inl, inr, is_empty, append-nil,
}
use amazon_s3_encryption_cli.Errors.{
  Result, ok, err, >>=-eq-ok, ok-injective, raise_if, client_error, incomplete_gcm_data,
}
use amazon_s3_encryption_cli.External.{GcmDecryption, GcmSizeLaws}
use amazon_s3_encryption_cli.Decryptor.{
  AesGcmDecryptor, gcm_update, gcm_finalize, gcm_open, gcm_handler, handled, last_bytes,
  all_but_last, after_update, update_if_any,
}

abbrev pub AtMost : ℕ → Result Bytes → Type 0
AtMost n (ok out) = length out ≤ n
AtMost n (err e) = Unit

pub AtMost-weaken : (m n : ℕ) (r : Result Bytes) → m ≤ n → AtMost m r → AtMost n r
AtMost-weaken m n (ok out) h k = omega arith
AtMost-weaken m n (err e) h k = tt

length-last_bytes : (n : ℕ) (buf : Bytes) → 0 < n → n < length buf → length (last_bytes n buf) ≡ n
length-last_bytes n buf h k =
    let some_held : (n == 0) ≡ false = ground arith in
    rw some_held (omega (arith, length-drop (length buf - n) buf))

length-all_but_last : (n : ℕ) (buf : Bytes) → 0 < n → length (all_but_last n buf) ≡ length buf - n
length-all_but_last n buf h =
    let some_held : (n == 0) ≡ false = ground arith in
    rw some_held (omega (arith, length-take (length buf - n) buf))

module _ (g : GcmDecryption) (sizes : GcmSizeLaws g) where
  -- A decryptor holds back no more bytes than a tag has.
  pub record HoldsTag (d : AesGcmDecryptor g.Context) : Type 0 where
    pub tagged : 0 < d.tag_length
    pub held : length d.tail ≤ d.tag_length

  pub gcm_update-AtMost :
      (raw : Bytes) (d : AesGcmDecryptor g.Context)
      → HoldsTag d
      → HoldsTag (gcm_update g raw d).1 × AtMost (length raw) (gcm_update g raw d).0
  unfolding gcm_update
  gcm_update-AtMost raw d h =
      let buf = d.tail ++ raw in
      elim (Bool-cases (leb (length buf) d.tag_length)) [
        | inl few ↦ rw few (record { tagged = h.tagged; held = ground arith }, omega arith)
        | inr more ↦
            let over : d.tag_length < length buf = ground arith in
            rw more (decrypted over (g.update d.decryptor (all_but_last d.tag_length buf)) refl)
      ]
    where
      buf : Bytes
      buf = d.tail ++ raw

      after : AesGcmDecryptor g.Context
      after = record d {
        amount_read = d.amount_read + length raw;
        tail = last_bytes d.tag_length buf;
      }

      decrypted :
          d.tag_length < length buf
          → (r : Result (Bytes × g.Context))
          → g.update d.decryptor (all_but_last d.tag_length buf) ≡ r
          → HoldsTag (after_update g after r).1 × AtMost (length raw) (after_update g after r).0
      decrypted over (err e) u = (
        record {
          tagged = h.tagged;
          held = omega (arith, length-last_bytes d.tag_length buf h.tagged over);
        },
        tt,
      )
      decrypted over (ok (out, c)) u = (
        record {
          tagged = h.tagged;
          held = omega (arith, length-last_bytes d.tag_length buf h.tagged over);
        },
        omega (
          arith,
          sizes.length-update d.decryptor c (all_but_last d.tag_length buf) out u,
          length-all_but_last d.tag_length buf h.tagged,
          length-append d.tail raw,
          h.held,
        ),
      )

  pub gcm_finalize-AtMost :
      (raw : Bytes) (d : AesGcmDecryptor g.Context)
      → HoldsTag d
      → HoldsTag (gcm_finalize g raw d).1 × AtMost (length raw) (gcm_finalize g raw d).0
  unfolding gcm_finalize gcm_open update_if_any
  gcm_finalize-AtMost raw d h = (
    record { tagged = h.tagged; held = h.held },
    opened (gcm_open g d.tag_length d.decryptor (d.tail ++ raw)) refl,
  )
    where
      buf : Bytes
      buf = d.tail ++ raw

      fed :
          (r : Bytes × g.Context)
          → update_if_any g d.decryptor (all_but_last d.tag_length buf) ≡ ok r
          → length r.0 ≤ length raw
      fed (out, c) u = elim (Bool-cases (is_empty (all_but_last d.tag_length buf))) [
        | inl nothing ↦
            let same : ◌≡◌ {A = Result (Bytes × g.Context)} (ok ([], d.decryptor)) (ok (out, c)) =
              rw nothing at u in
            let empty : [] ≡ out = cc in rw (sym empty) (omega arith)
        | inr some_bytes ↦
            let done : g.update d.decryptor (all_but_last d.tag_length buf) ≡ ok (out, c) =
              rw some_bytes at u in
            omega (
              arith,
              sizes.length-update d.decryptor c (all_but_last d.tag_length buf) out done,
              length-all_but_last d.tag_length buf h.tagged,
              length-append d.tail raw,
              h.held,
            )
      ]

      opened :
          (r : Result Bytes)
          → gcm_open g d.tag_length d.decryptor buf ≡ r
          → AtMost (length raw) (handled gcm_handler r)
      opened (err e) u = tt
      opened (ok out) u =
          let (started, _, u₁) =
            >>=-eq-ok (raise_if (ltb (length buf) d.tag_length) (client_error incomplete_gcm_data))
              _ u in
          let (r, first, u₂) =
            >>=-eq-ok (update_if_any g d.decryptor (all_but_last d.tag_length buf)) _ u₁ in
          let (rest, second, u₃) =
            >>=-eq-ok (g.finalize_with_tag r.1 (last_bytes d.tag_length buf)) _ u₂ in
          let none_more = sizes.length-finalize r.1 (last_bytes d.tag_length buf) rest second in
          let whole : r.0 ++ rest ≡ out = ok-injective u₃ in
          rw (sym whole, none_more, append-nil) (fed r first)
