-- ===== src/Decryptor.antt =====
-- decryptor.py and buffered_decrypt.py: the decryptors of the content. A call that raises leaves the
-- object as far as it was written, so each operation returns a result and the object.
pub mod Chunks
pub mod Bounds
use amazon_s3_encryption_cli.Prelude.{
  ◌≡◌, refl, Bool, true, false, not, ℕ, zero, suc, ◌+◌, ◌-◌, Bytes, List, [], ◌∷◌, ◌++◌, Option,
  none, some, length, take, drop, ◌==◌, ltb, leb, is_empty, if◌then◌else◌,
}
use amazon_s3_encryption_cli.Errors.{
  Error, Result, ok, err, ◌>>=◌, ◌>>◌, raise_if, client_error, security_error, runtime_error,
  incomplete_read, value_error, type_error, key_error, invalid_tag, service_error, other_error,
  incomplete_gcm_data, decrypt_failed, cbc_failed,
}
use amazon_s3_encryption_cli.External.{GcmDecryption, CbcDecryption}

-- `buf[-n:]` and `buf[:-n]`; with `n == 0` these are the whole text and no text.
abbrev pub last_bytes : ℕ → Bytes → Bytes
last_bytes n buf = if n == 0 then buf else drop (length buf - n) buf

abbrev pub all_but_last : ℕ → Bytes → Bytes
all_but_last n buf = if n == 0 then [] else take (length buf - n) buf

pub record AesGcmDecryptor (C : Type 0) : Type 0 where
  pub decryptor : C
  pub tag_length : ℕ
  pub content_length : ℕ
  pub amount_read : ℕ
  pub tail : Bytes

abbrev pub aes_gcm_decryptor : {C : Type 0} → C → ℕ → ℕ → AesGcmDecryptor C
aes_gcm_decryptor c tag_length content_length = record {
  decryptor = c;
  tag_length = tag_length;
  content_length = content_length;
  amount_read = 0;
  tail = [];
}

-- The `except` clauses of `AesGcmDecryptor.finalize`.
unfoldable pub gcm_handler : Error → Error
gcm_handler (client_error r) = client_error r
gcm_handler invalid_tag = security_error decrypt_failed
gcm_handler _ = client_error decrypt_failed

abbrev pub handled {ℓ} : {A : Type ℓ} → (Error → Error) → Result A → Result A
handled handler (ok a) = ok a
handled handler (err e) = err (handler e)

module _ (g : GcmDecryption) where
  -- `self._decryptor.update(data) if data else b""`
  unfoldable pub update_if_any : g.Context → Bytes → Result (Bytes × g.Context)
  update_if_any c bytes = if is_empty bytes then ok ([], c) else g.update c bytes

  abbrev pub after_update :
      AesGcmDecryptor g.Context
      → Result (Bytes × g.Context)
      → Result Bytes × AesGcmDecryptor g.Context
  after_update d (ok (plaintext, c)) = (ok plaintext, record d { decryptor = c })
  after_update d (err e) = (err e, d)

  unfoldable pub gcm_update :
      Bytes → AesGcmDecryptor g.Context → Result Bytes × AesGcmDecryptor g.Context
  gcm_update bytes d =
      let buf = d.tail ++ bytes in
      let read = d.amount_read + length bytes in
      if leb (length buf) d.tag_length
      then (ok [], record d { amount_read = read; tail = buf })
      else after_update (record d { amount_read = read; tail = last_bytes d.tag_length buf })
          (g.update d.decryptor (all_but_last d.tag_length buf))

  -- The body of the `try` block of `finalize`, on what is left to decrypt.
  unfoldable pub gcm_open : ℕ → g.Context → Bytes → Result Bytes
  gcm_open tag_length c buf = do
    raise_if (ltb (length buf) tag_length) (client_error incomplete_gcm_data)
    r ← update_if_any c (all_but_last tag_length buf)
    rest ← g.finalize_with_tag r.1 (last_bytes tag_length buf)
    ok (r.0 ++ rest)

  unfoldable pub gcm_finalize :
      Bytes → AesGcmDecryptor g.Context → Result Bytes × AesGcmDecryptor g.Context
  gcm_finalize bytes d = (
    handled gcm_handler (gcm_open d.tag_length d.decryptor (d.tail ++ bytes)),
    record d { amount_read = d.amount_read + length bytes },
  )

pub record AesCbcDecryptor (C U : Type 0) : Type 0 where
  pub decryptor : C
  pub unpadder : U
  pub content_length : ℕ
  pub amount_read : ℕ

abbrev pub aes_cbc_decryptor : {C U : Type 0} → C → U → ℕ → AesCbcDecryptor C U
aes_cbc_decryptor c u content_length = record {
  decryptor = c;
  unpadder = u;
  content_length = content_length;
  amount_read = 0;
}

module _ (b : CbcDecryption) where
  abbrev pub Object : Type 0
  Object = AesCbcDecryptor b.Context b.Unpadder

  abbrev pub after_unpad : Object → Result (Bytes × b.Unpadder) → Result Bytes × Object
  after_unpad d (ok (plaintext, u)) = (ok plaintext, record d { unpadder = u })
  after_unpad d (err e) = (err e, d)

  abbrev pub after_cbc : Object → Result (Bytes × b.Context) → Result Bytes × Object
  after_cbc d (ok (plaintext, c)) =
      after_unpad (record d { decryptor = c }) (b.unpad_update d.unpadder plaintext)
  after_cbc d (err e) = (err e, d)

  unfoldable pub cbc_update :
      Bytes
      → AesCbcDecryptor b.Context b.Unpadder
      → Result Bytes × AesCbcDecryptor b.Context b.Unpadder
  cbc_update bytes d =
      after_cbc (record d { amount_read = d.amount_read + length bytes })
        (b.update d.decryptor bytes)

  -- The body of the `try` block of `finalize`.
  unfoldable pub cbc_open : b.Context → b.Unpadder → Bytes → Result Bytes
  cbc_open c u bytes = do
    r ← if is_empty bytes then ok ([], c) else b.update c bytes
    flushed ← b.finalize r.1
    unpadded ← b.unpad_update u (r.0 ++ flushed)
    rest ← b.unpad_finalize unpadded.1
    ok (unpadded.0 ++ rest)

  unfoldable pub cbc_finalize :
      Bytes
      → AesCbcDecryptor b.Context b.Unpadder
      → Result Bytes × AesCbcDecryptor b.Context b.Unpadder
  cbc_finalize bytes d = (
    handled (λ _. security_error cbc_failed) (cbc_open d.decryptor d.unpadder bytes),
    record d { amount_read = d.amount_read + length bytes },
  )

-- A `Decryptor` is of one of the two classes.
pub data Decryptor (C D U : Type 0) : Type 0 where
  gcm : AesGcmDecryptor C → Decryptor C D U
  cbc : AesCbcDecryptor D U → Decryptor C D U

module _ (g : GcmDecryption) (b : CbcDecryption) where
  abbrev pub AnyDecryptor : Type 0
  AnyDecryptor = Decryptor g.Context b.Context b.Unpadder

  abbrev pub content_length : AnyDecryptor → ℕ
  content_length (gcm d) = d.content_length
  content_length (cbc d) = d.content_length

  abbrev pub amount_read : AnyDecryptor → ℕ
  amount_read (gcm d) = d.amount_read
  amount_read (cbc d) = d.amount_read

  unfoldable pub update : Bytes → AnyDecryptor → Result Bytes × AnyDecryptor
  update bytes (gcm d) = let (r, d') = gcm_update g bytes d in (r, gcm d')
  update bytes (cbc d) = let (r, d') = cbc_update b bytes d in (r, cbc d')

  unfoldable pub finalize : Bytes → AnyDecryptor → Result Bytes × AnyDecryptor
  finalize bytes (gcm d) = let (r, d') = gcm_finalize g bytes d in (r, gcm d')
  finalize bytes (cbc d) = let (r, d') = cbc_finalize b bytes d in (r, cbc d')

  -- `one_shot_decrypt` of buffered_decrypt.py, on all that the body holds: nothing is returned
  -- before `finalize` has returned.
  unfoldable pub one_shot_decrypt : Result Bytes → AnyDecryptor → Result Bytes
  one_shot_decrypt body d = body >>= λ bytes. (finalize bytes d).0
