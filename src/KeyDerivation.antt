-- ===== src/KeyDerivation.antt =====
-- key_derivation.py: the derived encryption key, the commitment key and its verification.
use amazon_s3_encryption_cli.Prelude.{
  ap, ◌≡◌, refl, Bool, true, false, not, ℕ, String, Bytes, [], ◌∷◌, ◌++◌, Option, none, some,
  length, ◌==◌, bytes_eq, bytes_eq_refl, eq_of_bytes_eq, str_eq, arith, ◌↔◌, Bool-cases, inl, inr,
}
use amazon_s3_encryption_cli.Errors.{
  Result, ok, err, ◌>>=◌, ◌>>◌, raise_if, client_error, security_error, type_error, Reason,
  unsupported_kdf_hash, commitment_mismatch, >>=-eq-ok,
}
use amazon_s3_encryption_cli.External.{Primitives}
use amazon_s3_encryption_cli.Suite.{
  AlgorithmSuite, alg_aes_256_cbc_iv16_no_kdf, alg_aes_256_gcm_iv12_tag16_no_kdf,
  alg_aes_256_gcm_hkdf_sha512_commit_key, suite_id_bytes, data_key_length_bytes,
  commitment_length_bytes, kdf_hash_algorithm,
}

-- `b"DERIVEKEY"` and `b"COMMITKEY"`
abbrev pub derivekey : Bytes
derivekey = b'D' ∷ b'E' ∷ b'R' ∷ b'I' ∷ b'V' ∷ b'E' ∷ b'K' ∷ b'E' ∷ b'Y' ∷ []

abbrev pub commitkey : Bytes
commitkey = b'C' ∷ b'O' ∷ b'M' ∷ b'M' ∷ b'I' ∷ b'T' ∷ b'K' ∷ b'E' ∷ b'Y' ∷ []

-- `hmac.new` wants the name of a hash function: with `None` it raises.
unfoldable pub hkdf_extract : Primitives → Bytes → Bytes → Option String → Result Bytes
hkdf_extract prims salt ikm none = err type_error
hkdf_extract prims salt ikm (some hash) = prims.hmac_digest salt ikm hash

-- `_HASH_ALGORITHMS` has one entry.
abbrev pub is_supported_hash : Option String → Bool
is_supported_hash none = false
is_supported_hash (some hash) = str_eq hash "sha512"

unfoldable pub hkdf_expand : Primitives → Bytes → Bytes → ℕ → Option String → Result Bytes
hkdf_expand prims prk info length hash = do
  raise_if (not (is_supported_hash hash)) (client_error unsupported_kdf_hash)
  prims.hkdf_expand length info prk

unfoldable pub derive_keys : Primitives → Bytes → Bytes → AlgorithmSuite → Result (Bytes × Bytes)
unfolding hkdf_extract hkdf_expand
derive_keys prims plaintext_data_key message_id suite = do
  raise_if (not (length plaintext_data_key == data_key_length_bytes suite))
      (client_error Reason.data_key_length)
  prk ← hkdf_extract prims message_id plaintext_data_key (kdf_hash_algorithm suite)
  derived ←
      hkdf_expand prims prk (suite_id_bytes suite ++ derivekey) (data_key_length_bytes suite)
        (kdf_hash_algorithm suite)
  commit ←
      hkdf_expand prims prk (suite_id_bytes suite ++ commitkey) (commitment_length_bytes suite)
        (kdf_hash_algorithm suite)
  ok (derived, commit)

-- `hmac.compare_digest` is equality of byte strings, in constant time.
unfoldable pub verify_commitment : Bytes → Bytes → Result (Unit {0})
verify_commitment stored derived =
    raise_if (not (bytes_eq stored derived)) (security_error commitment_mismatch)

-- A commitment is accepted exactly if the stored and the derived one are equal; otherwise a security
-- error is raised.
pub verify_commitment_iff :
    (stored derived : Bytes)
    → ((verify_commitment stored derived ≡ ok tt) ↔ (stored ≡ derived))
      × (¬ (stored ≡ derived)
          → verify_commitment stored derived ≡ err (security_error commitment_mismatch))
unfolding verify_commitment
verify_commitment_iff stored derived = elim (Bool-cases (bytes_eq stored derived)) [
  | inl same ↦ (
    (λ _. eq_of_bytes_eq stored derived same, λ _. rw same),
    λ differ. absurd (differ (eq_of_bytes_eq stored derived same)),
  )
  | inr differ ↦ (
    (
      λ h. absurd (ground arith),
      λ e. absurd (ground (arith, bytes_eq_refl derived, ap (λ x. bytes_eq x derived) e)),
    ),
    λ _. rw differ,
  )
]

-- What the specification of the key derivation asks for: a data key of 32 bytes, the extract step
-- over the message id and the data key, and two expand steps with their own info strings.
pub record Derived (prims : Primitives) (data_key message_id : Bytes) (suite : AlgorithmSuite)
    (derived commit : Bytes) : Type 0 where
  pub committing : suite ≡ alg_aes_256_gcm_hkdf_sha512_commit_key
  pub data_key_length : length data_key ≡ 32
  pub prk : Bytes
  pub extracted : prims.hmac_digest message_id data_key "sha512" ≡ ok prk
  pub encryption_key : prims.hkdf_expand 32 (0x00 ∷ 0x73 ∷ derivekey) prk ≡ ok derived
  pub commitment_key : prims.hkdf_expand 28 (0x00 ∷ 0x73 ∷ commitkey) prk ≡ ok commit

derive_keys-Derived :
    (prims : Primitives) (data_key message_id : Bytes) (suite : AlgorithmSuite)
    (derived commit : Bytes)
    → derive_keys prims data_key message_id suite ≡ ok (derived, commit)
    → Derived prims data_key message_id suite derived commit
unfolding derive_keys
derive_keys-Derived prims k m alg_aes_256_cbc_iv16_no_kdf d c h = absurd (ground arith)
derive_keys-Derived prims k m alg_aes_256_gcm_iv12_tag16_no_kdf d c h = absurd (ground arith)
derive_keys-Derived prims k m alg_aes_256_gcm_hkdf_sha512_commit_key d c h =
    let (_, sized, after) =
      >>=-eq-ok (raise_if (not (length k == 32)) (client_error Reason.data_key_length)) _ h in
    let (prk, extracted, then_expand) = >>=-eq-ok (prims.hmac_digest m k "sha512") _ after in
    let (d', e, then_commit) =
      >>=-eq-ok (prims.hkdf_expand 32 (0x00 ∷ 0x73 ∷ derivekey) prk) _ then_expand in
    let (c', e', built) =
      >>=-eq-ok (prims.hkdf_expand 28 (0x00 ∷ 0x73 ∷ commitkey) prk) _ then_commit in
    record {
      committing = refl;
      data_key_length = ground arith;
      prk = prk;
      extracted = extracted;
      encryption_key = cc;
      commitment_key = cc;
    }

keys_of_Derived :
    (prims : Primitives) (data_key message_id : Bytes) (suite : AlgorithmSuite)
    (derived commit : Bytes)
    → Derived prims data_key message_id suite derived commit
    → derive_keys prims data_key message_id suite ≡ ok (derived, commit)
unfolding derive_keys
keys_of_Derived prims k m suite d c s =
    let sized : (length k == 32) ≡ true = ground arith in
    rw (s.committing, sized, s.extracted, s.encryption_key, s.commitment_key)

-- `derive_keys` returns two keys exactly if they are those of the specification: the suite commits,
-- the data key has 32 bytes, and both keys come from one extract step over the message id.
pub derive_keys_iff :
    (prims : Primitives) (data_key message_id : Bytes) (suite : AlgorithmSuite)
    (derived commit : Bytes)
    → (derive_keys prims data_key message_id suite ≡ ok (derived, commit))
      ↔ Derived prims data_key message_id suite derived commit
derive_keys_iff prims k m suite d c =
    (derive_keys-Derived prims k m suite d c, keys_of_Derived prims k m suite d c)
