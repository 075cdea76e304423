-- ===== src/Errors.antt =====
-- exceptions.py, and the exceptions of the libraries that the client lets through. A call that may
-- raise returns a `Result`; a `Reason` stands for the message of one `raise` statement.
use amazon_s3_encryption_cli.Prelude.{ℕ, ◌≡◌, refl, Bool, true, false, ◌⊎◌, inl, inr}

pub data Reason : Type 0 where
  no_plaintext_data_key no_encrypted_data_key : Reason
  after_final_part out_of_sequence : Reason
  missing_cek_alg unknown_cek_alg unknown_format : Reason
  instruction_files_disabled s3_client_required bucket_and_key_required suffix_required : Reason
  instruction_file_tampered illegal_combination key_collision v3_keys_in_v2_object : Reason
  legacy_not_enabled commitment_conflict delayed_authentication_not_set : Reason
  unknown_suite unknown_wrap_alg unexpected_wrap_alg : Reason
  unsupported_kdf_hash data_key_length commitment_mismatch : Reason
  incomplete_gcm_data decrypt_failed cbc_failed : Reason
  no_edk plaintext_key_present edk_count stored_context_not_dict : Reason
  reserved_key context_mismatch no_suite_selected cek_alg_mismatch : Reason
  legacy_wrapping_disabled context_with_kms_v1 invalid_wrap_alg : Reason
  not_json not_json_object invalid_keys plugin_missing fetch_failed : Reason
  empty_metadata no_s3ec_keys instruction_body_empty : Reason
  legacy_suite_configured policy_requires_commitment policy_forbids_commitment : Reason
  put_in_instruction_file_mode unexpected_body missing_content_length ranged_get : Reason
  context_not_dict context_not_strings context_not_ascii : Reason
  put_failed get_failed delete_failed create_failed part_failed complete_failed : Reason
  no_upload final_part_missing not_materials : Reason
  threshold_not_positive chunksize_not_positive chunksize_too_small : Reason

-- `invalid_tag` is the library's `InvalidTag`, `service_error` botocore's `ClientError`, and
-- `other_error` any exception that no handler of the client tells apart.
pub data Error : Type 0 where
  client_error : Reason → Error
  security_error : Reason → Error
  runtime_error : Reason → Error
  incomplete_read : ℕ → ℕ → Error
  value_error type_error key_error json_decode_error invalid_tag service_error other_error : Error

pub data Result {ℓ} (V : Type ℓ) : Type ℓ where
  err : Error → Result V
  ok : V → Result V

-- `if b: raise e`
abbrev pub raise_if : Bool → Error → Result (Unit {0})
raise_if false e = ok tt
raise_if true e = err e

pub Result-cases {ℓ} :
    {V : Type ℓ} (r : Result V) → ((v : V) × (r ≡ ok v)) ⊎ ((e : Error) × (r ≡ err e))
Result-cases (err e) = inr (e, refl)
Result-cases (ok v) = inl (v, refl)

-- One call after another: an exception of the first goes on.
infixl 5 ◌>>=◌ ◌>>◌
abbrev pub ◌>>=◌ {ℓ κ} : {V : Type ℓ} {W : Type κ} → Result V → (V → Result W) → Result W
err e >>= next = err e
ok v >>= next = next v

abbrev pub ◌>>◌ {ℓ} : {W : Type ℓ} → Result (Unit {0}) → Result W → Result W
first >> second = first >>= λ _. second

-- Both calls of a chain that returned have returned.
pub >>=-eq-ok {ℓ κ} :
    {V : Type ℓ} {W : Type κ} (first : Result V) (next : V → Result W) {w : W}
    → (first >>= next) ≡ ok w
    → (v : V) × (first ≡ ok v) × (next v ≡ ok w)
>>=-eq-ok (err e) next returned = cc
>>=-eq-ok (ok v) next returned = (v, refl, returned)

pub ok-injective {ℓ} : {V : Type ℓ} {v w : V} → ◌≡◌ {A = Result V} (ok v) (ok w) → v ≡ w
ok-injective h = cc

pub bind_assoc {ℓ κ μ} :
    {V : Type ℓ} {W : Type κ} {X : Type μ} (r : Result V) (f : V → Result W) (k : W → Result X)
    → ((r >>= f) >>= k) ≡ (r >>= λ v. f v >>= k)
bind_assoc (err e) f k = refl
bind_assoc (ok v) f k = refl

pub bind-ok {ℓ} : {V : Type ℓ} (r : Result V) → (r >>= λ v. ok v) ≡ r
bind-ok (err e) = refl
bind-ok (ok v) = refl

pub ok-pair {ℓ κ} :
    {V : Type ℓ} {W : Type κ} (v v' : V) (w w' : W)
    → ◌≡◌ {A = Result (V × W)} (ok (v, w)) (ok (v', w'))
    → (v ≡ v') × (w ≡ w')
ok-pair v v' w w' h = (cc, cc)
