-- ===== src/Tests/Libraries.antt =====
-- Concrete functions in place of the libraries: a cipher that leaves its text as it is and whose tag
-- is sixteen times the length of the text, a body in memory, and a KMS with one data key.
use amazon_s3_encryption_cli.Prelude.{
  ◌≡◌, refl, sym, ap, ℕ, zero, suc, ◌+◌, ◌<◌, String, Option, none, some, Bytes, Dict, [], ◌∷◌,
  ◌++◌, length, take, drop, replicate, length-append, take-append-drop, length-take, Bool, true,
  false, bytes_eq, bytes_eq_refl, append-nil, ◌∙◌, if◌then◌else◌, str_eq, arith,
}
use amazon_s3_encryption_cli.RoundTrip.{AesGcmLaws, Opened, started}
use amazon_s3_encryption_cli.Errors.{Result, ok, err, invalid_tag, service_error}
use amazon_s3_encryption_cli.Values.{object, Member}
use amazon_s3_encryption_cli.External.{
  Base64, Base64Laws, Json, Kms, KmsLaws, GcmDecryption, GcmDecryptionLaws, GcmSizeLaws,
  ByteSourceSizeLaws, GcmEncryption, GcmEncryptionLaws, CbcDecryption, Primitives, Runtime,
  other_value, ByteSource, ByteSourceLaws,
}

abbrev pub plain_gcm : GcmDecryption
plain_gcm = record {
  Context = ℕ;
  decryptor = λ key iv. ok 0;
  authenticate_additional_data = λ c aad. ok c;
  update = λ c bytes. ok (bytes, c + length bytes);
  finalize_with_tag = λ c tag. if bytes_eq tag (replicate 16 c) then ok [] else err invalid_tag;
}

abbrev Fed : Type 0
Fed = Result (Bytes × ℕ)

pub plain_gcm-laws : GcmDecryptionLaws plain_gcm
plain_gcm-laws = record {
  update-nil = λ c. ap (λ n. let r : Fed = ok ([], n) in r) (omega arith);
  update-append =
      λ c a b. ap (λ n. let r : Fed = ok (a ++ b, n) in r) (omega (arith, length-append a b));
}

fed-plain :
    (a out : Bytes) (n m : ℕ) → ◌≡◌ {A = Result (Bytes × ℕ)} (ok (a, n)) (ok (out, m)) → a ≡ out
fed-plain a out n m h = cc

verified-plain :
    (b : Bool) (out : Bytes)
    → (if b then (let r : Result Bytes = ok [] in r) else err invalid_tag) ≡ ok out
    → out ≡ []
verified-plain true out h = cc
verified-plain false out h = absurd (cc)

pub plain_gcm-sizes : GcmSizeLaws plain_gcm
plain_gcm-sizes = record {
  length-update = λ c c' a out h. ap length (sym (fed-plain a out (c + length a) c' h));
  length-finalize = λ c tag out h. verified-plain (bytes_eq tag (replicate 16 c)) out h;
}

abbrev pub plain_gcm_encryption : GcmEncryption
plain_gcm_encryption = record {
  Context = ℕ;
  encryptor = λ key iv. ok 0;
  authenticate_additional_data = λ c aad. ok c;
  update = λ c bytes. ok (bytes, c + length bytes);
  finalize = λ c. ok c;
  tag = λ c. replicate 16 c;
}

pub plain_gcm_encryption-laws : GcmEncryptionLaws plain_gcm_encryption
plain_gcm_encryption-laws = record {
  update-append =
      λ c a b. ap (λ n. let r : Fed = ok (a ++ b, n) in r) (omega (arith, length-append a b));
}

abbrev pub plain_cbc : CbcDecryption
plain_cbc = record {
  Context = ℕ;
  Unpadder = ℕ;
  decryptor = λ key iv. ok 0;
  update = λ c bytes. ok (bytes, c);
  finalize = λ c. ok [];
  unpadder = λ bits. bits;
  unpad_update = λ u bytes. ok (bytes, u);
  unpad_finalize = λ u. ok [];
}

abbrev pub memory : ByteSource
memory = record {
  Body = Bytes;
  read_all = λ body. ok body;
  read = λ body n. (ok (take n body), drop n body);
}

pub empty_of_take : (body : Bytes) (n : ℕ) → 0 < n → take n body ≡ [] → body ≡ []
empty_of_take [] n p h = refl
empty_of_take (x ∷ body) zero p h = absurd (omega arith)
empty_of_take (x ∷ body) (suc n) p h = absurd (ground arith)

abbrev pub Chunk : Type 0
Chunk = Result Bytes × Bytes

pub read_parts :
    (taken rest raw body' : Bytes)
    → (let r : Chunk = (ok taken, rest) in r) ≡ (ok raw, body')
    → (taken ≡ raw) × (rest ≡ body')
read_parts taken rest raw body' h = (cc, cc)

abbrev pub memory-laws : ByteSourceLaws memory
memory-laws = record {
  left = λ body. body;
  read-left = λ body n raw body' h.
      let (first, rest) = read_parts (take n body) (drop n body) raw body' h in
      rw (sym first, sym rest) (sym (take-append-drop n body));
  read-nil = λ body n body' p h.
      empty_of_take body n p (read_parts (take n body) (drop n body) [] body' h).0;
}

pub memory-sizes : ByteSourceSizeLaws memory
memory-sizes = record {
  length-read = λ body body' n raw h.
      let (first, rest) = read_parts (take n body) (drop n body) raw body' h in
      rw (sym first) (omega (arith, length-take n body));
}

abbrev pub the_key : Bytes
the_key = replicate 32 7

abbrev pub the_blob : Bytes
the_blob = 1 ∷ 2 ∷ 3 ∷ []

abbrev pub one_key : Kms
one_key = record {
  generate_data_key = λ key spec context. ok (the_blob, the_key);
  decrypt = λ key blob context. if bytes_eq blob the_blob then ok the_key else err service_error;
}

same_key :
    (blob plaintext : Bytes)
    → (let r : Result (Bytes × Bytes) = ok (the_blob, the_key) in r) ≡ ok (blob, plaintext)
    → (the_blob ≡ blob) × (the_key ≡ plaintext)
same_key blob plaintext h = (cc, cc)

pub one_key-laws : KmsLaws one_key
one_key-laws = record {
  decrypt-generate = λ key spec context {blob} {plaintext} h.
      let (b, k) = same_key blob plaintext h in rw (sym b, sym k);
}

abbrev pub keys : Primitives
keys = record {
  aesgcm_encrypt = λ key iv plaintext aad. ok (plaintext ++ replicate 16 (length plaintext));
  hmac_digest = λ salt ikm hash. ok ikm;
  hkdf_expand = λ n info prk. ok (replicate n 9);
}

abbrev pub names : Base64
names = record {
  b64encode = λ bytes. "edk";
  b64decode = λ s.
      if str_eq s "edk"
      then ok the_blob
      else if str_eq s "commitment"
      then ok (replicate 28 9)
      else ok (replicate 12 1);
}

abbrev pub gcm_context : Dict Member
gcm_context = ("aws:x-amz-cek-alg", Member.text "AES/GCM/NoPadding") ∷ []

abbrev pub kc_gcm_context : Dict Member
kc_gcm_context = ("aws:x-amz-cek-alg", Member.text "115") ∷ []

abbrev pub one_context : Dict Member → Json
one_context context = record { dumps = λ v. "context"; loads = λ s. ok (object context) }

abbrev pub zeros : Runtime
zeros = record {
  urandom = λ n. replicate n 0;
  utf8 = λ s. [];
  loads_document = λ b. ok other_value;
}

-- A number as that many letters, and then another one.
abbrev pub unary : ℕ → String → String
unary zero s = String.◌∷◌ "b" s
unary (suc n) s = String.◌∷◌ "a" (unary n s)

abbrev pub spelled : Bytes → String
spelled [] = ""
spelled (n ∷ bytes) = unary n (spelled bytes)

abbrev pub counted : ℕ → String → Bytes
counted k String.[] = []
counted k (String.◌∷◌ c s) =
    let next = counted 0 s in
    let more = counted (suc k) s in if str_eq (String.◌∷◌ c "") "b" then k ∷ next else more

counted-unary : (k n : ℕ) (s : String) → counted k (unary n s) ≡ (k + n) ∷ counted 0 s
counted-unary k zero s = ap (λ m. m ∷ counted 0 s) (omega arith)
counted-unary k (suc n) s = counted-unary (suc k) n s ∙ ap (λ m. m ∷ counted 0 s) (omega arith)

counted-spelled : (bytes : Bytes) → counted 0 (spelled bytes) ≡ bytes
counted-spelled [] = refl
counted-spelled (n ∷ bytes) =
    counted-unary 0 n (spelled bytes)
    ∙ ap (λ m. m ∷ counted 0 (spelled bytes)) (omega arith)
    ∙ ap (λ rest. n ∷ rest) (counted-spelled bytes)

abbrev pub letters : Base64
letters = record { b64encode = spelled; b64decode = λ s. ok (counted 0 s) }

pub letters-laws : Base64Laws letters
letters-laws = record { decode-encode = λ bytes. ap ok (counted-spelled bytes) }

pub plain_aes : AesGcmLaws keys plain_gcm
plain_aes = record { opens = open_plain }
  where
    begun : (aad : Option Bytes) → started plain_gcm [] [] aad ≡ ok 0
    begun none = refl
    begun (some a) = refl

    inside :
        (plaintext encrypted : Bytes)
        → ◌≡◌ {A = Result Bytes} (ok (plaintext ++ replicate 16 (length plaintext))) (ok encrypted)
        → encrypted ≡ plaintext ++ replicate 16 (length plaintext)
    inside plaintext encrypted h = cc

    open_plain :
        (key nonce plaintext : Bytes) (aad : Option Bytes) {encrypted : Bytes}
        → keys.aesgcm_encrypt key nonce plaintext aad ≡ ok encrypted
        → Opened plain_gcm key nonce plaintext aad encrypted
    open_plain key nonce plaintext aad {encrypted} h =
        let count : length plaintext ≡ 0 + length plaintext = omega arith in
        record {
          start = 0;
          after = 0 + length plaintext;
          body = plaintext;
          tag = replicate 16 (0 + length plaintext);
          first = plaintext;
          rest = [];
          starts = begun aad;
          split = inside plaintext encrypted h ∙ ap (λ n. plaintext ++ replicate 16 n) count;
          tag_length = refl;
          updates = refl;
          verifies = rw (bytes_eq_refl (replicate 16 (0 + length plaintext)));
          whole = sym (append-nil plaintext);
        }
