-- ===== src/External.antt =====
-- The libraries and services that the client calls: `cryptography`, `base64`, `json`, KMS and S3.
-- Each is a record of operations; what a theorem assumes of them stands in the records `...Laws`.
use amazon_s3_encryption_cli.Prelude.{
  ℕ, ◌<◌, ◌≤◌, length, ◌≡◌, String, Bytes, Option, [], ◌++◌, Dict,
}
use amazon_s3_encryption_cli.Errors.{Result, ok, ◌>>=◌}
use amazon_s3_encryption_cli.Values.{Value, Member, members}

pub record Base64 : Type 0 where
  pub b64encode : Bytes → String
  pub b64decode : String → Result Bytes

pub record Base64Laws (b : Base64) : Type 0 where
  pub decode-encode : (x : Bytes) → b.b64decode (b.b64encode x) ≡ ok x

pub record Json : Type 0 where
  pub dumps : Value → String
  pub loads : String → Result Value

-- The two calls of the KMS client: `generate_data_key` returns CiphertextBlob and Plaintext.
pub record Kms : Type 0 where
  pub generate_data_key : String → String → Dict String → Result (Bytes × Bytes)
  pub decrypt : String → Bytes → Dict Member → Result Bytes

-- A blob decrypts to its data key under the key and the encryption context that it was made with.
pub record KmsLaws (kms : Kms) : Type 0 where
  pub decrypt-generate :
      (key spec : String) (context : Dict String) {blob plaintext : Bytes}
      → kms.generate_data_key key spec context ≡ ok (blob, plaintext)
      → kms.decrypt key blob (members context) ≡ ok plaintext

-- A decryptor of `Cipher(AES(key), GCM(iv))`.
pub record GcmDecryption : Type 1 where
  pub Context : Type 0
  pub decryptor : Bytes → Bytes → Result Context
  pub authenticate_additional_data : Context → Bytes → Result Context
  pub update : Context → Bytes → Result (Bytes × Context)
  pub finalize_with_tag : Context → Bytes → Result Bytes

-- Feeding a text in two pieces is feeding it at once, and no bytes yield no bytes.
pub record GcmDecryptionLaws (g : GcmDecryption) : Type 0 where
  pub update-nil : (c : g.Context) → g.update c [] ≡ ok ([], c)
  pub update-append :
      (c : g.Context) (a b : Bytes)
      → g.update c (a ++ b) ≡ (g.update c a >>= λ r. g.update r.1 b >>= λ s. ok (r.0 ++ s.0, s.1))

-- AES-GCM turns each byte into one byte, and verifying the tag yields none.
pub record GcmSizeLaws (g : GcmDecryption) : Type 0 where
  pub length-update :
      (c c' : g.Context) (a out : Bytes) → g.update c a ≡ ok (out, c') → length out ≡ length a
  pub length-finalize :
      (c : g.Context) (tag out : Bytes) → g.finalize_with_tag c tag ≡ ok out → out ≡ []

-- An encryptor of `Cipher(AES(key), GCM(iv))`; `tag` may be read after `finalize`.
pub record GcmEncryption : Type 1 where
  pub Context : Type 0
  pub encryptor : Bytes → Bytes → Result Context
  pub authenticate_additional_data : Context → Bytes → Result Context
  pub update : Context → Bytes → Result (Bytes × Context)
  pub finalize : Context → Result Context
  pub tag : Context → Bytes

pub record GcmEncryptionLaws (g : GcmEncryption) : Type 0 where
  pub update-append :
      (c : g.Context) (a b : Bytes)
      → g.update c (a ++ b) ≡ (g.update c a >>= λ r. g.update r.1 b >>= λ s. ok (r.0 ++ s.0, s.1))

-- A decryptor of `Cipher(AES(key), CBC(iv))` and a `PKCS7` unpadder.
pub record CbcDecryption : Type 1 where
  pub Context : Type 0
  pub Unpadder : Type 0
  pub decryptor : Bytes → Bytes → Result Context
  pub update : Context → Bytes → Result (Bytes × Context)
  pub finalize : Context → Result Bytes
  pub unpadder : ℕ → Unpadder
  pub unpad_update : Unpadder → Bytes → Result (Bytes × Unpadder)
  pub unpad_finalize : Unpadder → Result Bytes

-- `AESGCM(key).encrypt(nonce, data, aad)`, `hmac.new(salt, ikm, name).digest()` and
-- `HKDFExpand(SHA512(), length, info).derive(prk)`.
pub record Primitives : Type 0 where
  pub aesgcm_encrypt : Bytes → Bytes → Bytes → Option Bytes → Result Bytes
  pub hmac_digest : Bytes → Bytes → String → Result Bytes
  pub hkdf_expand : ℕ → Bytes → Bytes → Result Bytes

-- What `json.loads` makes of bytes: an object, or a value of another type.
pub data Document : Type 0 where
  json_object : Dict Value → Document
  other_value : Document

-- `os.urandom` and `str.encode("utf-8")`
pub record Runtime : Type 0 where
  pub urandom : ℕ → Bytes
  pub utf8 : String → Bytes
  pub loads_document : Bytes → Result Document

-- `StreamingBody.read()` and `StreamingBody.read(n)`
pub record ByteSource : Type 1 where
  pub Body : Type 0
  pub read_all : Body → Result Bytes
  pub read : Body → ℕ → Result Bytes × Body

-- A read returns the next bytes of the body, and none only if none was asked for or none is left.
pub record ByteSourceLaws (src : ByteSource) : Type 0 where
  pub left : src.Body → Bytes
  pub read-left :
      (body : src.Body) (n : ℕ) (raw : Bytes) (body' : src.Body)
      → src.read body n ≡ (ok raw, body')
      → left body ≡ raw ++ left body'
  pub read-nil :
      (body : src.Body) (n : ℕ) (body' : src.Body)
      → 0 < n
      → src.read body n ≡ (ok [], body')
      → left body ≡ []

-- A read returns no more bytes than were asked for.
pub record ByteSourceSizeLaws (src : ByteSource) : Type 0 where
  pub length-read :
      (body body' : src.Body) (n : ℕ) (raw : Bytes)
      → src.read body n ≡ (ok raw, body')
      → length raw ≤ n
