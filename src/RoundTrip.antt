-- ===== src/RoundTrip.antt =====
-- `PutEncryptedObjectPipeline.encrypt` and then `GetEncryptedObjectPipeline.decrypt`: what both
-- suites share.
pub mod Gcm
pub mod KcGcm
use amazon_s3_encryption_cli.Prelude.{
  ◌≡◌, refl, sym, ap, ◌∙◌, Bool, false, ℕ, ◌-◌, String, Bytes, Dict, List, [], ◌∷◌, ◌++◌, Option,
  none, some, length, append-nil, ltb, arith,
}
use amazon_s3_encryption_cli.Errors.{Result, ok, err, ◌>>=◌}
use amazon_s3_encryption_cli.Values.{Value, object, members}
use amazon_s3_encryption_cli.External.{
  Base64, Json, Primitives, GcmDecryption, GcmDecryptionLaws, CbcDecryption, ByteSource,
}
use amazon_s3_encryption_cli.Decryptor.{
  aes_gcm_decryptor, gcm, gcm_open, gcm_finalize, gcm_handler, one_shot_decrypt, finalize,
  update_if_any,
}
use amazon_s3_encryption_cli.Decryptor.Chunks.{open-append}
use amazon_s3_encryption_cli.Get.Content.{Plaintext, buffered, release}

-- A context that is written as JSON reads back.
abbrev pub ReadsBack : Json → Dict String → Type 0
ReadsBack json d = json.loads (json.dumps (object (members d))) ≡ ok (object (members d))

-- A new decryptor, with the associated data if there is any.
abbrev pub started : (g : GcmDecryption) → Bytes → Bytes → Option Bytes → Result g.Context
started g key nonce none = g.decryptor key nonce
started g key nonce (some aad) = g.decryptor key nonce >>= λ c. g.authenticate_additional_data c aad

-- A text that `AESGCM(key).encrypt` made, as a decryptor takes it: its last 16 bytes are the tag.
pub record Opened (g : GcmDecryption) (key nonce plaintext : Bytes) (aad : Option Bytes)
    (encrypted : Bytes) : Type 0 where
  pub start : g.Context
  pub after : g.Context
  pub body : Bytes
  pub tag : Bytes
  pub first : Bytes
  pub rest : Bytes
  pub starts : started g key nonce aad ≡ ok start
  pub split : encrypted ≡ body ++ tag
  pub tag_length : length tag ≡ 16
  pub updates : g.update start body ≡ ok (first, after)
  pub verifies : g.finalize_with_tag after tag ≡ ok rest
  pub whole : plaintext ≡ first ++ rest

pub record AesGcmLaws (prims : Primitives) (g : GcmDecryption) : Type 0 where
  pub opens :
      (key nonce plaintext : Bytes) (aad : Option Bytes) {encrypted : Bytes}
      → prims.aesgcm_encrypt key nonce plaintext aad ≡ ok encrypted
      → Opened g key nonce plaintext aad encrypted

module _ (g : GcmDecryption) (laws : GcmDecryptionLaws g) where
  tag-gcm_open :
      (c : g.Context) (tag rest : Bytes)
      → length tag ≡ 16
      → g.finalize_with_tag c tag ≡ ok rest
      → gcm_open g 16 c tag ≡ ok rest
  unfolding gcm_open update_if_any
  tag-gcm_open c tag rest sized verified =
      let enough : ltb (length tag) 16 ≡ false = ground arith in
      let all : length tag - 16 ≡ 0 = omega arith in rw (enough, all, verified)

  Opened-gcm_open :
      (key nonce plaintext : Bytes) (aad : Option Bytes) (encrypted : Bytes)
      → (o : Opened g key nonce plaintext aad encrypted)
      → gcm_open g 16 o.start encrypted ≡ ok plaintext
  Opened-gcm_open key nonce plaintext aad encrypted o = rw (
    o.split,
    open-append g laws 16 o.start o.body o.tag (omega arith) (omega (arith, o.tag_length)),
    o.updates,
    tag-gcm_open o.after o.tag o.rest o.tag_length o.verifies,
    o.whole,
  )

  -- Released at once, such a text is its plaintext.
  pub release-Opened :
      (src : ByteSource) (b : CbcDecryption) (body : src.Body) (n : ℕ) (key nonce plaintext : Bytes)
      (aad : Option Bytes) (encrypted : Bytes)
      → (o : Opened g key nonce plaintext aad encrypted) → src.read_all body ≡ ok encrypted
      → release src g b false body (gcm (aes_gcm_decryptor o.start 16 n)) n
        ≡ ok (buffered plaintext)
  unfolding release one_shot_decrypt finalize gcm_finalize
  release-Opened src b body n key nonce plaintext aad encrypted o stored =
      rw (stored, Opened-gcm_open key nonce plaintext aad encrypted o)
