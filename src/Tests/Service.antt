-- ===== src/Tests/Service.antt =====
-- A service in memory, with one multipart upload at a time and one object, in place of S3.
use mathlib.Core.List.{flatten}
use amazon_s3_encryption_cli.Prelude.{
  ◌≡◌, refl, ap, String, Bytes, Dict, List, [], ◌∷◌, ◌++◌, Option, none, some, length, false,
  if◌then◌else◌, str_eq, eq_iff, eq_refl, lookup, Bool-cases, inl, inr,
}
use amazon_s3_encryption_cli.Errors.{Error, Result, ok, err, service_error}
use amazon_s3_encryption_cli.Values.{Value}
use amazon_s3_encryption_cli.Keyring.{KmsKeyring, kms_keyring}
use amazon_s3_encryption_cli.InstructionFile.{Response}
use amazon_s3_encryption_cli.Config.{S3EncryptionClientConfig, client_defaults}
use amazon_s3_encryption_cli.Plugin.{
  Libraries, ThreadContext, SerializedBody, no_body, body_bytes, s3_metadata_prefix, readable_body,
  unexpected_type,
}
use amazon_s3_encryption_cli.Client.{
  S3Service, State, BodyArgument, missing, of_bytes, of_file, of_other,
}
use amazon_s3_encryption_cli.Client.Laws.{S3Laws}
use amazon_s3_encryption_cli.Get.Resolve.{concat}
use amazon_s3_encryption_cli.Plugin.Headers.{str_eq-concat}
use amazon_s3_encryption_cli.Client.Laws.{ObjectLaws}
use amazon_s3_encryption_cli.Client.Laws.{StoredLaws}
use amazon_s3_encryption_cli.Multipart.AsPut.{OneShotLaws, encryption_started}
use amazon_s3_encryption_cli.Multipart.Sequence.{encrypt_whole}
use mathlib.Core.Path.{sym, ◌∙◌}
use amazon_s3_encryption_cli.Prelude.{ℕ, ◌+◌, replicate, arith}
use amazon_s3_encryption_cli.Tests.Libraries.{
  one_key, keys, letters, plain_gcm, plain_gcm_encryption, plain_cbc, memory, one_context,
  kc_gcm_context, zeros,
}

abbrev pub libraries : Libraries
libraries = record {
  base64 = letters;
  json = one_context kc_gcm_context;
  primitives = keys;
  runtime = zeros;
  gcm_encryption = plain_gcm_encryption;
  gcm_decryption = plain_gcm;
  cbc_decryption = plain_cbc;
  source = memory;
}

abbrev pub keyring : KmsKeyring
keyring = record {
  kms_client = one_key;
  kms_key_id = "key";
  enable_legacy_wrapping_algorithms = false;
}

abbrev pub config : S3EncryptionClientConfig
config = client_defaults (kms_keyring keyring)

pub record Stored : Type 0 where
  pub parts : List Bytes
  pub metadata : Dict Value
  pub object : Option (Dict Value × Bytes)

-- `h` without the prefix `p`.
abbrev unprefixed : String → String → Option String
unprefixed String.[] h = some h
unprefixed (String.◌∷◌ c p) String.[] = none
unprefixed (String.◌∷◌ c p) (String.◌∷◌ e h) =
    let rest = unprefixed p h in if str_eq (String.◌∷◌ c "") (String.◌∷◌ e "") then rest else none

abbrev kept : Option String → Value → Dict Value → Dict Value
kept none v d = d
kept (some k) v d = (k, v) ∷ d

-- The user metadata that headers hold.
abbrev stripped : Dict Value → Dict Value
stripped [] = []
stripped ((h, v) ∷ headers) = kept (unprefixed s3_metadata_prefix h) v (stripped headers)

abbrev serialized : BodyArgument → SerializedBody
serialized missing = no_body
serialized (of_bytes b) = body_bytes b
serialized (of_file r) = readable_body r
serialized of_other = unexpected_type

abbrev response : Option (Dict Value × Bytes) → Result (Response Bytes × Option Error)
response none =
    ok (record { body = none; metadata = none; content_length = none }, some service_error)
response (some (metadata, content)) = ok (
  record { body = some content; metadata = some metadata; content_length = some (length content) },
  none,
)

abbrev received_part : Option Bytes → Stored → Result String × Stored
received_part none w = (err service_error, w)
received_part (some body) w = (ok "etag", record w { parts = w.parts ++ body ∷ [] })

abbrev pub in_memory : S3Service Bytes
in_memory = record {
  World = Stored;
  Reply = Unit {0};
  serialize = λ args. ok (record { body = serialized args.body; headers = args.metadata });
  send_put = λ args body headers w. (ok tt, record w { object = some (stripped headers, body) });
  send_get = λ bucket key w. response w.object;
  delete_object = λ bucket key w. (ok tt, record w { object = none });
  delete_objects = λ bucket keys w. (ok tt, record w { object = none });
  create_multipart_upload =
      λ bucket key metadata w. (ok "upload", record w { parts = []; metadata = metadata });
  upload_part = λ bucket key id n body w. received_part body w;
  complete_multipart_upload = λ bucket key id parts w.
      (ok tt, record w { parts = []; object = some (w.metadata, flatten w.parts) });
  abort_multipart_upload = λ bucket key id w. (ok tt, record w { parts = [] });
}

pub answer-world :
    {A : Type 0} (a b : A) (w w' : Stored)
    → ◌≡◌ {A = Result A × Stored} (ok a, w) (ok b, w')
    → w' ≡ w
answer-world a b w w' h = cc

abbrev pub in_memory-laws : S3Laws in_memory
in_memory-laws = record {
  received = λ w id. w.parts;
  metadata_of = λ w id. w.metadata;
  stored = λ w bucket key. w.object;
  create-received = λ bucket key metadata w w' id h.
      let e = answer-world "upload" id (record w { parts = []; metadata = metadata }) w' h in
      (ap (λ v. v.parts) e, ap (λ v. v.metadata) e);
  part-received = λ bucket key id n body w w' etag count h.
      let e = answer-world "etag" etag (record w { parts = w.parts ++ body ∷ [] }) w' h in
      (ap (λ v. v.parts) e, ap (λ v. v.metadata) e);
  complete-stored = λ bucket key id parts w w' reply all h.
      ap (λ v. v.object)
        (answer-world tt reply
          (record w { parts = []; object = some (w.metadata, flatten w.parts) }) w' h);
}

unprefixed-some : (p h k : String) → unprefixed p h ≡ some k → h ≡ concat p k
unprefixed-some String.[] h k e = cc
unprefixed-some (String.◌∷◌ c p) String.[] k e = absurd (cc)
unprefixed-some (String.◌∷◌ c p) (String.◌∷◌ d h) k e =
    elim (Bool-cases (str_eq (String.◌∷◌ c "") (String.◌∷◌ d ""))) [
      | inl same ↦
          let letters : String.◌∷◌ c "" ≡ String.◌∷◌ d "" =
            (eq_iff (String.◌∷◌ c "") (String.◌∷◌ d "")).0 same in
          let rest = unprefixed-some p h k (rw same at e) in cc
      | inr other ↦ absurd (cc (rw other at e))
    ]

unprefixed-concat : (p k : String) → unprefixed p (concat p k) ≡ some k
unprefixed-concat String.[] k = refl
unprefixed-concat (String.◌∷◌ c p) k = rw (eq_refl (String.◌∷◌ c "")) (unprefixed-concat p k)

lookup-stripped :
    (k : String) (headers : Dict Value)
    → lookup k (stripped headers) ≡ lookup (concat s3_metadata_prefix k) headers
unfolding lookup
lookup-stripped k [] = refl
lookup-stripped k ((h, v) ∷ headers) =
    go (unprefixed s3_metadata_prefix h) refl (lookup-stripped k headers)
  where
    go :
        (u : Option String)
        → unprefixed s3_metadata_prefix h ≡ u
        → lookup k (stripped headers) ≡ lookup (concat s3_metadata_prefix k) headers
        → lookup k (kept u v (stripped headers))
          ≡ lookup (concat s3_metadata_prefix k) ((h, v) ∷ headers)
    go none e later = elim (Bool-cases (str_eq h (concat s3_metadata_prefix k))) [
      | inl same ↦
          let full : h ≡ concat s3_metadata_prefix k =
            (eq_iff h (concat s3_metadata_prefix k)).0 same in
          let found = unprefixed-concat s3_metadata_prefix k in absurd (cc (found, full))
      | inr other ↦ rw other later
    ]
    go (some j) e later =
        let full = unprefixed-some s3_metadata_prefix h j e in
        rw (full, str_eq-concat s3_metadata_prefix j k, later)

pub in_memory-objects : ObjectLaws memory in_memory
in_memory-objects = record {
  put-Answers = λ args content headers w w' reply h.
      rw (answer-world tt reply (record w { object = some (stripped headers, content) }) w' h)
        (record {
          body = content;
          metadata = stripped headers;
          content_length = length content;
          answer = refl;
          read_whole = refl;
          fields = λ k known. lookup-stripped k headers;
        });
}

abbrev pub idle : ThreadContext
idle = record {
  encryption_context = none;
  bucket = none;
  key = none;
  s3_client = false;
  instruction_file_mode = false;
  instruction_file_suffix = none;
}

-- A client that was just made.
abbrev pub new_client : State libraries in_memory
new_client = record {
  context = idle;
  uploads = [];
  world = record { parts = []; metadata = []; object = none };
}

abbrev content_of : Option (Dict Value × Bytes) → Bytes
content_of none = []
content_of (some (metadata, content)) = content

abbrev metadata_of : Option (Dict Value × Bytes) → Dict Value
metadata_of none = []
metadata_of (some (metadata, content)) = metadata

pub in_memory-stored : StoredLaws memory in_memory in_memory-laws
in_memory-stored = record {
  body_of = λ w bucket key. content_of w.object;
  metadata_of = λ w bucket key. metadata_of w.object;
  length_of = λ w bucket key. length (content_of w.object);
  answer = λ w bucket key metadata content h. rw h refl;
  content = λ w bucket key metadata content h. ap (λ o. ok (content_of o)) h;
  fields = λ w bucket key metadata content k h known. ap (λ o. lookup k (metadata_of o)) h;
}

pub plain_one_shot : OneShotLaws keys zeros plain_gcm_encryption
unfolding encrypt_whole
plain_one_shot = record { at_once = sealed }
  where
    same :
        (text ciphertext : Bytes) (c : ℕ)
        → c ≡ 0
        → ◌≡◌ {A = Result Bytes} (ok (text ++ replicate 16 (c + length text))) (ok ciphertext)
        → ◌≡◌ {A = Result Bytes} (ok (text ++ replicate 16 (length text))) (ok ciphertext)
    same text ciphertext c zero_start h =
        let count : length text ≡ c + length text = omega (arith, zero_start) in
        ap (λ n. ok (text ++ replicate 16 n)) count ∙ h

    started_at :
        (aad : Option Bytes) (c : ℕ)
        → encryption_started plain_gcm_encryption [] [] aad ≡ ok c
        → c ≡ 0
    started_at none c h = cc
    started_at (some a) c h = cc

    begun :
        (key nonce : Bytes) (aad : Option Bytes)
        → encryption_started plain_gcm_encryption key nonce aad
          ≡ encryption_started plain_gcm_encryption [] [] aad
    begun key nonce none = refl
    begun key nonce (some a) = refl

    sealed :
        (key nonce text ciphertext : Bytes) (aad : Option Bytes) (c : ℕ)
        → encryption_started plain_gcm_encryption key nonce aad ≡ ok c
        → encrypt_whole zeros plain_gcm_encryption c text ≡ ok ciphertext
        → keys.aesgcm_encrypt key nonce text aad ≡ ok ciphertext
    sealed key nonce text ciphertext aad c h k =
        same text ciphertext c (started_at aad c (sym (begun key nonce aad) ∙ h)) k
