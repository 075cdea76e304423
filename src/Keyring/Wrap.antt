-- ===== src/Keyring/Wrap.antt =====
-- `KmsKeyring.on_encrypt`, and `KmsKeyring.on_decrypt` after it.
use amazon_s3_encryption_cli.Prelude.{
  inl, inr, ap, ◌≡◌, refl, ◌≢◌, Bool, String, Dict, lookup, insert, IsDict, lookup-insert,
  erase_absent, erase-insert_new, lookup-erase, [], ◌∷◌, Option, none, some, Bytes,
}
use mathlib.Core.Option
use amazon_s3_encryption_cli.Errors.{ok, >>=-eq-ok}
use amazon_s3_encryption_cli.Values.{Value, text, object, Member, members, equals_text}
use amazon_s3_encryption_cli.Values.Pairs.{
  same_pairs-lookup, same_pairs-members, lookup-members, members-insert,
}
use amazon_s3_encryption_cli.External.{KmsLaws}
use amazon_s3_encryption_cli.Suite.{AlgorithmSuite, content_cipher}
use amazon_s3_encryption_cli.Materials.{EncryptedDataKey, EncryptionMaterials, DecryptionMaterials}
use amazon_s3_encryption_cli.Keyring.{
  KmsKeyring, kms_context_default_key, kms_v1_default_key, without_reserved, s3_on_decrypt,
  kms_on_decrypt, kms_on_encrypt,
}
use amazon_s3_encryption_cli.Keyring.Unwrap.{kms_on_decrypt-Unwrapped}
use amazon_s3_encryption_cli.Keyring.Accepted.{IsAccepted, ContextAgrees, check_wrapping_accepts}

-- The context that a data key is made under: the caller's with the cipher of the suite.
abbrev pub wrapped_context : EncryptionMaterials → Dict String
wrapped_context m =
    insert kms_context_default_key (content_cipher m.encryption_algorithm) m.encryption_context

-- The encrypted data key that `on_encrypt` makes of KMS's blob.
abbrev pub kms_edk : Bytes → EncryptedDataKey
kms_edk blob = record {
  key_provider_info = some (text "kms+context");
  key_provider_id = "S3Keyring";
  encrypted_data_key = blob;
}

-- A successful wrapping.
pub record Wrapped (keyring : KmsKeyring) (m : EncryptionMaterials) (e : EncryptionMaterials)
    : Type 0 where
  pub blob : Bytes
  pub plaintext : Bytes
  pub generated :
      keyring.kms_client.generate_data_key keyring.kms_key_id "AES_256" (wrapped_context m)
      ≡ ok (blob, plaintext)
  pub filled : e ≡ record m {
    encryption_context = wrapped_context m;
    encrypted_data_key = some (kms_edk blob);
    plaintext_data_key = some plaintext;
  }

pub kms_on_encrypt-Wrapped :
    (keyring : KmsKeyring) (m e : EncryptionMaterials)
    → kms_on_encrypt keyring m ≡ ok e
    → Wrapped keyring m e
unfolding kms_on_encrypt
kms_on_encrypt-Wrapped keyring m e h =
    let (response, generated, built) =
      >>=-eq-ok
        (keyring.kms_client.generate_data_key keyring.kms_key_id "AES_256" (wrapped_context m)) _
        h in
    record { blob = response.0; plaintext = response.1; generated = generated; filled = cc }

-- A caller's context that uses neither of the two reserved keys.
pub record IsUnreserved (context : Dict String) : Type 0 where
  pub is_dict : IsDict context
  pub no_cek_alg : lookup kms_context_default_key context ≡ none
  pub no_cmk_id : lookup kms_v1_default_key context ≡ none

without_reserved-wrapped :
    (m : EncryptionMaterials)
    → IsUnreserved m.encryption_context
    → without_reserved (members (wrapped_context m)) ≡ members m.encryption_context
unfolding without_reserved
without_reserved-wrapped m u =
    let no_cek : lookup kms_context_default_key (members m.encryption_context) ≡ none =
      rw (lookup-members, u.no_cek_alg) in
    let stored =
      insert kms_context_default_key (Member.text (content_cipher m.encryption_algorithm))
        (members m.encryption_context) in
    let no_cmk : lookup kms_v1_default_key stored ≡ none =
      rw (lookup-insert, lookup-members, u.no_cmk_id) in
    rw (
      members-insert,
      erase_absent kms_v1_default_key stored no_cmk,
      erase-insert_new kms_context_default_key _ _ no_cek,
    )

wrapped_context-ContextAgrees :
    (m : EncryptionMaterials)
    → IsUnreserved m.encryption_context
    → ContextAgrees (members (wrapped_context m)) m.encryption_context (some m.encryption_algorithm)
wrapped_context-ContextAgrees m u = record {
  selected = m.encryption_algorithm;
  suite_selected = refl;
  not_reserved = u.no_cek_alg;
  same = rw (without_reserved-wrapped m u) (same_pairs-members m.encryption_context u.is_dict);
  cipher = rw (lookup-members, lookup-insert);
}

-- Decryption materials that hold one encrypted data key, its context and its suite, and the context
-- that a caller gives.
abbrev pub unwrap_request :
    Option Bytes
    → EncryptedDataKey
    → Dict String
    → Dict String
    → AlgorithmSuite
    → DecryptionMaterials
unwrap_request iv edk context request suite = record {
  iv = iv;
  encrypted_data_keys = some (edk ∷ []);
  encryption_context_stored = object (members context);
  encryption_context_from_request = request;
  plaintext_data_key = none;
  algorithm_suite = some suite;
}

-- Given the encrypted data key and the context that `on_encrypt` made, its suite and the caller's
-- context again, `on_decrypt` returns the same data key, if the caller's context has neither of the
-- reserved keys and KMS decrypts what it made.
pub kms_on_decrypt-kms_on_encrypt :
    (keyring : KmsKeyring) (m e : EncryptionMaterials) (edk : EncryptedDataKey) (iv : Option Bytes)
    → KmsLaws keyring.kms_client
    → IsUnreserved m.encryption_context
    → kms_on_encrypt keyring m ≡ ok e
    → e.encrypted_data_key ≡ some edk
    → let d =
        unwrap_request iv edk e.encryption_context m.encryption_context m.encryption_algorithm in
      kms_on_decrypt keyring d d.encrypted_data_keys
      ≡ ok (record d { plaintext_data_key = e.plaintext_data_key })
unfolding kms_on_decrypt s3_on_decrypt equals_text
kms_on_decrypt-kms_on_encrypt keyring m e edk iv laws u made has =
    let w = kms_on_encrypt-Wrapped keyring m e made in
    let context : e.encryption_context ≡ wrapped_context m = cc (w.filled) in
    let key : e.plaintext_data_key ≡ some w.plaintext = cc (w.filled) in
    let same : edk ≡ kms_edk w.blob = cc (w.filled) in
    let passes =
      (check_wrapping_accepts keyring.enable_legacy_wrapping_algorithms (some (text "kms+context"))
          (members (wrapped_context m)) m.encryption_context (some m.encryption_algorithm)).1
        (inl (refl, wrapped_context-ContextAgrees m u)) in
    rw (context, key, same, passes, laws.decrypt-generate _ _ _ w.generated)

lookup-nil : (k : String) → lookup {V = String} k [] ≡ none
unfolding lookup
lookup-nil k = refl

without_reserved-no_cmk_id :
    (stored : Dict Member) → lookup kms_v1_default_key (without_reserved stored) ≡ none
unfolding without_reserved
without_reserved-no_cmk_id stored = rw (lookup-erase, lookup-erase)

cmk_id_not-IsAccepted :
    (legacy : Bool) (info : Option Value) (stored : Dict Member) (request : Dict String)
    (suite : Option AlgorithmSuite) (value : String)
    → lookup kms_v1_default_key request ≡ some value
    → ¬ (IsAccepted legacy info stored request suite)
cmk_id_not-IsAccepted legacy info stored request suite value has (inl (mode, agrees)) = cc (
  same_pairs-lookup (without_reserved stored) request kms_v1_default_key agrees.same,
  without_reserved-no_cmk_id stored,
  ap (Option.map Member.text) has,
)
cmk_id_not-IsAccepted legacy info stored request suite value has (inr (mode, enabled, no_context)) =
    let missing : lookup {V = String} kms_v1_default_key [] ≡ some value = rw no_context at has in
    cc (lookup-nil kms_v1_default_key, missing)

-- Decryption materials with one encrypted data key, whose requested context holds `kms_cmk_id`, are
-- refused whatever the stored context is, the same one included, and whatever the wrapping
-- algorithm.
pub cmk_id_never_decrypts :
    (keyring : KmsKeyring) (edk : EncryptedDataKey) (iv : Option Bytes)
    (stored request : Dict String) (suite : AlgorithmSuite) (value : String)
    → lookup kms_v1_default_key request ≡ some value
    → let d = unwrap_request iv edk stored request suite in
      (r : DecryptionMaterials) → kms_on_decrypt keyring d d.encrypted_data_keys ≢ ok r
cmk_id_never_decrypts keyring edk iv stored request suite value has r h =
    let u = kms_on_decrypt-Unwrapped keyring (unwrap_request iv edk stored request suite) _ r h in
    cmk_id_not-IsAccepted _ _ u.stored request (some suite) value has u.accepted
