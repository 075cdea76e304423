-- ===== src/Materials/Dicts.antt =====
-- The dictionary forms of the materials, `from_dict` and `to_dict` of materials/materials.py,
-- and `S3Keyring.on_encrypt` of materials/keyring.py, which takes them.
use amazon_s3_encryption_cli.Prelude.{
  ◌≡◌, refl, ap, String, Bytes, Dict, List, [], ◌∷◌, Option, none, some, Bool-cases, inl, inr,
  if◌then◌else◌,
}
use amazon_s3_encryption_cli.Errors.{Result, ok, err, client_error, not_materials}
use amazon_s3_encryption_cli.Values.{Value, object, truthy}
use amazon_s3_encryption_cli.Suite.{AlgorithmSuite, alg_aes_256_gcm_hkdf_sha512_commit_key}
use amazon_s3_encryption_cli.Materials.{EncryptedDataKey, EncryptionMaterials, DecryptionMaterials}

-- A dictionary with values of the types that the materials have: `none` is a missing key. Where a
-- value may be `None`, the key has an option again.
pub record EncryptionDict : Type 0 where
  pub encryption_algorithm : Option AlgorithmSuite
  pub encryption_context : Option (Option (Dict String))
  pub encrypted_data_key : Option (Option EncryptedDataKey)
  pub plaintext_data_key : Option (Option Bytes)

pub record DecryptionDict : Type 0 where
  pub iv : Option (Option Bytes)
  pub encrypted_data_keys : Option (Option (List EncryptedDataKey))
  pub encryption_context_stored : Option Value
  pub encryption_context_from_request : Option (Option (Dict String))
  pub plaintext_data_key : Option (Option Bytes)
  pub algorithm_suite : Option (Option AlgorithmSuite)

-- `d.get(k, default)`
abbrev pub get_or {ℓ} : {A : Type ℓ} → A → Option A → A
get_or default none = default
get_or default (some a) = a

-- `safe_get_dict(d, k)`
abbrev pub safe_context : Option (Option (Dict String)) → Dict String
safe_context (some (some d)) = d
safe_context _ = []

-- `safe_get_dict(d, k)` of any value: one that is not true becomes `{}`.
abbrev pub safe_value : Option Value → Value
safe_value none = object []
safe_value (some v) = if truthy v then v else object []

unfoldable pub encryption_from_dict : EncryptionDict → EncryptionMaterials
encryption_from_dict d = record {
  encryption_algorithm = get_or alg_aes_256_gcm_hkdf_sha512_commit_key d.encryption_algorithm;
  encryption_context = safe_context d.encryption_context;
  encrypted_data_key = get_or none d.encrypted_data_key;
  plaintext_data_key = get_or none d.plaintext_data_key;
}

-- `if v is not None: result[k] = v`
abbrev pub unless_none {ℓ} : {A : Type ℓ} → Option A → Option (Option A)
unless_none none = none
unless_none (some a) = some (some a)

-- `if v: result[k] = v`
abbrev pub unless_empty {ℓ} : {A : Type ℓ} → List A → Option (Option (List A))
unless_empty [] = none
unless_empty (x ∷ xs) = some (some (x ∷ xs))

abbrev pub unless_no_keys : Option (List EncryptedDataKey) → Option (Option (List EncryptedDataKey))
unless_no_keys none = none
unless_no_keys (some keys) = unless_empty keys

unfoldable pub encryption_to_dict : EncryptionMaterials → EncryptionDict
encryption_to_dict m = record {
  encryption_algorithm = some m.encryption_algorithm;
  encryption_context = unless_empty m.encryption_context;
  encrypted_data_key = unless_none m.encrypted_data_key;
  plaintext_data_key = unless_none m.plaintext_data_key;
}

unfoldable pub decryption_from_dict : DecryptionDict → DecryptionMaterials
decryption_from_dict d = record {
  iv = get_or none d.iv;
  encrypted_data_keys = get_or (some []) d.encrypted_data_keys;
  encryption_context_stored = safe_value d.encryption_context_stored;
  encryption_context_from_request = safe_context d.encryption_context_from_request;
  plaintext_data_key = get_or none d.plaintext_data_key;
  algorithm_suite = get_or none d.algorithm_suite;
}

unfoldable pub decryption_to_dict : DecryptionMaterials → DecryptionDict
decryption_to_dict m = record {
  iv = unless_none m.iv;
  encrypted_data_keys = unless_no_keys m.encrypted_data_keys;
  encryption_context_stored =
      if truthy m.encryption_context_stored then some m.encryption_context_stored else none;
  encryption_context_from_request = unless_empty m.encryption_context_from_request;
  plaintext_data_key = unless_none m.plaintext_data_key;
  algorithm_suite = unless_none m.algorithm_suite;
}

-- The argument of `on_encrypt`: materials, a dictionary, or an object of another type.
pub data MaterialsArgument : Type 0 where
  of_materials : EncryptionMaterials → MaterialsArgument
  of_dict : EncryptionDict → MaterialsArgument
  of_other : MaterialsArgument

-- `S3Keyring.on_encrypt` of materials/keyring.py. The context of materials is a dictionary here.
unfoldable pub s3_on_encrypt : MaterialsArgument → Result EncryptionMaterials
unfolding encryption_from_dict
s3_on_encrypt (of_materials m) = ok m
s3_on_encrypt (of_dict d) = ok (encryption_from_dict d)
s3_on_encrypt of_other = err (client_error not_materials)

get_or-unless_none {ℓ} : {A : Type ℓ} (o : Option A) → get_or none (unless_none o) ≡ o
get_or-unless_none none = refl
get_or-unless_none (some a) = refl

safe_context-unless_empty : (d : Dict String) → safe_context (unless_empty d) ≡ d
safe_context-unless_empty [] = refl
safe_context-unless_empty (e ∷ d) = refl

-- Encryption materials that were written as a dictionary are read back as they were.
pub encryption_from_dict-encryption_to_dict :
    (m : EncryptionMaterials) → encryption_from_dict (encryption_to_dict m) ≡ m
unfolding encryption_from_dict encryption_to_dict
encryption_from_dict-encryption_to_dict m = simp (get_or-unless_none, safe_context-unless_empty)

-- Materials and their dictionary are the same to a keyring.
pub s3_on_encrypt-encryption_to_dict :
    (m : EncryptionMaterials)
    → s3_on_encrypt (of_dict (encryption_to_dict m)) ≡ s3_on_encrypt (of_materials m)
unfolding s3_on_encrypt
s3_on_encrypt-encryption_to_dict m = ap ok (encryption_from_dict-encryption_to_dict m)

-- Keys that are `None` become an empty list.
abbrev pub keys_or_empty : Option (List EncryptedDataKey) → Option (List EncryptedDataKey)
keys_or_empty none = some []
keys_or_empty (some keys) = some keys

keys-unless_no_keys :
    (o : Option (List EncryptedDataKey)) → get_or (some []) (unless_no_keys o) ≡ keys_or_empty o
keys-unless_no_keys none = refl
keys-unless_no_keys (some []) = refl
keys-unless_no_keys (some (k ∷ ks)) = refl

value_kept :
    (v : Value)
    → safe_value (if truthy v then some v else none) ≡ (if truthy v then v else object [])
value_kept v = elim (Bool-cases (truthy v)) [
  | inl true_value ↦ rw true_value (rw true_value)
  | inr false_value ↦ rw false_value
]

-- Decryption materials that were written as a dictionary are read back as they were, but that a
-- stored context which is not true in Python becomes `{}`, and encrypted data keys that are `None`
-- an empty list.
pub decryption_from_dict-decryption_to_dict :
    (m : DecryptionMaterials)
    → decryption_from_dict (decryption_to_dict m) ≡ record m {
      encryption_context_stored =
          if truthy m.encryption_context_stored then m.encryption_context_stored else object [];
      encrypted_data_keys = keys_or_empty m.encrypted_data_keys;
    }
unfolding decryption_from_dict decryption_to_dict
decryption_from_dict-decryption_to_dict m =
    simp (get_or-unless_none, safe_context-unless_empty, keys-unless_no_keys, value_kept)
