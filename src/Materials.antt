-- ===== src/Materials.antt =====
-- materials/materials.py and materials/encrypted_data_key.py: encryption and decryption materials.
pub mod Dicts
use amazon_s3_encryption_cli.Prelude.{String, Bytes, Dict, List, [], Option, none, some}
use amazon_s3_encryption_cli.Values.{Value, object}
use amazon_s3_encryption_cli.Suite.{AlgorithmSuite}

-- The provider info is read from object metadata, where it may be missing.
pub record EncryptedDataKey : Type 0 where
  pub key_provider_info : Option Value
  pub key_provider_id : String
  pub encrypted_data_key : Bytes

pub record EncryptionMaterials : Type 0 where
  pub encryption_algorithm : AlgorithmSuite
  pub encryption_context : Dict String
  pub encrypted_data_key : Option EncryptedDataKey
  pub plaintext_data_key : Option Bytes

-- The stored context is whatever JSON value the object metadata held.
pub record DecryptionMaterials : Type 0 where
  pub iv : Option Bytes
  pub encrypted_data_keys : Option (List EncryptedDataKey)
  pub encryption_context_stored : Value
  pub encryption_context_from_request : Dict String
  pub plaintext_data_key : Option Bytes
  pub algorithm_suite : Option AlgorithmSuite

-- `DecryptionMaterials()`: every field has its default.
abbrev pub decryption_defaults : DecryptionMaterials
decryption_defaults = record {
  iv = none;
  encrypted_data_keys = some [];
  encryption_context_stored = object [];
  encryption_context_from_request = [];
  plaintext_data_key = none;
  algorithm_suite = none;
}
