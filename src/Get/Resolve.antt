-- ===== src/Get/Resolve.antt =====
-- `GetEncryptedObjectPipeline` and the metadata it works with, of pipelines.py.
use amazon_s3_encryption_cli.Prelude.{
  Bool, not, ◌&&◌, ◌||◌, String, Dict, update, contains, Option, none, some, is_some, if◌then◌else◌,
}
use amazon_s3_encryption_cli.Errors.{
  Result, ok, client_error, ◌>>=◌, ◌>>◌, raise_if, instruction_files_disabled, s3_client_required,
  bucket_and_key_required, suffix_required, instruction_file_tampered, illegal_combination,
}
use amazon_s3_encryption_cli.Values.{Value}
use amazon_s3_encryption_cli.External.{Json}
use amazon_s3_encryption_cli.Suite.{CommitmentPolicy}
use amazon_s3_encryption_cli.Metadata.{
  ObjectMetadata, from_dict, is_v1_format, is_v2_format, should_use_instruction_file,
}
use amazon_s3_encryption_cli.Keyring.{Cmm, required}
use amazon_s3_encryption_cli.InstructionFile.{InstructionFileConfig}

-- `s3_client` is the fetch of an instruction file with it: bucket and key to metadata.
pub record GetEncryptedObjectPipeline : Type 0 where
  pub cmm : Cmm
  pub commitment_policy : CommitmentPolicy
  pub s3_client : Option (String → String → Result (Dict Value))
  pub enable_legacy_unauthenticated_modes : Bool
  pub instruction_file_config : InstructionFileConfig

-- What the caller of `decrypt` says of the object: the suffix of its instruction file, and where it
-- is.
pub record Location : Type 0 where
  pub instruction_suffix : Option String
  pub bucket : Option String
  pub key : Option String

abbrev pub both {ℓ} : {A B : Type ℓ} → Option A → Option B → Option (A × B)
both (some a) (some b) = some (a, b)
both _ _ = none

-- `"x-amz-c"`, `"x-amz-d"` or `"x-amz-i"` among the keys of an instruction file
unfoldable pub has_exclusive_keys : Dict Value → Bool
has_exclusive_keys d = contains "x-amz-c" d || contains "x-amz-d" d || contains "x-amz-i" d

-- Content metadata of V1 or V2 in the object metadata.
unfoldable pub has_content_metadata : ObjectMetadata → Bool
has_content_metadata m = not (
    not (is_some m.content_cipher)
    && not (is_some m.content_iv)
    && not (is_some m.encrypted_data_key_algorithm))

-- `str.__add__`
abbrev pub concat : String → String → String
concat String.[] t = t
concat (String.◌∷◌ c s) t = String.◌∷◌ c (concat s t)

module _ (json : Json) where
  -- The metadata that an instruction file completes. The object's own metadata wins.
  unfoldable pub merge_instruction_file :
      Dict Value → ObjectMetadata → Dict Value → Result ObjectMetadata
  merge_instruction_file object_dict object_metadata instruction = do
    raise_if (has_exclusive_keys instruction) (client_error instruction_file_tampered)
    merged ← from_dict json (update instruction object_dict)
    raise_if ((is_v1_format merged || is_v2_format merged) && has_content_metadata object_metadata)
        (client_error illegal_combination)
    ok merged

  unfoldable pub with_instruction_file :
      GetEncryptedObjectPipeline → Location → Dict Value → ObjectMetadata → Result ObjectMetadata
  unfolding merge_instruction_file
  with_instruction_file pipeline place object_dict object_metadata = do
    raise_if pipeline.instruction_file_config.disable_get_object
        (client_error instruction_files_disabled)
    fetch ← required pipeline.s3_client (client_error s3_client_required)
    where_to ← required (both place.bucket place.key) (client_error bucket_and_key_required)
    suffix ← required place.instruction_suffix (client_error suffix_required)
    instruction ← fetch where_to.0 (concat where_to.1 suffix)
    merge_instruction_file object_dict object_metadata instruction

  -- The metadata that `decrypt` works with.
  unfoldable pub resolve_metadata :
      GetEncryptedObjectPipeline → Location → Dict Value → Result ObjectMetadata
  unfolding with_instruction_file
  resolve_metadata pipeline place object_dict = do
    metadata ← from_dict json object_dict
    if should_use_instruction_file metadata
        then with_instruction_file pipeline place object_dict metadata
        else ok metadata
