-- ===== src/Metadata/Formats.antt =====
-- How the tests for the message formats in metadata.py exclude one another.
use amazon_s3_encryption_cli.Prelude.{◌≡◌, Bool, not, true, false, ◌&&◌, is_some, arith, ◌+◌}
use amazon_s3_encryption_cli.Metadata.{
  ObjectMetadata, is_v1_format, is_v2_format, is_v3_format, has_exclusive_key_collision, count,
  should_use_instruction_file,
}

-- No metadata is in two of the three message formats.
pub formats_exclude :
    (m : ObjectMetadata)
    → ((is_v1_format m && is_v2_format m) ≡ false)
      × ((is_v1_format m && is_v3_format m) ≡ false)
      × ((is_v2_format m && is_v3_format m) ≡ false)
unfolding is_v1_format is_v2_format is_v3_format
formats_exclude m = ground arith

-- The three V3 content keys without a V3 data key.
abbrev pub has_v3_content_only : ObjectMetadata → Bool
has_v3_content_only m =
    is_some m.content_cipher_v3
    && is_some m.key_commitment_v3
    && is_some m.message_id_v3
    && not (is_some m.encrypted_data_key_v3)

-- Whether metadata in one of the formats needs an instruction file. V3 metadata does not. V1 or V2
-- metadata does exactly if it also holds the three V3 content keys and no V3 data key, although the
-- data key that makes it V1 or V2 is there.
pub format-should_use_instruction_file :
    (m : ObjectMetadata)
    → (is_v3_format m ≡ true → should_use_instruction_file m ≡ false)
      × (is_v1_format m ≡ true → should_use_instruction_file m ≡ has_v3_content_only m)
      × (is_v2_format m ≡ true → should_use_instruction_file m ≡ has_v3_content_only m)
unfolding is_v1_format is_v2_format is_v3_format should_use_instruction_file
format-should_use_instruction_file m = ground arith

-- Where no instruction file is used and no keys collide, exactly one of the data keys of V1, V2 and
-- V3 is there.
pub one_data_key :
    (m : ObjectMetadata)
    → should_use_instruction_file m ≡ false
    → has_exclusive_key_collision m ≡ false
    → count (is_some m.encrypted_data_key_v1)
        + count (is_some m.encrypted_data_key_v2)
        + count (is_some m.encrypted_data_key_v3)
      ≡ 1
unfolding should_use_instruction_file has_exclusive_key_collision
one_data_key m h k = ground arith
