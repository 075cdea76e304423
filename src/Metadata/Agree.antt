-- ===== src/Metadata/Agree.antt =====
-- Dictionaries that agree on the keys that the client reads are the same metadata.
use amazon_s3_encryption_cli.Prelude.{
  ◌≡◌, refl, true, String, Dict, lookup, IsDict, insert-IsDict, Option, none, some,
}
use amazon_s3_encryption_cli.Values.{Value}
use amazon_s3_encryption_cli.External.{Json}
use amazon_s3_encryption_cli.Metadata.{ObjectMetadata, from_dict, field, to_dict, put_some}
use amazon_s3_encryption_cli.InstructionFile.{is_s3ec_key}

abbrev pub Agree : Dict Value → Dict Value → Type 0
Agree d e = (k : String) → is_s3ec_key k ≡ true → lookup k d ≡ lookup k e

pub from_dict-Agree :
    (json : Json) (d e : Dict Value) → Agree d e → from_dict json d ≡ from_dict json e
unfolding from_dict field is_s3ec_key
from_dict-Agree json d e h = rw (
  h "x-amz-matdesc" refl,
  h "x-amz-key" refl,
  h "x-amz-key-v2" refl,
  h "x-amz-wrap-alg" refl,
  h "x-amz-iv" refl,
  h "x-amz-cek-alg" refl,
  h "x-amz-tag-len" refl,
  h "x-amz-crypto-instr-file" refl,
  h "x-amz-c" refl,
  h "x-amz-3" refl,
  h "x-amz-m" refl,
  h "x-amz-t" refl,
  h "x-amz-w" refl,
  h "x-amz-d" refl,
  h "x-amz-i" refl,
)

put_some-IsDict :
    (k : String) (v : Option Value) (d : Dict Value) → IsDict d → IsDict (put_some k v d)
put_some-IsDict k none d h = h
put_some-IsDict k (some v) d h = insert-IsDict k v d h

pub to_dict-IsDict : (json : Json) (m : ObjectMetadata) → IsDict (to_dict json m)
unfolding to_dict
to_dict-IsDict json m = search put_some-IsDict depth 17
