-- ===== src/Client/Laws.antt =====
-- What the client relies on of the multipart uploads of S3.
use mathlib.Core.List.{flatten}
use amazon_s3_encryption_cli.Prelude.{
  ◌≡◌, ℕ, zero, suc, ◌+◌, String, Bytes, Dict, List, [], ◌∷◌, ◌++◌, Option, none, some, lookup,
  true, length, map,
}
use amazon_s3_encryption_cli.Errors.{ok}
use amazon_s3_encryption_cli.Values.{Value}
use amazon_s3_encryption_cli.Client.{S3Service, PutArguments}
use amazon_s3_encryption_cli.External.{ByteSource}
use amazon_s3_encryption_cli.InstructionFile.{is_s3ec_key}
use amazon_s3_encryption_cli.Get.Resolve.{concat}
use amazon_s3_encryption_cli.Plugin.{s3_metadata_prefix}

-- The part numbers 1 to `n`.
unfoldable pub up_to : ℕ → List ℕ
up_to zero = []
up_to (suc n) = up_to n ++ (suc n ∷ [])

abbrev pub part_numbers : List (ℕ × String) → List ℕ
part_numbers parts = map (λ part. part.0) parts

-- S3 keeps the parts of an upload in the order of their numbers, and the metadata that it was
-- created with; completing it with all of its parts stores their contents, joined, as the object.
pub record S3Laws {Body : Type 0} (service : S3Service Body) : Type 0 where
  pub received : service.World → String → List Bytes
  pub metadata_of : service.World → String → Dict Value
  pub stored : service.World → String → String → Option (Dict Value × Bytes)
  pub create-received :
      (bucket key : String) (metadata : Dict Value) (w w' : service.World) (id : String)
      → service.create_multipart_upload bucket key metadata w ≡ (ok id, w')
      → (received w' id ≡ []) × (metadata_of w' id ≡ metadata)
  pub part-received :
      (bucket key id : String) (n : ℕ) (body : Bytes) (w w' : service.World) (etag : String)
      → n ≡ length (received w id) + 1
      → service.upload_part bucket key id n (some body) w ≡ (ok etag, w')
      → (received w' id ≡ received w id ++ body ∷ []) × (metadata_of w' id ≡ metadata_of w id)
  pub complete-stored :
      (bucket key id : String) (parts : List (ℕ × String)) (w w' : service.World)
      (reply : service.Reply)
      → part_numbers parts ≡ up_to (length (received w id))
      → service.complete_multipart_upload bucket key id parts w ≡ (ok reply, w')
      → stored w' bucket key ≡ some (metadata_of w id, flatten (received w id))

-- What GetObject answers about an object.
pub record Answers (src : ByteSource) (service : S3Service src.Body) (bucket key : String)
    (content : Bytes) (headers : Dict Value) (w : service.World) : Type 0 where
  pub body : src.Body
  pub metadata : Dict Value
  pub content_length : ℕ
  pub answer :
      service.send_get bucket key w
      ≡ ok (
        record { body = some body; metadata = some metadata; content_length = some content_length },
        none,
      )
  pub read_whole : src.read_all body ≡ ok content
  pub fields :
      (k : String)
      → is_s3ec_key k ≡ true
      → lookup k metadata ≡ lookup (concat s3_metadata_prefix k) headers

-- S3 answers with the content that was put last, and with the user metadata of its headers, without
-- their prefix.
pub record ObjectLaws (src : ByteSource) (service : S3Service src.Body) : Type 0 where
  pub put-Answers :
      (args : PutArguments) (content : Bytes) (headers : Dict Value) (w w' : service.World)
      (reply : service.Reply)
      → service.send_put args content headers w ≡ (ok reply, w')
      → Answers src service args.bucket args.key content headers w'

-- GetObject answers with what is stored.
pub record StoredLaws (src : ByteSource) (service : S3Service src.Body) (s3 : S3Laws service)
    : Type 0 where
  pub body_of : service.World → String → String → src.Body
  pub metadata_of : service.World → String → String → Dict Value
  pub length_of : service.World → String → String → ℕ
  pub answer :
      (w : service.World) (bucket key : String) (metadata : Dict Value) (content : Bytes)
      → s3.stored w bucket key ≡ some (metadata, content)
      → service.send_get bucket key w
        ≡ ok (
          record {
            body = some (body_of w bucket key);
            metadata = some (metadata_of w bucket key);
            content_length = some (length_of w bucket key);
          },
          none,
        )
  pub content :
      (w : service.World) (bucket key : String) (metadata : Dict Value) (content : Bytes)
      → s3.stored w bucket key ≡ some (metadata, content)
      → src.read_all (body_of w bucket key) ≡ ok content
  pub fields :
      (w : service.World) (bucket key : String) (metadata : Dict Value) (content : Bytes)
      (k : String)
      → s3.stored w bucket key ≡ some (metadata, content)
      → is_s3ec_key k ≡ true
      → lookup k (metadata_of w bucket key) ≡ lookup k metadata
