-- ===== src/Client/Mode.antt =====
-- The mode for instruction files in a thread, which the fetch of instruction_file.py sets for its own
-- call in a `get_object` of __init__.py.
use amazon_s3_encryption_cli.Prelude.{
  ◌≡◌, sym, ℕ, Bool, true, false, String, Option, none, some, if◌then◌else◌, Bool-cases, inl, inr,
  arith,
}
use amazon_s3_encryption_cli.Errors.{Error, Result, ok, err, client_error, missing_content_length}
use amazon_s3_encryption_cli.InstructionFile.{
  Response, safe_metadata, S3Client, fetch_instruction_file,
}
use amazon_s3_encryption_cli.Config.{S3EncryptionClientConfig, get_pipeline}
use amazon_s3_encryption_cli.Get.Fetching.{Fetch}
use amazon_s3_encryption_cli.Get.Fetched.{Keeps, decrypt_in-Keeps}
use amazon_s3_encryption_cli.Plugin.{
  Libraries, ThreadContext, fetch_by, fetch_with, location, attribute_or, handle_instruction_file,
  handle_object, on_get_object_after_call, decrypt_object,
}
use amazon_s3_encryption_cli.Keyring.{required}
use amazon_s3_encryption_cli.Client.{S3Service, fetching_client, wrapped_get_object, answer_with}

-- The mode for instruction files is off.
abbrev pub NoMode : ThreadContext → Type 0
NoMode c = c.instruction_file_mode ≡ false

module _ (libs : Libraries) (config : S3EncryptionClientConfig) where
  fetch_by-Keeps :
      (client : S3Client) (bucket key : String)
      → Keeps NoMode (fetch_by libs config client bucket key)
  unfolding fetch_by fetch_instruction_file
  fetch_by-Keeps client bucket key c off = ground arith

  fetch_with-Keeps :
      (client : S3Client) (c : ThreadContext) (fetch : Fetch ThreadContext)
      → fetch_with libs config client c ≡ some fetch
      → (bucket key : String) → Keeps NoMode (fetch bucket key)
  fetch_with-Keeps client c fetch e bucket key = elim (Bool-cases c.s3_client) [
    | inl held ↦
        let same : fetch_by libs config client ≡ fetch = cc (simp held at e) in
        rw (sym same) (fetch_by-Keeps client bucket key)
    | inr missing ↦ absurd (ground arith)
  ]

  decrypt_object-NoMode :
      (client : S3Client) (c : ThreadContext) (parsed : Response libs.source.Body)
      (body : libs.source.Body) (n : Result ℕ)
      → NoMode c
      → NoMode (decrypt_object libs config client c parsed body n).1
  decrypt_object-NoMode client c parsed body (err e) off = off
  decrypt_object-NoMode client c parsed body (ok n) off =
      decrypt_in-Keeps (fetch_with libs config client c) libs.source libs.gcm_decryption
        libs.cbc_decryption libs.base64 libs.primitives libs.json (get_pipeline config none)
        (location libs config c) (safe_metadata parsed.metadata) body n
        (some config.enable_delayed_authentication) (attribute_or none c.encryption_context) NoMode
        (fetch_with-Keeps client c) c off

  handle_object-NoMode :
      (client : S3Client) (c : ThreadContext) (parsed : Response libs.source.Body)
      → NoMode c
      → NoMode (handle_object libs config client c parsed).1
  unfolding handle_object
  handle_object-NoMode client c parsed off = go parsed.body
    where
      go :
          (o : Option libs.source.Body)
          → NoMode (handle_object libs config client c (record parsed { body = o })).1
      go none = off
      go (some body) =
          decrypt_object-NoMode client c (record parsed { body = some body }) body
            (required parsed.content_length (client_error missing_content_length)) off

  on_get_object_after_call-NoMode :
      (client : S3Client) (c : ThreadContext) (parsed : Response libs.source.Body)
      → NoMode c
      → NoMode (on_get_object_after_call libs config client c parsed).1
  unfolding on_get_object_after_call
  on_get_object_after_call-NoMode client c parsed off = go c.instruction_file_mode
    where
      go :
          (mode : Bool)
          → NoMode
              (if mode
                then (handle_instruction_file libs config parsed, c)
                else handle_object libs config client c parsed).1
      go true = off
      go false = handle_object-NoMode client c parsed off

  module _ (service : S3Service libs.source.Body) where
    pub wrapped_get_object-NoMode :
        (c : ThreadContext) (bucket key : String) (w : service.World)
        → NoMode c
        → NoMode (wrapped_get_object libs config service c bucket key w).1
    unfolding wrapped_get_object
    wrapped_get_object-NoMode c bucket key w off = go (service.send_get bucket key w)
      where
        go :
            (r : Result (Response libs.source.Body × Option Error))
            → NoMode (answer_with libs config service c w r).1
        go (err e) = off
        go (ok (parsed, failure)) =
            on_get_object_after_call-NoMode (fetching_client libs config service w) c parsed off
