-- ===== src/Client/Consistent.antt =====
-- What holds of a client between two calls, and that each operation keeps it.
use amazon_s3_encryption_cli.Prelude.{
  ◌≡◌, refl, sym, ◌∙◌, false, ℕ, String, Bytes, Dict, lookup, insert, erase, lookup-insert,
  lookup-erase, List, Option, none, some, arith, str_eq, Bool-cases, inl, inr,
}
use amazon_s3_encryption_cli.Errors.{Result, ok, err}
use amazon_s3_encryption_cli.Config.{S3EncryptionClientConfig}
use amazon_s3_encryption_cli.Plugin.{Libraries, ContextArgument, validate_encryption_context}
use amazon_s3_encryption_cli.Multipart.{PartData, encrypt_part}
use amazon_s3_encryption_cli.Multipart.Calls.{IsWellFormed, encrypt_part-IsWellFormed}
use amazon_s3_encryption_cli.Client.{
  S3Service, State, PutArguments, GetArguments, put_object, get_object, delete_object,
  delete_objects, validated, put_with, get_with, set_for_get,
}
use amazon_s3_encryption_cli.Client.Uploads.{
  CreateArguments, PartArguments, create_multipart_upload, upload_part, complete_multipart_upload,
  abort_multipart_upload, Pipeline, new_pipeline, created, create_with, part_with, complete_with,
  sent_part, part_of, part_data, completed,
}
use amazon_s3_encryption_cli.Client.Failures.{IsClean}
use amazon_s3_encryption_cli.Client.Keeps.{Keeps}
use amazon_s3_encryption_cli.Client.Mode.{wrapped_get_object-NoMode}
use amazon_s3_encryption_cli.Client.Fresh.{IsFresh, fresh-IsWellFormed, new_pipeline-IsFresh, Makes}

module _ (libs : Libraries) (config : S3EncryptionClientConfig)
    (service : S3Service libs.source.Body) where
  -- No request is under way in this thread, and every upload has a well-formed pipeline.
  pub record IsConsistent (s : State libs service) : Type 0 where
    pub clean : IsClean s.context
    pub no_mode : s.context.instruction_file_mode ≡ false
    pub well_formed :
        (id : String) (p : Pipeline libs config service)
        → lookup id s.uploads ≡ some p
        → IsWellFormed libs.runtime libs.gcm_encryption p

  -- The pipelines of a dict, when one is put in or taken out.
  AllWellFormed : Dict (Pipeline libs config service) → Type 0
  AllWellFormed uploads =
      (id : String) (p : Pipeline libs config service)
      → lookup id uploads ≡ some p
      → IsWellFormed libs.runtime libs.gcm_encryption p

  insert-AllWellFormed :
      (id : String) (p : Pipeline libs config service)
      (uploads : Dict (Pipeline libs config service))
      → IsWellFormed libs.runtime libs.gcm_encryption p
      → AllWellFormed uploads
      → AllWellFormed (insert id p uploads)
  unfolding AllWellFormed
  insert-AllWellFormed id p uploads w all j q h = elim (Bool-cases (str_eq id j)) [
    | inl same ↦ let e : p ≡ q = cc (rw same at (lookup-insert id j p uploads)) in rw (sym e) w
    | inr other ↦ all j q (sym (rw other at (lookup-insert id j p uploads)) ∙ h)
  ]

  erase-AllWellFormed :
      (id : String) (uploads : Dict (Pipeline libs config service))
      → AllWellFormed uploads
      → AllWellFormed (erase id uploads)
  unfolding AllWellFormed
  erase-AllWellFormed id uploads all j q h = elim (Bool-cases (str_eq id j)) [
    | inl same ↦ absurd (ground (arith, lookup-erase id j uploads))
    | inr other ↦ all j q (sym (rw other at (lookup-erase id j uploads)) ∙ h)
  ]

  -- A call that validates its encryption context first, and that cleans up, leaves a clean thread.
  validated-IsConsistent :
      {A : Type 0}
      (call : Option (Dict String) → State libs service → Result A × State libs service)
      (s : State libs service) (v : Result (Option (Dict String)))
      → IsConsistent s
      → ((context : Option (Dict String)) → IsConsistent (call context s).1)
      → IsConsistent (validated libs config service call s v).1
  validated-IsConsistent call s (err e) i step = i
  validated-IsConsistent call s (ok context) i step = step context

  pub put_object-IsConsistent :
      (args : PutArguments) (argument : ContextArgument) (s : State libs service)
      → IsConsistent s
      → IsConsistent (put_object libs config service args argument s).1
  unfolding put_object
  put_object-IsConsistent args argument s i =
      validated-IsConsistent (put_with libs config service args) s
        (validate_encryption_context argument) i
        (λ context. record {
          clean = record {
            no_encryption_context = refl;
            no_bucket = i.clean.no_bucket;
            no_key = i.clean.no_key;
            no_suffix = i.clean.no_suffix;
          };
          no_mode = i.no_mode;
          well_formed = i.well_formed;
        })

  pub get_object-IsConsistent :
      (args : GetArguments) (s : State libs service)
      → IsConsistent s
      → IsConsistent (get_object libs config service args s).1
  unfolding get_object
  get_object-IsConsistent args s i = elim (Bool-cases args.has_range) [
    | inl ranged ↦ rw ranged i
    | inr whole ↦ rw whole (
        validated-IsConsistent (get_with libs config service args) s
          (validate_encryption_context args.encryption_context) i
          (λ context. record {
            clean = record {
              no_encryption_context = refl;
              no_bucket = refl;
              no_key = refl;
              no_suffix = refl;
            };
            no_mode =
                wrapped_get_object-NoMode libs config service (set_for_get context args s.context)
                  args.bucket args.key s.world i.no_mode;
            well_formed = i.well_formed;
          }))
  ]

  with_uploads :
      (s s' : State libs service)
      → IsConsistent s
      → s'.context ≡ s.context
      → AllWellFormed s'.uploads
      → IsConsistent s'
  unfolding AllWellFormed
  with_uploads s s' i h all = record {
    clean = rw h i.clean;
    no_mode = rw h i.no_mode;
    well_formed = all;
  }

  pub create-IsConsistent :
      (args : CreateArguments) (s : State libs service)
      → IsConsistent s
      → IsConsistent (create_multipart_upload libs config service args s).1
  unfolding create_multipart_upload AllWellFormed
  create-IsConsistent args s i =
      go (new_pipeline libs config service args.encryption_context)
        (new_pipeline-IsFresh libs config service args.encryption_context)
    where
      answered :
          (p : Pipeline libs config service)
          → IsFresh libs config service p
          → (r : Result String × service.World) → IsConsistent (created libs config service p s r).1
      answered p new (err e, w) = with_uploads s _ i refl i.well_formed
      answered p new (ok id, w) = with_uploads s _ i refl (
          insert-AllWellFormed id p s.uploads (fresh-IsWellFormed libs config service p new)
            i.well_formed)

      go :
          (r : Result (Pipeline libs config service))
          → Makes libs config service r
          → IsConsistent (create_with libs config service args s r).1
      go (err e) made = i
      go (ok p) made = answered p (made p refl) _

  pub upload_part-IsConsistent :
      (args : PartArguments) (s : State libs service)
      → IsConsistent s
      → IsConsistent (upload_part libs config service args s).1
  unfolding upload_part AllWellFormed
  upload_part-IsConsistent args s i = go (lookup args.upload_id s.uploads) refl
    where
      sent :
          (r : Result (Option Bytes) × Pipeline libs config service)
          → IsWellFormed libs.runtime libs.gcm_encryption r.1
          → IsConsistent (sent_part libs config service args s r).1
      sent (err e, p) w =
          with_uploads s _ i refl (insert-AllWellFormed args.upload_id p s.uploads w i.well_formed)
      sent (ok c, p) w =
          with_uploads s _ i refl (insert-AllWellFormed args.upload_id p s.uploads w i.well_formed)

      encrypted :
          (p : Pipeline libs config service) (part : Result PartData)
          → IsWellFormed libs.runtime libs.gcm_encryption p
          → IsConsistent (part_of libs config service args s p part).1
      encrypted p (err e) w = i
      encrypted p (ok part) w =
          sent (encrypt_part libs.runtime libs.gcm_encryption args.part_number part args.is_last p)
            (encrypt_part-IsWellFormed libs.runtime libs.gcm_encryption args.part_number part
              args.is_last p w)

      go :
          (o : Option (Pipeline libs config service))
          → lookup args.upload_id s.uploads ≡ o
          → IsConsistent (part_with libs config service args s o).1
      go none e = i
      go (some p) e =
          encrypted p (part_data libs config service args.body) (i.well_formed args.upload_id p e)

  pub complete-IsConsistent :
      (bucket key id : String) (parts : List (ℕ × String)) (s : State libs service)
      → IsConsistent s
      → IsConsistent (complete_multipart_upload libs config service bucket key id parts s).1
  unfolding complete_multipart_upload AllWellFormed
  complete-IsConsistent bucket key id parts s i = go (lookup id s.uploads)
    where
      answered :
          (r : Result service.Reply × service.World)
          → IsConsistent (completed libs config service id s r).1
      answered (err e, w) = with_uploads s _ i refl i.well_formed
      answered (ok reply, w) =
          with_uploads s _ i refl (erase-AllWellFormed id s.uploads i.well_formed)

      go :
          (o : Option (Pipeline libs config service))
          → IsConsistent (complete_with libs config service bucket key id parts s o).1
      go none = i
      go (some p) = elim (Bool-cases p.has_final_part_been_seen) [
        | inl final ↦ rw final (answered _)
        | inr unfinished ↦ rw unfinished i
      ]

  pub abort-IsConsistent :
      (bucket key id : String) (s : State libs service)
      → IsConsistent s
      → IsConsistent (abort_multipart_upload libs config service bucket key id s).1
  unfolding abort_multipart_upload AllWellFormed
  abort-IsConsistent bucket key id s i =
      with_uploads s _ i refl (erase-AllWellFormed id s.uploads i.well_formed)

  pub delete_object-IsConsistent :
      (bucket key : String) (suffix : Option (Option String)) (s : State libs service)
      → IsConsistent s
      → IsConsistent (delete_object libs config service bucket key suffix s).1
  unfolding delete_object AllWellFormed
  delete_object-IsConsistent bucket key suffix s i = with_uploads s _ i refl i.well_formed

  pub delete_objects-IsConsistent :
      (bucket : String) (keys : List String) (suffix : Option (Option String))
      (s : State libs service)
      → IsConsistent s
      → IsConsistent (delete_objects libs config service bucket keys suffix s).1
  unfolding delete_objects AllWellFormed
  delete_objects-IsConsistent bucket keys suffix s i = with_uploads s _ i refl i.well_formed

  pub keeps_IsConsistent : Keeps libs config service IsConsistent
  keeps_IsConsistent = record {
    put = put_object-IsConsistent;
    create = create-IsConsistent;
    part = upload_part-IsConsistent;
    complete = complete-IsConsistent;
    abort = abort-IsConsistent;
  }
