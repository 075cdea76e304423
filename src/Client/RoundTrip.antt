-- ===== src/Client/RoundTrip.antt =====
-- `put_object` and then `get_object` of a client of the default configuration.
use amazon_s3_encryption_cli.Prelude.{
  ◌≡◌, refl, sym, ap, ◌∙◌, Bool, true, false, String, Bytes, Dict, lookup, IsDict, Option, none,
  some,
}
use amazon_s3_encryption_cli.Errors.{
  Error, Reason, Result, ok, err, client_error, raise_if, >>=-eq-ok, ok-injective, put_failed,
  put_in_instruction_file_mode,
}
use amazon_s3_encryption_cli.Values.{Value}
use amazon_s3_encryption_cli.External.{Base64Laws, KmsLaws, GcmDecryptionLaws}
use amazon_s3_encryption_cli.Suite.{alg_aes_256_gcm_hkdf_sha512_commit_key}
use amazon_s3_encryption_cli.Keyring.{KmsKeyring}
use amazon_s3_encryption_cli.Keyring.Wrap.{wrapped_context, IsUnreserved}
use amazon_s3_encryption_cli.Metadata.Agree.{from_dict-Agree, to_dict-IsDict}
use amazon_s3_encryption_cli.InstructionFile.{is_s3ec_key, safe_metadata}
use amazon_s3_encryption_cli.Put.{encrypt, encryption_request}
use amazon_s3_encryption_cli.Get.Resolve.{concat}
use amazon_s3_encryption_cli.Get.Content.{buffered}
use amazon_s3_encryption_cli.RoundTrip.{ReadsBack, AesGcmLaws}
use amazon_s3_encryption_cli.RoundTrip.KcGcm.{put_kc_gcm, encrypt-described}
use amazon_s3_encryption_cli.Plugin.{
  Libraries, ContextArgument, ThreadContext, SerializedPut, decrypted, validate_encryption_context,
  read_body, s3_metadata_prefix, with_metadata_headers, on_put_object_before_call, attribute_or,
}
use amazon_s3_encryption_cli.Plugin.Headers.{or_header, lookup-with_metadata_headers}
use amazon_s3_encryption_cli.Client.{
  S3Service, State, PutArguments, put_object, get_object, wrapped, send, wrapped_put_object,
  Handled,
}
use amazon_s3_encryption_cli.Metadata.{from_dict}
use amazon_s3_encryption_cli.Client.Returned.{get_arguments, config, get_object-encrypted}
use amazon_s3_encryption_cli.Client.Laws.{ObjectLaws, Answers}

wrapped-ok {ℓ} :
    {A : Type ℓ} (reason : Reason) (r : Result A) (a : A) → wrapped reason r ≡ ok a → r ≡ ok a
wrapped-ok reason (err e) a h = absurd (cc)
wrapped-ok reason (ok b) a h = h

raise_if-ok : (b : Bool) (e : Error) (u : Unit {0}) → raise_if b e ≡ ok u → b ≡ false
raise_if-ok false e u h = refl
raise_if-ok true e u h = absurd (cc)

or_header-none : (v : Option Value) → or_header v none ≡ v
or_header-none none = refl
or_header-none (some v) = refl

module _ (libs : Libraries) (service : S3Service libs.source.Body)
    (s3 : ObjectLaws libs.source service) (keyring : KmsKeyring) where
  -- What `put_object` did when it returned.
  record Sent (args : PutArguments) (context : Dict String) (params : SerializedPut)
      (plaintext : Bytes) (s s' : State libs service) : Type 0 where
    encrypted : Bytes
    dict : Dict Value
    no_mode : s'.context.instruction_file_mode ≡ false
    made :
        encrypt libs.base64 libs.json libs.primitives libs.runtime
          (put_kc_gcm keyring)
          plaintext
          (some context)
        ≡ ok (encrypted, dict)
    answers :
        Answers libs.source service args.bucket args.key encrypted
          (with_metadata_headers (safe_metadata params.headers) dict)
          s'.world

  send-ok :
      (args : PutArguments) (w w' : service.World) (r : Result (Bytes × Dict Value))
      (reply : service.Reply)
      → send libs (config libs service keyring) service args w r ≡ (ok reply, w')
      → (sent : Bytes × Dict Value) × (r ≡ ok sent)
        × (service.send_put args sent.0 sent.1 w ≡ (ok reply, w'))
  send-ok args w w' (err e) reply h = absurd (cc)
  send-ok args w w' (ok (body, headers)) reply h = ((body, headers), refl, h)

  -- What the handler of PutObject made of the request.
  handler-made :
      (c : ThreadContext) (context : Dict String) (params : SerializedPut) (plaintext : Bytes)
      (sent : Bytes × Dict Value)
      → c.encryption_context ≡ some (some context)
      → read_body params.body ≡ ok plaintext
      → on_put_object_before_call libs (config libs service keyring) c params ≡ ok sent
      → (c.instruction_file_mode ≡ false)
        × ((made : Bytes × Dict Value) × (encrypt libs.base64 libs.json libs.primitives libs.runtime
                (put_kc_gcm keyring)
                plaintext
                (some context)
              ≡ ok made)
            × (sent ≡ (made.0, with_metadata_headers (safe_metadata params.headers) made.1)))
  unfolding on_put_object_before_call
  handler-made c context params plaintext sent given body h =
      let (u, mode, h₁) =
        >>=-eq-ok (raise_if c.instruction_file_mode (client_error put_in_instruction_file_mode)) _
          h in
      let (text, read, h₂) = >>=-eq-ok (read_body params.body) _ h₁ in
      let same : text ≡ plaintext = ok-injective (sym read ∙ body) in
      let (made, encrypts, h₃) =
        >>=-eq-ok
          (encrypt libs.base64 libs.json libs.primitives libs.runtime (put_kc_gcm keyring) text
            (attribute_or none c.encryption_context))
          _ h₂ in
      (
        raise_if-ok c.instruction_file_mode _ u mode,
        (made, rw (same, given) at encrypts, sym (ok-injective h₃)),
      )

  put_object-Sent :
      (args : PutArguments) (argument : ContextArgument) (context : Dict String)
      (params : SerializedPut) (plaintext : Bytes) (s s' : State libs service)
      (reply : service.Reply)
      → validate_encryption_context argument ≡ ok (some context)
      → service.serialize args ≡ ok params
      → read_body params.body ≡ ok plaintext
      → put_object libs (config libs service keyring) service args argument s ≡ (ok reply, s')
      → Sent args context params plaintext s s'
  unfolding put_object wrapped_put_object
  put_object-Sent args argument context params plaintext s s' reply valid serialized body h =
      answered
        (send libs (config libs service keyring) service args s.world
          (on_put_object_before_call libs (config libs service keyring) c params))
        refl (rw (valid, serialized) at h)
    where
      c : ThreadContext
      c = record s.context { encryption_context = some (some context) }

      answered :
          (r : Result service.Reply × service.World)
          → send libs
              (config libs service keyring)
              service
              args
              s.world
              (on_put_object_before_call libs (config libs service keyring) c params)
            ≡ r
          → ◌≡◌ {A = Result service.Reply × State libs service}
              (
                wrapped put_failed r.0,
                record s { context = record c { encryption_context = none }; world = r.1 },
              )
              (ok reply, s')
          → Sent args context params plaintext s s'
      answered (r, w) e k =
          let (returned, left) : (wrapped put_failed r ≡ ok reply)
              × (record s { context = record c { encryption_context = none }; world = w } ≡ s') =
            (cc, cc) in
          let whole = wrapped-ok put_failed r reply returned in
          let (sent, handled, stored) =
            send-ok args s.world w
              (on_put_object_before_call libs (config libs service keyring) c params) reply
              (e ∙ ap (λ q. (q, w)) whole) in
          let (mode, (made, encrypts, built)) =
            handler-made c context params plaintext sent refl body handled in
          rw (sym left) (record {
            encrypted = made.0;
            dict = made.1;
            no_mode = mode;
            made = encrypts;
            answers = s3.put-Answers args made.0 _ s.world w reply (rw built at stored);
          })

  -- The metadata of the answer reads as what was written.
  read_back :
      (args : PutArguments) (context : Dict String) (params : SerializedPut) (plaintext : Bytes)
      (s s' : State libs service)
      → (sent : Sent args context params plaintext s s')
      → ((k : String)
          → is_s3ec_key k ≡ true
          → lookup (concat s3_metadata_prefix k) (safe_metadata params.headers) ≡ none)
      → from_dict libs.json sent.answers.metadata ≡ from_dict libs.json sent.dict
  read_back args context params plaintext s s' sent free =
      let (m, described) =
        encrypt-described libs.base64 libs.json libs.primitives libs.runtime keyring context
          plaintext sent.encrypted sent.dict sent.made in
      let once : IsDict sent.dict = rw described (to_dict-IsDict libs.json m) in
      from_dict-Agree libs.json sent.answers.metadata sent.dict (λ k known.
        sent.answers.fields k known
        ∙ lookup-with_metadata_headers k (safe_metadata params.headers) sent.dict once
        ∙ ap (or_header (lookup k sent.dict)) (free k known)
        ∙ or_header-none (lookup k sent.dict))

  -- A client of the default configuration over a KMS keyring: once `put_object` has returned, a
  -- `get_object` of the same bucket and key, with the same encryption context and any suffix, in
  -- this state returns, and the body of its response is the plaintext that boto3 took from the
  -- arguments of `put_object`, verified. The context has neither of the reserved keys and its JSON
  -- reads back, the caller's own metadata has none of the client's keys, S3 answers with what was
  -- put last, and the libraries do what their laws say.
  pub get_object-put_object :
      (args : PutArguments) (argument : ContextArgument) (context : Dict String)
      (params : SerializedPut) (plaintext : Bytes) (suffix : Option (Option String))
      (s s' : State libs service) (reply : service.Reply)
      → Base64Laws libs.base64
      → ReadsBack libs.json
          (wrapped_context (encryption_request alg_aes_256_gcm_hkdf_sha512_commit_key context))
      → KmsLaws keyring.kms_client
      → GcmDecryptionLaws libs.gcm_decryption
      → AesGcmLaws libs.primitives libs.gcm_decryption
      → IsUnreserved context
      → validate_encryption_context argument ≡ ok (some context)
      → service.serialize args ≡ ok params
      → read_body params.body ≡ ok plaintext
      → ((k : String)
          → is_s3ec_key k ≡ true
          → lookup (concat s3_metadata_prefix k) (safe_metadata params.headers) ≡ none)
      → put_object libs (config libs service keyring) service args argument s ≡ (ok reply, s')
      → (r : Handled libs (config libs service keyring) service) × ((get_object libs
            (config libs service keyring)
            service
            (get_arguments args.bucket args.key argument suffix)
            s').0
          ≡ ok r)
        × (r.body ≡ some (decrypted (buffered plaintext)))
  get_object-put_object args argument context params plaintext suffix s s' reply names texts kms
        cipher aes unreserved valid serialized body free h =
      let sent =
        put_object-Sent args argument context params plaintext s s' reply valid serialized body h in
      get_object-encrypted libs service keyring args.bucket args.key argument context plaintext
        sent.encrypted sent.dict sent.answers.body sent.answers.metadata sent.answers.content_length
        suffix s' names texts kms cipher aes unreserved valid sent.answers.answer
        sent.answers.read_whole (read_back args context params plaintext s s' sent free)
        sent.no_mode sent.made
