-- ===== src/Client/Sending.antt =====
-- One part of `_multipart_upload_from_readable`: what S3 has received once it was sent.
use amazon_s3_encryption_cli.Prelude.{
  ◌≡◌, refl, sym, ap, ◌∙◌, true, false, ℕ, suc, ◌+◌, String, Bytes, lookup, insert, lookup-insert,
  List, [], ◌∷◌, ◌++◌, some, length, length-append, is_empty, arith, eq_refl,
}
use mathlib.Core.List.{map-append}
use amazon_s3_encryption_cli.Errors.{Result, ok, err}
use amazon_s3_encryption_cli.Config.{S3EncryptionClientConfig}
use amazon_s3_encryption_cli.Plugin.{Libraries}
use amazon_s3_encryption_cli.Multipart.{bytes, finish, after_encrypt}
use amazon_s3_encryption_cli.Multipart.Sequence.{Expects, encrypt_whole, encrypt_part-expected}
use amazon_s3_encryption_cli.Client.{S3Service, State}
use amazon_s3_encryption_cli.Client.Uploads.{Pipeline, upload_part, sent_part}
use amazon_s3_encryption_cli.Client.Readable.{Destination, part_arguments}
use amazon_s3_encryption_cli.Client.Laws.{S3Laws, up_to, part_numbers}

module _ (libs : Libraries) (config : S3EncryptionClientConfig)
    (service : S3Service libs.source.Body) (s3 : S3Laws service) where
  -- An upload of which `n` parts were sent, the ones that `parts` lists.
  pub record Sending (id : String) (n : ℕ) (parts : List (ℕ × String))
      (p : Pipeline libs config service) (s : State libs service) : Type 0 where
    pub known : lookup id s.uploads ≡ some p
    pub expects : Expects libs.runtime libs.gcm_encryption (n + 1) p
    pub count : length (s3.received s.world id) ≡ n
    pub numbers : part_numbers parts ≡ up_to n

  -- S3 has received one more part.
  pub record Received (id : String) (body : Bytes) (s s' : State libs service) : Type 0 where
    pub one_more : s3.received s'.world id ≡ s3.received s.world id ++ body ∷ []
    pub same_metadata : s3.metadata_of s'.world id ≡ s3.metadata_of s.world id

  pub Received-count :
      (id : String) (body : Bytes) (s s' : State libs service) (n : ℕ)
      → Received id body s s'
      → length (s3.received s.world id) ≡ n
      → length (s3.received s'.world id) ≡ n + 1
  Received-count id body s s' n r h =
      rw r.one_more (omega (arith, length-append (s3.received s.world id) (body ∷ []), h))

  pub numbers-next :
      (n : ℕ) (parts : List (ℕ × String)) (etag : String)
      → part_numbers parts ≡ up_to n
      → part_numbers (parts ++ (n + 1, etag) ∷ []) ≡ up_to (n + 1)
  unfolding up_to
  numbers-next n parts etag h =
      let number : suc n ≡ n + 1 = omega arith in
      map-append (λ part. part.0) parts ((n + 1, etag) ∷ [])
      ∙ ap (λ ns. ns ++ ((n + 1) ∷ [])) h
      ∙ ap (λ k. up_to n ++ (k ∷ [])) (sym number)
      ∙ ap up_to number

  delivered :
      (d : Destination) (id : String) (n : ℕ) (chunk next body : Bytes)
      (p : Pipeline libs config service) (s s' : State libs service) (etag : String)
      → length (s3.received s.world id) ≡ n
      → sent_part libs config service (part_arguments d id (n + 1) chunk next) s (ok (some body), p)
        ≡ (ok etag, s')
      → (lookup id s'.uploads ≡ some p) × Received id body s s'
  delivered d id n chunk next body p s s' etag count h =
      go (service.upload_part d.bucket d.key id (n + 1) (some body) s.world) refl h
    where
      go :
          (r : Result String × service.World)
          → service.upload_part d.bucket d.key id (n + 1) (some body) s.world ≡ r
          → ◌≡◌ {A = Result String × State libs service}
              (r.0, record s { uploads = insert id p s.uploads; world = r.1 })
              (ok etag, s')
          → (lookup id s'.uploads ≡ some p) × Received id body s s'
      go (r, w) e k =
          let (returned, uploads, world) : (r ≡ ok etag)
              × (insert id p s.uploads ≡ s'.uploads)
              × (w ≡ s'.world) =
            (cc, cc, cc) in
          let sent : service.upload_part d.bucket d.key id (n + 1) (some body) s.world
              ≡ (ok etag, w) =
            e ∙ ap (λ q. (q, w)) returned in
          let (more, same) =
            s3.part-received d.bucket d.key id (n + 1) body s.world w etag (omega (arith, count))
              sent in
          (
            rw (sym uploads) (lookup-insert id id p s.uploads ∙ rw (eq_refl id)),
            rw (sym world) (record { one_more = more; same_metadata = same }),
          )

  -- The call of `upload_part` for the part that the upload expects.
  expected :
      (d : Destination) (id : String) (n : ℕ) (chunk next : Bytes) (parts : List (ℕ × String))
      (p : Pipeline libs config service) (s : State libs service)
      → Sending id n parts p s
      → upload_part libs config service (part_arguments d id (n + 1) chunk next) s
        ≡ sent_part libs config service (part_arguments d id (n + 1) chunk next) s (
            after_encrypt libs.runtime libs.gcm_encryption
              (n + 1)
              (is_empty next)
              (record p { next_part = p.next_part + 1 })
              (libs.gcm_encryption.update p.encryptor chunk))
  unfolding upload_part
  expected d id n chunk next parts p s sending = rw sending.known (
      ap (sent_part libs config service (part_arguments d id (n + 1) chunk next) s) (
        encrypt_part-expected libs.runtime libs.gcm_encryption (n + 1) (bytes chunk) (is_empty next)
          p sending.expects))

  -- A part that is not the last one was encrypted and sent, and the next one is expected.
  pub record SentPart (id : String) (n : ℕ) (chunk : Bytes) (parts : List (ℕ × String))
      (p : Pipeline libs config service) (s s' : State libs service) : Type 0 where
    pub body : Bytes
    pub after : Pipeline libs config service
    pub encrypts : libs.gcm_encryption.update p.encryptor chunk ≡ ok (body, after.encryptor)
    pub sending : Sending id (n + 1) parts after s'
    pub received : Received id body s s'

  pub upload_part-SentPart :
      (d : Destination) (id : String) (n : ℕ) (chunk : Bytes) (y : ℕ) (ys : Bytes)
      (parts : List (ℕ × String)) (p : Pipeline libs config service) (s s' : State libs service)
      (etag : String)
      → Sending id n parts p s
      → upload_part libs config service (part_arguments d id (n + 1) chunk (y ∷ ys)) s
        ≡ (ok etag, s')
      → SentPart id n chunk (parts ++ (n + 1, etag) ∷ []) p s s'
  upload_part-SentPart d id n chunk y ys parts p s s' etag sending h =
      go (libs.gcm_encryption.update p.encryptor chunk) refl
        (sym (expected d id n chunk (y ∷ ys) parts p s sending) ∙ h)
    where
      go :
          (r : Result (Bytes × libs.gcm_encryption.Context))
          → libs.gcm_encryption.update p.encryptor chunk ≡ r
          → sent_part libs config service (part_arguments d id (n + 1) chunk (y ∷ ys)) s (
              after_encrypt libs.runtime libs.gcm_encryption
                (n + 1)
                false
                (record p { next_part = p.next_part + 1 })
                r)
            ≡ (ok etag, s')
          → SentPart id n chunk (parts ++ (n + 1, etag) ∷ []) p s s'
      go (err e) k bad = absurd (cc)
      go (ok (x, c)) k sent =
          let (found, got) = delivered d id n chunk (y ∷ ys) x _ s s' etag sending.count sent in
          record {
            body = x;
            after = _;
            encrypts = k;
            sending = record {
              known = found;
              expects = record {
                next = omega (arith, sending.expects.next);
                new = omega arith;
                open_upload = sending.expects.open_upload;
              };
              count = Received-count id x s s' n got sending.count;
              numbers = numbers-next n parts etag sending.numbers;
            };
            received = got;
          }

  -- The last part was encrypted with the tag behind it, and sent.
  pub record SentLast (id : String) (n : ℕ) (chunk : Bytes) (p : Pipeline libs config service)
      (s s' : State libs service) : Type 0 where
    pub body : Bytes
    pub encrypts : encrypt_whole libs.runtime libs.gcm_encryption p.encryptor chunk ≡ ok body
    pub count : length (s3.received s'.world id) ≡ n + 1
    pub received : Received id body s s'

  pub upload_part-SentLast :
      (d : Destination) (id : String) (n : ℕ) (chunk : Bytes) (parts : List (ℕ × String))
      (p : Pipeline libs config service) (s s' : State libs service) (etag : String)
      → Sending id n parts p s
      → upload_part libs config service (part_arguments d id (n + 1) chunk []) s ≡ (ok etag, s')
      → SentLast id n chunk p s s'
  unfolding encrypt_whole
  upload_part-SentLast d id n chunk parts p s s' etag sending h =
      go (libs.gcm_encryption.update p.encryptor chunk) refl
        (sym (expected d id n chunk [] parts p s sending) ∙ h)
    where
      finished :
          (x : Bytes) (c : libs.gcm_encryption.Context) (q : Pipeline libs config service)
          (r : Result libs.gcm_encryption.Context)
          → libs.gcm_encryption.update p.encryptor chunk ≡ ok (x, c)
          → libs.gcm_encryption.finalize c ≡ r
          → sent_part libs config service
              (part_arguments d id (n + 1) chunk [])
              s
              (finish libs.runtime libs.gcm_encryption (n + 1) x q r)
            ≡ (ok etag, s')
          → SentLast id n chunk p s s'
      finished x c q (err e) k l bad = absurd (cc)
      finished x c q (ok f) k l sent =
          let (found, got) =
            delivered d id n chunk [] (x ++ libs.gcm_encryption.tag f) _ s s' etag sending.count
              sent in
          record {
            body = x ++ libs.gcm_encryption.tag f;
            encrypts = rw (k, l) refl;
            count = Received-count id _ s s' n got sending.count;
            received = got;
          }

      go :
          (r : Result (Bytes × libs.gcm_encryption.Context))
          → libs.gcm_encryption.update p.encryptor chunk ≡ r
          → sent_part libs config service (part_arguments d id (n + 1) chunk []) s (
              after_encrypt libs.runtime libs.gcm_encryption
                (n + 1)
                true
                (record p { next_part = p.next_part + 1 })
                r)
            ≡ (ok etag, s')
          → SentLast id n chunk p s s'
      go (err e) k bad = absurd (cc)
      go (ok (x, c)) k sent = finished x c _ (libs.gcm_encryption.finalize c) k refl sent
