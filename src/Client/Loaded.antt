-- ===== src/Client/Loaded.antt =====
-- The loop of `_multipart_upload_from_readable` of __init__.py: what S3 has received at its end.
use mathlib.Core.List.{flatten}
use amazon_s3_encryption_cli.Prelude.{
  ◌≡◌, refl, sym, ap, ◌∙◌, ℕ, zero, suc, ◌+◌, ◌<◌, String, Bytes, List, [], ◌∷◌, ◌++◌, Option, some,
  length, append_assoc, append-nil,
}
use amazon_s3_encryption_cli.Errors.{Result, ok, err}
use amazon_s3_encryption_cli.External.{GcmEncryptionLaws, ByteSource, ByteSourceLaws}
use amazon_s3_encryption_cli.Config.{S3EncryptionClientConfig}
use amazon_s3_encryption_cli.Plugin.{Libraries}
use amazon_s3_encryption_cli.Multipart.Sequence.{encrypt_whole, encrypt_whole-append}
use amazon_s3_encryption_cli.Client.{S3Service, State}
use amazon_s3_encryption_cli.Client.Uploads.{Pipeline, upload_part}
use amazon_s3_encryption_cli.Client.Readable.{
  Destination, part_arguments, Readable, Parts, Round, over, again, after_part, after_chunk,
  upload_round, upload_chunks, read_chunk,
}
use amazon_s3_encryption_cli.Client.Laws.{S3Laws, up_to, part_numbers}
use amazon_s3_encryption_cli.Client.Sending.{
  numbers-next, Sending, SentPart, upload_part-SentPart, SentLast, upload_part-SentLast,
}

flatten_last : (xs : List Bytes) (x : Bytes) → flatten (xs ++ x ∷ []) ≡ flatten xs ++ x
unfolding flatten
flatten_last [] x = append-nil x
flatten_last (y ∷ ys) x = ap (λ z. y ++ z) (flatten_last ys x) ∙ sym (append_assoc y (flatten ys) x)

module _ (libs : Libraries) (config : S3EncryptionClientConfig)
    (service : S3Service libs.source.Body) (s3 : S3Laws service)
    (enc_laws : GcmEncryptionLaws libs.gcm_encryption) (files : ByteSource)
    (file_laws : ByteSourceLaws files) where
  abbrev pub whole : Pipeline libs config service → Bytes → Result Bytes
  whole p text = encrypt_whole libs.runtime libs.gcm_encryption p.encryptor text

  -- S3 has received the parts of a ciphertext, behind what it had, and `parts` lists all of them.
  pub record Loaded (id : String) (ciphertext : Bytes) (parts : List (ℕ × String))
      (s s' : State libs service) : Type 0 where
    pub joined : flatten (s3.received s'.world id) ≡ flatten (s3.received s.world id) ++ ciphertext
    pub numbers : part_numbers parts ≡ up_to (length (s3.received s'.world id))
    pub same_metadata : s3.metadata_of s'.world id ≡ s3.metadata_of s.world id

  whole-append :
      (p q : Pipeline libs config service) (chunk rest x y : Bytes)
      → libs.gcm_encryption.update p.encryptor chunk ≡ ok (x, q.encryptor)
      → whole q rest ≡ ok y
      → whole p (chunk ++ rest) ≡ ok (x ++ y)
  whole-append p q chunk rest x y h k =
      encrypt_whole-append libs.runtime libs.gcm_encryption enc_laws p.encryptor chunk rest
      ∙ rw (h, k) refl

  last_chunk :
      (id : String) (n : ℕ) (chunk : Bytes) (parts : List (ℕ × String)) (etag : String)
      (p : Pipeline libs config service) (s s' : State libs service)
      → part_numbers parts ≡ up_to n
      → SentLast libs config service s3 id n chunk p s s'
      → (ciphertext : Bytes) × (whole p chunk ≡ ok ciphertext)
        × Loaded id ciphertext (parts ++ (n + 1, etag) ∷ []) s s'
  last_chunk id n chunk parts etag p s s' numbers sent = (
    sent.body,
    sent.encrypts,
    record {
      joined = ap flatten sent.received.one_more ∙ flatten_last (s3.received s.world id) sent.body;
      numbers =
          numbers-next libs config service s3 n parts etag numbers ∙ ap up_to (sym sent.count);
      same_metadata = sent.received.same_metadata;
    },
  )

  more_chunks :
      (id : String) (n : ℕ) (chunk rest : Bytes) (listed parts : List (ℕ × String))
      (p : Pipeline libs config service) (s s' s'' : State libs service)
      → (sent : SentPart libs config service s3 id n chunk listed p s s')
      → ((ciphertext : Bytes) × (whole sent.after rest ≡ ok ciphertext)
          × Loaded id ciphertext parts s' s'')
      → (ciphertext : Bytes) × (whole p (chunk ++ rest) ≡ ok ciphertext)
        × Loaded id ciphertext parts s s''
  more_chunks id n chunk rest listed parts p s s' s'' sent (later, encrypts, loaded) = (
    sent.body ++ later,
    whole-append p sent.after chunk rest sent.body later sent.encrypts encrypts,
    record {
      joined =
          loaded.joined
          ∙ ap (λ z. flatten z ++ later) sent.received.one_more
          ∙ ap (λ z. z ++ later) (flatten_last (s3.received s.world id) sent.body)
          ∙ append_assoc (flatten (s3.received s.world id)) sent.body later;
      numbers = loaded.numbers;
      same_metadata = loaded.same_metadata ∙ sent.received.same_metadata;
    },
  )

  abbrev pub File : Type 0
  File = Readable files.Body

  -- What the loop has done if it ends without an error.
  abbrev pub Uploads :
      String
      → Bytes
      → Pipeline libs config service
      → File
      → State libs service
      → List (ℕ × String)
      → State libs service
      → Type 0
  Uploads id chunk p f s parts s' =
      (ciphertext : Bytes) × (whole p (chunk ++ file_laws.left f.handle) ≡ ok ciphertext)
      × Loaded id ciphertext parts s s'

  pub upload_chunks-nil :
      (fuel : ℕ) (d : Destination) (id : String) (size n : ℕ) (parts listed : List (ℕ × String))
      (f f' : File) (s s' : State libs service)
      → upload_chunks libs config service files fuel d id size [] n listed f s
        ≡ some (ok parts, f', s')
      → (listed ≡ parts) × (s ≡ s')
  unfolding upload_chunks upload_round
  upload_chunks-nil zero d id size n parts listed f f' s s' h = absurd (cc)
  upload_chunks-nil (suc fuel) d id size n parts listed f f' s s' h = (cc, cc)

  pub upload_chunks-Uploads :
      (fuel : ℕ) (d : Destination) (id : String) (size : ℕ) (c : ℕ) (cs : Bytes) (n : ℕ)
      (listed parts : List (ℕ × String)) (p : Pipeline libs config service) (f f' : File)
      (s s' : State libs service)
      → 0 < size
      → Sending libs config service s3 id n listed p s
      → upload_chunks libs config service files fuel d id size (c ∷ cs) n listed f s
        ≡ some (ok parts, f', s')
      → Uploads id (c ∷ cs) p f s parts s'
  unfolding upload_chunks upload_round
  upload_chunks-Uploads zero d id size c cs n listed parts p f f' s s' pos sending h = absurd (cc)
  upload_chunks-Uploads (suc fuel) d id size c cs n listed parts p f f' s s' pos sending h =
      read_ahead (read_chunk libs config service files size f) refl h (λ y ys more q g t.
        upload_chunks-Uploads fuel d id size y ys (n + 1) more parts q g f' t s' pos)
    where
      Later : Type 0
      Later =
          (y : ℕ) (ys : Bytes) (more : List (ℕ × String)) (q : Pipeline libs config service)
          (g : File) (t : State libs service)
          → Sending libs config service s3 id (n + 1) more q t
          → upload_chunks libs config service files fuel d id size (y ∷ ys) (n + 1) more g t
            ≡ some (ok parts, f', s')
          → Uploads id (y ∷ ys) q g t parts s'

      continued : Round libs config service files → Option (Parts libs config service files)
      continued r = elim r as (λ _. Option (Parts libs config service files)) [
        | over q ↦ some q
        | again next more g t ↦
            upload_chunks libs config service files fuel d id size next (n + 1) more g t
      ]

      sent :
          (next : Bytes) (g : File) (r : Result String × State libs service)
          → files.read f.handle size ≡ (ok next, g.handle)
          → upload_part libs config service (part_arguments d id (n + 1) (c ∷ cs) next) s ≡ r
          → continued (after_part libs config service files next (n + 1) listed g r)
            ≡ some (ok parts, f', s')
          → Later
          → Uploads id (c ∷ cs) p f s parts s'
      sent next g (err e, t) read made k later = absurd (cc)
      sent [] g (ok etag, t) read made k later =
          let (same, done) =
            upload_chunks-nil fuel d id size (n + 1) parts (listed ++ (n + 1, etag) ∷ []) g f' t s'
              k in
          let ended : file_laws.left f.handle ≡ [] =
            file_laws.read-nil f.handle size g.handle pos read in
          rw (ended, append-nil, sym same, sym done)
            (last_chunk id n (c ∷ cs) listed etag p s t sending.numbers (
              upload_part-SentLast libs config service s3 d id n (c ∷ cs) listed p s t etag sending
                made))
      sent (y ∷ ys) g (ok etag, t) read made k later =
          let part =
            upload_part-SentPart libs config service s3 d id n (c ∷ cs) y ys listed p s t etag
              sending made in
          let ahead : file_laws.left f.handle ≡ (y ∷ ys) ++ file_laws.left g.handle =
            file_laws.read-left f.handle size (y ∷ ys) g.handle read in
          rw ahead (
            more_chunks id n (c ∷ cs) ((y ∷ ys) ++ file_laws.left g.handle) _ parts p s t s' part
              (later y ys (listed ++ (n + 1, etag) ∷ []) part.after g t part.sending k))

      read_ahead :
          (r : Result Bytes × File)
          → read_chunk libs config service files size f ≡ r
          → continued (after_chunk libs config service files d id (c ∷ cs) (n + 1) listed s r)
            ≡ some (ok parts, f', s')
          → Later
          → Uploads id (c ∷ cs) p f s parts s'
      read_ahead (err e, g) e' k later = absurd (cc)
      read_ahead (ok next, g) e' k later =
          sent next g
            (upload_part libs config service (part_arguments d id (n + 1) (c ∷ cs) next) s)
            (ap (λ r. (r.0, r.1.handle)) e') refl k later
