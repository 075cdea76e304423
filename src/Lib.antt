-- ===== src/Lib.antt =====
-- The Amazon S3 Encryption Client for Python: what src/s3_encryption does with keys, metadata and
-- content, as executable definitions, and the theorems that make it correct.
--
-- The parts of the program, in the order in which an object passes through them:
--   - An algorithm suite (`Suite`, of materials/materials.py) fixes key, IV and tag lengths.
--     `Errors` has the exceptions of exceptions.py, `Values` the Python values of metadata.
--   - The materials (`Materials`, of materials/materials.py and materials/encrypted_data_key.py) go
--     to a materials manager, which asks a keyring (`Keyring`, of materials/keyring.py,
--     materials/kms_keyring.py and materials/crypto_materials_manager.py): `kms_on_encrypt` makes a
--     data key with KMS and `kms_on_decrypt` unwraps it. Abstract keyrings and managers are the
--     records `Keyring` and `Cmm`; `kms_keyring` and `default_cmm` fill them.
--   - `KeyDerivation` (key_derivation.py) derives the encryption key and the commitment of V3.
--   - `Metadata` (metadata.py) is the dictionary form of what is stored with an object, and the tests
--     for the message formats V1, V2 and V3.
--   - `Put` and `Multipart` (pipelines.py) encrypt an object and a multipart upload.
--   - `InstructionFile` (instruction_file.py, instruction_file_config.py, _utils.py and
--     `process_instruction_file` of __init__.py) reads metadata that stands in an object of its own.
--   - `Get` (`GetEncryptedObjectPipeline` of pipelines.py) resolves the metadata (`Get/Resolve`),
--     unwraps the data key (`Get/Materials`), checks the policies and decrypts (`Get/Content`).
--   - `Decryptor` (decryptor.py, buffered_decrypt.py) and `Stream` (stream.py) decrypt the body, at
--     once or as it is read.
--   - `Plugin` (`S3EncryptionClientPlugin` and `_validate_encryption_context` of __init__.py) has the
--     handlers that boto3 calls before PutObject and after GetObject, with the thread's attributes.
--   - `Client` (`S3EncryptionClient` of __init__.py) has the operations on objects, `Client/Uploads`
--     the multipart calls with the map of uploads, and `Client/Readable` `upload_file` and
--     `upload_fileobj`, which call them. `Client/Laws` says what is assumed of S3; the other files
--     under `Client` are proofs.
-- `RoundTrip` puts `Put` and `Get` together. `Config` is `S3EncryptionClientConfig` of __init__.py.
-- `Tests` runs the model on concrete inputs and applies each theorem. File names are relative to
-- src/s3_encryption.
--
-- State and errors: an operation of a mutable object takes the object and returns a result and the
-- object, also where it raises, since the client keeps using it then. A function that may raise
-- returns a `Result`, whose errors tell apart what a caller or an `except` clause tells apart; a
-- `Reason` stands for one `raise` statement. Bytes are lists of native numbers, a dict is an
-- association list in insertion order, `None` is `none`.
--
-- Libraries: AES-GCM, AES-CBC, HMAC, HKDF, base64, JSON, KMS, S3 bodies and `os.urandom` are
-- parameters (`External`), which a client takes as one record `Libraries`. boto3 and S3 are the
-- record `S3Service`, with a world of its own, and a file system is `FileSystem`. What a theorem
-- assumes of them stands in a record named `...Laws`: a cipher fed in two pieces is fed at once, a
-- body gives its bytes in order, KMS decrypts what it made, S3 answers with what was put and joins
-- the parts of an upload. No secrecy is assumed of them or shown.
--
-- Fuel: `Stream.read` gives its loop one round more than there are bytes left in the content, and
-- `iter_chunks` takes the number of rounds, as do the uploads of files; the theorems on termination
-- show how many suffice. `decimal` has more fuel than its number has digits.
--
-- A call of the client is one step on the state of the thread that makes it, and the lock of
-- `MultipartUploadPipeline` makes each call of `encrypt_part` one. boto3 calls the handlers inside the
-- wrapped `put_object` and `get_object`, and an exception of a handler goes through them. The fetch of
-- an instruction file sets the attributes `instruction_file_mode` and `key` of the thread for its own
-- call of `get_object` and resets the mode after it; the handler for GetObject (`handle_object`) returns
-- the attributes as the fetch has left them, and `get_object` cleans those up. `Get.decrypt` is the
-- pipeline with a fetch that only answers, `Get/Fetching` the same with a fetch that changes a state,
-- and `Get/Fetched` relates the two. The nested call of `get_object` sees the mode
-- on, so that its handler is the one for instruction files (`fetching_client`).
--
-- Not modelled: `__getattr__` of the client, which hands every other operation on to boto3; the
-- arguments and the parts of replies that the client hands on without looking at them; the
-- registration of the handlers; calls of one client from several threads at a time; the text of
-- messages; and type checks of arguments that Python's typing already rules out. Negative sizes are
-- refused as 0 is. The test servers, the examples and the infrastructure are programs over the
-- library.
pub mod Prelude
pub mod Errors
pub mod Values
pub mod External
pub mod Suite
pub mod Metadata
pub mod Materials
pub mod Keyring
pub mod KeyDerivation
pub mod Decryptor
pub mod Stream
pub mod InstructionFile
pub mod Put
pub mod Multipart
pub mod Get
pub mod RoundTrip
pub mod Config
pub mod Plugin
pub mod Client
pub mod Tests
