-- ===== src/Lib.antt =====
-- fido_key_wrap: a root key of 32 bytes is wrapped for one or more recipients (a passphrase, a
-- recovery secret, a security key, a security key with a passphrase, a security key with a local
-- secret), and the wrapped forms are kept in one authenticated envelope. The development follows
-- the core library, crates/fido-key-wrap/src, the ceremonies with authenticators,
-- crates/fido-key-wrap-libfido2/src, and the container of the command-line tool, crates/fkw-tool/src.
--
-- Parts and files:
-- - Error, Effect: the error type and `Result` of error.rs; operations that may fail and that change
--   a state. Effect/Frame, Effect/Post and Effect/Stops hold the rules for what an operation leaves
--   alone, what holds when it succeeds, and that it stops before it changes anything.
-- - Policy (with Parameters, Label, Enrollment): policy.rs. Ident (Application, Recipient): id.rs.
--   Config: config.rs. Interaction: the secrets and operations of interaction.rs.
-- - Transcript: transcript.rs, the length-prefixed lists that are hashed and authenticated.
-- - Envelope: envelope.rs. The records and `RecipientRecord`; Encode and Decode for the codec;
--   Recipients for `validate_recipient_set`; Find for the binary search of `KeyEnvelope::find`.
--   WellFormed is the invariant, Sound, RoundTrip, Canonical and Size what the codec promises.
-- - Crypto: crypto.rs. Context for the transcripts and digests that bind a layer to its recipient,
--   Keys for the derived keys, Wrap for the encryption of the root, Mac for the envelope mac.
-- - Protector: protector.rs. Env for its surroundings, Guards for the checks, Fresh for random
--   values and passphrases, Enroll for new recipients, Stage for the verification of a changed
--   envelope, and Unlock, Create, Recipients, Rewrap and Managed for the public operations.
--   Staging, Freshness, Adding, Atomic, Changes, Reached, Removal, Guarded, Admission and
--   Unlocking hold the proofs. Changes has the menu of all changes, Reached the life of an envelope.
-- - Native: crates/fido-key-wrap-libfido2/src. Errors and Action for error.rs and for calls that
--   change the world and may fail; Status and Library for ffi.rs, the codes and the calls of the C
--   library; the rest for native.rs: Request for its types and their checks, Device for devices and
--   what they report, Selection (with Touch) for the choice of an authenticator, Credential and
--   Assertion for the objects that the library fills, Inventory for the enumerated credentials,
--   Authenticator for enrolment and evaluation and its child Managed for stored credentials,
--   Inspection for the report on all devices. Found,
--   Supported, Polling, Timed, Waiting, Lasting, Deciding, Verified, Absent, Tracked and Created
--   hold the proofs.
-- - Backend: `NativeBackend` of crates/fido-key-wrap/src/backend.rs. Prompts for what the application
--   is asked and for the translation of errors, Managed for managed credentials, Environment for its
--   place under the protector, Settings for `NativeBackend::new`. Cleanup, Enrolling, Enrolled,
--   Retired and Selected hold the proofs.
-- - Tool: Container for crates/fkw-tool/src/container.rs, Decoding and Reading for its format and
--   Encryption for its secret.
-- - Tests: concrete codecs, suites, worlds and envelopes, at which the results are applied.
--
-- The protector calls the envelope's codec and search and the cryptographic constructions; the
-- constructions call the transcripts. An operation with `&mut KeyEnvelope` is an `Effect` on the
-- envelope and the world. The world stands for the random source, the application's prompts and the
-- backend of backend.rs: each call of these is a field of `Env`, an arbitrary function of the world.
-- `environment` fills those of the backend with the native one, which calls the prompts and, through
-- `Native`, the C library: each call of that is a field of `Library`, again an arbitrary function of
-- the world. What is said of it is a hypothesis: `IsClock`, that the clock does not run back and that
-- a poll without a touch takes time, and `IsPrompt`, that a poll lasts no longer than it is told to, and
-- each other call no longer than some `slack`.
--
-- Code that is not in the repository is a parameter: `Wire` has the encoder and decoder of minicbor
-- and the point check of p256, `Suite` the functions of sha2, hkdf, hmac, aes-gcm and argon2.
-- `WireLaws` and `SuiteLaws` state what the code relies on: what is written is read back, decoded
-- byte strings are bytes, heads are short; digests have 32 bytes, hkdf and hmac do not fail, and
-- decryption undoes encryption. Nothing is assumed about the strength of a primitive.
--
-- Numbers are natural numbers. `u8`, `u32` and `u64` ranges are hypotheses or tests where the code
-- depends on them; `usize` has 64 bits. The loops of 32 random attempts and the halving of the search
-- recurse on a number of rounds; the search gets as many rounds as there are recipients. The polls for
-- a touch get one round more than the selection timeout has nanoseconds.
--
-- Not modelled: the clearing of secrets from memory and constant-time behaviour; message texts of the
-- core library; closing and freeing of the objects of libfido2, and the loading of that library; the
-- fake backend for tests; the platform stores, the python binding, the storage and the commands of
-- the command-line tool, and the demo.
pub mod Common
pub mod Error
pub mod Policy
pub mod Ident
pub mod Config
pub mod Transcript
pub mod Envelope
pub mod Crypto
pub mod Effect
pub mod Interaction
pub mod Native
pub mod Backend
pub mod Protector
pub mod Tool
pub mod Tests
