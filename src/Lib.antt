-- ===== src/Lib.antt =====
-- Vectis, a key-management and data-protection service: the checks, tables, state machines and
-- byte-level algorithms that the program computes itself.
--
-- The program has a core (src/core), operations that put the core's parts together for a request
-- (src/ops), and front ends (src/io). The permissions decide whether a client may run an
-- operation on a key; an operation checks its fields, finds its profile in a table by name, builds
-- the text that binds the context, and calls the core; every request leaves records in the audit
-- log, and its answer waits for the log's barrier.
--
-- The files and the code:
--   Base, Error          numbers, lists and texts; src/error.rs and `Result`
--   Validation           src/core/validation.rs: characters (Chars), field checks (Fields), and the
--                        binding text (Aad; `build_aad`, `build_validated_aad`, `parse_aad_fields`),
--                        envelopes of three base64 segments (Envelope, Sealed), hosts (Hosts)
--   Crypto               src/core/crypto.rs: hash sizes and `constant_time_eq` (Compare)
--   Keys                 src/ops/keys.rs: `KeyId` (Id), the lifecycle (Lifecycle, Transitions),
--                        `KeysDbState` (State, Store, Refine, Run), `load_keys_from_rows` (Load,
--                        Joins, Loading, Complete), `resolve_keys_input` (Resolve, Policy),
--                        `create_ops_key_record` and `load_ops_key_from_row` (Record, Open, Sealing,
--                        Created, Parts, RoundTrip), `update_key_lifecycle` (Update, Updated)
--   Profiles             the vector with an index by name that every profile state has
--   Masking              src/core/masking.rs: validation of profiles, and `mask`
--   Permissions          src/core/permissions.rs: `validate_permission_clients`,
--                        `authenticate_hash`, `require_permission`
--   Audit                src/core/audit_chain.rs: `write_event` and `append_checkpoint` (Append),
--                        the checks of a record (Shape), `verify_file` and `VerifiedChain`
--                        (Verify, Chain, Tamper), `writer_loop_with_policy` (Writer, Logged,
--                        Durable, Rounds, Confirm)
--   Fpe                  src/core/fpe.rs: alphabets and lengths (Fpe, Alphabet), values and the
--                        transformation (Transform, RoundTrip, Inverse), the domain's size (Domain)
--   TimeAttestation      src/core/time_attestation.rs: `resolve_time_attestation` and
--                        `evaluate_time_attestation` (Accept)
--   Blocking             src/core/blocking.rs: `CryptoLimiter::acquire` and `run`, with the semaphores
--                        (Fair, Views), the tickets (Tickets), the permits (Invariant, Limits) and
--                        the order of the calls that wait (Places, Waiting)
--   Sharing              src/core/sharing.rs: the field of 256 elements (Field, Inverse), `split` and
--                        `combine` (Shares, Split, Checked, Interpolate, Combine), `encode_share`
--                        and `decode_share` (Envelope, Decode)
--   EnvFile              src/core/config_loader/env_file.rs: `parse_protected_env_content` (Lines,
--                        Written, RoundTrip), its two maps as one list of entries
--   Routes               src/core/routes.rs: `validate_routes` and `route_for` (Lookup)
--   Tests                the definitions and the theorems at concrete inputs
--
-- How the code is read. A text is the list of its Unicode scalar values; bytes are numbers below
-- 256. `usize` and `u64` have 64 bits, with the saturation and the checked additions of the source
-- written out. A `HashSet` or `HashMap` is the list of its entries. An error keeps its kind and
-- its constant text; values that a message interpolates are left out. Loops are structural
-- recursion over what they visit, so none needs fuel: the audit writer's loop runs over the rounds
-- in which commands arrive, and a round's environment says what the clock and the sink answer.
-- The tasks that load keys are joined in the order that a schedule of choices gives, one choice for
-- each row, which is as many as the loop joins. Each part of a limiter's call between its
-- accesses of a semaphore is a step, any of which can come next; whether a deadline has passed is
-- an argument of the poll. The numbers that time attestation renders as texts stand as numbers.
-- The failure cells that the audit writer shares with its callers are a store from cell names to
-- the first error; its field `requested` lists the records it was handed.
--
-- Parameters. JSON coding, hashing, hexadecimal coding, UTF-8 checks and signatures of the audit
-- log are the record `Audit.Services`, of which nothing is assumed; the FF1 cipher is the record
-- `Fpe.Cipher`, assumed to keep length and radix and to be undone by its decryption. The reader of
-- `verify_file` is given as the chunks that it returns. The cipher, the hash, key generation, JSON
-- and hexadecimal coding of key records are `Keys.Record.KeyServices` and the base64 engine is
-- `Validation.Envelope.Base64`, assumed to be undone by their inverses, with a 16-byte tag, a
-- 32-byte hash and no separator in encoded text; random nonces and the clock are arguments. A
-- semaphore of tokio is `Blocking.Semaphores`, assumed in `Blocking.Fair` to hand each permit to
-- the call that waits longest, as its documentation says; its identity of a call that waits is a
-- ticket. The parsers of
-- addresses and domain names are `Validation.Hosts.Parsers`, of which nothing is assumed; the
-- codecs, JSON and tags of shares are `Sharing.Envelope.ShareServices`, where each decoding is
-- assumed to undo its encoding. The random generator of a split is an argument, which is asked for a
-- number of bytes at each offset; the access of a byte out of range and a copy between slices of
-- different lengths, which panic, are errors of their own.
--
-- Not modelled: storage, HTTP, the command line, logging and metrics, which are input and output
-- over libraries; the channel and thread set-up of the audit log; signatures, messages and key
-- material, which call Botan; the network queries of the time sources; tokenization, message
-- authentication codes, commitments, indexes, subjects and remote routes; the profile tables of
-- sharing.
pub mod Base
pub mod Error
pub mod Validation
pub mod Crypto
pub mod Profiles
pub mod Keys
pub mod Masking
pub mod Permissions
pub mod Audit
pub mod Fpe
pub mod Tests
pub mod TimeAttestation
pub mod Blocking
pub mod Sharing
pub mod EnvFile
pub mod Routes
