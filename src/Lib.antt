-- ===== src/Lib.antt =====
-- The Bloom service runtime: what its services share to start, to keep time and to talk to each
-- other on one machine. The parts, and how they interact:
--
-- * A reading of the platform's clocks becomes an effective time. TrustedTime models
--   crates/bloom-trusted-time/src/lib.rs: Source is `TrustedTimeSource`, Sampler is
--   `PlatformTimeSampler` with `advance_sample_state` and the conversions of both platforms' clocks,
--   Durable is `evaluate_durable_clock` and its helpers. The text of `TrustedTimeError` is left out.
-- * The wire format. RpcWire models crates/bloom-rpc-wire/src: Error is error.rs; Token, Hex and
--   Decimal are ids.rs; Base64, Shape and Frame are codec.rs; Audit is audit.rs; Version and Envelope
--   are envelope.rs, with one definition for each `if` of `SignedEnvelope::verify`. Signature is
--   the check of an ed25519 signature under a pinned key, which audit.rs, envelope.rs and the
--   transport each write out.
-- * Whether packet filtering is in force. PlatformContainment models
--   crates/bloom-platform-containment/src/lib.rs: `NetworkContainmentGuard` and its status file.
-- * The connections. LocalTransport models crates/bloom-triad-local-transport/src/lib.rs: Quota is
--   `EndpointQuota` and `SlidingAdmission`; Identity is the identity file, the edge manifest and their
--   loading; Hello is the handshake of both ends with crates/bloom-rpc-wire/src/hello.rs; Sign is
--   `sign_request`, `sign_response` and their variants, whose envelopes the verifiers of Envelope
--   check at the other end, and `sign_journal_head`, whose heads Audit checks; Stream is `read_frame`
--   and `write_frame` over the halves of a stream; Developer is the checks of the developer mode and
--   `load_developer_identity_and_manifest`.
--   Exchange, Dispatch and Call compose these: Exchange is what a client's call and `receive_request`
--   do on one connection, Dispatch is `dispatch_connection` and its variants with
--   `AuthenticatedRequestContext` and `JournalExchange`, whose requests to the application are a list
--   of events, with Course the courses that a connection can take, and Call is `call` and
--   `call_with_journal_head`.
-- * The audit checkpoints. A service keeps the newest journal head of each peer, one file for a head,
--   in a directory that several processes write. AuditCheckpoint models
--   crates/bloom-audit-checkpoint/src/lib.rs: Record is the record and its file name; Keys is the
--   pinned keys, the handovers and the checks of a head; Chain is `verify_record_chains`; Disk is the
--   directory and the calls of the system; Entries is the store and the checks of one entry; Scan is
--   `scan_records` and what is read; Publish is `prepare_publication`, `publish_prepared` and
--   `finalize_publication`; Store is `append`, `append_diagnosed` and `latest`; Open is
--   `open_with_history`; History is `AuthorityEdgeHistory`. A decision of the dispatcher to handle a
--   request rests on such an append, through `JournalExchange`.
-- * The sockets that systemd hands over. ServiceActivation models
--   crates/bloom-service-activation/src/lib.rs: `NamedActivation`, `linux::load`, `linux::take` and
--   `take_fd`, with the static `ACTIVATION` as the state of the process. Adopted says what is loaded,
--   Exclusive who owns it.
-- * Prelude holds what these share: Boolean tests, lists over native numbers, `Result`, machine
--   integers, maps. FileSystem is the metadata of a file.
--
-- Conventions. A function that can fail returns `Result` with the error's code; the message is text
-- for people. Where the source can panic, by an `expect` on a text that a type has validated, the
-- model has `none` or `panicked`, which is no success. State is passed
-- explicitly: the sampler, a quota and a mutex return their new state. Machine integers are native
-- numbers with the checked, saturating or modular operations of the source written out. Fields
-- that are private in the source, like the text of a token, are plain fields here.
--
-- What the system and other crates answer are parameters. RpcWire.External is ed25519_dalek, sha2,
-- base64 and hex, with the laws IsSigner, IsBase64 and IsHex of their documentation, and
-- External.Sample a concrete instance of it. serde_json and serde_jcs are the records
-- Json, Serde and BodySerde, whose one law, IsSerde, says that a written value reads back. The
-- clocks, files, random challenges, and the reads and writes of a connection are inputs.
-- In AuditCheckpoint an action takes and returns a world: the files, the cache of the store, a
-- counter for temporary names, and a schedule with a turn for each call of the system, which fails or
-- after which other processes change the files. The theorems assume of those processes, where they
-- say so, that they only add files.
--
-- Bounds. `print_digits` runs on fuel: `DecimalU64::new` gives it 20 digits, and every
-- u64 is less than 10 ^ 20. `scan_attempts` runs three rounds, as the loop of the source does. No
-- other definition needs fuel. The sort of the records is an insertion sort: the source's is stable, and
-- for a comparator that is an order any stable sort gives the same list.
--
-- Not modelled: of crates/bloom-service-activation the launchd adapter of macOS and
-- `bind_unix_listener_with_modes`; crates/bloom-service-observability, which sets up third-party
-- crates for tracing; the serde, Display and FromStr instances of the wire types; the events of
-- tracing; the wiping of key material.
pub mod Prelude
pub mod FileSystem
pub mod TrustedTime
pub mod RpcWire
pub mod PlatformContainment
pub mod LocalTransport
pub mod AuditCheckpoint
pub mod ServiceActivation
