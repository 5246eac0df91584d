-- ===== src/Lib.antt =====
-- A model of dynamic-config-remote: the stores that fetch a configuration document from a remote
-- system, the machinery that they share, and the config server with its client.
--
-- A store answers `fetch` with one document, folded from the keys that it read, under a credential
-- that is obtained when needed, within a ceiling on its requests, and reports a URL without what
-- is secret in it.
--
-- Files, and the code that they are about:
--   Common: the shared helpers. A text is the list of its Unicode scalar values; `Result` is Rust's.
--   Engine: what is used of the crate dynamic-config, which is not in this repository, as records
--     of operations and laws that the definitions take as parameters; Engine/Sample is an instance.
--   Store/Concurrency: dynamic-config-store-core/src/concurrency.rs, `StoreRuntimePolicy`, as
--     interleavings of atomic accesses.
--   Store/Credential: dynamic-config-store-core/src/credential.rs, `Cached::get`, on two readings of
--     the clock.
--   Store/Documents: dynamic-config-store-core/src/documents.rs, `merged`, `agreed_format`, the
--     report of a collision and the limits on a list of keys.
--   Store/Transform: dynamic-config-store-core/src/transform.rs, documents rewritten on the way.
--   Store/Redaction: dynamic-config-store-core/src/lib.rs, `redacted` and `redacted_list`.
--   Store/Attempts: dynamic-config-store-core/src/attempts.rs and `guarded` of lib.rs: what a watch
--     has delivered and reported, as a trace that its steps extend.
--   Store/Tls: dynamic-config-store-core/src/tls.rs, the TLS settings of a caller.
--   Json: what is used of the crate serde_json.
--   Redis: dynamic-config-redis/src/lib.rs: the scan for the keys of a prefix, the reads on the kept
--     connection, and in Redis/Watch the notifications that a watch follows.
--   Consul: dynamic-config-consul/src/lib.rs and auth.rs: Consul/Session is the login and the retry,
--     Consul/Entries what an answer holds, Consul/Watch the blocking queries.
--   Etcd: dynamic-config-etcd/src/lib.rs: Etcd/Reads is the reads and the replacement of a token,
--     Etcd/Watch the stream.
--   S3: dynamic-config-s3/src/lib.rs: S3/Reads is the listing and the objects, S3/Watch follows a tag.
--   Nats: dynamic-config-nats/src/lib.rs: the reads; Nats/Watch the entries, Nats/Tls the settings that
--     can be expressed.
--   Firestore: dynamic-config-firestore/src: Firestore/Values is value.rs, Firestore/Session auth.rs
--     and the requests, Firestore/Documents a batch, Firestore/Watch the poll.
--   Server/Auth: dynamic-config-server/src/auth.rs, who a caller is and what it may read.
--   Server/Names: dynamic-config-server/src/routes/names.rs, what names a section in a path.
--   Server/Config: dynamic-config-server/src/config, a configuration and what it is refused for.
--   Server/Audit: dynamic-config-server/src/audit.rs, the line of a request.
--   Server/Document: dynamic-config-server/src/document.rs, the paths of the leaves of a document.
--   Server/Live: dynamic-config-server/src/server.rs, the sections and the ceiling on streams.
--   Server/Start: dynamic-config-server/src/server.rs, from a configuration to a server.
--   Server/Generations: dynamic-config-server/src/routes/stream.rs, the events of a connection.
--   Server/Routes: dynamic-config-server/src/routes, admission and the handlers.
--   Server/Kubernetes: dynamic-config-server/src/kubernetes.rs, verdicts on service accounts.
--   Server/Client: dynamic-config-server/src/client, where a server is and how it is followed.
--   Vault: dynamic-config-vault/src/auth.rs, `Auth` and `Session::token`; of lib.rs, Vault/Secrets is
--     what an answer holds, Vault/Requests the login and a renewal, Vault/Reads the reads and the
--     leases, Vault/Watch the version counter; Vault/Transit is transit.rs.
--
-- The stores share a shape: a source record, `describe` and `settled_format`, reads that answer a
-- `Result`, and a watch that is a fold of rounds over a trace. What a server or a client library
-- answers is an argument of each, a round of a watch is what it meets, and the list of the rounds ends
-- where the watch is stopped. The keys of a source are folded by Store/Documents, the tokens of Consul,
-- Vault and Firestore are Store/Credential's, the permits of Vault Store/Concurrency's, and every
-- delivery and report goes through Store/Attempts.
--
-- Bounds: a counter in flight is a `usize` of 64 bits, and its wrap-around is written out. An
-- `Instant` is a number of nanoseconds with a largest representable value. The digits of a number in
-- a message are printed with fuel one more than the number, which falls in every round. A scan of
-- Redis has the 1000 rounds of the code and a listing of S3 its 32 pages, behind which the code itself
-- refuses; the search of a document for ciphertexts has one more than its length, and what it looks at
-- gets shorter in every round.
--
-- Not modelled: the network clients of the stores and how they are built, TLS handshakes, the pauses
-- between two rounds of a watch, the file system, the JSON parser and the loading of a section, which
-- are other programs' or input and output; the git store, and what the client of the server parses of
-- an answer. A handler reads a section at
-- moments that it is given, and a connection of a client brings a list of arrivals; a list that has run
-- out is a connection on which nothing more arrives. The digits of a number are parsed into a type of a
-- given size, and what does not fit is refused.
pub mod Common
pub mod Engine
pub mod Json
pub mod Store
pub mod Redis
pub mod Consul
pub mod Etcd
pub mod S3
pub mod Nats
pub mod Firestore
pub mod Vault
pub mod Server
