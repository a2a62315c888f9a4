-- ===== src/Lib.antt =====
-- MariaMesh: a library that replicates the tables of a MariaDB database between the nodes of a mesh.
-- Every node keeps a log of change events, numbered per origin (node and incarnation). Nodes exchange
-- the ranges that they lack, apply each event once, resolve conflicts field by field by version, and
-- delete events that every active receiver has.
--
-- The modules and the code that they model:
--
--   Base: Boolean tests, lists over native numbers, association maps, byte strings, results.
--   Clock: the hybrid logical clock, internal/clock/hlc.go (`Compare`, `Tick`, `Update`, `Restore`).
--   A wall-clock reading is an argument; `uint64` arithmetic wraps at 2^64.
--   Conflict: the order on versions, internal/conflict/conflict.go (`Compare`, `Wins`).
--   Changelog: internal/changelog/event.go: events and `Validate`, origin keys and `ParseKey`, vectors,
--   `Missing` and `Min`. Payload has the values and `normalizeValue` of internal/apply/apply.go.
--   Store: internal/store. `Db` is the record of the metadata tables and of the business rows; a table
--   with a key is an association map, and the log a list of rows. LocalState (store.go), Log
--   (`InsertEvent`, `FetchRange`, `DeleteThrough`), Progress (progress.go), Nodes and Bootstrap
--   (nodes.go), Versions (versions.go). `LocalState.allocate` is the statement of the triggers in
--   internal/schema/schema.go that numbers a local write.
--   Apply: internal/apply/apply.go. `apply_batch` is `ApplyBatch`, `apply_row` is `applyRow`; Cells
--   looks at one column of one row.
--   Gc: internal/gc/gc.go: `Watermarks` and `Run`.
--   Protocol: internal/protocol/message.go: frames byte for byte, and envelopes, where the JSON decoder
--   is a parameter.
--   Membership: internal/membership/membership.go: the manager, with its cached epoch; the
--   heartbeats are in Membership/Gossip.
--   Sync: internal/sync: the opening of a session (Sync/Opening), the answer to a Need (`sendRanges`),
--   the loop of `Session` (Sync/Session), the broadcaster, and `HandleBroadcast` (Sync/Broadcasts).
--   Seed: internal/seed. Seed/Digest is `Checksum` (seed.go), as the text that has been summed;
--   Seed/Source is source.go (`Prepare`, `Stream` and its end), Seed/Target is target.go (`Fetch`).
--   Triggers: the triggers that internal/schema/schema.go generates, as functions on the database.
--   Replicator: replication.go: the address book, `Start`, `onDatagram`, `AddNode`, `Join`; the
--   inbound sessions are in Replicator/Inbound and `PendingChanges` in Replicator/Backlog;
--   its other operations and the heartbeat's beat are in Replicator/Upkeep.
--   Config: config.go.
--   Schema: schema.go (`ValidateSchema`, and `TriggerSQL` up to its text).
--   Registry: table.go and identity.go.
--   Examples: concrete inputs.
--
-- How the parts meet: Sync reads the log through `fetch_range` and hands received events to Apply;
-- Apply stores them with `insert_event`, advances the cursors with `advance_contiguous` and advances the
-- clock; Gc reads the cursors and the nodes and deletes with `delete_through`, whose watermark makes
-- `fetch_range` refuse a request for deleted events; Membership writes the nodes that Gc reads.
-- Seed/Source pins a snapshot's vector, which Gc respects, and the target stores it as its cursors. The
-- triggers write the log that Sync serves. The replicator starts and joins a node with all of these.
--
-- Bounds and fuel: the loop of `AdvanceContiguous` runs on fuel; each window moves the cursor, so fuel
-- above the largest stored sequence is enough, and `apply_batch` gives that. The inner loop of
-- `sendRanges` runs on fuel too; each round passes at least one sequence, so the length of the range
-- plus one is enough. All other loops are over lists.
--
-- What is not modelled: a statement or a connection that fails (a function returns the errors that the
-- code makes itself); the collation of text columns (texts are equal when their bytes are); the order
-- that a statement without `ORDER BY` returns; `ToLower` on bytes above ASCII; concurrent calls (each
-- operation is one step, and a transaction is atomic); negative limits, which are 0 here. A float is a
-- sign, a mantissa and a number of halvings. The length of a payload's JSON text is a parameter. The
-- QUIC transport, the replicator's goroutines, the schema's text and the example program are not
-- modelled. What JSON makes of a seed row's value on the wire is a parameter (`transmit` of the
-- driver); identifiers and the other texts are taken as UTF-8, which JSON keeps.
pub mod Base
pub mod Clock
pub mod Conflict
pub mod Changelog
pub mod Store
pub mod Apply
pub mod Gc
pub mod Protocol
pub mod Membership
pub mod Sync
mod Examples
pub mod Seed
pub mod Triggers
pub mod Replicator
pub mod Registry
pub mod Config
pub mod Schema
