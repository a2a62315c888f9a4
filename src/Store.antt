-- ===== src/Store.antt =====
-- internal/store: the replication tables in MariaDB, as one record of tables, and the statements
-- that the package runs on them. A keyed table is an association list over its primary key.
-- `replication_meta` holds decimal numbers as text, and is modelled as a map to those numbers.
pub mod Tables
pub mod LocalState
pub mod Log
pub mod Progress
pub mod Nodes
pub mod Versions
pub mod Bootstrap
