-- ===== src/Examples/Replicas.antt =====
-- Inputs for the replicator and for the table registry.
use mariamesh.Base.{
  ℕ, ite, not, ◌&&◌, ◌≡◌, refl, arith, true, false, List, [], ◌∷◌, Str, bytes, none, some, ok, err,
  Str-discrete, ℕ_discrete, to_lower, trim_space, trim_left, trim_right, lookup, map,
}
use mariamesh.Changelog.{is_empty}
use mariamesh.Changelog.Vector.{contains}
use mariamesh.Config.{pos, negsuc, Config, IsReady, set_defaults, set_defaults-IsReady}
use mariamesh.Examples.{a1, empty_db}
use mariamesh.Membership.{State, self_status}
use mariamesh.Protocol.{Envelope, Heartbeat, decode}
use mariamesh.Registry.{
  Column, Table, validate_table, validate_columns, contains_forbidden, replicated_columns,
  id_column_of, name_column_of,
}
use mariamesh.Registry.Columns.{IsDistinct, declared, replicated_columns_lem}
use mariamesh.Replicator.{
  Replicator, add_peer, remove_peer, node_id_for_addr, read_heartbeat, on_datagram, start,
  require_started, already_started,
}
use mariamesh.Replicator.Lifecycle.{start_failed, start_first}
use mariamesh.Replicator.Peers.{
  stranger, on_datagrams, on_datagrams_keeps, on_datagram_bound, remove_peer-add_peer,
}
use mariamesh.Store.LocalState.{ensure_local_state}
use mariamesh.Store.Tables.{Db, active, identity_mismatch}

abbrev members_of : Db → State
members_of db = record {
  manager = record {
    namespace = bytes "ns";
    node_id = bytes "a";
    incarnation_id = bytes "1";
    name = bytes "n";
    schema_version = 1;
    addr = bytes "h";
    epoch = 0;
  };
  db = db;
}

abbrev new_replicator : Db → Replicator
new_replicator db = record {
  self = a1;
  started = false;
  closed = false;
  peers = [];
  by_addr = [];
  needs_seed = [];
  watermarks = [];
  clock = record { physical = 0; logical = 0 };
  members = members_of db;
}

-- The node `b` is known, and the frame `f` claims another address for it.
abbrev with_peer : Replicator
with_peer = record (new_replicator empty_db) {
  peers = (bytes "b", record { node_id = bytes "b"; addr = bytes "x" }) ∷ [];
  by_addr = (bytes "x", bytes "b") ∷ [];
}

abbrev envelope : Envelope
envelope = record { v = 1; namespace = bytes "ns"; kind = mariamesh.Protocol.heartbeat; body = [] }

abbrev claim : Heartbeat
claim = record {
  node_id = bytes "b";
  incarnation_id = bytes "1";
  name = bytes "n";
  status = active;
  schema_version = 1;
  epoch = 0;
  addr = bytes "y";
  members = [];
}

abbrev frames : List (ℕ × Str × Str)
frames = (1, [], bytes "f") ∷ (2, bytes "b", bytes "f") ∷ []

on_datagrams_keeps_example :
    lookup Str-discrete
      (bytes "b")
      (on_datagrams (λ f. some envelope) (λ b. (claim, true)) frames with_peer).peers
    ≡ some (record { node_id = bytes "b"; addr = bytes "x" })
unfolding Str-discrete ℕ_discrete
on_datagrams_keeps_example =
    on_datagrams_keeps (λ f. some envelope) (λ b. (claim, true)) frames (bytes "b")
      (record { node_id = bytes "b"; addr = bytes "x" }) with_peer refl

-- A body on which the decoder fails, after it has filled the claim.
on_datagram_bound_example :
    lookup Str-discrete
      (bytes "b")
      (on_datagram
        (λ f. some envelope)
        (λ b. (claim, false))
        1
        (bytes "c")
        (bytes "f")
        (new_replicator empty_db)).peers
    ≡ stranger
        (bytes "a")
        (bytes "b")
        (read_heartbeat (λ f. some envelope) (λ b. (claim, false)) (bytes "f") (bytes "ns"))
unfolding Str-discrete ℕ_discrete
on_datagram_bound_example =
    on_datagram_bound (λ f. some envelope) (λ b. (claim, false)) 1 (bytes "c") (bytes "f")
      (bytes "b") (new_replicator empty_db) refl (λ e. ground arith) refl

-- The peer `b` is added under the certificate of `c`.
stranger_added :
    stranger
      (bytes "a")
      (bytes "b")
      (read_heartbeat (λ f. some envelope) (λ b. (claim, false)) (bytes "f") (bytes "ns"))
    ≡ some (record { node_id = bytes "b"; addr = bytes "y" })
unfolding read_heartbeat decode Str-discrete ℕ_discrete
stranger_added = refl

remove_peer-add_peer_example :
    (node_id_for_addr (bytes "x") (
        remove_peer (bytes "b") (
          add_peer
            (bytes "b")
            (bytes "y")
            (add_peer (bytes "b") (bytes "x") (new_replicator empty_db))))
      ≡ bytes "b")
    × (lookup Str-discrete
          (bytes "b")
          (remove_peer (bytes "b") (
            add_peer
              (bytes "b")
              (bytes "y")
              (add_peer (bytes "b") (bytes "x") (new_replicator empty_db)))).peers
        ≡ none)
remove_peer-add_peer_example =
    remove_peer-add_peer (bytes "b") (bytes "x") (bytes "y") (new_replicator empty_db)
      (λ e. ground arith)

-- The database belongs to another node.
abbrev other_db : Db
other_db = record empty_db {
  local_state = some (record {
    node_id = bytes "z";
    incarnation_id = bytes "1";
    current_seq = 0;
    hlc = record { physical = 0; logical = 0 };
  });
}

start_failed_example :
    (require_started (start 1 (new_replicator other_db)).1 ≡ ok tt)
    × (start 2 (start 1 (new_replicator other_db)).1
        ≡ (err already_started, (start 1 (new_replicator other_db)).1))
unfolding start ensure_local_state Str-discrete ℕ_discrete
start_failed_example = start_failed 1 2 identity_mismatch (new_replicator other_db) refl

start_first_example :
    ((start 1 (new_replicator empty_db)).0 ≡ ok tt)
    × (self_status (start 1 (new_replicator empty_db)).1.members ≡ active)
start_first_example = start_first 1 (new_replicator empty_db) refl refl refl refl refl refl refl

abbrev column_named : Str → Column
column_named name = record { name = name; sql_type = [] }

abbrev table : Table
table = record {
  name = bytes "T";
  id_column = [];
  name_column = [];
  columns = column_named (bytes " X ") ∷ column_named (bytes "ID") ∷ column_named (bytes "x") ∷ [];
}

replicated_columns_lem_example :
    IsDistinct (replicated_columns table)
    × (contains (to_lower (id_column_of table)) (map to_lower (replicated_columns table)) ≡ false)
    × (contains (bytes "x") (map to_lower (replicated_columns table))
        ≡ ite (Str-discrete (bytes "x") (to_lower (name_column_of table))) true (
            contains (bytes "x") (declared table.columns)
            && (not (is_empty (bytes "x"))
                && not
                    (ite (Str-discrete (bytes "x") (to_lower (id_column_of table))) true false))))
unfolding validate_table validate_columns contains_forbidden id_column_of name_column_of to_lower
    trim_space trim_left trim_right Str-discrete ℕ_discrete
replicated_columns_lem_example = replicated_columns_lem table (bytes "x") refl

abbrev config : Config
config = record {
  has_db = true;
  node_id = bytes "a";
  incarnation_id = bytes "1";
  namespace = bytes "ns";
  has_tls = true;
  has_logger = false;
  listen_addr = bytes "h";
  advertise_addr = [];
  sync_batch_max_events = pos 0;
  sync_batch_max_bytes = pos 7;
  sync_interval = negsuc 0;
  heartbeat_interval = pos 0;
  gc_interval = pos 0;
  seed_chunk_rows = negsuc 4;
  dial_timeout = pos 3;
  idle_timeout = pos 0;
}

set_defaults-IsReady_example :
    IsReady (set_defaults config) × (set_defaults (set_defaults config) ≡ set_defaults config)
set_defaults-IsReady_example = set_defaults-IsReady config
