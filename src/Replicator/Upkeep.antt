-- ===== src/Replicator/Upkeep.antt =====
-- The operations of replication.go on the tables, the nodes and the log, and one beat of its heartbeat
-- loop. A collection holds the mutex of the seeding, so the two do not overlap.
use mariamesh.Base.{ℕ, if◌then◌else◌, Str, List, [], ◌∷◌, map, Result, ok, err}
use mariamesh.Changelog.Vector.{Vector}
use mariamesh.Config.{Config, ConfigError, validate_config}
use mariamesh.Gc.{GcError, GcResult, run, watermarks}
use mariamesh.Membership.{Health, health, retire_node, with_db}
use mariamesh.Membership.Gossip.{build_heartbeat}
use mariamesh.Protocol.{Heartbeat}
use mariamesh.Registry.{Table, TableError, Registry, register, all_tables}
use mariamesh.Replicator.{
  Replicator, ReplicaError, PeerEntry, member_failed, require_started, sync_targets,
}
use mariamesh.Schema.{Catalogue, Problem, validate_schema}
use mariamesh.Store.Nodes.{list_nodes, touch_node}
use mariamesh.Store.Progress.{local_vector}
use mariamesh.Store.Tables.{Node}

pub data RegisterError : Type 0 where
  already_running : RegisterError
  table_failed : TableError → RegisterError

-- `RegisterTable`; `tables` is the field of the replicator.
unfoldable pub register_table : Table → Replicator → Registry → Result RegisterError Registry
register_table t r tables =
    if r.started
    then err already_running
    else (elim (register t tables) [ err x ↦ err (table_failed x) | ok tables' ↦ ok tables' ])

pub data ValidateError : Type 0 where
  bad_config : ConfigError → ValidateError
  bad_schema : List Problem → ValidateError

-- `Validate`
unfoldable pub validate_all : Config → Catalogue → Registry → Result ValidateError (Unit {0})
validate_all c cat tables = elim (validate_config c) [
  | err x ↦ err (bad_config x)
  | ok _ ↦ elim (validate_schema cat (all_tables tables)) [
    | [] ↦ ok tt
    | p ∷ ps ↦ err (bad_schema (p ∷ ps))
  ]
]

-- `RetireNode`
unfoldable pub retire : ℕ → Str → Replicator → Result ReplicaError (Unit {0}) × Replicator
retire now id r = elim (require_started r) [
  | err x ↦ (err x, r)
  | ok _ ↦
      let (res, members) = retire_node now id r.members in
      let r' = record r { members = members } in
      elim res [ err x ↦ (err (member_failed x), r') | ok _ ↦ (ok tt, r') ]
]

-- `NodeInfo`, which is the row and its health.
pub record NodeInfo : Type 0 where
  pub node : Node
  pub health : Health

-- `Nodes`, at the time `now`
unfoldable pub node_infos : ℕ → ℕ → Replicator → List NodeInfo
node_infos heartbeat_interval now r =
    map (λ n. record { node = n; health = health n heartbeat_interval now })
      (list_nodes r.members.db)

-- `Progress`
unfoldable pub progress_of : Replicator → Vector
progress_of r = local_vector r.self r.members.db

-- `GCWatermarks`
unfoldable pub gc_watermarks : Replicator → Result GcError Vector
gc_watermarks r = watermarks r.members.db

pub data CollectError : Type 0 where
  not_running : ReplicaError → CollectError
  gc_failed : GcError → CollectError

-- `CollectGarbage`.
unfoldable pub collect_garbage : Replicator → Result CollectError GcResult × Replicator
collect_garbage r = elim (require_started r) [
  | err x ↦ (err (not_running x), r)
  | ok _ ↦ elim (run 1000 r.members.db) [
    | err x ↦ (err (gc_failed x), r)
    | ok (res, db) ↦
        (ok res, record r { watermarks = res.watermarks; members = with_db db r.members })
  ]
]

-- `beat`: the heartbeat with those that it is sent to. A datagram that is not sent is only logged.
unfoldable pub beat : ℕ → Replicator → (Heartbeat × List PeerEntry) × Replicator
beat now r = (
  (build_heartbeat r.members, sync_targets r.peers),
  record r { members = with_db (touch_node now r.self.node_id r.members.db) r.members },
)
