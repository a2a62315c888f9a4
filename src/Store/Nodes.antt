-- ===== src/Store/Nodes.antt =====
-- `replication_node` and the membership epoch in `replication_meta` (internal/store/nodes.go).
use mariamesh.Base.{
  ℕ, max, Bool, true, false, ◌&&◌, if◌then◌else◌, ite, Str, Str-discrete, List, map, lookup, insert,
  Option, none, some, Result, ok, err, ◌≡◌, arith, lookup-insert,
}
use mariamesh.Changelog.Vector.{at_key}
use mariamesh.Store.Tables.{
  Db, Node, Status, active, retired, Error, retired_incarnation, epoch_key,
}

abbrev pub is_retired : Status → Bool
is_retired retired = true
is_retired _ = false

abbrev pub is_active : Status → Bool
is_active active = true
is_active _ = false

abbrev pub same_text : Str → Str → Bool
same_text a b = ite (Str-discrete a b) true false

-- `GetNode`; `none` is `sql.ErrNoRows`.
abbrev pub get_node : Str → Db → Option Node
get_node id db = lookup Str-discrete id db.nodes

-- What `ON DUPLICATE KEY UPDATE` leaves of an old row: it keeps the status, the joining time and the
-- retirement time, and raises the epoch.
unfoldable pub merge_row : ℕ → Node → Node → Node
merge_row now n old = record old {
  incarnation_id = n.incarnation_id;
  name = n.name;
  schema_version = n.schema_version;
  addr = n.addr;
  last_seen = some now;
  membership_epoch = max old.membership_epoch n.membership_epoch;
}

-- `UpsertNode` at the time `now`
unfoldable pub upsert_node : ℕ → Node → Db → Db
upsert_node now n db =
    let row = elim (get_node n.node_id db) as (λ _. Node) [
      | none ↦ record n { joined_at = some now; retired_at = none; last_seen = some now }
      | some old ↦ merge_row now n old
    ] in
    record db { nodes = insert Str-discrete n.node_id row db.nodes }

-- `SetNodeStatus`: an `UPDATE`, which changes no row where there is none.
unfoldable pub set_node_status : ℕ → Str → Status → ℕ → Db → Db
set_node_status now id status epoch db = elim (get_node id db) [
  | none ↦ db
  | some n ↦
      let n' = record n { status = status; membership_epoch = epoch } in
      record db {
        nodes =
            insert Str-discrete id
              (if is_retired status then record n' { retired_at = some now } else n') db.nodes;
      }
]

-- `TouchNode`
unfoldable pub touch_node : ℕ → Str → Db → Db
touch_node now id db = elim (get_node id db) [
  | none ↦ db
  | some n ↦ record db {
    nodes = insert Str-discrete id (record n { last_seen = some now }) db.nodes;
  }
]

-- `ListNodes`
abbrev pub list_nodes : Db → List Node
list_nodes db = map (λ e. e.1) db.nodes

-- `CheckIncarnation`
unfoldable pub check_incarnation : Str → Str → Db → Result Error (Unit {0})
check_incarnation node inc db = elim (get_node node db) [
  | none ↦ ok tt
  | some n ↦
      if same_text n.incarnation_id inc && is_retired n.status
      then err retired_incarnation
      else ok tt
]

-- `GetEpoch`: 0 when it is unset.
abbrev pub get_epoch : Db → ℕ
get_epoch db = at_key epoch_key db.meta

-- `SetEpoch`
abbrev pub set_epoch : ℕ → Db → Db
set_epoch n db = record db { meta = insert Str-discrete epoch_key n db.meta }

-- An upsert of a known node never changes its status and never lowers its epoch; it does replace
-- the incarnation. Other nodes stay as they are.
pub get_node-upsert_node :
    (now : ℕ) (n old : Node) (id : Str) (db : Db)
    → get_node n.node_id db ≡ some old
    → get_node id (upsert_node now n db)
      ≡ ite (Str-discrete id n.node_id) (some (merge_row now n old)) (get_node id db)
unfolding upsert_node
get_node-upsert_node now n old id db h =
    ground (arith, lookup-insert Str-discrete id n.node_id (merge_row now n old) db.nodes)

pub get_node-upsert_new :
    (now : ℕ) (n : Node) (id : Str) (db : Db)
    → get_node n.node_id db ≡ none
    → get_node id (upsert_node now n db)
      ≡ ite
          (Str-discrete id n.node_id)
          (some (record n { joined_at = some now; retired_at = none; last_seen = some now }))
          (get_node id db)
unfolding upsert_node
get_node-upsert_new now n id db h = ground (
  arith,
  lookup-insert Str-discrete id n.node_id
      (record n { joined_at = some now; retired_at = none; last_seen = some now }) db.nodes,
)
