-- ===== src/Membership/Statuses.antt =====
-- How the operations on the node table change the stored statuses.
use mariamesh.Base.{
  ℕ, ◌≡◌, arith, if◌then◌else◌, ite, Str, Str-discrete, Option, none, some, Option-cases,
  lookup-insert, inl, inr,
}
use mariamesh.Store.Tables.{Db, Node, Status}
use mariamesh.Store.Nodes.{
  get_node, upsert_node, merge_row, set_node_status, touch_node, is_retired, get_node-upsert_node,
  get_node-upsert_new,
}

abbrev pub status_of : Str → Db → Option Status
status_of id db = elim (get_node id db) [ none ↦ none | some n ↦ some n.status ]

pub status_of-upsert_old :
    (now : ℕ) (n old : Node) (id : Str) (db : Db)
    → get_node n.node_id db ≡ some old
    → status_of id (upsert_node now n db) ≡ status_of id db
unfolding merge_row
status_of-upsert_old now n old id db h = ground (arith, get_node-upsert_node now n old id db h)

pub status_of-upsert_new :
    (now : ℕ) (n : Node) (id : Str) (db : Db)
    → get_node n.node_id db ≡ none
    → status_of id (upsert_node now n db)
      ≡ ite (Str-discrete id n.node_id) (some n.status) (status_of id db)
status_of-upsert_new now n id db h = ground (arith, get_node-upsert_new now n id db h)

pub status_of-set_node_status :
    (now : ℕ) (id j : Str) (st : Status) (e : ℕ) (n : Node) (db : Db)
    → get_node id db ≡ some n
    → status_of j (set_node_status now id st e db)
      ≡ ite (Str-discrete j id) (some st) (status_of j db)
unfolding set_node_status
status_of-set_node_status now id j st e n db h =
    let n' = record n { status = st; membership_epoch = e } in
    ground (
      arith,
      lookup-insert Str-discrete j id
          (if is_retired st then record n' { retired_at = some now } else n') db.nodes,
    )

pub status_of-touch_node :
    (now : ℕ) (id j : Str) (db : Db) → status_of j (touch_node now id db) ≡ status_of j db
unfolding touch_node
status_of-touch_node now id j db = elim (Option-cases (get_node id db)) [
  | inl e ↦ ground arith
  | inr (n, e) ↦
      ground (arith, lookup-insert Str-discrete j id (record n { last_seen = some now }) db.nodes)
]
