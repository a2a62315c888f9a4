-- ===== src/Membership/Reachability.antt =====
-- Retirement over all operations of the manager, in any order.
use mariamesh.Base.{ℕ, ◌≡◌, ◌+◌, arith, ◌∙◌, Str, some, Option-cases, inl, inr}
use mariamesh.Protocol.{Heartbeat}
use mariamesh.Store.Tables.{Db, Node, Status, joining, active, retired}
use mariamesh.Store.Nodes.{get_node, get_epoch, set_epoch, upsert_node}
use mariamesh.Membership.{
  State, new_node, add_node, activate, retire_node, ensure_self, add_body, activate_body,
  retire_body, with_tx, bump_epoch,
}
use mariamesh.Membership.Gossip.{receive_heartbeat}
use mariamesh.Membership.Retirement.{receive_heartbeat_retired}
use mariamesh.Membership.Statuses.{
  status_of, status_of-upsert_old, status_of-upsert_new, status_of-set_node_status,
}

-- The manager's operations, one at a time.
pub data Step (s : State) : State → Type 0 where
  beat : (now : ℕ) (hb : Heartbeat) → Step s (receive_heartbeat now hb s)
  ensure : (now : ℕ) (st : Status) → Step s (ensure_self now st s)
  add :
      (now : ℕ) (id inc name addr : Str) (schema : ℕ)
      → Step s (add_node now id inc name addr schema s).1
  activation : (now : ℕ) (id : Str) → Step s (activate now id s).1
  retirement : (now : ℕ) (id : Str) → Step s (retire_node now id s).1

pub data Steps (s : State) : State → Type 0 where
  done : Steps s s
  after : {s' s'' : State} → Steps s s' → Step s' s'' → Steps s s''

upsert_node_retired :
    (now : ℕ) (n : Node) (id : Str) (db : Db)
    → status_of id db ≡ some retired
    → status_of id (upsert_node now n db) ≡ some retired
upsert_node_retired now n id db h = elim (Option-cases (get_node n.node_id db)) [
  | inl e ↦ ground (arith, status_of-upsert_new now n id db e)
  | inr (old, e) ↦ status_of-upsert_old now n old id db e ∙ h
]

add_node_retired :
    (now : ℕ) (id inc name addr : Str) (schema : ℕ) (j : Str) (s : State)
    → status_of j s.db ≡ some retired
    → status_of j (add_node now id inc name addr schema s).1.db ≡ some retired
unfolding add_node with_tx add_body bump_epoch
add_node_retired now id inc name addr schema j s h =
    let next = get_epoch s.db + 1 in
    ground (
      arith,
      upsert_node_retired now (new_node id inc name joining next schema addr) j
          (set_epoch next s.db) h,
    )

activate_retired :
    (now : ℕ) (id j : Str) (s : State)
    → status_of j s.db ≡ some retired
    → status_of j (activate now id s).1.db ≡ some retired
unfolding activate with_tx activate_body bump_epoch
activate_retired now id j s h = elim (Option-cases (get_node id s.db)) [
  | inl e ↦ ground arith
  | inr (n, e) ↦
      let next = get_epoch s.db + 1 in
      ground (arith, status_of-set_node_status now id j active next n (set_epoch next s.db) e)
]

retire_node_retired :
    (now : ℕ) (id j : Str) (s : State)
    → status_of j s.db ≡ some retired
    → status_of j (retire_node now id s).1.db ≡ some retired
unfolding retire_node with_tx retire_body bump_epoch
retire_node_retired now id j s h = elim (Option-cases (get_node id s.db)) [
  | inl e ↦ ground arith
  | inr (n, e) ↦
      let next = get_epoch s.db + 1 in
      ground (arith, status_of-set_node_status now id j retired next n (set_epoch next s.db) e)
]

ensure_self_retired :
    (now : ℕ) (st : Status) (j : Str) (s : State)
    → status_of j s.db ≡ some retired
    → status_of j (ensure_self now st s).db ≡ some retired
unfolding ensure_self
ensure_self_retired now st j s h =
    let m = s.manager in
    ground (
      arith,
      upsert_node_retired now
          (new_node m.node_id m.incarnation_id m.name st m.epoch m.schema_version m.addr) j s.db h,
    )

-- A node that is RETIRED stays RETIRED in every state that the operations reach, also after an
-- `AddNode` with a new incarnation, whose comment says that it moves such a node back to JOINING.
pub Steps_retired :
    {s s' : State} (id : Str)
    → Steps s s'
    → status_of id s.db ≡ some retired
    → status_of id s'.db ≡ some retired
Steps_retired id done h = h
Steps_retired id (after run (beat now hb)) h =
    receive_heartbeat_retired now hb id _ (Steps_retired id run h)
Steps_retired id (after run (ensure now st)) h =
    ensure_self_retired now st id _ (Steps_retired id run h)
Steps_retired id (after run (add now j inc name addr schema)) h =
    add_node_retired now j inc name addr schema id _ (Steps_retired id run h)
Steps_retired id (after run (activation now j)) h =
    activate_retired now j id _ (Steps_retired id run h)
Steps_retired id (after run (retirement now j)) h =
    retire_node_retired now j id _ (Steps_retired id run h)
