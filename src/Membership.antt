-- ===== src/Membership.antt =====
-- internal/membership/membership.go: the manager's operations on the node table and on its epoch. A
-- transaction is atomic: a failed one leaves the database as it was, but not the cached epoch.
pub mod Gossip
pub mod Statuses
pub mod Retirement
pub mod Reachability
pub mod Additions
use mariamesh.Base.{
  ℕ, ◌+◌, ◌*◌, ◌-◌, Bool, true, false, ◌&&◌, ◌||◌, not, ltb, leb, ◌==◌, if◌then◌else◌, Str,
  Str-discrete, List, [], ◌∷◌, ◌++◌, map, Option, none, some, take, compare_str, less, Result, ok,
  err, length, take,
}
use mariamesh.Changelog.{is_empty}
use mariamesh.Protocol.{
  Hello, MemberInfo, Heartbeat, Envelope, ProtocolError, decode, is_heartbeat, or_fail, bad_body,
}
use mariamesh.Store.Tables.{Db, Node, Status, joining, active, retired, unknown}
use mariamesh.Store.Nodes.{
  list_nodes, get_node, upsert_node, set_node_status, touch_node, get_epoch, set_epoch, is_retired,
  is_active, same_text,
}

-- `Manager`; `epoch` is the cached epoch.
pub record Manager : Type 0 where
  pub namespace : Str
  pub node_id : Str
  pub incarnation_id : Str
  pub name : Str
  pub schema_version : ℕ
  pub addr : Str
  pub epoch : ℕ

pub record State : Type 0 where
  pub manager : Manager
  pub db : Db

pub data MemberError : Type 0 where
  retired_incarnation already_known no_such_node node_retired unexpected_datagram : MemberError
  bad_frame : ProtocolError → MemberError

-- `m.epoch.Store`
abbrev pub store_epoch : ℕ → State → State
store_epoch n s = record s { manager = record s.manager { epoch = n } }

abbrev pub with_db : Db → State → State
with_db db s = record s { db = db }

-- `LoadEpoch`
unfoldable pub load_epoch : State → State
load_epoch s = store_epoch (get_epoch s.db) s

-- `setEpoch`: the loop ends at once where no other goroutine writes the epoch.
unfoldable pub raise_epoch : ℕ → State → State
raise_epoch n s = if leb n s.manager.epoch then s else with_db (set_epoch n s.db) (store_epoch n s)

-- `bumpEpoch`
unfoldable pub bump_epoch : State → ℕ × State
bump_epoch s =
    let next = get_epoch s.db + 1 in (next, store_epoch next (with_db (set_epoch next s.db) s))

-- `withTx`
unfoldable pub with_tx :
    (State → Result MemberError (Unit {0}) × State) → State → Result MemberError (Unit {0}) × State
with_tx body s =
    let (res, s') = body s in elim res [ ok x ↦ (ok x, s') | err e ↦ (err e, with_db s.db s') ]

-- `SelfStatus`
unfoldable pub self_status : State → Status
self_status s = elim (get_node s.manager.node_id s.db) [ none ↦ joining | some n ↦ n.status ]

abbrev pub new_node : Str → Str → Str → Status → ℕ → ℕ → Str → Node
new_node id inc name status epoch schema addr = record {
  node_id = id;
  incarnation_id = inc;
  name = name;
  status = status;
  membership_epoch = epoch;
  schema_version = schema;
  addr = addr;
  joined_at = none;
  retired_at = none;
  last_seen = none;
}

-- `EnsureSelf`
unfoldable pub ensure_self : ℕ → Status → State → State
ensure_self now status s = elim (get_node s.manager.node_id s.db) [
  | some n ↦ s
  | none ↦
      let m = s.manager in
      with_db
        (upsert_node now
          (new_node m.node_id m.incarnation_id m.name status m.epoch m.schema_version m.addr) s.db)
        s
]

-- The function that `AddNode` runs in its transaction.
unfoldable pub add_body :
    ℕ → Str → Str → Str → Str → ℕ → State → Result MemberError (Unit {0}) × State
unfolding bump_epoch
add_body now id inc name addr schema s =
    let (next, s') = bump_epoch s in
    let added =
      with_db (upsert_node now (new_node id inc name joining next schema addr) s'.db) s' in
    elim (get_node id s.db) [
      | none ↦ (ok tt, added)
      | some n ↦
          if is_retired n.status && same_text n.incarnation_id inc
          then (err retired_incarnation, s)
          else if not (is_retired n.status)
          then (err already_known, s')
          else (ok tt, added)
    ]

-- `AddNode`
unfoldable pub add_node :
    ℕ → Str → Str → Str → Str → ℕ → State → Result MemberError (Unit {0}) × State
unfolding with_tx add_body
add_node now id inc name addr schema s = with_tx (add_body now id inc name addr schema) s

unfoldable pub activate_body : ℕ → Str → State → Result MemberError (Unit {0}) × State
unfolding bump_epoch
activate_body now id s = elim (get_node id s.db) [
  | none ↦ (err no_such_node, s)
  | some n ↦
      if is_retired n.status
      then (err node_retired, s)
      else if is_active n.status
      then (ok tt, s)
      else (let (next, s') = bump_epoch s in
          (ok tt, with_db (set_node_status now id active next s'.db) s'))
]

-- `Activate`
unfoldable pub activate : ℕ → Str → State → Result MemberError (Unit {0}) × State
unfolding with_tx activate_body
activate now id s = with_tx (activate_body now id) s

unfoldable pub retire_body : ℕ → Str → State → Result MemberError (Unit {0}) × State
unfolding bump_epoch
retire_body now id s = elim (get_node id s.db) [
  | none ↦ (err no_such_node, s)
  | some n ↦
      let (next, s') = bump_epoch s in
      (ok tt, with_db (set_node_status now id retired next s'.db) s')
]

-- `RetireNode`
unfoldable pub retire_node : ℕ → Str → State → Result MemberError (Unit {0}) × State
unfolding with_tx retire_body
retire_node now id s = with_tx (retire_body now id) s

-- `CheckPeer`
unfoldable pub check_peer : Hello → Db → Result MemberError (Unit {0})
check_peer h db = elim (get_node h.node_id db) [
  | none ↦ ok tt
  | some n ↦
      if same_text n.incarnation_id h.incarnation_id && is_retired n.status
      then err retired_incarnation
      else ok tt
]

pub data Health : Type 0 where
  retired_node unknown_node suspect healthy : Health

-- `Health`; `now.Sub` of a later time is negative, which is not more than the threshold.
unfoldable pub health : Node → ℕ → ℕ → Health
health n heartbeat_interval now = if is_retired n.status then retired_node else (elim n.last_seen [
  | none ↦ unknown_node
  | some t ↦ if ltb (3 * heartbeat_interval) (now - t) then suspect else healthy
])
