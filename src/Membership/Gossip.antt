-- ===== src/Membership/Gossip.antt =====
-- Gossip: `Heartbeat`, `HandleHeartbeat` and `mergeMember` of internal/membership/membership.go.
use mariamesh.Base.{
  Bool, ℕ, ◌&&◌, ◌||◌, not, ltb, ◌==◌, if◌then◌else◌, Str, List, [], ◌∷◌, Option, none, some, take,
  compare_str, less, Result, ok, err, take,
}
use mariamesh.Changelog.{is_empty}
use mariamesh.Protocol.{MemberInfo, Heartbeat, Envelope, decode, is_heartbeat, bad_body}
use mariamesh.Store.Tables.{Db, Node, Status, joining, retired}
use mariamesh.Store.Nodes.{
  list_nodes, get_node, upsert_node, set_node_status, touch_node, is_retired, is_active, same_text,
}
use mariamesh.Membership.{
  State, MemberError, with_db, raise_epoch, self_status, new_node, bad_frame, unexpected_datagram,
}

-- The status that a stranger is stored with.
abbrev pub stranger_status : Status → Status
stranger_status retired = retired
stranger_status _ = joining

abbrev pub entry_node : MemberInfo → Status → Node
entry_node en status =
    new_node en.node_id en.incarnation_id en.name status en.epoch en.schema_version en.addr

-- The end of `mergeMember`, for a stored node; the row that `GetNode` returns has the node ID that it
-- was asked for.
unfoldable pub merge_stored : ℕ → MemberInfo → Node → Db → Db
merge_stored now en stored db =
    if is_retired stored.status
    then db
    else if not (same_text en.incarnation_id stored.incarnation_id) && is_retired en.status
    then db
    else if ltb stored.membership_epoch en.epoch
    then (if is_active en.status
        then upsert_node now (entry_node en stored.status) db
        else set_node_status now en.node_id en.status en.epoch db)
    else if en.epoch == stored.membership_epoch && is_retired en.status
    then set_node_status now en.node_id retired en.epoch db
    else if not (is_empty en.addr) && not (same_text en.addr stored.addr)
    then upsert_node now
        (new_node en.node_id stored.incarnation_id stored.name stored.status stored.membership_epoch
          stored.schema_version en.addr)
        db
    else db

-- `mergeMember`
unfoldable pub merge_member : ℕ → MemberInfo → Db → Db
merge_member now en db = elim (get_node en.node_id db) [
  | none ↦ upsert_node now (entry_node en (stranger_status en.status)) db
  | some stored ↦ merge_stored now en stored db
]

-- The loop of `HandleHeartbeat`; `self` is the local node.
unfoldable pub merge_members : ℕ → Str → List MemberInfo → Db → Db
merge_members now self [] db = db
merge_members now self (en ∷ ens) db =
    merge_members now self ens
      (if is_empty en.node_id || same_text en.node_id self then db else merge_member now en db)

abbrev pub sender : Heartbeat → MemberInfo
sender hb = record {
  node_id = hb.node_id;
  incarnation_id = hb.incarnation_id;
  name = hb.name;
  status = hb.status;
  schema_version = hb.schema_version;
  epoch = hb.epoch;
  addr = hb.addr;
}

-- `HandleHeartbeat`, after decoding
unfoldable pub receive_heartbeat : ℕ → Heartbeat → State → State
unfolding raise_epoch
receive_heartbeat now hb s =
    if is_empty hb.node_id || same_text hb.node_id s.manager.node_id
    then s
    else (let s' = if ltb s.manager.epoch hb.epoch then raise_epoch hb.epoch s else s in
        with_db
          (touch_node now hb.node_id
            (merge_members now s.manager.node_id (sender hb ∷ hb.members) s'.db))
          s')

-- `HandleHeartbeat`; `unmarshal` and `unmarshal_body` are the JSON decoders. The second gives the
-- heartbeat as it has filled it, and whether it returned no error: a value of a wrong type is an error,
-- after which the other fields are filled nevertheless.
unfoldable pub handle_heartbeat :
    (Str → Option Envelope)
    → (Str → Heartbeat × Bool)
    → ℕ
    → Str
    → State
    → Result MemberError (Unit {0}) × State
handle_heartbeat unmarshal unmarshal_body now frame s =
    elim (decode unmarshal frame s.manager.namespace) [
      | err e ↦ (err (bad_frame e), s)
      | ok e ↦
          if is_heartbeat e.kind
          then (let (hb, decoded) = unmarshal_body e.body in
              if decoded
              then (ok tt, receive_heartbeat now hb s)
              else (err (bad_frame bad_body), s))
          else (err unexpected_datagram, s)
    ]

-- `sort.Slice` by node ID
unfoldable pub insert_node : Node → List Node → List Node
insert_node n [] = n ∷ []
insert_node n (m ∷ ms) = elim (compare_str m.node_id n.node_id) [
  | less ↦ m ∷ insert_node n ms
  | _ ↦ n ∷ m ∷ ms
]

unfoldable pub sort_nodes : List Node → List Node
unfolding insert_node
sort_nodes [] = []
sort_nodes (n ∷ ns) = insert_node n (sort_nodes ns)

abbrev pub member_info : Node → MemberInfo
member_info n = record {
  node_id = n.node_id;
  incarnation_id = n.incarnation_id;
  name = n.name;
  status = n.status;
  schema_version = n.schema_version;
  epoch = n.membership_epoch;
  addr = n.addr;
}

-- The nodes but the local one.
unfoldable pub others : Str → List Node → List MemberInfo
others self [] = []
others self (n ∷ ns) =
    let rest = others self ns in if same_text n.node_id self then rest else member_info n ∷ rest

-- `Heartbeat`, before encoding
unfoldable pub build_heartbeat : State → Heartbeat
unfolding self_status sort_nodes others
build_heartbeat s =
    let m = s.manager in
    record {
      node_id = m.node_id;
      incarnation_id = m.incarnation_id;
      name = m.name;
      status = self_status s;
      schema_version = m.schema_version;
      epoch = m.epoch;
      addr = m.addr;
      members = take 32 (others m.node_id (sort_nodes (list_nodes s.db)));
    }
