-- ===== src/Replicator.antt =====
-- replication.go: the address book of the replicator, its life cycle, and how it composes the other
-- parts on a start, an inbound heartbeat and a join. A method holds the mutex, so it is a function on
-- the state. The loops' timers and the connections are not modelled.
pub mod Peers
pub mod Lifecycle
pub mod Inbound
pub mod Backlog
pub mod Upkeep
use mariamesh.Base.{
  ℕ, Bool, true, false, not, ◌&&◌, ◌||◌, ◌==◌, if◌then◌else◌, Str, Str-discrete, List, [], ◌∷◌, Map,
  lookup, insert, erase, length, Option, none, some, Result, ok, err, ◌>>=◌,
}
use mariamesh.Changelog.{Origin, is_empty}
use mariamesh.Changelog.Vector.{Vector}
use mariamesh.Clock.{Clock, restore}
use mariamesh.Membership.{
  State, MemberError, with_db, load_epoch, ensure_self, self_status, activate, add_node,
}
use mariamesh.Membership.Gossip.{handle_heartbeat}
use mariamesh.Protocol.{Envelope, Heartbeat, decode, is_heartbeat}
use mariamesh.Seed.{Driver, SeedError, SeedRequest}
use mariamesh.Seed.Target.{Target, Answer, fetch}
use mariamesh.Store.LocalState.{ensure_local_state}
use mariamesh.Store.Nodes.{is_active, same_text}
use mariamesh.Store.Tables.{Db, Error, Status, joining, active}

-- `peerEntry`
pub record PeerEntry : Type 0 where
  pub node_id : Str
  pub addr : Str

-- `Replicator`: the fields that the mutex guards, the clock, and the manager with the database. Those
-- for display (`rtts`, `startedAt`) and the registry of tables are not in it.
pub record Replicator : Type 0 where
  pub self : Origin
  pub started : Bool
  pub closed : Bool
  pub peers : Map Str PeerEntry
  pub by_addr : Map Str Str
  pub needs_seed : Map Str Bool
  pub watermarks : Vector
  pub clock : Clock
  pub members : State

pub data ReplicaError : Type 0 where
  not_started already_started is_closed already_active : ReplicaError
  store_failed : Error → ReplicaError
  member_failed : MemberError → ReplicaError
  seed_failed : SeedError → ReplicaError

-- `AddPeer`
unfoldable pub add_peer : Str → Str → Replicator → Replicator
add_peer id addr r = record r {
  peers = insert Str-discrete id (record { node_id = id; addr = addr }) r.peers;
  by_addr = insert Str-discrete addr id r.by_addr;
}

-- `RemovePeer`, without the connection that is dropped.
unfoldable pub remove_peer : Str → Replicator → Replicator
remove_peer id r = elim (lookup Str-discrete id r.peers) [
  | none ↦ r
  | some e ↦ record r {
    peers = erase Str-discrete id r.peers;
    by_addr = erase Str-discrete e.addr r.by_addr;
    needs_seed = erase Str-discrete id r.needs_seed;
  }
]

-- `learnPeer`
unfoldable pub learn_peer : Str → Str → Replicator → Replicator
unfolding add_peer
learn_peer id addr r =
    if is_empty id || (is_empty addr || same_text id r.self.node_id)
    then r
    else (elim (lookup Str-discrete id r.peers) [ some e ↦ r | none ↦ add_peer id addr r ])

-- `nodeIDForAddr`
abbrev pub node_id_for_addr : Str → Replicator → Str
node_id_for_addr addr r = elim (lookup Str-discrete addr r.by_addr) [ none ↦ [] | some id ↦ id ]

-- `syncTargets`
unfoldable pub sync_targets : Map Str PeerEntry → List PeerEntry
sync_targets [] = []
sync_targets ((k, e) ∷ m) = let rest = sync_targets m in if is_empty e.addr then rest else e ∷ rest

-- `requireStarted`
unfoldable pub require_started : Replicator → Result ReplicaError (Unit {0})
require_started r = if r.closed then err is_closed else if r.started then ok tt else err not_started

-- `Close`
unfoldable pub close : Replicator → Replicator
close r = record r { closed = true }

-- What `onDatagram` learns from a heartbeat before the manager sees it; `none` is that the datagram is
-- dropped. `cert` is the node that the certificate names, and empty where there is none. The heartbeat
-- is as the decoder has filled it, with whether it returned no error. Under a certificate one that it
-- failed on is not compared with the certificate, and its sender is learned nevertheless.
unfoldable pub bind_sender : Str → Option (Heartbeat × Bool) → Replicator → Option Replicator
unfolding learn_peer
bind_sender cert none r = some r
bind_sender cert (some (hb, decoded)) r =
    let learned = if is_empty hb.addr then r else learn_peer hb.node_id hb.addr r in
    if not (is_empty cert)
    then (if decoded && (not (is_empty hb.node_id) && not (same_text hb.node_id cert))
        then none
        else some learned)
    else some (if decoded then learned else r)

-- The heartbeat in a datagram, where it has one, and whether it was decoded without an error.
unfoldable pub read_heartbeat :
    (Str → Option Envelope) → (Str → Heartbeat × Bool) → Str → Str → Option (Heartbeat × Bool)
read_heartbeat unmarshal unmarshal_body frame namespace = elim (decode unmarshal frame namespace) [
  | err e ↦ none
  | ok e ↦ if is_heartbeat e.kind then some (unmarshal_body e.body) else none
]

-- `onDatagram` at the time `now`
unfoldable pub on_datagram :
    (Str → Option Envelope) → (Str → Heartbeat × Bool) → ℕ → Str → Str → Replicator → Replicator
unfolding bind_sender read_heartbeat
on_datagram unmarshal unmarshal_body now cert frame r =
    elim (bind_sender cert
      (read_heartbeat unmarshal unmarshal_body frame r.members.manager.namespace) r) [
        | none ↦ r
        | some r' ↦ record r' {
          members = (handle_heartbeat unmarshal unmarshal_body now frame r'.members).1;
        }
      ]

-- The promotion at the end of `Start`: a fresh node without peers becomes active. Its failure is only
-- logged.
unfoldable pub promote : ℕ → Replicator → Replicator
promote now r =
    if (length r.peers == 0) && (length r.members.db.log == 0)
    then (elim (self_status r.members) [
      | joining ↦ record r { members = (activate now r.self.node_id r.members).1 }
      | _ ↦ r
    ])
    else r

-- `Start`, without the listener and the loops. After an error the replicator stays started.
unfoldable pub start : ℕ → Replicator → Result ReplicaError (Unit {0}) × Replicator
unfolding promote
start now r =
    if r.started
    then (err already_started, r)
    else if r.closed
    then (err is_closed, r)
    else (let live = record r { started = true } in
        elim (ensure_local_state r.self.node_id r.self.incarnation_id r.members.db) [
          | err e ↦ (err (store_failed e), live)
          | ok (st, db) ↦ (
            ok tt,
            promote now (record live {
              clock = restore st.hlc r.clock;
              members = ensure_self now joining (load_epoch (with_db db r.members));
            }),
          )
        ])

-- `AddNode`
unfoldable pub admit :
    ℕ → Str → Str → Str → Str → ℕ → Replicator → Result ReplicaError (Unit {0}) × Replicator
unfolding require_started add_peer
admit now id inc name addr schema r = elim (require_started r) [
  | err e ↦ (err e, r)
  | ok _ ↦
      let (res, members) = add_node now id inc name addr schema r.members in
      let r' = record r { members = members } in
      elim res [
        | err e ↦ (err (member_failed e), r')
        | ok _ ↦ (ok tt, if is_empty addr then r' else add_peer id addr r')
      ]
]

-- `BeginSeed`; `answer` is what the source sends.
unfoldable pub begin_seed :
    Driver
    → Target
    → SeedRequest
    → Answer
    → Replicator
    → Result ReplicaError (Unit {0}) × Replicator
unfolding require_started
begin_seed d t req answer r = elim (require_started r) [
  | err e ↦ (err e, r)
  | ok _ ↦
      if is_active (self_status r.members)
      then (err already_active, r)
      else (let out = fetch d t req answer r.clock r.members.db in
          let r' = record r { clock = out.clock; members = with_db out.db r.members } in
          elim out.result [ err e ↦ (err (seed_failed e), r') | ok v ↦ (ok tt, r') ])
]

-- `Join`
unfoldable pub join :
    ℕ
    → Driver
    → Target
    → SeedRequest
    → Answer
    → Replicator
    → Result ReplicaError (Unit {0}) × Replicator
unfolding begin_seed
join now d t req answer r =
    let (seeded, r') = begin_seed d t req answer r in
    elim seeded [
      | err e ↦ (err e, r')
      | ok _ ↦
          let (res, members) = activate now r.self.node_id r'.members in
          let r'' = record r' { members = members } in
          elim res [ err e ↦ (err (member_failed e), r'') | ok _ ↦ (ok tt, r'') ]
    ]
