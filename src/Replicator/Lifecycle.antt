-- ===== src/Replicator/Lifecycle.antt =====
-- The start of a replicator, and the join of a new node.
use mariamesh.Base.{
  ℕ, ◌+◌, ◌≡◌, inl, inr, refl, ap, subst, sym, ◌∙◌, true, false, length, Str-discrete, [],
  lookup-insert_self, none, some, Option-cases, Bool-cases, Result-cases, ok, err, arith,
}
use mariamesh.Clock.{restore}
use mariamesh.Membership.{
  State, new_node, with_db, load_epoch, ensure_self, self_status, activate, with_tx, activate_body,
  bump_epoch,
}
use mariamesh.Replicator.{
  Replicator, already_started, store_failed, require_started, promote, start, begin_seed, join,
}
use mariamesh.Seed.{Driver, SeedRequest}
use mariamesh.Seed.Target.{Target, Answer, fetch}
use mariamesh.Store.LocalState.{ensure_local_state}
use mariamesh.Store.Nodes.{get_node, upsert_node, set_node_status, get_epoch, is_retired, is_active}
use mariamesh.Store.Tables.{Error, LocalState, Node, Status, joining, active, retired, unknown}

-- A start that fails on the local state leaves a replicator that counts as started, and that no later
-- call can start.
pub start_failed :
    (now later : ℕ) (e : Error) (r : Replicator)
    → (start now r).0 ≡ err (store_failed e)
    → (require_started (start now r).1 ≡ ok tt)
      × (start later (start now r).1 ≡ (err already_started, (start now r).1))
unfolding start require_started
start_failed now later e r h = elim (Bool-cases r.started) [
  | inl s ↦ ground arith
  | inr s ↦ elim (Bool-cases r.closed) [
    | inl c ↦ ground arith
    | inr c ↦
        elim (Result-cases (ensure_local_state r.self.node_id r.self.incarnation_id r.members.db)) [
          | inl (x, k) ↦ ground arith
          | inr (x, k) ↦ ground arith
        ]
  ]
]

active_status : (s : Status) → is_active s ≡ true → s ≡ active
active_status joining h = cc
active_status active h = refl
active_status retired h = cc
active_status (unknown x) h = cc

activate-self_status :
    (now : ℕ) (s : State)
    → (activate now s.manager.node_id s).0 ≡ ok tt
    → self_status (activate now s.manager.node_id s).1 ≡ active
unfolding activate with_tx activate_body bump_epoch self_status set_node_status
activate-self_status now s h = elim (Option-cases (get_node s.manager.node_id s.db)) [
  | inl e ↦ ground arith
  | inr (n, e) ↦ elim (Bool-cases (is_retired n.status)) [
    | inl r ↦ ground arith
    | inr r ↦ elim (Bool-cases (is_active n.status)) [
      | inl a ↦ ground (arith, active_status n.status a)
      | inr a ↦ ground (
        arith,
        lookup-insert_self Str-discrete s.manager.node_id
            (record n { status = active; membership_epoch = get_epoch s.db + 1 }) s.db.nodes,
      )
    ]
  ]
]

begin_seed_manager :
    (d : Driver) (t : Target) (req : SeedRequest) (answer : Answer) (r : Replicator)
    → (begin_seed d t req answer r).1.members.manager ≡ r.members.manager
unfolding begin_seed
begin_seed_manager d t req answer r = elim (Result-cases (require_started r)) [
  | inr (x, e) ↦ ground arith
  | inl (u, e) ↦ elim (Bool-cases (is_active (self_status r.members))) [
    | inl b ↦ ground arith
    | inr b ↦
        let out = fetch d t req answer r.clock r.members.db in
        elim (Result-cases out.result) [ inl (v, f) ↦ ground arith | inr (x, f) ↦ ground arith ]
  ]
]

-- A join that succeeds leaves the node active, where the manager has the replicator's node.
pub join_activates :
    (now : ℕ) (d : Driver) (t : Target) (req : SeedRequest) (answer : Answer) (r : Replicator)
    → r.members.manager.node_id ≡ r.self.node_id
    → (join now d t req answer r).0 ≡ ok tt
    → self_status (join now d t req answer r).1.members ≡ active
unfolding join
join_activates now d t req answer r n h =
    let seeded = begin_seed d t req answer r in
    let s = seeded.1.members in
    let id : s.manager.node_id ≡ r.self.node_id =
      ap (λ m. m.node_id) (begin_seed_manager d t req answer r) ∙ n in
    let after = activate-self_status now s in
    elim (Result-cases seeded.0) [
      | inr (x, e) ↦ ground arith
      | inl (u, e) ↦ elim (Result-cases (activate now r.self.node_id s).0) [
        | inr (x, f) ↦ ground arith
        | inl (v, f) ↦ ground (
          arith,
          subst (λ i. ((activate now i s).0 ≡ ok tt) → self_status (activate now i s).1 ≡ active) id
              after f,
        )
      ]
    ]

-- A node that the manager has just written, and that is joining.
record IsNew (s s' : State) : Type 0 where
  node : Node
  stored : get_node s.manager.node_id s'.db ≡ some node
  status : node.status ≡ joining
  manager : s'.manager ≡ s.manager
  log : s'.db.log ≡ s.db.log

ensure_self-IsNew :
    (now : ℕ) (s : State)
    → get_node s.manager.node_id s.db ≡ none
    → IsNew s (ensure_self now joining s)
unfolding ensure_self upsert_node
ensure_self-IsNew now s h =
    let m = s.manager in
    let n = new_node m.node_id m.incarnation_id m.name joining m.epoch m.schema_version m.addr in
    let row : Node = record n { joined_at = some now; retired_at = none; last_seen = some now } in
    record {
      node = row;
      stored = ground (arith, lookup-insert_self Str-discrete m.node_id row s.db.nodes);
      status = refl;
      manager = ground arith;
      log = ground arith;
    }

activate_joining :
    (now : ℕ) (s : State) (n : Node)
    → get_node s.manager.node_id s.db ≡ some n
    → n.status ≡ joining
    → (activate now s.manager.node_id s).0 ≡ ok tt
unfolding activate with_tx activate_body bump_epoch
activate_joining now s n h k = ground (arith, ap is_retired k, ap is_active k)

self_status_stored :
    (s : State) (n : Node) → get_node s.manager.node_id s.db ≡ some n → self_status s ≡ n.status
unfolding self_status
self_status_stored s n h = ground arith

-- The promotion of a replicator that has no peers, an empty log and a joining node.
promote_active :
    (now : ℕ) (r : Replicator) (n : Node)
    → r.peers ≡ []
    → r.members.db.log ≡ []
    → r.members.manager.node_id ≡ r.self.node_id
    → get_node r.self.node_id r.members.db ≡ some n
    → n.status ≡ joining
    → self_status (promote now r).members ≡ active
unfolding promote
promote_active now r n p l m g k =
    let g' : get_node r.members.manager.node_id r.members.db ≡ some n =
      ap (λ i. get_node i r.members.db) m ∙ g in
    let ends = activate-self_status now r.members (activate_joining now r.members n g' k) in
    ground (
      arith,
      ap length p,
      ap length l,
      self_status_stored r.members n g' ∙ k,
      subst (λ i. self_status (activate now i r.members).1 ≡ active) m ends,
    )

-- The first start of a node whose database is new and which has no peers, where the manager has the
-- replicator's node: it succeeds, and the node is active.
pub start_first :
    (now : ℕ) (r : Replicator)
    → r.started ≡ false
    → r.closed ≡ false
    → r.peers ≡ []
    → r.members.manager.node_id ≡ r.self.node_id
    → r.members.db.local_state ≡ none
    → r.members.db.log ≡ []
    → get_node r.self.node_id r.members.db ≡ none
    → ((start now r).0 ≡ ok tt) × (self_status (start now r).1.members ≡ active)
unfolding start ensure_local_state load_epoch
start_first now r a b c n l g k =
    let st : LocalState = record {
      node_id = r.self.node_id;
      incarnation_id = r.self.incarnation_id;
      current_seq = 0;
      hlc = record { physical = 0; logical = 0 };
    } in
    let db = record r.members.db { local_state = some st } in
    let s = load_epoch (with_db db r.members) in
    let new = ensure_self-IsNew now s (ap (λ i. get_node i r.members.db) n ∙ k) in
    let live : Replicator = record r {
      started = true;
      clock = restore st.hlc r.clock;
      members = ensure_self now joining s;
    } in
    let ends =
      promote_active now live new.node c (new.log ∙ g) (ap (λ m. m.node_id) new.manager ∙ n)
        (ap (λ i. get_node i (ensure_self now joining s).db) (sym n) ∙ new.stored) new.status in
    (ground arith, ground (arith, ends))
