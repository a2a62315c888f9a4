-- ===== src/Membership/Retirement.antt =====
-- What gossip may do to a node's status.
use mariamesh.Base.{
  ℕ, ◌≡◌, arith, refl, sym, ◌∙◌, Bool, true, false, not, ◌&&◌, ◌||◌, subst, ltb, ◌==◌,
  if◌then◌else◌, Str, Str-discrete, none, some, Option-cases, Bool-cases, inl, inr, List, [], ◌∷◌,
}
use mariamesh.Changelog.{is_empty}
use mariamesh.Protocol.{MemberInfo, Heartbeat}
use mariamesh.Store.Tables.{Db, Node, Status, joining, active, retired, unknown}
use mariamesh.Store.Nodes.{get_node, is_retired, is_active, same_text, upsert_node, set_node_status}
use mariamesh.Membership.{State, new_node, raise_epoch}
use mariamesh.Membership.Gossip.{
  merge_member, merge_stored, merge_members, receive_heartbeat, entry_node, stranger_status, sender,
}
use mariamesh.Membership.Statuses.{
  status_of, status_of-upsert_old, status_of-upsert_new, status_of-set_node_status,
  status_of-touch_node,
}

-- What gossip may do to the status of one node: RETIRED stays, and what is ACTIVE was so before.
record Gossiped (id : Str) (db db' : Db) : Type 0 where
  retired_stays : status_of id db ≡ some retired → status_of id db' ≡ some retired
  active_before : status_of id db' ≡ some active → status_of id db ≡ some active

unchanged : (id : Str) (db db' : Db) → status_of id db' ≡ status_of id db → Gossiped id db db'
unchanged id db db' e = record { retired_stays = λ r. e ∙ r; active_before = λ a. sym e ∙ a }

both : (id : Str) (a b c : Db) → Gossiped id a b → Gossiped id b c → Gossiped id a c
both id a b c g h = record {
  retired_stays = λ r. h.retired_stays (g.retired_stays r);
  active_before = λ x. g.active_before (h.active_before x);
}

-- A property of both branches.
if-both {ℓ κ} :
    {A : Type ℓ} (P : A → Type κ) (b : Bool) {x y : A}
    → (b ≡ true → P x)
    → (b ≡ false → P y)
    → P (if b then x else y)
if-both P true f g = f refl
if-both P false f g = g refl

upsert-Gossiped :
    (now : ℕ) (n old : Node) (id : Str) (db : Db)
    → get_node n.node_id db ≡ some old
    → Gossiped id db (upsert_node now n db)
upsert-Gossiped now n old id db h = unchanged id db _ (status_of-upsert_old now n old id db h)

set_node_status-Gossiped :
    (now : ℕ) (id j : Str) (st : Status) (e : ℕ) (n : Node) (db : Db)
    → get_node id db ≡ some n
    → is_retired n.status ≡ false
    → is_active st ≡ false
    → Gossiped j db (set_node_status now id st e db)
set_node_status-Gossiped now id j st e n db h r a =
    let step = status_of-set_node_status now id j st e n db h in
    elim (Str-discrete j id) [
      | yes same ↦ record { retired_stays = λ x. ground arith; active_before = λ x. ground arith }
      | no other ↦ record { retired_stays = λ x. ground arith; active_before = λ x. ground arith }
    ]

upsert_new-Gossiped :
    (now : ℕ) (n : Node) (id : Str) (db : Db)
    → get_node n.node_id db ≡ none
    → is_active n.status ≡ false
    → Gossiped id db (upsert_node now n db)
upsert_new-Gossiped now n id db h a =
    let step = status_of-upsert_new now n id db h in
    elim (Str-discrete id n.node_id) [
      | yes same ↦ record { retired_stays = λ x. ground arith; active_before = λ x. ground arith }
      | no other ↦ record { retired_stays = λ x. ground arith; active_before = λ x. ground arith }
    ]

stranger_status-inactive : (st : Status) → is_active (stranger_status st) ≡ false
stranger_status-inactive joining = refl
stranger_status-inactive active = refl
stranger_status-inactive retired = refl
stranger_status-inactive (unknown x) = refl

merge_stored-Gossiped :
    (now : ℕ) (en : MemberInfo) (id : Str) (n : Node) (db : Db)
    → get_node en.node_id db ≡ some n
    → Gossiped id db (merge_stored now en n db)
unfolding merge_stored
merge_stored-Gossiped now en id n db e =
    let P = Gossiped id db in
    let same : P db = unchanged id db db refl in
    if-both P (is_retired n.status) (λ _. same)
      λ live.
        if-both P (not (same_text en.incarnation_id n.incarnation_id) && is_retired en.status)
          (λ _. same)
          λ _.
            if-both P (ltb n.membership_epoch en.epoch)
              (λ _.
                if-both P (is_active en.status)
                  (λ _. upsert-Gossiped now (entry_node en n.status) n id db e)
                  (λ quiet.
                    set_node_status-Gossiped now en.node_id id en.status en.epoch n db e live
                      quiet))
              λ _.
                if-both P (en.epoch == n.membership_epoch && is_retired en.status)
                  (λ _.
                    set_node_status-Gossiped now en.node_id id retired en.epoch n db e live refl)
                  λ _.
                    if-both P (not (is_empty en.addr) && not (same_text en.addr n.addr))
                      (λ _.
                        upsert-Gossiped now
                          (new_node en.node_id n.incarnation_id n.name n.status n.membership_epoch
                            n.schema_version en.addr)
                          n id db e)
                      (λ _. same)

merge_member-new :
    (now : ℕ) (en : MemberInfo) (db : Db)
    → get_node en.node_id db ≡ none
    → merge_member now en db ≡ upsert_node now (entry_node en (stranger_status en.status)) db
unfolding merge_member
merge_member-new now en db e = ground arith

merge_member-old :
    (now : ℕ) (en : MemberInfo) (n : Node) (db : Db)
    → get_node en.node_id db ≡ some n
    → merge_member now en db ≡ merge_stored now en n db
unfolding merge_member
merge_member-old now en n db e = ground arith

merge_member-Gossiped :
    (now : ℕ) (en : MemberInfo) (id : Str) (db : Db) → Gossiped id db (merge_member now en db)
merge_member-Gossiped now en id db =
    let P = Gossiped id db in
    elim (Option-cases (get_node en.node_id db)) [
      | inl e ↦ subst P (sym (merge_member-new now en db e)) (
          upsert_new-Gossiped now (entry_node en (stranger_status en.status)) id db e
            (stranger_status-inactive en.status))
      | inr (n, e) ↦
          subst P (sym (merge_member-old now en n db e)) (merge_stored-Gossiped now en id n db e)
    ]

merge_members-Gossiped :
    (now : ℕ) (self : Str) (ens : List MemberInfo) (id : Str) (db : Db)
    → Gossiped id db (merge_members now self ens db)
unfolding merge_members
merge_members-Gossiped now self [] id db = unchanged id db db refl
merge_members-Gossiped now self (en ∷ ens) id db =
    let db1 =
      if is_empty en.node_id || same_text en.node_id self then db else merge_member now en db in
    let one : Gossiped id db db1 =
      if-both (λ d. Gossiped id db d) (is_empty en.node_id || same_text en.node_id self)
        (λ _. unchanged id db db refl) (λ _. merge_member-Gossiped now en id db) in
    let rest = merge_members-Gossiped now self ens id db1 in both id db db1 _ one rest

receive_heartbeat-Gossiped :
    (now : ℕ) (hb : Heartbeat) (id : Str) (s : State)
    → Gossiped id s.db (receive_heartbeat now hb s).db
unfolding receive_heartbeat raise_epoch
receive_heartbeat-Gossiped now hb id s =
    let s' = if ltb s.manager.epoch hb.epoch then raise_epoch hb.epoch s else s in
    let db2 = merge_members now s.manager.node_id (sender hb ∷ hb.members) s'.db in
    let ignored = is_empty hb.node_id || same_text hb.node_id s.manager.node_id in
    elim (Bool-cases ignored) [
      | inl e ↦ unchanged id s.db _ (ground arith)
      | inr e ↦
          both id s.db db2 _
            (both id s.db s'.db db2 (unchanged id s.db s'.db (ground arith))
              (merge_members-Gossiped now s.manager.node_id (sender hb ∷ hb.members) id s'.db))
            (unchanged id db2 _ (ground (arith, status_of-touch_node now hb.node_id id db2)))
    ]

-- A heartbeat never takes a node out of RETIRED.
pub receive_heartbeat_retired :
    (now : ℕ) (hb : Heartbeat) (id : Str) (s : State)
    → status_of id s.db ≡ some retired
    → status_of id (receive_heartbeat now hb s).db ≡ some retired
receive_heartbeat_retired now hb id s = (receive_heartbeat-Gossiped now hb id s).retired_stays

-- A node that is ACTIVE after a heartbeat was ACTIVE before it.
pub receive_heartbeat_active :
    (now : ℕ) (hb : Heartbeat) (id : Str) (s : State)
    → status_of id (receive_heartbeat now hb s).db ≡ some active
    → status_of id s.db ≡ some active
receive_heartbeat_active now hb id s = (receive_heartbeat-Gossiped now hb id s).active_before
