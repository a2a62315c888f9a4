-- ===== src/Triggers/History.antt =====
-- Any series of local writes: the node's own history stays complete, ordered and acceptable to peers.
use mariamesh.Base.{
  ℕ, ◌+◌, ◌≡◌, ◌<◌, ◌⊎◌, inl, inr, ap, sym, subst, ◌∙◌, Bool, false, Str, List, [], ◌∷◌, none, some,
  ok, err, true, arith, greater,
}
use mariamesh.Changelog.{Origin, Event, validate, is_empty}
use mariamesh.Changelog.Payload.{Value}
use mariamesh.Clock.{compare_hlc}
use mariamesh.Store.LocalState.{allocate, ensure_local_state}
use mariamesh.Store.Tables.{Db, LocalState}
use mariamesh.Triggers.{TableSpec, immutable_id, fire, Call, fire_all}
use mariamesh.Triggers.LocalLog.{
  own, IsNumbered, IsOwnHistory, self_of, IsOwnHistory-logged, allocate_self, allocate_next,
  allocate_later,
}
use mariamesh.Triggers.Firing.{IsCall, IsRenaming, IsUnchanged, IsWritten, row_of, fire_cases}

-- The database has a local state of the origin, with the history of the origin's own writes.
pub record HasOwnHistory (self : Origin) (db : Db) : Type 0 where
  pub state : LocalState
  pub stored : db.local_state ≡ some state
  pub identity : self_of state ≡ self
  pub history : IsOwnHistory state db.log

fire-HasOwnHistory :
    (same : Str → Value → Value → Bool) (c : Call) (self : Origin) (db : Db)
    → HasOwnHistory self db
    → (cs : List Call)
    → (db1 : Db) × (fire_all same (c ∷ cs) db ≡ fire_all same cs db1) × HasOwnHistory self db1
unfolding fire_all
fire-HasOwnHistory same c self db h cs =
    elim (fire_cases same c.spec c.applying c.now c.change_id c.write h.state db h.stored
      h.history) [
        | inl (e, _) ↦ (db, ground (arith, e), h)
        | inr (inl (e, a, r)) ↦ (db, ground (arith, e), h)
        | inr (inr (e, db', r, i, call, _, _)) ↦ (
          db',
          ground (arith, r),
          record {
            state = allocate c.now h.state;
            stored = ap (λ d. d.local_state) call.logged.result;
            identity = allocate_self c.now h.state ∙ h.identity;
            history =
                subst (λ d. IsOwnHistory (allocate c.now h.state) d.log) (sym call.logged.result)
                  (IsOwnHistory-logged c.now h.state e db db' h.history call.logged);
          },
        )
      ]

-- Whatever is written, at whatever wall times, with or without the apply flag: where the node's own
-- events in its log were numbered 1 to its sequence, in the order of their timestamps, and the newest
-- was not after the stored clock, all of this still holds.
pub fire_all-HasOwnHistory :
    (same : Str → Value → Value → Bool) (calls : List Call) (self : Origin) (db : Db)
    → HasOwnHistory self db
    → HasOwnHistory self (fire_all same calls db)
unfolding fire_all
fire_all-HasOwnHistory same [] self db h = h
fire_all-HasOwnHistory same (c ∷ cs) self db h =
    let (db1, e, k) = fire-HasOwnHistory same c self db h cs in
    subst (HasOwnHistory self) (sym e) (fire_all-HasOwnHistory same cs self db1 k)

-- A new database has the empty history.
pub ensure_local_state-HasOwnHistory :
    (node inc : Str) (st : LocalState) (db db' : Db)
    → db.local_state ≡ none
    → db.log ≡ []
    → ensure_local_state node inc db ≡ ok (st, db')
    → HasOwnHistory (record { node_id = node; incarnation_id = inc }) db'
unfolding ensure_local_state own IsNumbered
ensure_local_state-HasOwnHistory node inc st db db' n l h = record {
  state = st;
  stored = ground arith;
  identity = ground arith;
  history = record { numbered = ground arith; past = ground arith };
}

-- A peer accepts the event of a local write.
IsCall-validate :
    (spec : TableSpec) (now : ℕ) (st : LocalState) (e : Event) (db db' : Db)
    → is_empty st.node_id ≡ false
    → is_empty st.incarnation_id ≡ false
    → is_empty spec.name ≡ false
    → is_empty e.row_id ≡ false
    → IsCall spec now st e db db'
    → validate e ≡ ok tt
unfolding validate
IsCall-validate spec now st e db db' n i t r call =
    let o = call.logged.origin in
    let node = ap (λ o. is_empty o.node_id) o ∙ n in
    let inc = ap (λ o. is_empty o.incarnation_id) o ∙ i in
    let seq : 0 < e.origin_seq = omega (arith, call.logged.seq, allocate_next now st) in
    let name = ap is_empty call.table ∙ t in
    elim call.payload [
      | inl p ↦ ground (arith, node, inc, seq, name, call.operation, p)
      | inr p ↦ ground (arith, node, inc, seq, name, call.operation, p)
    ]

-- What a trigger does, where the database has the node's own history and no identifier is empty, and
-- only this. It fails on a changed identifier, on a connection that is not applying. It leaves the
-- database as it was on one that is, and for an update of no tracked column. Else it adds one event
-- with the next sequence and a later time than the stored one, which tells the write and passes the
-- check of the peers that receive it, and changes nothing but the log and the local state.
pub fire_lem :
    (same : Str → Value → Value → Bool) (c : Call) (self : Origin) (db : Db)
    → HasOwnHistory self db
    → is_empty self.node_id ≡ false
    → is_empty self.incarnation_id ≡ false
    → is_empty c.spec.name ≡ false
    → is_empty (row_of c.write) ≡ false
    → let r = fire same c.spec c.applying c.now c.change_id c.write db in
      ((r ≡ err immutable_id) × (c.applying ≡ false) × IsRenaming c.write)
      ⊎ (((r ≡ ok db) × ((c.applying ≡ true) ⊎ IsUnchanged same c.spec c.write))
          ⊎ ((e : Event) × (st st' : LocalState) × (db.local_state ≡ some st)
              × (r ≡ ok (record db { local_state = some st'; log = e ∷ db.log }))
              × (c.applying ≡ false)
              × IsWritten same c.spec c.write e
              × (e.table ≡ c.spec.name)
              × (e.row_id ≡ row_of c.write)
              × (e.origin ≡ self)
              × (e.origin_seq ≡ st.current_seq + 1)
              × (compare_hlc e.hlc st.hlc ≡ greater)
              × (validate e ≡ ok tt)))
fire_lem same c self db h n i t w =
    elim (fire_cases same c.spec c.applying c.now c.change_id c.write h.state db h.stored
      h.history) [
        | inl e ↦ inr (inl e)
        | inr (inl e) ↦ inl e
        | inr (inr (e, db', r, row, call, live, told)) ↦ inr (
            inr (
              e,
              h.state,
              allocate c.now h.state,
              h.stored,
              r ∙ ap ok call.logged.result,
              live,
              told,
              call.table,
              row,
              call.logged.origin ∙ h.identity,
              call.logged.seq ∙ allocate_next c.now h.state,
              ap (λ t. compare_hlc t h.state.hlc) call.logged.time ∙ allocate_later c.now h.state,
              IsCall-validate c.spec c.now h.state e db db'
                  (ap (λ o. is_empty o.node_id) h.identity ∙ n)
                  (ap (λ o. is_empty o.incarnation_id) h.identity ∙ i) t (ap is_empty row ∙ w) call,
            ))
      ]
