-- ===== src/Triggers/Firing.antt =====
-- What the generated triggers do on each branch.
use mariamesh.Base.{
  ℕ, ◌≡◌, ◌≢◌, ◌⊎◌, inl, inr, refl, ap, ◌∙◌, Bool, true, false, not, ◌&&◌, if◌then◌else◌, Str,
  Str-discrete, List, [], ◌∷◌, Map, lookup, some, none, ok, err, All, Bool-cases, arith,
}
use mariamesh.Changelog.{
  Event, Operation, op_insert, op_update, op_delete, is_empty, is_valid_op, is_delete,
}
use mariamesh.Changelog.Payload.{Value}
use mariamesh.Changelog.Vector.{contains}
use mariamesh.Store.Tables.{Db, LocalState, Row}
use mariamesh.Triggers.{
  TableSpec, immutable_id, log_change, all_values, changed_values, column_value, Write, inserted,
  updated, deleted, fire,
}
use mariamesh.Triggers.LocalLog.{IsOwnHistory, IsLogged, log_change-IsLogged}

-- A write that is logged: one new event of the log, which the write describes.
pub record IsCall (spec : TableSpec) (now : ℕ) (st : LocalState) (e : Event) (db db' : Db)
    : Type 0 where
  pub logged : IsLogged st now e db db'
  pub table : e.table ≡ spec.name
  pub operation : is_valid_op e.op ≡ true
  pub payload : (is_delete e.op ≡ false) ⊎ (e.payload ≡ [])

log_change-IsCall :
    (now : ℕ) (cid : Str) (spec : TableSpec) (id : Str) (op : Operation) (p : Map Str Value)
    (st : LocalState) (db : Db)
    → db.local_state ≡ some st
    → IsOwnHistory st db.log
    → is_valid_op op ≡ true
    → (is_delete op ≡ false) ⊎ (p ≡ [])
    → (e : Event) × (db' : Db) × (log_change now cid spec id op p db ≡ ok db')
      × (e.row_id ≡ id)
      × IsCall spec now st e db db'
      × (e.op ≡ op)
      × (e.payload ≡ p)
log_change-IsCall now cid spec id op p st db s inv v d =
    let (e, db', r, t, i, o, q, l) = log_change-IsLogged now cid spec id op p st db s inv in
    (
      e,
      db',
      r,
      i,
      record {
        logged = l;
        table = t;
        operation = ap is_valid_op o ∙ v;
        payload = elim d [ inl x ↦ inl (ap is_delete o ∙ x) | inr x ↦ inr (q ∙ x) ];
      },
      o,
      q,
    )

abbrev pub row_of : Write → Str
row_of (inserted id new) = id
row_of (updated old_id old new_id new) = new_id
row_of (deleted id) = id

-- The writes that change an identifier.
abbrev pub IsRenaming : Write → Type 0
IsRenaming (updated old_id old new_id new) = old_id ≢ new_id
IsRenaming _ = ⊥

-- The updates that change neither the identifier nor a tracked column.
abbrev pub IsUnchanged : (Str → Value → Value → Bool) → TableSpec → Write → Type 0
IsUnchanged same spec (updated old_id old new_id new) =
    (old_id ≡ new_id)
    × All (λ c. same c (column_value c old) (column_value c new) ≡ true) spec.columns
IsUnchanged same spec _ = ⊥

-- The event tells the write: all tracked columns of an insert, those that an update changes, at least
-- one, and nothing of a delete.
abbrev pub IsWritten : (Str → Value → Value → Bool) → TableSpec → Write → Event → Type 0
IsWritten same spec (inserted id new) e =
    (e.op ≡ op_insert)
    × ((k : Str)
        → lookup Str-discrete k e.payload
          ≡ (if contains k spec.columns then some (column_value k new) else none))
IsWritten same spec (updated old_id old new_id new) e =
    (e.op ≡ op_update)
    × (old_id ≡ new_id)
    × (is_empty e.payload ≡ false)
    × ((k : Str)
        → lookup Str-discrete k e.payload ≡ (
            if contains k spec.columns && not (same k (column_value k old) (column_value k new))
            then some (column_value k new)
            else none))
IsWritten same spec (deleted id) e = (e.op ≡ op_delete) × (e.payload ≡ [])

lookup-all_values :
    (k : Str) (cs : List Str) (new : Row)
    → lookup Str-discrete k (all_values cs new)
      ≡ (if contains k cs then some (column_value k new) else none)
unfolding all_values
lookup-all_values k [] new = refl
lookup-all_values k (c ∷ cs) new = ground (arith, lookup-all_values k cs new)

lookup-changed_values :
    (same : Str → Value → Value → Bool) (k : Str) (cs : List Str) (old new : Row)
    → lookup Str-discrete k (changed_values same cs old new) ≡ (
        if contains k cs && not (same k (column_value k old) (column_value k new))
        then some (column_value k new)
        else none)
unfolding changed_values
lookup-changed_values same k [] old new = refl
lookup-changed_values same k (c ∷ cs) old new =
    ground (arith, lookup-changed_values same k cs old new)

changed_values-unchanged :
    (same : Str → Value → Value → Bool) (cs : List Str) (old new : Row)
    → is_empty (changed_values same cs old new) ≡ true
    → All (λ c. same c (column_value c old) (column_value c new) ≡ true) cs
unfolding changed_values
changed_values-unchanged same [] old new h = tt
changed_values-unchanged same (c ∷ cs) old new h =
    elim (Bool-cases (same c (column_value c old) (column_value c new))) [
      | inl e ↦ (e, changed_values-unchanged same cs old new (ground arith))
      | inr e ↦ ground arith
    ]

-- What a trigger does: nothing, a rejection of a changed identifier, or one new event.
pub fire_cases :
    (same : Str → Value → Value → Bool) (spec : TableSpec) (applying : Bool) (now : ℕ) (cid : Str)
    (w : Write) (st : LocalState) (db : Db)
    → db.local_state ≡ some st
    → IsOwnHistory st db.log
    → ((fire same spec applying now cid w db ≡ ok db)
        × ((applying ≡ true) ⊎ IsUnchanged same spec w))
      ⊎ (((fire same spec applying now cid w db ≡ err immutable_id)
            × (applying ≡ false)
            × IsRenaming w)
          ⊎ ((e : Event) × (db' : Db) × (fire same spec applying now cid w db ≡ ok db')
              × (e.row_id ≡ row_of w)
              × IsCall spec now st e db db'
              × (applying ≡ false)
              × IsWritten same spec w e))
unfolding fire
fire_cases same spec true now cid w st db s inv = inl (refl, inl refl)
fire_cases same spec false now cid (inserted id new) st db s inv =
    let (e, db', r, i, l, o, p) =
      log_change-IsCall now cid spec id op_insert _ st db s inv refl (inl refl) in
    let told = λ (k : Str). ap (lookup Str-discrete k) p ∙ lookup-all_values k spec.columns new in
    inr (inr (e, db', r, i, l, refl, (o, told)))
fire_cases same spec false now cid (updated old_id old new_id new) st db s inv =
    let changes = changed_values same spec.columns old new in
    elim (Str-discrete old_id new_id) [
      | no n ↦ inr (inl (ground arith, refl, n))
      | yes y ↦ elim (Bool-cases (is_empty changes)) [
        | inl b ↦ inl (ground arith, inr (y, changed_values-unchanged same spec.columns old new b))
        | inr b ↦
            let (e, db', r, i, l, o, p) =
              log_change-IsCall now cid spec new_id op_update changes st db s inv refl (inl refl) in
            let told = λ (k : Str).
              ap (lookup Str-discrete k) p ∙ lookup-changed_values same k spec.columns old new in
            inr (inr (e, db', ground (arith, r), i, l, refl, (o, y, ap is_empty p ∙ b, told)))
      ]
    ]
fire_cases same spec false now cid (deleted id) st db s inv =
    let (e, db', r, i, l, o, p) =
      log_change-IsCall now cid spec id op_delete [] st db s inv refl (inr refl) in
    inr (inr (e, db', r, i, l, refl, (o, p)))
