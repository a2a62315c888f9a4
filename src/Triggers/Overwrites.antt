-- ===== src/Triggers/Overwrites.antt =====
-- A local write and a remote one of the same field: the triggers store no version.
use mariamesh.Base.{
  ℕ, ◌≡◌, ap, Bool, true, false, Str, Str-discrete, Map, none, some, ok, inl, inr, Bool-cases,
  arith,
}
use mariamesh.Apply.{TableApply, apply_write}
use mariamesh.Apply.Cells.{get_value, merge}
use mariamesh.Apply.Cells.Writes.{payload_value, merge_payload, cell-apply_write}
use mariamesh.Changelog.{Operation, op_update, is_empty}
use mariamesh.Changelog.Payload.{Value}
use mariamesh.Conflict.{Version}
use mariamesh.Store.Tables.{Db, RowKey}
use mariamesh.Store.Versions.{get_field_version, get_tombstone}
use mariamesh.Triggers.{
  TableSpec, log_change, Write, inserted, updated, deleted, changed_values, fire,
}

-- The rows, versions and tombstones are the same.
record SameCells (a b : Db) : Type 0 where
  rows : a.rows ≡ b.rows
  field_versions : a.field_versions ≡ b.field_versions
  tombstones : a.tombstones ≡ b.tombstones

log_change-SameCells :
    (now : ℕ) (cid : Str) (spec : TableSpec) (id : Str) (op : Operation) (p : Map Str Value)
    (db db' : Db)
    → log_change now cid spec id op p db ≡ ok db'
    → SameCells db' db
unfolding log_change
log_change-SameCells now cid spec id op p db db' h = record {
  rows = ground arith;
  field_versions = ground arith;
  tombstones = ground arith;
}

fire-SameCells :
    (same : Str → Value → Value → Bool) (spec : TableSpec) (applying : Bool) (now : ℕ) (cid : Str)
    (w : Write) (db db' : Db)
    → fire same spec applying now cid w db ≡ ok db'
    → SameCells db' db
unfolding fire
fire-SameCells same spec true now cid w db db' h = record {
  rows = ground arith;
  field_versions = ground arith;
  tombstones = ground arith;
}
fire-SameCells same spec false now cid (inserted id new) db db' h =
    log_change-SameCells now cid spec id _ _ db db' h
fire-SameCells same spec false now cid (updated old_id old new_id new) db db' h =
    let changes = changed_values same spec.columns old new in
    elim (Str-discrete old_id new_id) [
      | no n ↦ ground arith
      | yes y ↦ elim (Bool-cases (is_empty changes)) [
        | inl b ↦
            let e : db' ≡ db = ground arith in
            record {
              rows = ap (λ d. d.rows) e;
              field_versions = ap (λ d. d.field_versions) e;
              tombstones = ap (λ d. d.tombstones) e;
            }
        | inr b ↦ log_change-SameCells now cid spec new_id op_update changes db db' (ground arith)
      ]
    ]
fire-SameCells same spec false now cid (deleted id) db db' h =
    log_change-SameCells now cid spec id _ _ db db' h

-- Where no version of a field and no tombstone of its row is stored, the trigger of a local write
-- stores none, so a remote write of the field that is applied after it replaces the field's value, at
-- whatever time either was made.
pub fire-apply_write :
    (same : Str → Value → Value → Bool) (spec : TableSpec) (applying : Bool) (now : ℕ) (cid : Str)
    (w : Write) (db db' : Db) (table : TableApply) (r : RowKey) (v : Version) (col : Str)
    (p : Map Str Value) (x : Value)
    → fire same spec applying now cid w db ≡ ok db'
    → get_field_version r col db ≡ none
    → get_tombstone r db ≡ none
    → payload_value table col p ≡ some x
    → get_value r col (apply_write table r v p db').1 ≡ some x
unfolding merge_payload merge
fire-apply_write same spec applying now cid w db db' table r v col p x h f t k =
    let kept = fire-SameCells same spec applying now cid w db db' h in
    let e = ap (λ c. c.value) (cell-apply_write table r r v col p db') in
    ground (arith, e, kept.field_versions, kept.tombstones, k)
