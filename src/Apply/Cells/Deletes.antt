-- ===== src/Apply/Cells/Deletes.antt =====
-- `applyRow` for a delete, and deletes against writes.
use mariamesh.Base.{
  ◌≡◌, ◌≢◌, inl, inr, some, none, true, false, arith, Str, [], ◌∷◌, Map, lookup-insert,
  lookup-erase, if◌then◌else◌, ite, Option-cases,
}
use mariamesh.Apply.{
  TableApply, beats, upsert_row, write_winners, apply_write, apply_delete, find_winners,
}
use mariamesh.Apply.Cells.{get_value, merge}
use mariamesh.Apply.Cells.Writes.{
  payload_value, merge_payload, cell-apply_write, set_versions_others,
}
use mariamesh.Changelog.Payload.{Value}
use mariamesh.Conflict.{Version, wins}
use mariamesh.Conflict.Order.{wins_total, wins_asym, wins_trans}
use mariamesh.Store.Tables.{Db, RowKey, RowKey-discrete}
use mariamesh.Store.Versions.{get_field_version, get_tombstone}

-- A delete that is not older than the tombstone removes the row's values and stores its version as
-- the tombstone; an older one changes nothing. Other rows and all field versions stay.
pub apply_delete_lem :
    (r q : RowKey) (v : Version) (col : Str) (db : Db)
    → (get_value q col (apply_delete r v db).1 ≡ (
        if beats v (get_tombstone r db)
        then ite (RowKey-discrete q r) none (get_value q col db)
        else get_value q col db))
      × (get_tombstone q (apply_delete r v db).1 ≡ (
          if beats v (get_tombstone r db)
          then ite (RowKey-discrete q r) (some v) (get_tombstone q db)
          else get_tombstone q db))
      × (get_field_version q col (apply_delete r v db).1 ≡ get_field_version q col db)
unfolding apply_delete
apply_delete_lem r q v col db = ground (
  arith,
  lookup-erase RowKey-discrete q r db.rows,
  lookup-insert RowKey-discrete q r v db.tombstones,
)

write_winners-tombstone :
    (r : RowKey) (v : Version) (w : Map Str Value) (db : Db)
    → get_tombstone r db ≡ none
    → get_tombstone r (write_winners r v w db).1 ≡ none
unfolding write_winners upsert_row
write_winners-tombstone r v [] db h = h
write_winners-tombstone r v (e ∷ w) db h =
    ground (arith, set_versions_others r v (e ∷ w) (upsert_row r (e ∷ w) db))

apply_write-tombstone :
    (spec : TableApply) (r : RowKey) (v : Version) (p : Map Str Value) (db : Db)
    → get_tombstone r db ≡ none
    → get_tombstone r (apply_write spec r v p db).1 ≡ none
unfolding apply_write
apply_write-tombstone spec r v p db h =
    ground (arith, write_winners-tombstone r v (find_winners spec r v db p) db h)

module _ (spec : TableApply) (r : RowKey) (d w : Version) (col : Str) (p : Map Str Value)
    (db : Db) where
  -- On a row without a tombstone, a write that is not newer than the row's delete leaves the database
  -- as the delete did: an offline node cannot bring the row back with old writes.
  pub no_resurrection :
      get_tombstone r db ≡ none
      → wins w d ≡ false
      → apply_write spec r w p (apply_delete r d db).1 ≡ (false, (apply_delete r d db).1)
  unfolding apply_write
  no_resurrection t old = ground (arith, apply_delete_lem r r d col db)

  -- A delete and a newer write of the same fresh row do not commute. If the delete arrives first, the
  -- write brings the row back with the written value; if the write arrives first, the older delete
  -- removes the row.
  pub delete_write_diverge :
      {x : Value}
      → get_tombstone r db ≡ none
      → get_field_version r col db ≡ none
      → payload_value spec col p ≡ some x
      → wins w d ≡ true
      → (get_value r col (apply_write spec r w p (apply_delete r d db).1).1 ≡ some x)
        × (get_value r col (apply_delete r d (apply_write spec r w p db).1).1 ≡ none)
  unfolding merge merge_payload
  delete_write_diverge t f v newer = ground (
    arith,
    apply_delete_lem r r d col db,
    cell-apply_write spec r r w col p (apply_delete r d db).1,
    apply_write-tombstone spec r w p db t,
    apply_delete_lem r r d col (apply_write spec r w p db).1,
  )

-- Deletes of the same row with different versions leave the same values and the same tombstones in
-- either order.
pub delete_comm :
    (r q : RowKey) (a b : Version) (col : Str) (db : Db)
    → a ≢ b
    → (get_value q col (apply_delete r a (apply_delete r b db).1).1
        ≡ get_value q col (apply_delete r b (apply_delete r a db).1).1)
      × (get_tombstone q (apply_delete r a (apply_delete r b db).1).1
          ≡ get_tombstone q (apply_delete r b (apply_delete r a db).1).1)
delete_comm r q a b col db ne =
    let first = apply_delete_lem r r b col db in
    let first' = apply_delete_lem r q b col db in
    let other = apply_delete_lem r r a col db in
    let other' = apply_delete_lem r q a col db in
    let second = apply_delete_lem r q a col (apply_delete r b db).1 in
    let second' = apply_delete_lem r q b col (apply_delete r a db).1 in
    elim (Option-cases (get_tombstone r db)) [
      | inl e ↦ ground (arith, wins_total a b ne, wins_asym a b, wins_asym b a)
      | inr (s, e) ↦ ground (
        arith,
        wins_total a b ne,
        wins_asym a b,
        wins_asym b a,
        wins_trans a b s,
        wins_trans b a s,
      )
    ]
