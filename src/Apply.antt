-- ===== src/Apply.antt =====
-- internal/apply/apply.go: the apply engine. A batch runs in one transaction, so it is a function
-- from the database to the new one or an error. SQL statements that MariaDB itself fails are not
-- modelled. Each event comes with the wall time that `Clock.Update` reads for it.
pub mod Cells
pub mod Batches
pub mod Commit
pub mod Delivered
pub mod Redelivery
use mariamesh.Base.{
  ℕ, ◌+◌, Bool, true, false, ◌&&◌, not, if◌then◌else◌, ite, Str, Str-discrete, to_lower, List, [],
  ◌∷◌, Map, lookup, insert, erase, Option, none, some, Result, ok, err, ◌>>=◌, ◌>>◌, suc,
}
use mariamesh.Changelog.{
  Origin, Event, Operation, key, op_insert, op_update, op_delete, other, validate, is_delete,
}
use mariamesh.Changelog.Payload.{Value, normalize_value}
use mariamesh.Changelog.Vector.{Vector, contains}
use mariamesh.Clock.{Clock, load, update}
use mariamesh.Conflict.{Version, wins}
use mariamesh.Store.LocalState.{save_hlc}
use mariamesh.Store.Log.{insert_event, lift_invalid}
use mariamesh.Store.Nodes.{check_incarnation}
use mariamesh.Store.Progress.{advance_contiguous, local_vector}
use mariamesh.Store.Progress.Contiguous.{max_seq}
use mariamesh.Store.Tables.{Db, Error, Row, RowKey, RowKey-discrete}
use mariamesh.Store.Versions.{
  get_field_version, set_field_version, get_tombstone, set_tombstone, clear_tombstone,
}

-- `TableApply`
pub record TableApply : Type 0 where
  pub name : Str
  pub id_column : Str
  pub columns : List Str

-- The table registry, by lower-case name.
abbrev pub Tables : Type 0
Tables = Map Str TableApply

-- `versionOf`
abbrev pub version_of : Event → Version
version_of e = record { hlc = e.hlc; origin_id = e.origin.node_id; origin_seq = e.origin_seq }

-- The incoming write beats what is stored, or nothing is stored.
abbrev pub beats : Version → Option Version → Bool
beats v none = true
beats v (some stored) = wins v stored

-- The loop over the payload that fills `winners`.
unfoldable pub find_winners : TableApply → RowKey → Version → Db → Map Str Value → Map Str Value
find_winners spec r v db [] = []
find_winners spec r v db ((col, val) ∷ payload) =
    let rest = find_winners spec r v db payload in
    if contains col spec.columns && beats v (get_field_version r col db)
    then insert Str-discrete col (normalize_value val) rest
    else rest

-- `deleteRow`
abbrev pub delete_row : RowKey → Db → Db
delete_row r db = record db { rows = erase RowKey-discrete r db.rows }

-- The assignments of the columns, on a new or an old row.
unfoldable pub assign : Map Str Value → Row → Row
assign [] row = row
assign ((col, val) ∷ winners) row = insert Str-discrete col val (assign winners row)

abbrev pub row_or_empty : Option Row → Row
row_or_empty none = []
row_or_empty (some row) = row

-- `upsertRow`
unfoldable pub upsert_row : RowKey → Map Str Value → Db → Db
upsert_row r winners db = record db {
  rows =
      insert RowKey-discrete r (assign winners (row_or_empty (lookup RowKey-discrete r db.rows)))
        db.rows;
}

-- The loop that records the winners' versions.
unfoldable pub set_versions : RowKey → Version → Map Str Value → Db → Db
set_versions r v [] db = db
set_versions r v ((col, val) ∷ winners) db = set_field_version r col v (set_versions r v winners db)

-- `applyRow` for a delete.
unfoldable pub apply_delete : RowKey → Version → Db → Bool × Db
apply_delete r v db =
    if beats v (get_tombstone r db)
    then (true, set_tombstone r v (delete_row r db))
    else (false, db)

-- `hasTomb`
abbrev pub has_tombstone : RowKey → Db → Bool
has_tombstone r db = elim (get_tombstone r db) [ none ↦ false | some _ ↦ true ]

-- The end of `applyRow` for an insert or an update: what is done with the winners.
unfoldable pub write_winners : RowKey → Version → Map Str Value → Db → Bool × Db
write_winners r v [] db = (false, db)
write_winners r v (w ∷ winners) db =
    let db' = set_versions r v (w ∷ winners) (upsert_row r (w ∷ winners) db) in
    (true, if has_tombstone r db then clear_tombstone r db' else db')

-- `applyRow` for an insert or an update.
unfoldable pub apply_write : TableApply → RowKey → Version → Map Str Value → Db → Bool × Db
apply_write spec r v payload db =
    if beats v (get_tombstone r db)
    then write_winners r v (find_winners spec r v db payload) db
    else (false, db)

-- `applyRow`: whether a row was written, and the database.
unfoldable pub apply_row : Tables → Event → Db → Bool × Db
apply_row tables e db = elim (lookup Str-discrete (to_lower e.table) tables) [
  | none ↦ (false, db)
  | some spec ↦
      let r : RowKey = record { table = spec.name; row_id = e.row_id } in
      if is_delete e.op
      then apply_delete r (version_of e) db
      else apply_write spec r (version_of e) e.payload db
]

-- The variables of the loop in `ApplyBatch`.
pub record Batch : Type 0 where
  pub db : Db
  pub touched : Map Str Origin
  pub stored : ℕ
  pub written : ℕ

-- The part of the loop's body after `InsertEvent`.
unfoldable pub note_event : Tables → Event → Bool × Db → Batch → Batch
note_event tables e (inserted, db) b =
    let touched = insert Str-discrete (key e.origin) e.origin b.touched in
    let (wrote, db') = apply_row tables e db in
    if inserted
    then record {
      db = db';
      touched = touched;
      stored = b.stored + 1;
      written = if wrote then b.written + 1 else b.written;
    }
    else record b { db = db; touched = touched }

-- The body of the loop in `ApplyBatch`: whether the event was new, and the loop's variables.
unfoldable pub apply_event : Tables → Event → Batch → Result Error (Bool × Batch)
apply_event tables e b = do
  lift_invalid (validate e)
  check_incarnation e.origin.node_id e.origin.incarnation_id b.db
  stored ← insert_event e b.db
  ok (stored.0, note_event tables e stored b)

-- The loop of `ApplyBatch`. The clock has observed the new events even where a later one fails.
unfoldable pub apply_events : Tables → List (ℕ × Event) → Clock → Batch → Clock × Result Error Batch
apply_events tables [] c b = (c, ok b)
apply_events tables ((wall, e) ∷ es) c b = elim (apply_event tables e b) [
  | err x ↦ (c, err x)
  | ok (new, b') ↦ apply_events tables es (if new then update wall e.hlc c else c) b'
]

-- The loop over `touched`; `none` is exhausted fuel.
unfoldable pub advance_all : Origin → Map Str Origin → Db → Option (Result Error Db)
advance_all self [] db = some (ok db)
advance_all self ((k, o) ∷ touched) db =
    elim (advance_contiguous (suc (max_seq db.log)) self o db) [
      | none ↦ none
      | some (err x) ↦ some (err x)
      | some (ok (n, db')) ↦ advance_all self touched db'
    ]

-- `Result`
pub record ApplyResult : Type 0 where
  pub stored : ℕ
  pub written : ℕ
  pub vector : Vector

-- What `ApplyBatch` does after its loop.
unfoldable pub finish_batch :
    Origin → Clock → Result Error Batch → Option (Result Error (ApplyResult × Db))
finish_batch self c (err x) = some (err x)
finish_batch self c (ok b) = elim (advance_all self b.touched (save_hlc (load c) b.db)) [
  | none ↦ none
  | some (err x) ↦ some (err x)
  | some (ok db) ↦
      some
        (ok (record { stored = b.stored; written = b.written; vector = local_vector self db }, db))
]

-- `ApplyBatch`: the clock, and the result with the committed database, or an error, after which the
-- database is as it was.
unfoldable pub apply_batch :
    Tables
    → Origin
    → List (ℕ × Event)
    → Clock
    → Db
    → Clock × Option (Result Error (ApplyResult × Db))
unfolding apply_events finish_batch
apply_batch tables self [] c db =
    (c, some (ok (record { stored = 0; written = 0; vector = local_vector self db }, db)))
apply_batch tables self (e ∷ es) c db =
    let (c', r) =
      apply_events tables (e ∷ es) c (record { db = db; touched = []; stored = 0; written = 0 }) in
    (c', finish_batch self c' r)
