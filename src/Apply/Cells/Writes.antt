-- ===== src/Apply/Cells/Writes.antt =====
-- `applyRow` for an insert or an update, cell by cell.
use mariamesh.Base.{
  ◌≡◌, inl, inr, some, none, false, arith, refl, Str, Str-discrete, [], ◌∷◌, Map, lookup,
  lookup-insert, Option, if◌then◌else◌, ite, Option-cases, to_lower,
}
use mariamesh.Apply.{
  TableApply, Tables, beats, find_winners, assign, upsert_row, set_versions, write_winners,
  apply_write, apply_row, row_or_empty, version_of,
}
use mariamesh.Apply.Cells.{Cell, cell, merge}
use mariamesh.Changelog.{Event, is_delete}
use mariamesh.Changelog.Payload.{Value, normalize_value}
use mariamesh.Changelog.Vector.{contains}
use mariamesh.Conflict.{Version}
use mariamesh.Store.Tables.{Db, Row, RowKey, RowKey-discrete, FieldKey-discrete}
use mariamesh.Store.Versions.{get_field_version, get_tombstone, set_field_version, field_key}

-- The value that a payload has for a column, where the column is registered.
unfoldable pub payload_value : TableApply → Str → Map Str Value → Option Value
payload_value spec col p =
    if contains col spec.columns
    then (elim (lookup Str-discrete col p) [ none ↦ none | some x ↦ some (normalize_value x) ])
    else none

lookup-find_winners :
    (spec : TableApply) (r : RowKey) (v : Version) (db : Db) (col : Str) (p : Map Str Value)
    → lookup Str-discrete col (find_winners spec r v db p)
      ≡ (if beats v (get_field_version r col db) then payload_value spec col p else none)
unfolding find_winners payload_value
lookup-find_winners spec r v db col [] = ground arith
lookup-find_winners spec r v db col ((c, x) ∷ p) = ground (
  arith,
  lookup-find_winners spec r v db col p,
  lookup-insert Str-discrete col c (normalize_value x) (find_winners spec r v db p),
)

lookup-assign :
    (col : Str) (w : Map Str Value) (row : Row)
    → lookup Str-discrete col (assign w row)
      ≡ (elim (lookup Str-discrete col w) [ none ↦ lookup Str-discrete col row | some x ↦ some x ])
unfolding assign
lookup-assign col [] row = refl
lookup-assign col ((c, x) ∷ w) row =
    ground (arith, lookup-assign col w row, lookup-insert Str-discrete col c x (assign w row))

field_key-injective : (r q : RowKey) (c d : Str) → field_key r c ≡ field_key q d → (r ≡ q) × (c ≡ d)
field_key-injective r q c d h = ground arith

get_field_version-set :
    (r q : RowKey) (c d : Str) (v : Version) (db : Db)
    → get_field_version q d (set_field_version r c v db)
      ≡ ite
          (RowKey-discrete q r)
          (ite (Str-discrete d c) (some v) (get_field_version q d db))
          (get_field_version q d db)
get_field_version-set r q c d v db = ground (
  arith,
  lookup-insert FieldKey-discrete (field_key q d) (field_key r c) v db.field_versions,
  field_key-injective q r d c,
)

get_field_version-set_versions :
    (r q : RowKey) (v : Version) (col : Str) (w : Map Str Value) (db : Db)
    → get_field_version q col (set_versions r v w db) ≡ (elim (lookup Str-discrete col w) [
      | none ↦ get_field_version q col db
      | some x ↦ ite (RowKey-discrete q r) (some v) (get_field_version q col db)
    ])
unfolding set_versions
get_field_version-set_versions r q v col [] db = refl
get_field_version-set_versions r q v col ((c, x) ∷ w) db = ground (
  arith,
  get_field_version-set_versions r q v col w db,
  get_field_version-set r q c col v (set_versions r v w db),
)

-- `set_versions` touches one table only.
pub set_versions_others :
    (r : RowKey) (v : Version) (w : Map Str Value) (db : Db)
    → ((set_versions r v w db).rows ≡ db.rows)
      × ((set_versions r v w db).tombstones ≡ db.tombstones)
unfolding set_versions
set_versions_others r v [] db = (refl, refl)
set_versions_others r v ((c, x) ∷ w) db = set_versions_others r v w db

-- What a write of version `v` makes of a cell, where its payload has a value for it.
unfoldable pub merge_payload : Version → Option Value → Cell → Cell
merge_payload v none c = c
merge_payload v (some x) c = merge v x c

cell-write_winners :
    (r q : RowKey) (v : Version) (col : Str) (w : Map Str Value) (db : Db)
    → cell q col (write_winners r v w db).1 ≡ (elim (lookup Str-discrete col w) [
      | none ↦ cell q col db
      | some x ↦
          ite (RowKey-discrete q r) (record { version = some v; value = some x }) (cell q col db)
    ])
unfolding write_winners upsert_row
cell-write_winners r q v col [] db = refl
cell-write_winners r q v col (e ∷ w) db = ground (
  arith,
  get_field_version-set_versions r q v col (e ∷ w) (upsert_row r (e ∷ w) db),
  set_versions_others r v (e ∷ w) (upsert_row r (e ∷ w) db),
  lookup-insert RowKey-discrete q r
      (assign (e ∷ w) (row_or_empty (lookup RowKey-discrete r db.rows))) db.rows,
  lookup-assign col (e ∷ w) (row_or_empty (lookup RowKey-discrete r db.rows)),
)

-- A write that is not older than the row's tombstone is merged into the cells of its row that its
-- payload has a registered column for, and changes no other cell. An older one changes none.
pub cell-apply_write :
    (spec : TableApply) (r q : RowKey) (v : Version) (col : Str) (p : Map Str Value) (db : Db)
    → cell q col (apply_write spec r v p db).1 ≡ (
        if beats v (get_tombstone r db)
        then ite
            (RowKey-discrete q r)
            (merge_payload v (payload_value spec col p) (cell q col db))
            (cell q col db)
        else cell q col db)
unfolding apply_write merge_payload merge
cell-apply_write spec r q v col p db = ground (
  arith,
  cell-write_winners r q v col (find_winners spec r v db p) db,
  lookup-find_winners spec r v db col p,
)

write_winners-tombstones :
    (r : RowKey) (v : Version) (w : Map Str Value) (db : Db)
    → db.tombstones ≡ []
    → (write_winners r v w db).1.tombstones ≡ []
unfolding write_winners upsert_row
write_winners-tombstones r v [] db h = h
write_winners-tombstones r v (e ∷ w) db h =
    ground (arith, set_versions_others r v (e ∷ w) (upsert_row r (e ∷ w) db))

apply_write-tombstones :
    (spec : TableApply) (r : RowKey) (v : Version) (p : Map Str Value) (db : Db)
    → db.tombstones ≡ []
    → (apply_write spec r v p db).1.tombstones ≡ []
unfolding apply_write
apply_write-tombstones spec r v p db h =
    ground (arith, write_winners-tombstones r v (find_winners spec r v db p) db h)

-- The value that a write event has for a cell, if any.
unfoldable pub incoming : Tables → RowKey → Str → Event → Option Value
incoming tables q col e = elim (lookup Str-discrete (to_lower e.table) tables) [
  | none ↦ none
  | some spec ↦
      ite (RowKey-discrete q (record { table = spec.name; row_id = e.row_id }))
        (payload_value spec col e.payload) none
]

-- What a write event makes of a cell.
abbrev pub step : Tables → RowKey → Str → Event → Cell → Cell
step tables q col e c = merge_payload (version_of e) (incoming tables q col e) c

pub cell-apply_row :
    (tables : Tables) (e : Event) (q : RowKey) (col : Str) (db : Db)
    → is_delete e.op ≡ false
    → db.tombstones ≡ []
    → (cell q col (apply_row tables e db).1 ≡ step tables q col e (cell q col db))
      × ((apply_row tables e db).1.tombstones ≡ [])
unfolding apply_row merge_payload incoming
cell-apply_row tables e q col db w t =
    elim (Option-cases (lookup Str-discrete (to_lower e.table) tables)) [
      | inl h ↦ ground arith
      | inr (spec, h) ↦
          let r : RowKey = record { table = spec.name; row_id = e.row_id } in
          ground (
            arith,
            cell-apply_write spec r q (version_of e) col e.payload db,
            apply_write-tombstones spec r (version_of e) e.payload db t,
          )
    ]
