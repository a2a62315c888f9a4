-- ===== src/Seed/Target/Contents.antt =====
-- The versions and tombstones that the loop over the frames of a table stores.
use mariamesh.Base.{
  ◌≡◌, ite, Str, Str-discrete, [], ◌∷◌, Map, lookup, lookup-insert, Option, none, some, arith,
}
use mariamesh.Conflict.{Version}
use mariamesh.Seed.Target.{Transfer, load_all, load_version, load_tombstone}
use mariamesh.Store.Tables.{RowKey, RowKey-discrete, FieldKey, FieldKey-discrete}
use mariamesh.Store.Versions.{all_field_versions, all_tombstones, VersionRow, TombstoneRow}

-- No key stands twice: a primary key.
abbrev pub IsKeyed {ℓ} : {K V : Type ℓ} → Discrete K → Map K V → Type ℓ
IsKeyed dec [] = Unit
IsKeyed dec ((k, v) ∷ m) = (lookup dec k m ≡ none) × IsKeyed dec m

-- The first value, or else the second.
abbrev pub or_else {ℓ} : {A : Type ℓ} → Option A → Option A → Option A
or_else none y = y
or_else (some x) y = some x

-- After the loop, a field of the table has the version of the source's table where it has one, and
-- else its old one; the fields of the other tables are as before.
pub load_version-all_field_versions :
    (table : Str) (m : Map FieldKey Version) (s : Transfer) (k : FieldKey)
    → IsKeyed FieldKey-discrete m
    → lookup FieldKey-discrete k
        (load_all (load_version table) (all_field_versions table m) s).db.field_versions
      ≡ ite
          (Str-discrete k.table table)
          (or_else (lookup FieldKey-discrete k m) (lookup FieldKey-discrete k s.db.field_versions))
          (lookup FieldKey-discrete k s.db.field_versions)
unfolding load_version all_field_versions
load_version-all_field_versions table [] s k u = ground arith
load_version-all_field_versions table ((j, v) ∷ m) s k u = elim (Str-discrete j.table table) [
  | yes e ↦
      let x : VersionRow = record { row_id = j.row_id; column = j.column; version = v } in
      ground (
        arith,
        load_version-all_field_versions table m (load_version table x s) k u.1,
        lookup-insert FieldKey-discrete k (record j { table = table }) v s.db.field_versions,
      )
  | no e ↦ ground (arith, load_version-all_field_versions table m s k u.1)
]

-- The same of the tombstones.
pub load_tombstone-all_tombstones :
    (table : Str) (m : Map RowKey Version) (s : Transfer) (k : RowKey)
    → IsKeyed RowKey-discrete m
    → lookup RowKey-discrete k
        (load_all (load_tombstone table) (all_tombstones table m) s).db.tombstones
      ≡ ite
          (Str-discrete k.table table)
          (or_else (lookup RowKey-discrete k m) (lookup RowKey-discrete k s.db.tombstones))
          (lookup RowKey-discrete k s.db.tombstones)
unfolding load_tombstone all_tombstones
load_tombstone-all_tombstones table [] s k u = ground arith
load_tombstone-all_tombstones table ((j, v) ∷ m) s k u = elim (Str-discrete j.table table) [
  | yes e ↦
      let x : TombstoneRow = record { row_id = j.row_id; version = v } in
      ground (
        arith,
        load_tombstone-all_tombstones table m (load_tombstone table x s) k u.1,
        lookup-insert RowKey-discrete k (record j { table = table }) v s.db.tombstones,
      )
  | no e ↦ ground (arith, load_tombstone-all_tombstones table m s k u.1)
]
