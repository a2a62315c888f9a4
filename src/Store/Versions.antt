-- ===== src/Store/Versions.antt =====
-- `replication_field_version` and `replication_tombstone` (internal/store/versions.go). A
-- `FieldVersion` has the fields of a `Version`.
use mariamesh.Base.{Str, Str-discrete, List, [], ◌∷◌, Map, lookup, insert, erase, Option, ite}
use mariamesh.Conflict.{Version}
use mariamesh.Store.Tables.{Db, RowKey, RowKey-discrete, FieldKey, FieldKey-discrete}

abbrev pub field_key : RowKey → Str → FieldKey
field_key r column = record { table = r.table; row_id = r.row_id; column = column }

-- One entry of the map that `GetFieldVersions` reads for a row.
abbrev pub get_field_version : RowKey → Str → Db → Option Version
get_field_version r column db = lookup FieldKey-discrete (field_key r column) db.field_versions

-- `SetFieldVersion`
abbrev pub set_field_version : RowKey → Str → Version → Db → Db
set_field_version r column v db = record db {
  field_versions = insert FieldKey-discrete (field_key r column) v db.field_versions;
}

-- `GetTombstone`
abbrev pub get_tombstone : RowKey → Db → Option Version
get_tombstone r db = lookup RowKey-discrete r db.tombstones

-- `SetTombstone`
abbrev pub set_tombstone : RowKey → Version → Db → Db
set_tombstone r v db = record db { tombstones = insert RowKey-discrete r v db.tombstones }

-- `ClearTombstone`
abbrev pub clear_tombstone : RowKey → Db → Db
clear_tombstone r db = record db { tombstones = erase RowKey-discrete r db.tombstones }

-- `VersionRow`
pub record VersionRow : Type 0 where
  pub row_id : Str
  pub column : Str
  pub version : Version

-- `TombstoneRow`
pub record TombstoneRow : Type 0 where
  pub row_id : Str
  pub version : Version

-- The rows of `AllFieldVersions` for a table, in the table's order.
unfoldable pub all_field_versions : Str → Map FieldKey Version → List VersionRow
all_field_versions table [] = []
all_field_versions table ((k, v) ∷ m) =
    let rest = all_field_versions table m in
    ite (Str-discrete k.table table)
      (record { row_id = k.row_id; column = k.column; version = v } ∷ rest) rest

-- The rows of `AllTombstones` for a table, in the table's order.
unfoldable pub all_tombstones : Str → Map RowKey Version → List TombstoneRow
all_tombstones table [] = []
all_tombstones table ((k, v) ∷ m) =
    let rest = all_tombstones table m in
    ite (Str-discrete k.table table) (record { row_id = k.row_id; version = v } ∷ rest) rest
