-- ===== src/Apply/Cells.antt =====
-- What an event does to each cell: the value of a column of a row, with the version stored for it.
pub mod Merge
pub mod Writes
pub mod Orders
pub mod Deletes
use mariamesh.Base.{Str, Str-discrete, lookup, Option, none, some, if◌then◌else◌, ite}
use mariamesh.Apply.{TableApply, beats, row_or_empty}
use mariamesh.Changelog.Payload.{Value, Value-discrete}
use mariamesh.Conflict.{Version, Version-discrete}
use mariamesh.Store.Tables.{Db, RowKey, RowKey-discrete}
use mariamesh.Store.Versions.{get_field_version}

-- The value of a column of a row; `none` where the row or the column is absent.
abbrev pub get_value : RowKey → Str → Db → Option Value
get_value r col db = lookup Str-discrete col (row_or_empty (lookup RowKey-discrete r db.rows))

pub record Cell : Type 0 where
  pub version : Option Version
  pub value : Option Value

abbrev pub cell : RowKey → Str → Db → Cell
cell r col db = record { version = get_field_version r col db; value = get_value r col db }

pub Cell-set : IsSet Cell
Cell-set = hlevel (Value-discrete, Version-discrete)

-- Last write wins, on one cell.
unfoldable pub merge : Version → Value → Cell → Cell
merge v x c = if beats v c.version then record { version = some v; value = some x } else c
