-- ===== src/Seed/Target/LoadedTable.antt =====
-- What the frames of a table leave in a target that had no versions and no tombstones.
use mariamesh.Base.{◌≡◌, ap, ◌∙◌, Str, [], lookup, none, some, Option-cases, ok, arith}
use mariamesh.Seed.{Driver, Table}
use mariamesh.Seed.Source.{table_rows}
use mariamesh.Seed.Target.{Transfer, load_all, load_version, load_tombstone}
use mariamesh.Seed.Target.Loaded.{load_table}
use mariamesh.Seed.Target.Rows.{IsAssigned, feed-untouched, feed-IsAssigned, rows-load_all}
use mariamesh.Seed.Target.Contents.{
  IsKeyed, load_version-all_field_versions, load_tombstone-all_tombstones,
}
use mariamesh.Seed.Target.Steps.{
  HasCodec, feed-table_rows, feed-SameMeta, tombstones-load_versions,
  field_versions-load_tombstones,
}
use mariamesh.Store.Tables.{Db, Row, RowKey, RowKey-discrete, FieldKey, FieldKey-discrete}
use mariamesh.Store.Versions.{all_field_versions, all_tombstones}

-- What a table's frames leave: the fields and tombstones of the table in an empty target.
pub record HasTable (d : Driver) (table spec : Table) (view old db : Db) : Type 0 where
  pub fields :
      (k : FieldKey)
      → k.table ≡ table.name
      → lookup FieldKey-discrete k db.field_versions
        ≡ lookup FieldKey-discrete k view.field_versions
  pub tombs :
      (k : RowKey)
      → k.table ≡ table.name
      → lookup RowKey-discrete k db.tombstones ≡ lookup RowKey-discrete k view.tombstones
  pub values :
      (id : Str) (row : Row)
      → lookup RowKey-discrete (record { table = table.name; row_id = id }) view.rows ≡ some row
      → IsAssigned d spec id table row db
  pub absent :
      (id : Str)
      → lookup RowKey-discrete (record { table = table.name; row_id = id }) view.rows ≡ none
      → lookup RowKey-discrete (record { table = spec.name; row_id = id }) db.rows
        ≡ lookup RowKey-discrete (record { table = spec.name; row_id = id }) old.rows

pub load_table-HasTable :
    (d : Driver) (spec table : Table) (view : Db) (s : Transfer)
    → HasCodec d
    → IsKeyed FieldKey-discrete view.field_versions
    → IsKeyed RowKey-discrete view.tombstones
    → IsKeyed RowKey-discrete view.rows
    → s.db.field_versions ≡ []
    → s.db.tombstones ≡ []
    → (s' : Transfer) × (load_table d spec table view s ≡ ok s')
      × HasTable d table spec view s.db s'.db
unfolding load_table
load_table-HasTable d spec table view s b uf ut ur ef et =
    let rows = feed-table_rows d spec table view.rows s b in
    let s1 = rows.0 in
    let meta = feed-SameMeta d spec (table_rows d table view.rows) s s1 rows.1 in
    let versions = all_field_versions table.name view.field_versions in
    let tombs = all_tombstones table.name view.tombstones in
    let s2 = load_all (load_version table.name) versions s1 in
    let s3 = load_all (load_tombstone table.name) tombs s2 in
    (
      s3,
      ground (arith, rows.1),
      record {
        fields = λ k e. ground (
          arith,
          field_versions-load_tombstones table.name tombs s2,
          load_version-all_field_versions table.name view.field_versions s1 k uf,
          meta.field_versions,
          Option-cases (lookup FieldKey-discrete k view.field_versions),
        );
        tombs = λ k e. ground (
          arith,
          load_tombstone-all_tombstones table.name view.tombstones s2 k ut,
          tombstones-load_versions table.name versions s1,
          meta.tombstones,
          Option-cases (lookup RowKey-discrete k view.tombstones),
        );
        values = λ id row e.
            let (vals, old, p, q) =
              feed-IsAssigned d spec table view.rows s s1 id row ur rows.1 e in
            (
              vals,
              old,
              p,
              ap (lookup RowKey-discrete _) (rows-load_all table.name versions tombs s1) ∙ q,
            );
        absent = λ id e.
            ap (lookup RowKey-discrete _) (rows-load_all table.name versions tombs s1)
            ∙ feed-untouched d spec table view.rows s s1 id rows.1 e;
      },
    )
