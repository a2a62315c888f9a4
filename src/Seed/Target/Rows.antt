-- ===== src/Seed/Target/Rows.antt =====
-- The rows that the frames of a table store, and the values in their columns.
use mariamesh.Base.{
  ◌≡◌, refl, ◌∙◌, true, Str, Str-discrete, List, [], ◌∷◌, map, Map, lookup, lookup-insert,
  lookup-insert_self, none, some, Result-cases, Result, ok, inl, inr, arith,
}
use mariamesh.Apply.{upsert_row, assign, row_or_empty}
use mariamesh.Apply.Cells.{get_value}
use mariamesh.Changelog.Payload.{Value}
use mariamesh.Changelog.Vector.{contains, contains-sort_strings, sort_strings}
use mariamesh.Seed.{
  Driver, Table, Wire, Bound, SeedError, SeedRow, receive_values, encode_value, decode_value,
}
use mariamesh.Seed.Digest.{sum_row}
use mariamesh.Seed.Source.{wire_values, table_rows}
use mariamesh.Seed.Target.{Transfer, load_all, load_version, load_tombstone, bind_values}
use mariamesh.Seed.Target.Contents.{IsKeyed}
use mariamesh.Seed.Target.Loading.{feed}
use mariamesh.Seed.Target.Loaded.{load_row}
use mariamesh.Seed.Target.Steps.{wire_at}
use mariamesh.Store.Tables.{Db, Row, RowKey, RowKey-discrete}
use mariamesh.Store.Versions.{VersionRow, TombstoneRow}

-- The values of a row as the target receives them.
abbrev pub sent : Driver → Table → Row → Map Str Wire
sent d table row = receive_values d (wire_values d table.name table.columns row)

abbrev pub bind_sent : Driver → Map Str Wire → Result SeedError (Map Str Value)
bind_sent d values = bind_values d (sort_strings (map (λ e. e.0) values)) values

contains-wire_values :
    (d : Driver) (table c : Str) (cs : List Str) (row : Row)
    → contains c (map (λ e. e.0) (receive_values d (wire_values d table cs row))) ≡ contains c cs
unfolding wire_values
contains-wire_values d table c [] row = refl
contains-wire_values d table c (j ∷ cs) row = ground (arith, contains-wire_values d table c cs row)

wire_at-wire_values :
    (d : Driver) (table c : Str) (cs : List Str) (row : Row)
    → contains c cs ≡ true
    → wire_at c (receive_values d (wire_values d table cs row))
      ≡ d.transmit (encode_value d (d.scan (lookup Str-discrete c row)) (d.is_binary table c))
unfolding wire_values
wire_at-wire_values d table c [] row h = cc
wire_at-wire_values d table c (j ∷ cs) row h = ground (arith, wire_at-wire_values d table c cs row)

-- A column that is bound has its decoded value, whatever the row had before.
bind_values-assign :
    (d : Driver) (c : Str) (ks : List Str) (values : Map Str Wire) (vals : Map Str Value)
    (row : Row)
    → bind_values d ks values ≡ ok vals
    → contains c ks ≡ true
    → (x : Bound) × (decode_value d (wire_at c values) ≡ ok x)
      × (lookup Str-discrete c (assign vals row) ≡ some (d.bind x))
unfolding bind_values assign
bind_values-assign d c [] values vals row h k = cc
bind_values-assign d c (j ∷ ks) values vals row h k =
    elim (Result-cases (decode_value d (wire_at j values))) [
      | inl (b, e) ↦ elim (Result-cases (bind_values d ks values)) [
        | inl (rest, f) ↦ elim (Str-discrete c j) [
          | yes g ↦ (
            b,
            ground arith,
            ground (arith, lookup-insert Str-discrete c j (d.bind b) (assign rest row)),
          )
          | no g ↦
              let (x, p, q) = bind_values-assign d c ks values rest row f (ground arith) in
              (x, p, ground (arith, lookup-insert Str-discrete c j (d.bind b) (assign rest row), q))
        ]
        | inr (x, f) ↦ ground arith
      ]
      | inr (x, e) ↦ ground arith
    ]

-- What the row loop leaves at an identifier: the old row where the source has none, and else a row
-- with the source's values assigned.
pub feed-untouched :
    (d : Driver) (spec table : Table) (m : Map RowKey Row) (s s' : Transfer) (id : Str)
    → feed (load_row d spec) (table_rows d table m) s ≡ ok s'
    → lookup RowKey-discrete (record { table = table.name; row_id = id }) m ≡ none
    → lookup RowKey-discrete (record { table = spec.name; row_id = id }) s'.db.rows
      ≡ lookup RowKey-discrete (record { table = spec.name; row_id = id }) s.db.rows
unfolding load_row table_rows upsert_row
feed-untouched d spec table [] s s' id h l = ground arith
feed-untouched d spec table ((k, row) ∷ m) s s' id h l = elim (Str-discrete k.table table.name) [
  | yes e ↦ elim (Result-cases (bind_sent d (sent d table row))) [
    | inl (vals, f) ↦
        let r : SeedRow = record { id = k.row_id; values = sent d table row } in
        let at : RowKey = record { table = spec.name; row_id = k.row_id } in
        let s1 : Transfer = record s {
          digest = sum_row d s.digest r;
          db = upsert_row at vals s.db;
        } in
        ground (
          arith,
          feed-untouched d spec table m s1 s' id,
          lookup-insert RowKey-discrete (record { table = spec.name; row_id = id }) at
              (assign vals (row_or_empty (lookup RowKey-discrete at s.db.rows))) s.db.rows,
        )
    | inr (x, f) ↦ ground arith
  ]
  | no e ↦ ground (arith, feed-untouched d spec table m s s' id)
]

lookup-upsert_row :
    (at : RowKey) (vals : Map Str Value) (db : Db)
    → lookup RowKey-discrete at (upsert_row at vals db).rows
      ≡ some (assign vals (row_or_empty (lookup RowKey-discrete at db.rows)))
unfolding upsert_row
lookup-upsert_row at vals db = lookup-insert_self RowKey-discrete at _ db.rows

abbrev pub IsAssigned : Driver → Table → Str → Table → Row → Db → Type 0
IsAssigned d spec id table row db =
    (vals : Map Str Value) × (old : Row) × (bind_sent d (sent d table row) ≡ ok vals)
    × (lookup RowKey-discrete (record { table = spec.name; row_id = id }) db.rows
        ≡ some (assign vals old))

pub feed-IsAssigned :
    (d : Driver) (spec table : Table) (m : Map RowKey Row) (s s' : Transfer) (id : Str) (row : Row)
    → IsKeyed RowKey-discrete m
    → feed (load_row d spec) (table_rows d table m) s ≡ ok s'
    → lookup RowKey-discrete (record { table = table.name; row_id = id }) m ≡ some row
    → IsAssigned d spec id table row s'.db
unfolding load_row table_rows
feed-IsAssigned d spec table [] s s' id row u h l = cc
feed-IsAssigned d spec table ((k, r0) ∷ m) s s' id row u h l =
    elim (Str-discrete k.table table.name) [
      | yes e ↦ elim (Result-cases (bind_sent d (sent d table r0))) [
        | inl (vals, f) ↦
            let r : SeedRow = record { id = k.row_id; values = sent d table r0 } in
            let at : RowKey = record { table = spec.name; row_id = k.row_id } in
            let s1 : Transfer = record s {
              digest = sum_row d s.digest r;
              db = upsert_row at vals s.db;
            } in
            let rest : feed (load_row d spec) (table_rows d table m) s1 ≡ ok s' = ground arith in
            elim (Str-discrete id k.row_id) [
              | yes i ↦ (
                vals,
                row_or_empty (lookup RowKey-discrete at s.db.rows),
                ground (arith, f),
                ground (
                  arith,
                  feed-untouched d spec table m s1 s' id rest,
                  lookup-upsert_row at vals s.db,
                ),
              )
              | no i ↦ feed-IsAssigned d spec table m s1 s' id row u.1 rest (ground arith)
            ]
        | inr (x, f) ↦ ground arith
      ]
      | no e ↦ feed-IsAssigned d spec table m s s' id row u.1 (ground arith) (ground arith)
    ]

rows-load_versions :
    (table : Str) (vs : List VersionRow) (s : Transfer)
    → (load_all (load_version table) vs s).db.rows ≡ s.db.rows
unfolding load_version
rows-load_versions table [] s = refl
rows-load_versions table (x ∷ vs) s = rows-load_versions table vs (load_version table x s)

rows-load_tombstones :
    (table : Str) (vs : List TombstoneRow) (s : Transfer)
    → (load_all (load_tombstone table) vs s).db.rows ≡ s.db.rows
unfolding load_tombstone
rows-load_tombstones table [] s = refl
rows-load_tombstones table (x ∷ vs) s = rows-load_tombstones table vs (load_tombstone table x s)

-- The versions and tombstones of a table leave its rows.
pub rows-load_all :
    (table : Str) (vs : List VersionRow) (ts : List TombstoneRow) (s : Transfer)
    → (load_all (load_tombstone table) ts (load_all (load_version table) vs s)).db.rows ≡ s.db.rows
rows-load_all table vs ts s =
    rows-load_tombstones table ts (load_all (load_version table) vs s)
    ∙ rows-load_versions table vs s

-- The value of a column at the target, where the source has the row: the decoded form of what the
-- source sends.
pub get_value-IsAssigned :
    (d : Driver) (spec table : Table) (id c : Str) (row : Row) (db : Db)
    → contains c table.columns ≡ true
    → IsAssigned d spec id table row db
    → (x : Bound) × (decode_value d (
          d.transmit
            (encode_value d (d.scan (lookup Str-discrete c row)) (d.is_binary table.name c)))
        ≡ ok x)
      × (get_value (record { table = spec.name; row_id = id }) c db ≡ some (d.bind x))
get_value-IsAssigned d spec table id c row db h (vals, old, bound, at) =
    let known =
      contains-sort_strings c (map (λ e. e.0) (sent d table row))
      ∙ (contains-wire_values d table.name c table.columns row ∙ h) in
    let (x, dec, val) =
      bind_values-assign d c (sort_strings (map (λ e. e.0) (sent d table row))) (sent d table row)
        vals old bound known in
    (
      x,
      ground (arith, dec, wire_at-wire_values d table.name c table.columns row h),
      ground (arith, at, val),
    )
