-- ===== src/Seed/Target/Emptiness.antt =====
-- What the check for an empty database means for the tables.
use mariamesh.Base.{
  ◌≡◌, refl, true, Str, Str-discrete, List, [], ◌∷◌, length, Map, lookup, none, some, ok, arith,
}
use mariamesh.Seed.{Table}
use mariamesh.Seed.Target.{Target, count_rows, tables_empty, require_empty}
use mariamesh.Store.Tables.{Db, Row, RowKey, RowKey-discrete}

empty_list {ℓ} : {A : Type ℓ} (xs : List A) → length xs ≡ 0 → xs ≡ []
empty_list [] h = refl
empty_list (x ∷ xs) h = ground arith

pub require_empty-meta :
    (t : Target) (db : Db)
    → require_empty t db ≡ ok tt
    → (db.field_versions ≡ []) × (db.tombstones ≡ [])
unfolding require_empty
require_empty-meta t db h =
    (empty_list db.field_versions (ground arith), empty_list db.tombstones (ground arith))

count_rows-lookup :
    (name id : Str) (m : Map RowKey Row)
    → count_rows name m ≡ 0
    → lookup RowKey-discrete (record { table = name; row_id = id }) m ≡ none
unfolding count_rows
count_rows-lookup name id [] h = refl
count_rows-lookup name id ((k, row) ∷ m) h = ground (arith, count_rows-lookup name id m)

tables_empty-lookup :
    (k : Str) (spec : Table) (ts : Map Str Table) (rows : Map RowKey Row)
    → tables_empty ts rows ≡ true
    → lookup Str-discrete k ts ≡ some spec
    → count_rows spec.name rows ≡ 0
unfolding tables_empty
tables_empty-lookup k spec [] rows h l = cc
tables_empty-lookup k spec ((j, t) ∷ ts) rows h l =
    ground (arith, tables_empty-lookup k spec ts rows)

-- A table of the target that is found by its name has no row.
pub require_empty-rows :
    (t : Target) (k id : Str) (spec : Table) (db : Db)
    → require_empty t db ≡ ok tt
    → lookup Str-discrete k t.tables ≡ some spec
    → lookup RowKey-discrete (record { table = spec.name; row_id = id }) db.rows ≡ none
unfolding require_empty
require_empty-rows t k id spec db h l =
    count_rows-lookup spec.name id db.rows
      (tables_empty-lookup k spec t.tables db.rows (ground arith) l)
