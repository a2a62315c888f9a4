-- ===== src/Schema/Installed.antt =====
-- schema.go: `ValidateSchema` on a database where everything is installed.
use mariamesh.Base.{
  ℕ, ◌≡◌, ◌≤◌, ◌↔◌, refl, Option, none, some, true, Str, to_lower, List, [], ◌∷◌, ◌++◌, map, Map,
  All, arith,
}
use mariamesh.Changelog.Vector.{contains}
use mariamesh.Registry.{Table, id_column_of, name_column_of}
use mariamesh.Schema.{
  Catalogue, Problem, required_columns, check_columns, check_metadata, trigger_names,
  check_table_columns, check_triggers, check_state, check_tables, validate_schema,
}
use mariamesh.Schema.Validation.{IsInstalled, HasMetadata, validate_schema_sound}

nil-append : (xs ys : List Problem) → xs ≡ [] → ys ≡ [] → xs ++ ys ≡ []
nil-append [] ys p q = q
nil-append (x ∷ xs) ys p q = ground arith

nil-check_columns :
    (table : Str) (have cs : List Str)
    → All (λ c. contains (to_lower c) have ≡ true) cs
    → check_columns table have cs ≡ []
unfolding check_columns
nil-check_columns table have [] h = refl
nil-check_columns table have (c ∷ cs) (e, h) = rw e (nil-check_columns table have cs h)

nil-check_table_columns :
    (cat : Catalogue) (table : Str) (cs : List Str)
    → All (λ c. contains c (cat.columns_of table) ≡ true) cs
    → check_table_columns cat table cs ≡ []
unfolding check_table_columns
nil-check_table_columns cat table [] h = refl
nil-check_table_columns cat table (c ∷ cs) (e, h) = rw e (nil-check_table_columns cat table cs h)

nil-check_triggers :
    (cat : Catalogue) (ts : List Str)
    → All (λ n. contains n cat.triggers ≡ true) ts
    → check_triggers cat ts ≡ []
unfolding check_triggers
nil-check_triggers cat [] h = refl
nil-check_triggers cat (t ∷ ts) (e, h) = rw e (nil-check_triggers cat ts h)

nil-check_metadata :
    (cat : Catalogue) (ts : Map Str (List Str))
    → All (HasMetadata cat) ts
    → check_metadata cat ts ≡ []
unfolding check_metadata
nil-check_metadata cat [] h = refl
nil-check_metadata cat ((t, cs) ∷ ts) (m, h) = rw m.present (
    nil-append (check_columns t (map to_lower (cat.columns_of t)) cs) (check_metadata cat ts)
      (nil-check_columns t (map to_lower (cat.columns_of t)) cs m.columns)
      (nil-check_metadata cat ts h))

nil-check_tables :
    (cat : Catalogue) (ts : List Table) → All (IsInstalled cat) ts → check_tables cat ts ≡ []
unfolding check_tables
nil-check_tables cat [] h = refl
nil-check_tables cat (t ∷ ts) (i, h) =
    let names = id_column_of t ∷ name_column_of t ∷ [] in
    rw (i.valid, check_tables)
      (rw i.present (
        nil-append (check_table_columns cat t.name names)
          (check_triggers cat (trigger_names t.name) ++ check_tables cat ts)
          (nil-check_table_columns cat t.name names i.columns)
          (nil-append (check_triggers cat (trigger_names t.name)) (check_tables cat ts)
            (nil-check_triggers cat (trigger_names t.name) i.triggers)
            (nil-check_tables cat ts h))))

nil-check_state : (s : Option ℕ) (n : ℕ) → s ≡ some n → n ≤ 1 → check_state s ≡ []
unfolding check_state
nil-check_state none n p q = ground arith
nil-check_state (some m) n p q = ground arith

-- The validation finds no problem just where every metadata table is there with its required columns,
-- the local state can be read and has at most one row, and every table is valid and there with its ID
-- and name columns and its three triggers.
pub validate_schema_lem :
    (cat : Catalogue) (tables : List Table)
    → (validate_schema cat tables ≡ []) ↔ (
        All (HasMetadata cat) required_columns
        × ((n : ℕ) × (cat.state_rows ≡ some n) × (n ≤ 1))
        × All (IsInstalled cat) tables)
unfolding validate_schema
validate_schema_lem cat tables = (
  validate_schema_sound cat tables,
  λ (m, (n, e, b), t).
      nil-append (check_metadata cat required_columns)
        (check_state cat.state_rows ++ check_tables cat tables)
        (nil-check_metadata cat required_columns m)
        (nil-append (check_state cat.state_rows) (check_tables cat tables)
          (nil-check_state cat.state_rows n e b) (nil-check_tables cat tables t)),
)
