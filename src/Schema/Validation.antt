-- ===== src/Schema/Validation.antt =====
-- schema.go: what `ValidateSchema` establishes where it reports no problem.
use mariamesh.Base.{
  ℕ, ◌≡◌, ◌≤◌, refl, ltb, Option, none, some, true, Str, to_lower, List, [], ◌∷◌, ◌++◌, map, Map,
  All, ok, Bool-cases, Result-cases, inl, inr, arith,
}
use mariamesh.Changelog.Vector.{contains}
use mariamesh.Registry.{Table, validate_table, id_column_of, name_column_of}
use mariamesh.Schema.{
  Catalogue, Problem, required_columns, check_columns, check_metadata, trigger_names,
  check_table_columns, check_triggers, check_state, check_tables, validate_schema,
}

-- A registered table that is installed: valid, and there with its two columns and its triggers.
pub record IsInstalled (cat : Catalogue) (t : Table) : Type 0 where
  pub valid : validate_table t ≡ ok tt
  pub present : contains t.name cat.tables ≡ true
  pub columns :
      All (λ c. contains c (cat.columns_of t.name) ≡ true) (id_column_of t ∷ name_column_of t ∷ [])
  pub triggers : All (λ n. contains n cat.triggers ≡ true) (trigger_names t.name)

-- A metadata table that is there with its columns, up to case.
pub record HasMetadata (cat : Catalogue) (t : Str × List Str) : Type 0 where
  pub present : contains t.0 cat.tables ≡ true
  pub columns : All (λ c. contains (to_lower c) (map to_lower (cat.columns_of t.0)) ≡ true) t.1

append_nil : (xs ys : List Problem) → xs ++ ys ≡ [] → (xs ≡ []) × (ys ≡ [])
append_nil [] ys h = (refl, h)
append_nil (x ∷ xs) ys h = ground arith

check_columns-nil :
    (table : Str) (have cs : List Str)
    → check_columns table have cs ≡ []
    → All (λ c. contains (to_lower c) have ≡ true) cs
unfolding check_columns
check_columns-nil table have [] h = tt
check_columns-nil table have (c ∷ cs) h = elim (Bool-cases (contains (to_lower c) have)) [
  | inl e ↦ (e, check_columns-nil table have cs (ground arith))
  | inr e ↦ ground arith
]

check_table_columns-nil :
    (cat : Catalogue) (table : Str) (cs : List Str)
    → check_table_columns cat table cs ≡ []
    → All (λ c. contains c (cat.columns_of table) ≡ true) cs
unfolding check_table_columns
check_table_columns-nil cat table [] h = tt
check_table_columns-nil cat table (c ∷ cs) h =
    elim (Bool-cases (contains c (cat.columns_of table))) [
      | inl e ↦ (e, check_table_columns-nil cat table cs (ground arith))
      | inr e ↦ ground arith
    ]

check_triggers-nil :
    (cat : Catalogue) (ts : List Str)
    → check_triggers cat ts ≡ []
    → All (λ n. contains n cat.triggers ≡ true) ts
unfolding check_triggers
check_triggers-nil cat [] h = tt
check_triggers-nil cat (t ∷ ts) h = elim (Bool-cases (contains t cat.triggers)) [
  | inl e ↦ (e, check_triggers-nil cat ts (ground arith))
  | inr e ↦ ground arith
]

check_metadata-nil :
    (cat : Catalogue) (ts : Map Str (List Str))
    → check_metadata cat ts ≡ []
    → All (HasMetadata cat) ts
unfolding check_metadata
check_metadata-nil cat [] h = tt
check_metadata-nil cat ((t, cs) ∷ ts) h = elim (Bool-cases (contains t cat.tables)) [
  | inr e ↦ ground arith
  | inl e ↦
      let parts =
        append_nil (check_columns t (map to_lower (cat.columns_of t)) cs) (check_metadata cat ts)
          (ground arith) in
      (
        record {
          present = e;
          columns = check_columns-nil t (map to_lower (cat.columns_of t)) cs parts.0;
        },
        check_metadata-nil cat ts parts.1,
      )
]

check_tables-nil :
    (cat : Catalogue) (ts : List Table) → check_tables cat ts ≡ [] → All (IsInstalled cat) ts
unfolding check_tables
check_tables-nil cat [] h = tt
check_tables-nil cat (t ∷ ts) h = elim (Result-cases (validate_table t)) [
  | inr (x, e) ↦ ground arith
  | inl (u, e) ↦ elim (Bool-cases (contains t.name cat.tables)) [
    | inr b ↦ ground arith
    | inl b ↦
        let cols = check_table_columns cat t.name (id_column_of t ∷ name_column_of t ∷ []) in
        let trgs = check_triggers cat (trigger_names t.name) in
        let parts = append_nil cols (trgs ++ check_tables cat ts) (ground arith) in
        let more = append_nil trgs (check_tables cat ts) parts.1 in
        (
          record {
            valid = e;
            present = b;
            columns =
                check_table_columns-nil cat t.name (id_column_of t ∷ name_column_of t ∷ []) parts.0;
            triggers = check_triggers-nil cat (trigger_names t.name) more.0;
          },
          check_tables-nil cat ts more.1,
        )
  ]
]

check_state-nil : (s : Option ℕ) → check_state s ≡ [] → (n : ℕ) × (s ≡ some n) × (n ≤ 1)
unfolding check_state
check_state-nil none h = ground arith
check_state-nil (some n) h = elim (Bool-cases (ltb 1 n)) [
  | inl b ↦ ground arith
  | inr b ↦ (n, refl, ground arith)
]

-- Where the validation finds no problem, every metadata table is there with its required columns, the
-- local state can be read and has at most one row, and every table is valid and there with its ID and
-- name columns and its three triggers.
pub validate_schema_sound :
    (cat : Catalogue) (tables : List Table)
    → validate_schema cat tables ≡ []
    → All (HasMetadata cat) required_columns
      × ((n : ℕ) × (cat.state_rows ≡ some n) × (n ≤ 1))
      × All (IsInstalled cat) tables
unfolding validate_schema
validate_schema_sound cat tables h =
    let states = check_state cat.state_rows in
    let parts =
      append_nil (check_metadata cat required_columns) (states ++ check_tables cat tables) h in
    let more = append_nil states (check_tables cat tables) parts.1 in
    (
      check_metadata-nil cat required_columns parts.0,
      check_state-nil cat.state_rows more.0,
      check_tables-nil cat tables more.1,
    )
