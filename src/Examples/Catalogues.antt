-- ===== src/Examples/Catalogues.antt =====
-- A server's catalogue with one registered table.
use mariamesh.Base.{
  ℕ, ◌↔◌, ◌≡◌, ◌≤◌, refl, bytes, [], ◌∷◌, some, none, All, map, lookup, Str-discrete, ℕ_discrete,
  to_lower, trim_space, trim_left, trim_right,
}
use mariamesh.Registry.{
  Table, validate_table, validate_columns, contains_forbidden, id_column_of, name_column_of,
}
use mariamesh.Schema.{
  Catalogue, missing_trigger, required_columns, validate_schema, check_metadata, check_columns,
  check_state, check_tables, check_table_columns, check_triggers, trigger_names,
}
use mariamesh.Schema.Validation.{IsInstalled, HasMetadata}
use mariamesh.Schema.Installed.{validate_schema_lem}

abbrev users : Table
users = record { name = bytes "u"; id_column = []; name_column = bytes "label"; columns = [] }

abbrev installed : Catalogue
installed = record {
  tables = bytes "u" ∷ map (λ e. e.0) required_columns;
  columns_of = λ t. elim (lookup Str-discrete t required_columns) [
    | some cs ↦ cs
    | none ↦ bytes "id" ∷ bytes "label" ∷ []
  ];
  triggers = trigger_names (bytes "u");
  state_rows = some 1;
}

validate_schema_lem_example : (validate_schema installed (users ∷ []) ≡ []) ↔ (
    All (HasMetadata installed) required_columns
    × ((n : ℕ) × (installed.state_rows ≡ some n) × (n ≤ 1))
    × All (IsInstalled installed) (users ∷ []))
validate_schema_lem_example = validate_schema_lem installed (users ∷ [])

-- The catalogue passes, and without one of its triggers it does not.
installed_passes : validate_schema installed (users ∷ []) ≡ []
unfolding validate_schema check_metadata check_columns check_state check_tables check_table_columns
    check_triggers validate_table validate_columns contains_forbidden id_column_of name_column_of
    to_lower trim_space trim_left trim_right Str-discrete ℕ_discrete
installed_passes = refl

installed_fails :
    validate_schema
      (record installed { triggers = bytes "u_repl_insert" ∷ bytes "u_repl_delete" ∷ [] })
      (users ∷ [])
    ≡ missing_trigger (bytes "u_repl_update") ∷ []
unfolding validate_schema check_metadata check_columns check_state check_tables check_table_columns
    check_triggers validate_table validate_columns contains_forbidden id_column_of name_column_of
    to_lower trim_space trim_left trim_right Str-discrete ℕ_discrete
installed_fails = refl
