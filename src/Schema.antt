-- ===== src/Schema.antt =====
-- schema.go: `TriggerSQL` and `ValidateSchema`, with the server's catalogue as a record. A query
-- of INFORMATION_SCHEMA that fails is not modelled, and names are compared byte for byte where the code leaves that to the server.
pub mod Validation
pub mod Installed
use mariamesh.Base.{
  ℕ, ◌≡◌, ◌≤◌, ◌↔◌, refl, ltb, Option, none, some, Bool, true, false, if◌then◌else◌, Str, bytes,
  to_lower, List, [], ◌∷◌, ◌++◌, map, Map, All, Result, ok, err, ◌>>=◌, Bool-cases, Result-cases,
  inl, inr, arith,
}
use mariamesh.Changelog.Vector.{contains}
use mariamesh.Registry.{
  Table, TableError, validate_table, id_column_of, name_column_of, replicated_columns,
}
use mariamesh.Triggers.{TableSpec, SpecError, check_spec}

-- What the queries read: the tables, each with its columns, the triggers, and the number of rows of
-- `replication_local_state`, none where it cannot be read.
pub record Catalogue : Type 0 where
  pub tables : List Str
  pub columns_of : Str → List Str
  pub triggers : List Str
  pub state_rows : Option ℕ

-- A line of the error.
pub data Problem : Type 0 where
  missing_table missing_trigger : Str → Problem
  missing_column : Str → Str → Problem
  too_many_states : ℕ → Problem
  unreadable_state : Problem
  invalid_table : Str → TableError → Problem

-- `MetadataTables` with `RequiredColumns`
abbrev pub required_columns : Map Str (List Str)
required_columns =
    (
      bytes "replication_node",
      bytes "node_id"
          ∷ bytes "incarnation_id"
          ∷ bytes "name"
          ∷ bytes "status"
          ∷ bytes "membership_epoch"
          ∷ bytes "schema_version"
          ∷ bytes "addr"
          ∷ bytes "joined_at"
          ∷ bytes "retired_at"
          ∷ bytes "last_seen"
          ∷ [],
    )
    ∷ (
      bytes "replication_local_state",
      bytes "node_id"
          ∷ bytes "incarnation_id"
          ∷ bytes "current_seq"
          ∷ bytes "hlc_physical"
          ∷ bytes "hlc_logical"
          ∷ [],
    )
    ∷ (
      bytes "replication_log",
      bytes "origin_node_id"
          ∷ bytes "origin_incarnation_id"
          ∷ bytes "origin_seq"
          ∷ bytes "change_id"
          ∷ bytes "table_name"
          ∷ bytes "row_id"
          ∷ bytes "operation"
          ∷ bytes "hlc_physical"
          ∷ bytes "hlc_logical"
          ∷ bytes "payload"
          ∷ [],
    )
    ∷ (
      bytes "replication_field_version",
      bytes "table_name"
          ∷ bytes "row_id"
          ∷ bytes "column_name"
          ∷ bytes "hlc_physical"
          ∷ bytes "hlc_logical"
          ∷ bytes "origin_node_id"
          ∷ bytes "origin_seq"
          ∷ [],
    )
    ∷ (
      bytes "replication_tombstone",
      bytes "table_name"
          ∷ bytes "row_id"
          ∷ bytes "hlc_physical"
          ∷ bytes "hlc_logical"
          ∷ bytes "origin_node_id"
          ∷ bytes "origin_seq"
          ∷ [],
    )
    ∷ (
      bytes "replication_progress",
      bytes "receiver_node_id"
          ∷ bytes "receiver_incarnation_id"
          ∷ bytes "origin_node_id"
          ∷ bytes "origin_incarnation_id"
          ∷ bytes "contiguous_seq"
          ∷ [],
    )
    ∷ (
      bytes "replication_bootstrap",
      bytes "bootstrap_id"
          ∷ bytes "joining_node_id"
          ∷ bytes "joining_incarnation_id"
          ∷ bytes "status"
          ∷ bytes "schema_version"
          ∷ bytes "started_at"
          ∷ bytes "completed_at"
          ∷ [],
    )
    ∷ (
      bytes "replication_bootstrap_vector",
      bytes "bootstrap_id"
          ∷ bytes "origin_node_id"
          ∷ bytes "origin_incarnation_id"
          ∷ bytes "seed_seq"
          ∷ [],
    )
    ∷ (bytes "replication_meta", bytes "meta_key" ∷ bytes "meta_value" ∷ [])
    ∷ []

-- The loop over the required columns of a metadata table; `have` is in lower case.
unfoldable pub check_columns : Str → List Str → List Str → List Problem
check_columns table have [] = []
check_columns table have (c ∷ cs) =
    let rest = check_columns table have cs in
    if contains (to_lower c) have then rest else missing_column table c ∷ rest

-- The loop over the metadata tables.
unfoldable pub check_metadata : Catalogue → Map Str (List Str) → List Problem
unfolding check_columns
check_metadata cat [] = []
check_metadata cat ((t, cs) ∷ ts) =
    let rest = check_metadata cat ts in
    if contains t cat.tables
    then check_columns t (map to_lower (cat.columns_of t)) cs ++ rest
    else missing_table t ∷ rest

-- `TriggerNames`
abbrev pub trigger_names : Str → List Str
trigger_names t =
    (t ++ bytes "_repl_insert") ∷ ((t ++ bytes "_repl_update") ∷ ((t ++ bytes "_repl_delete") ∷ []))

-- The check of the number of states.
unfoldable pub check_state : Option ℕ → List Problem
check_state none = unreadable_state ∷ []
check_state (some n) = if ltb 1 n then too_many_states n ∷ [] else []

-- The loop over the ID and the name column of a table.
unfoldable pub check_table_columns : Catalogue → Str → List Str → List Problem
check_table_columns cat table [] = []
check_table_columns cat table (c ∷ cs) =
    let rest = check_table_columns cat table cs in
    if contains c (cat.columns_of table) then rest else missing_column table c ∷ rest

-- The loop over the triggers of a table.
unfoldable pub check_triggers : Catalogue → List Str → List Problem
check_triggers cat [] = []
check_triggers cat (t ∷ ts) =
    let rest = check_triggers cat ts in
    if contains t cat.triggers then rest else missing_trigger t ∷ rest

-- The loop over the registered tables.
unfoldable pub check_tables : Catalogue → List Table → List Problem
unfolding check_table_columns check_triggers
check_tables cat [] = []
check_tables cat (t ∷ ts) =
    let rest = check_tables cat ts in
    elim (validate_table t) [
      | err x ↦ invalid_table t.name x ∷ rest
      | ok _ ↦
          if contains t.name cat.tables
          then check_table_columns cat t.name (id_column_of t ∷ name_column_of t ∷ [])
            ++ (check_triggers cat (trigger_names t.name) ++ rest)
          else missing_table t.name ∷ rest
    ]

-- `ValidateSchema`: the problems, which are the error where there are any.
unfoldable pub validate_schema : Catalogue → List Table → List Problem
unfolding check_metadata check_state check_tables
validate_schema cat tables =
    check_metadata cat required_columns ++ (check_state cat.state_rows ++ check_tables cat tables)

-- `TriggerSQL` of schema.go, up to the text.
pub data TriggersError : Type 0 where
  bad_table : TableError → TriggersError
  bad_spec : SpecError → TriggersError

abbrev pub spec_of : Table → TableSpec
spec_of t = record { name = t.name; id_column = id_column_of t; columns = replicated_columns t }

unfoldable pub trigger_spec : Table → Result TriggersError TableSpec
trigger_spec t = elim (validate_table t) [
  | err x ↦ err (bad_table x)
  | ok _ ↦ elim (check_spec (spec_of t)) [ err x ↦ err (bad_spec x) | ok _ ↦ ok (spec_of t) ]
]
