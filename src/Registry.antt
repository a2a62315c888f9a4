-- ===== src/Registry.antt =====
-- table.go and identity.go: the declarations of the replicated tables, their registry, and the
-- identifiers of rows. `strings.EqualFold`, `ToLower` and `TrimSpace` are taken on ASCII text.
pub mod Columns
pub mod Lookups
use mariamesh.Base.{
  ℕ, Bool, true, false, not, ◌&&◌, ◌||◌, ◌==◌, if◌then◌else◌, ite, Str, Str-discrete, bytes,
  to_lower, trim_space, compare_str, greater, List, [], ◌∷◌, ◌++◌, map, Map, lookup, insert, Option,
  none, some, Result, ok, err, ◌>>=◌, ◌>>◌, fail_if,
}
use mariamesh.Changelog.{is_empty, colon}
use mariamesh.Changelog.Vector.{contains, sort_strings}
use mariamesh.Store.Nodes.{same_text}

-- `Column`
pub record Column : Type 0 where
  pub name : Str
  pub sql_type : Str

-- `Table`
pub record Table : Type 0 where
  pub name : Str
  pub id_column : Str
  pub name_column : Str
  pub columns : List Column

pub data TableError : Type 0 where
  missing_table_name forbidden_table_name same_id_and_name missing_column_name : TableError
  forbidden_column_name table_exists unknown_table : TableError

-- `strings.EqualFold`
abbrev pub equal_fold : Str → Str → Bool
equal_fold a b = same_text (to_lower a) (to_lower b)

-- `idColumn`
unfoldable pub id_column_of : Table → Str
id_column_of t = if is_empty t.id_column then bytes "id" else t.id_column

-- `nameColumn`
unfoldable pub name_column_of : Table → Str
name_column_of t = if is_empty t.name_column then bytes "name" else t.name_column

-- The loop of `ReplicatedColumns`, with its variable `seen`.
unfoldable pub collect_columns : Str → List Column → List Str → List Str
collect_columns id [] seen = []
collect_columns id (c ∷ cs) seen =
    let name = trim_space c.name in
    let skipped = collect_columns id cs seen in
    let rest = collect_columns id cs (to_lower name ∷ seen) in
    if is_empty name || equal_fold name id
    then skipped
    else if contains (to_lower name) seen
    then skipped
    else name ∷ rest

-- `ReplicatedColumns`
unfoldable pub replicated_columns : Table → List Str
unfolding collect_columns
replicated_columns t =
    name_column_of t
    ∷ sort_strings (collect_columns (id_column_of t) t.columns (to_lower (name_column_of t) ∷ []))

-- The bytes that a name may not have: a backquote, the quotes and a semicolon.
abbrev pub is_forbidden : ℕ → Bool
is_forbidden c = c == 96 || (c == 34 || (c == 39 || c == 59))

-- `strings.ContainsAny`
unfoldable pub contains_forbidden : Str → Bool
contains_forbidden [] = false
contains_forbidden (c ∷ s) = is_forbidden c || contains_forbidden s

-- The loop of `Table.Validate`.
unfoldable pub validate_columns : List Column → Result TableError (Unit {0})
unfolding contains_forbidden
validate_columns [] = ok tt
validate_columns (c ∷ cs) = do
  fail_if (is_empty (trim_space c.name)) missing_column_name
  fail_if (contains_forbidden c.name) forbidden_column_name
  validate_columns cs

-- `Table.Validate`
unfoldable pub validate_table : Table → Result TableError (Unit {0})
unfolding contains_forbidden validate_columns
validate_table t = do
  fail_if (is_empty (trim_space t.name)) missing_table_name
  fail_if (contains_forbidden t.name) forbidden_table_name
  fail_if (equal_fold (id_column_of t) (name_column_of t)) same_id_and_name
  validate_columns t.columns

-- `normalizeTable`
unfoldable pub normalize_table : Str → Str
normalize_table table = to_lower (trim_space table)

-- `normalizeName`
unfoldable pub normalize_name : Str → Str
normalize_name name = to_lower (trim_space name)

-- `registry`
abbrev pub Registry : Type 0
Registry = Map Str Table

-- `register`
unfoldable pub register : Table → Registry → Result TableError Registry
register t r = do
  validate_table t
  elim (lookup Str-discrete (normalize_table t.name) r) [
    | some _ ↦ err table_exists
    | none ↦ ok (insert Str-discrete (normalize_table t.name) t r)
  ]

-- `registry.lookup`
unfoldable pub lookup_table : Str → Registry → Result TableError Table
lookup_table name r = elim (lookup Str-discrete (normalize_table name) r) [
  | none ↦ err unknown_table
  | some t ↦ ok t
]

-- `registry.all`: `sort.Slice` by name.
unfoldable pub insert_table : Table → List Table → List Table
insert_table t [] = t ∷ []
insert_table t (u ∷ us) = elim (compare_str t.name u.name) [
  | greater ↦ u ∷ insert_table t us
  | _ ↦ t ∷ u ∷ us
]

unfoldable pub all_tables : Registry → List Table
unfolding insert_table
all_tables [] = []
all_tables ((k, t) ∷ r) = insert_table t (all_tables r)

-- `ID`; `new_sha1` is `uuid.NewSHA1`.
unfoldable pub row_id : {Uuid : Type 0} → (Uuid → Str → Uuid) → Uuid → Str → Str → Uuid
row_id new_sha1 namespace table name =
    new_sha1 namespace (normalize_table table ++ (colon ∷ normalize_name name))

-- `ValidateID`; `print` is the `String` method of a UUID. `false` is `ErrInvalidID`.
unfoldable pub validate_id :
    {Uuid : Type 0} → (Uuid → Str → Uuid) → (Uuid → Str) → Uuid → Str → Str → Str → Bool
unfolding row_id
validate_id new_sha1 print namespace table initial id =
    equal_fold (trim_space id) (print (row_id new_sha1 namespace table initial))
