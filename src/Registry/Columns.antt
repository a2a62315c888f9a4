-- ===== src/Registry/Columns.antt =====
-- The columns that are tracked for a table.
use mariamesh.Base.{
  ◌≡◌, ◌≢◌, refl, ◌∙◌, true, false, not, ◌&&◌, ite, Str, Str-discrete, to_lower, trim_space, List,
  [], ◌∷◌, map, ok, arith,
}
use mariamesh.Changelog.{is_empty}
use mariamesh.Changelog.Vector.{contains, sort_strings, insert_sorted}
use mariamesh.Registry.{
  Column, Table, id_column_of, name_column_of, collect_columns, replicated_columns, validate_table,
}

-- No two names are equal up to case.
abbrev pub IsDistinct : List Str → Type 0
IsDistinct [] = Unit
IsDistinct (k ∷ ks) = (contains (to_lower k) (map to_lower ks) ≡ false) × IsDistinct ks

-- What the loop leaves out: a name that was seen, and the ID column.
collect_columns_new :
    (id k : Str) (cs : List Column) (seen : List Str)
    → contains k seen ≡ true
    → contains k (map to_lower (collect_columns id cs seen)) ≡ false
unfolding collect_columns
collect_columns_new id k [] seen h = refl
collect_columns_new id k (c ∷ cs) seen h = ground (
  arith,
  collect_columns_new id k cs seen h,
  collect_columns_new id k cs (to_lower (trim_space c.name) ∷ seen),
)

collect_columns-IsDistinct :
    (id : Str) (cs : List Column) (seen : List Str) → IsDistinct (collect_columns id cs seen)
unfolding collect_columns
collect_columns-IsDistinct id [] seen = tt
collect_columns-IsDistinct id (c ∷ cs) seen = ground (
  arith,
  collect_columns-IsDistinct id cs seen,
  collect_columns-IsDistinct id cs (to_lower (trim_space c.name) ∷ seen),
  collect_columns_new id (to_lower (trim_space c.name)) cs (to_lower (trim_space c.name) ∷ seen),
)

collect_columns_no_id :
    (id : Str) (cs : List Column) (seen : List Str)
    → contains (to_lower id) (map to_lower (collect_columns id cs seen)) ≡ false
unfolding collect_columns
collect_columns_no_id id [] seen = refl
collect_columns_no_id id (c ∷ cs) seen = ground (
  arith,
  collect_columns_no_id id cs seen,
  collect_columns_no_id id cs (to_lower (trim_space c.name) ∷ seen),
)

is_empty-to_lower : (s : Str) → is_empty (to_lower s) ≡ is_empty s
unfolding to_lower
is_empty-to_lower [] = refl
is_empty-to_lower (c ∷ s) = refl

-- The names that are declared, in lower case.
abbrev pub declared : List Column → List Str
declared cs = map (λ c. to_lower (trim_space c.name)) cs

-- What the loop collects: the declared names that are neither blank, nor the ID column, nor seen.
collect_columns_all :
    (id k : Str) (cs : List Column) (seen : List Str)
    → contains k (map to_lower (collect_columns id cs seen))
      ≡ contains k (declared cs)
        && (not (is_empty k)
            && (not (ite (Str-discrete k (to_lower id)) true false) && not (contains k seen)))
unfolding collect_columns
collect_columns_all id k [] seen = refl
collect_columns_all id k (c ∷ cs) seen = ground (
  arith,
  is_empty-to_lower (trim_space c.name),
  collect_columns_all id k cs seen,
  collect_columns_all id k cs (to_lower (trim_space c.name) ∷ seen),
)

contains-insert_sorted_lower :
    (k j : Str) (ks : List Str)
    → contains k (map to_lower (insert_sorted j ks))
      ≡ ite (Str-discrete k (to_lower j)) true (contains k (map to_lower ks))
unfolding insert_sorted
contains-insert_sorted_lower k j [] = refl
contains-insert_sorted_lower k j (i ∷ ks) = ground (arith, contains-insert_sorted_lower k j ks)

contains-sort_strings_lower :
    (k : Str) (ks : List Str)
    → contains k (map to_lower (sort_strings ks)) ≡ contains k (map to_lower ks)
unfolding sort_strings
contains-sort_strings_lower k [] = refl
contains-sort_strings_lower k (j ∷ ks) =
    ground
      (arith, contains-insert_sorted_lower k j (sort_strings ks), contains-sort_strings_lower k ks)

insert_sorted-IsDistinct :
    (j : Str) (ks : List Str)
    → contains (to_lower j) (map to_lower ks) ≡ false
    → IsDistinct ks
    → IsDistinct (insert_sorted j ks)
unfolding insert_sorted
insert_sorted-IsDistinct j [] h d = ground arith
insert_sorted-IsDistinct j (i ∷ ks) h d =
    ground (arith, insert_sorted-IsDistinct j ks, contains-insert_sorted_lower (to_lower i) j ks)

sort_strings-IsDistinct : (ks : List Str) → IsDistinct ks → IsDistinct (sort_strings ks)
unfolding sort_strings
sort_strings-IsDistinct [] d = tt
sort_strings-IsDistinct (k ∷ ks) d =
    insert_sorted-IsDistinct k (sort_strings ks) (contains-sort_strings_lower (to_lower k) ks ∙ d.0)
      (sort_strings-IsDistinct ks d.1)

validate_table-columns :
    (t : Table) → validate_table t ≡ ok tt → to_lower (id_column_of t) ≢ to_lower (name_column_of t)
unfolding validate_table
validate_table-columns t h e = ground arith

-- Where a table's declaration is valid, the columns that are tracked for it are distinct up to case,
-- are not the ID column, and are, up to case, the name column and every declared column that is
-- neither blank nor the ID column, and no other.
pub replicated_columns_lem :
    (t : Table) (k : Str)
    → validate_table t ≡ ok tt
    → IsDistinct (replicated_columns t)
      × (contains (to_lower (id_column_of t)) (map to_lower (replicated_columns t)) ≡ false)
      × (contains k (map to_lower (replicated_columns t))
          ≡ ite (Str-discrete k (to_lower (name_column_of t))) true (
              contains k (declared t.columns)
              && (not (is_empty k)
                  && not (ite (Str-discrete k (to_lower (id_column_of t))) true false))))
unfolding replicated_columns
replicated_columns_lem t k v =
    let name = name_column_of t in
    let id = id_column_of t in
    let seen = to_lower name ∷ [] in
    let rest = collect_columns id t.columns seen in
    let differ = validate_table-columns t v in
    (
      (
        contains-sort_strings_lower (to_lower name) rest
            ∙ collect_columns_new id (to_lower name) t.columns seen (ground arith),
        sort_strings-IsDistinct rest (collect_columns-IsDistinct id t.columns seen),
      ),
      ground (
        arith,
        contains-sort_strings_lower (to_lower id) rest,
        collect_columns_no_id id t.columns seen,
      ),
      ground (arith, contains-sort_strings_lower k rest, collect_columns_all id k t.columns seen),
    )
