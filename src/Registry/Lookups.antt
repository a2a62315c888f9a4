-- ===== src/Registry/Lookups.antt =====
-- The registry as a map from names, up to case and surrounding blanks.
use mariamesh.Base.{
  ◌≡◌, inl, inr, ite, Str, Str-discrete, lookup, insert, lookup-insert, Option-cases, Result-cases,
  ok, err, arith,
}
use mariamesh.Registry.{
  Table, Registry, table_exists, normalize_table, validate_table, register, lookup_table,
}

-- A table that is registered is found by every name that normalizes to its own, which no other table
-- can take from then on, and the other names find what they did.
pub lookup_table-register :
    (t u : Table) (name : Str) (r r' : Registry)
    → register t r ≡ ok r'
    → validate_table u ≡ ok tt
    → normalize_table u.name ≡ normalize_table t.name
    → (lookup_table name r'
        ≡ ite
            (Str-discrete (normalize_table name) (normalize_table t.name))
            (ok t)
            (lookup_table name r))
      × (register u r' ≡ err table_exists)
unfolding register lookup_table
lookup_table-register t u name r r' h v n = elim (Result-cases (validate_table t)) [
  | inr (x, f) ↦ ground arith
  | inl (x, f) ↦ elim (Option-cases (lookup Str-discrete (normalize_table t.name) r)) [
    | inr (y, e) ↦ ground arith
    | inl e ↦
        let e' : r' ≡ insert Str-discrete (normalize_table t.name) t r = ground arith in
        let own =
          lookup-insert Str-discrete (normalize_table u.name) (normalize_table t.name) t r in
        let asked =
          lookup-insert Str-discrete (normalize_table name) (normalize_table t.name) t r in
        (ground (arith, e', asked), ground (arith, e', v, own))
  ]
]
