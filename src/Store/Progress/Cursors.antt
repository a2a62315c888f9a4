-- ===== src/Store/Progress/Cursors.antt =====
-- Cursors only move forward.
use mariamesh.Base.{
  ℕ, ◌≡◌, ◌≤◌, max, ite, arith, lookup, lookup-insert, Str, List, [], ◌∷◌, Option-cases, Bool-cases,
  ltb, true, some, Str-discrete, inl, inr,
}
use mariamesh.Changelog.{Origin, Origin-discrete, key, parse_key}
use mariamesh.Changelog.Vector.{Vector, at_key, origins, contains, contains-origins}
use mariamesh.Store.Tables.{Db, ProgressKey, ProgressKey-discrete}
use mariamesh.Store.Progress.{cursor, set_progress, set_progress_keys, set_progress_many}

-- Storing a cursor leaves the larger of the old and the new value, and the other cursors alone.
pub cursor-set_progress :
    (r q o p : Origin) (n : ℕ) (db : Db)
    → cursor q p (set_progress r o n db).progress
      ≡ ite
          (Origin-discrete q r)
          (ite (Origin-discrete p o) (max (cursor r o db.progress) n) (cursor q p db.progress))
          (cursor q p db.progress)
unfolding set_progress
cursor-set_progress r q o p n db =
    let k : ProgressKey = record { receiver = r; origin = o } in
    let j : ProgressKey = record { receiver = q; origin = p } in
    elim (Option-cases (lookup ProgressKey-discrete k db.progress)) [
      | inl e ↦ ground (arith, lookup-insert ProgressKey-discrete j k n db.progress)
      | inr (old, e) ↦
          ground (arith, lookup-insert ProgressKey-discrete j k (max old n) db.progress)
    ]

pub cursor-set_progress-le :
    (r q o p : Origin) (n : ℕ) (db : Db)
    → cursor q p db.progress ≤ cursor q p (set_progress r o n db).progress
cursor-set_progress-le r q o p n db = ground (arith, cursor-set_progress r q o p n db)

set_progress_keys-le :
    (r q p : Origin) (ks : List Str) (v : Vector) (db : Db)
    → cursor q p db.progress ≤ cursor q p (set_progress_keys r ks v db).progress
unfolding set_progress_keys
set_progress_keys-le r q p [] v db = omega arith
set_progress_keys-le r q p (k ∷ ks) v db = elim (Option-cases (parse_key k)) [
  | inl e ↦ ground (arith, set_progress_keys-le r q p ks v db)
  | inr (o, e) ↦ ground (
    arith,
    set_progress_keys-le r q p ks v (set_progress r o (at_key k v) db),
    cursor-set_progress-le r q o p (at_key k v) db,
  )
]

set_progress_keys_stores :
    (r o : Origin) (ks : List Str) (v : Vector) (db : Db)
    → parse_key (key o) ≡ some o
    → contains (key o) ks ≡ true
    → at_key (key o) v ≤ cursor r o (set_progress_keys r ks v db).progress
unfolding set_progress_keys
set_progress_keys_stores r o [] v db h c = cc
set_progress_keys_stores r o (k ∷ ks) v db h c = elim (Str-discrete (key o) k) [
  | yes e ↦ ground (
    arith,
    h,
    set_progress_keys-le r r o ks v (set_progress r o (at_key k v) db),
    cursor-set_progress r r o o (at_key k v) db,
  )
  | no e ↦ elim (Option-cases (parse_key k)) [
    | inl n ↦ ground (arith, set_progress_keys_stores r o ks v db h)
    | inr (p, n) ↦
        ground (arith, set_progress_keys_stores r o ks v (set_progress r p (at_key k v) db) h)
  ]
]

-- A receiver's cursors reach the vector that is recorded.
pub set_progress_many_stores :
    (r o : Origin) (v : Vector) (db : Db)
    → parse_key (key o) ≡ some o
    → at_key (key o) v ≤ cursor r o (set_progress_many r v db).progress
unfolding set_progress_many
set_progress_many_stores r o v db h = elim (Bool-cases (ltb 0 (at_key (key o) v))) [
  | inl e ↦
      set_progress_keys_stores r o (origins v) v db h (contains-origins (key o) v (ground arith))
  | inr e ↦ ground arith
]

-- Recording a peer's whole vector moves no receiver's cursor back.
pub set_progress_many-le :
    (r q p : Origin) (v : Vector) (db : Db)
    → cursor q p db.progress ≤ cursor q p (set_progress_many r v db).progress
unfolding set_progress_many
set_progress_many-le r q p v db = set_progress_keys-le r q p (origins v) v db
