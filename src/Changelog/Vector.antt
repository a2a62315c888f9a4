-- ===== src/Changelog/Vector.antt =====
-- Replication vectors: `Vector` and its methods, and `sort.Strings`.
use mariamesh.Base.{
  ℕ, ◌≡◌, refl, ◌<◌, Bool, true, false, ltb, if◌then◌else◌, ite, Str, Str-discrete, List, [], ◌∷◌,
  map, Map, lookup, insert, lookup-insert, none, some, greater, compare_str, arith, max, ◌∙◌,
}
use mariamesh.Changelog.{Origin, key}

abbrev pub Vector : Type 0
Vector = Map Str ℕ

-- `v[k]`: an absent key reads 0.
abbrev pub at_key : Str → Vector → ℕ
at_key k v = elim (lookup Str-discrete k v) [ none ↦ 0 | some n ↦ n ]

-- `Vector.Get`
abbrev pub get : Origin → Vector → ℕ
get o v = at_key (key o) v

-- `v[k] = n` where that is an advance
abbrev pub advance : Str → ℕ → Vector → Vector
advance k seq v = if ltb (at_key k v) seq then insert Str-discrete k seq v else v

-- `Vector.Set`
abbrev pub set : Origin → ℕ → Vector → Vector
set o seq v = advance (key o) seq v

-- A cursor that is set ends at the larger of the old and the new value; the others stay.
pub at_key-advance :
    (j k : Str) (n : ℕ) (v : Vector)
    → at_key j (advance k n v) ≡ ite (Str-discrete j k) (max (at_key j v) n) (at_key j v)
at_key-advance j k n v = ground (arith, lookup-insert Str-discrete j k n v)

-- `sort.Strings`, by insertion.
unfoldable pub insert_sorted : Str → List Str → List Str
insert_sorted k [] = k ∷ []
insert_sorted k (j ∷ ks) = elim (compare_str k j) [
  | greater ↦ j ∷ insert_sorted k ks
  | _ ↦ k ∷ j ∷ ks
]

unfoldable pub sort_strings : List Str → List Str
unfolding insert_sorted
sort_strings [] = []
sort_strings (k ∷ ks) = insert_sorted k (sort_strings ks)

-- `Vector.Origins`
unfoldable pub origins : Vector → List Str
unfolding sort_strings
origins v = sort_strings (map (λ e. e.0) v)

-- Membership as a test.
abbrev pub contains : Str → List Str → Bool
contains k [] = false
contains k (j ∷ ks) = ite (Str-discrete k j) true (contains k ks)

contains-insert_sorted :
    (k j : Str) (ks : List Str)
    → contains k (insert_sorted j ks) ≡ ite (Str-discrete k j) true (contains k ks)
unfolding insert_sorted
contains-insert_sorted k j [] = refl
contains-insert_sorted k j (i ∷ ks) = ground (arith, contains-insert_sorted k j ks)

pub contains-sort_strings : (k : Str) (ks : List Str) → contains k (sort_strings ks) ≡ contains k ks
unfolding sort_strings
contains-sort_strings k [] = refl
contains-sort_strings k (j ∷ ks) =
    ground (arith, contains-insert_sorted k j (sort_strings ks), contains-sort_strings k ks)

pub contains-keys : (k : Str) (v : Vector) → 0 < at_key k v → contains k (map (λ e. e.0) v) ≡ true
contains-keys k [] h = ground arith
contains-keys k (e ∷ v) h = ground (arith, contains-keys k v)

-- Every key with a cursor above 0 is visited by a loop over `Origins`.
pub contains-origins : (k : Str) (v : Vector) → 0 < at_key k v → contains k (origins v) ≡ true
unfolding origins
contains-origins k v h = contains-sort_strings k (map (λ e. e.0) v) ∙ contains-keys k v h
