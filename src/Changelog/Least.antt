-- ===== src/Changelog/Least.antt =====
-- `Min`: the per-origin minimum of several vectors.
use mariamesh.Base.{
  ℕ, ◌≡◌, ◌≤◌, refl, Bool, true, false, ◌||◌, ltb, if◌then◌else◌, Str, Str-discrete, List, [], ◌∷◌,
  map, insert, lookup-insert, arith, All, Bool-cases, inl, inr, ◌↔◌,
}
use mariamesh.Changelog.Vector.{Vector, at_key, contains, contains-keys}

-- The key set of the union: the loop that fills `keys`.
unfoldable pub add_keys : Vector → List Str → List Str
add_keys [] ks = ks
add_keys ((k, n) ∷ v) ks = let rest = add_keys v ks in if contains k rest then rest else k ∷ rest

unfoldable pub union_keys : List Vector → List Str
unfolding add_keys
union_keys [] = []
union_keys (v ∷ vs) = add_keys v (union_keys vs)

-- The inner loop of `Min` for one key, with its variables `first` and `min`.
unfoldable pub min_loop : Bool → ℕ → Str → List Vector → ℕ
min_loop first least k [] = least
min_loop first least k (v ∷ vs) =
    let lower = first || ltb (at_key k v) least in
    min_loop (if lower then false else first) (if lower then at_key k v else least) k vs

unfoldable pub min_from : List Str → List Vector → Vector
unfolding min_loop
min_from [] vs = []
min_from (k ∷ ks) vs = insert Str-discrete k (min_loop true 0 k vs) (min_from ks vs)

-- `Min`
unfoldable pub min_vector : List Vector → Vector
unfolding union_keys min_from
min_vector vs = min_from (union_keys vs) vs

-- A number is below every cursor for the key.
abbrev pub IsLowerBound : ℕ → Str → List Vector → Type 0
IsLowerBound b k = All (λ v. b ≤ at_key k v)

min_loop-true :
    (k : Str) (v : Vector) (vs : List Vector)
    → min_loop true 0 k (v ∷ vs) ≡ min_loop false (at_key k v) k vs
unfolding min_loop
min_loop-true k v vs = refl

-- Once a first value is taken, the loop's result is the greatest lower bound.
le-min_loop :
    (b n : ℕ) (k : Str) (vs : List Vector)
    → b ≤ min_loop false n k vs
    → (b ≤ n) × IsLowerBound b k vs
unfolding min_loop
le-min_loop b n k [] h = (h, tt)
le-min_loop b n k (v ∷ vs) h = ground (arith, le-min_loop b n k vs, le-min_loop b (at_key k v) k vs)

min_loop-greatest :
    (b n : ℕ) (k : Str) (vs : List Vector) → b ≤ n → IsLowerBound b k vs → b ≤ min_loop false n k vs
unfolding min_loop
min_loop-greatest b n k [] h a = h
min_loop-greatest b n k (v ∷ vs) h a =
    ground (arith, min_loop-greatest b n k vs h a.1, min_loop-greatest b (at_key k v) k vs a.0 a.1)

contains-add_keys :
    (k : Str) (v : Vector) (ks : List Str)
    → contains k (add_keys v ks) ≡ contains k (map (λ e. e.0) v) || contains k ks
unfolding add_keys
contains-add_keys k [] ks = refl
contains-add_keys k ((j, n) ∷ v) ks = ground (arith, contains-add_keys k v ks)

at_key-min_from :
    (k : Str) (ks : List Str) (vs : List Vector)
    → at_key k (min_from ks vs) ≡ (if contains k ks then min_loop true 0 k vs else 0)
unfolding min_from
at_key-min_from k [] vs = refl
at_key-min_from k (j ∷ ks) vs = ground (
  arith,
  lookup-insert Str-discrete k j (min_loop true 0 j vs) (min_from ks vs),
  at_key-min_from k ks vs,
)

-- A key that is outside of the union reads 0 in the first vector.
absent_first :
    (k : Str) (v : Vector) (vs : List Vector)
    → contains k (union_keys (v ∷ vs)) ≡ false
    → at_key k v ≡ 0
unfolding union_keys
absent_first k v vs h = ground (arith, contains-add_keys k v (union_keys vs), contains-keys k v)

at_key-min_vector :
    (k : Str) (v : Vector) (vs : List Vector)
    → at_key k (min_vector (v ∷ vs)) ≡ min_loop false (at_key k v) k vs
unfolding min_vector
at_key-min_vector k v vs = elim (Bool-cases (contains k (union_keys (v ∷ vs)))) [
  | inl e ↦ ground (arith, at_key-min_from k (union_keys (v ∷ vs)) (v ∷ vs), min_loop-true k v vs)
  | inr e ↦ ground (
    arith,
    at_key-min_from k (union_keys (v ∷ vs)) (v ∷ vs),
    absent_first k v vs e,
    le-min_loop (min_loop false 0 k vs) 0 k vs,
  )
]

-- For every key, the minimum of one or more vectors is their greatest lower bound, where a vector
-- without the key counts as 0.
pub min_vector_greatest :
    (b : ℕ) (k : Str) (v : Vector) (vs : List Vector)
    → (b ≤ at_key k (min_vector (v ∷ vs))) ↔ IsLowerBound b k (v ∷ vs)
min_vector_greatest b k v vs = (
  λ h. le-min_loop b (at_key k v) k vs (rw (at_key-min_vector k v vs) at h),
  λ h. rw (at_key-min_vector k v vs) (min_loop-greatest b (at_key k v) k vs h.0 h.1),
)
