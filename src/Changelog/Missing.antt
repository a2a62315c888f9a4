-- ===== src/Changelog/Missing.antt =====
-- `Missing`: the intervals that a peer has and this node lacks.
use mariamesh.Base.{
  ℕ, ◌+◌, ◌≡◌, ◌≤◌, ◌<◌, refl, Bool, true, false, ◌&&◌, ltb, leb, ◌||◌, ite, if◌then◌else◌, Str,
  List, [], ◌∷◌, Option, none, some, arith, All, Option-cases, inl, inr,
}
use mariamesh.Changelog.{Origin, Origin-discrete, key, parse_key}
use mariamesh.Changelog.Keys.{parse_key_sound}
use mariamesh.Changelog.Vector.{Vector, at_key, get, origins, contains, contains-origins}

-- `Range`: the sequences from `from` to `to`, both included.
pub record Range : Type 0 where
  pub origin : Origin
  pub from : ℕ
  pub to : ℕ

-- The body of the loop in `Missing`, for one key of `want`.
unfoldable pub range_for : Str → Vector → Vector → Option Range
range_for k have want =
    if ltb (at_key k have) (at_key k want)
    then (elim (parse_key k) [
      | none ↦ none
      | some o ↦ some (record { origin = o; from = at_key k have + 1; to = at_key k want })
    ])
    else none

unfoldable pub missing_from : List Str → Vector → Vector → List Range
missing_from [] have want = []
missing_from (k ∷ ks) have want = elim (range_for k have want) [
  | none ↦ missing_from ks have want
  | some r ↦ r ∷ missing_from ks have want
]

-- `Missing`
unfoldable pub missing : Vector → Vector → List Range
unfolding missing_from
missing have want = missing_from (origins want) have want

-- An interval asks for exactly what is beyond the local cursor, up to the peer's.
abbrev pub IsNext : Vector → Vector → Range → Type 0
IsNext have want r = (r.from ≡ get r.origin have + 1) × (r.to ≡ get r.origin want) × (r.from ≤ r.to)

range_for-IsNext :
    (k : Str) (have want : Vector) (r : Range) → range_for k have want ≡ some r → IsNext have want r
unfolding range_for
range_for-IsNext k have want r h = elim (Option-cases (parse_key k)) [
  | inl e ↦ ground arith
  | inr (o, e) ↦ ground (arith, parse_key_sound k o e)
]

missing_from_bounds :
    (ks : List Str) (have want : Vector) → All (IsNext have want) (missing_from ks have want)
unfolding missing_from
missing_from_bounds [] have want = tt
missing_from_bounds (k ∷ ks) have want = elim (Option-cases (range_for k have want)) [
  | inl e ↦ ground (arith, missing_from_bounds ks have want)
  | inr (r, e) ↦ ground (arith, range_for-IsNext k have want r e, missing_from_bounds ks have want)
]

-- Every requested interval is non-empty, begins right after the local cursor of its origin and ends
-- at the peer's cursor.
pub missing_bounds : (have want : Vector) → All (IsNext have want) (missing have want)
unfolding missing
missing_bounds have want = missing_from_bounds (origins want) have want

-- Some interval asks for the event of the origin at the sequence.
unfoldable pub asks_for : Origin → ℕ → List Range → Bool
asks_for o s [] = false
asks_for o s (r ∷ rs) =
    (ite (Origin-discrete r.origin o) true false && (leb r.from s && leb s r.to)) || asks_for o s rs

abbrev parses : Str → Bool
parses k = elim (parse_key k) [ none ↦ false | some _ ↦ true ]

range_for-none :
    (k : Str) (have want : Vector)
    → range_for k have want ≡ none
    → (parses k && ltb (at_key k have) (at_key k want)) ≡ false
unfolding range_for
range_for-none k have want h = elim (Option-cases (parse_key k)) [
  | inl e ↦ ground arith
  | inr (o, e) ↦ ground arith
]

range_for-some :
    (k : Str) (have want : Vector) (r : Range)
    → range_for k have want ≡ some r
    → (parses k ≡ true)
      × (at_key k have < at_key k want)
      × (key r.origin ≡ k)
      × (parse_key k ≡ some r.origin)
      × (r.from ≡ at_key k have + 1)
      × (r.to ≡ at_key k want)
unfolding range_for
range_for-some k have want r h = elim (Option-cases (parse_key k)) [
  | inl e ↦ ground arith
  | inr (o, e) ↦ ground (arith, parse_key_sound k o e)
]

asks_for-missing_from :
    (o : Origin) (s : ℕ) (ks : List Str) (have want : Vector)
    → parse_key (key o) ≡ some o
    → asks_for o s (missing_from ks have want)
      ≡ contains (key o) ks && (ltb (get o have) s && leb s (get o want))
unfolding missing_from asks_for
asks_for-missing_from o s [] have want p = refl
asks_for-missing_from o s (k ∷ ks) have want p = elim (Option-cases (range_for k have want)) [
  | inl e ↦ ground (arith, range_for-none k have want e, asks_for-missing_from o s ks have want p)
  | inr (r, e) ↦
      ground (arith, range_for-some k have want r e, asks_for-missing_from o s ks have want p)
]

-- A node asks for an event of an origin whose key reads back just where its sequence is beyond the
-- node's cursor of the origin and not beyond the peer's.
pub asks_for-missing :
    (o : Origin) (s : ℕ) (have want : Vector)
    → parse_key (key o) ≡ some o
    → asks_for o s (missing have want) ≡ ltb (get o have) s && leb s (get o want)
unfolding missing
asks_for-missing o s have want p =
    ground
      (arith, asks_for-missing_from o s (origins want) have want p, contains-origins (key o) want)
