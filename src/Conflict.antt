-- ===== src/Conflict.antt =====
-- internal/conflict/conflict.go: versions of writes and the last-write-wins order.
pub mod Order
use mariamesh.Base.{
  ℕ, ℕ_discrete, Str-discrete, Bool, true, false, ltb, if◌then◌else◌, Str, Sign, less, equal,
  greater, compare_str,
}
use mariamesh.Clock.{Hlc, compare_hlc}

pub record Version : Type 0 where
  pub hlc : Hlc
  pub origin_id : Str
  pub origin_seq : ℕ

-- The final tie-break of `Compare`.
abbrev pub compare_seq : ℕ → ℕ → Sign
compare_seq a b = if ltb a b then less else if ltb b a then greater else equal

-- `Compare`: the first comparison that tells the versions apart decides.
unfoldable pub compare_version : Version → Version → Sign
compare_version a b = elim (compare_hlc a.hlc b.hlc) [
  | less ↦ less
  | greater ↦ greater
  | equal ↦ elim (compare_str a.origin_id b.origin_id) [
    | less ↦ less
    | greater ↦ greater
    | equal ↦ compare_seq a.origin_seq b.origin_seq
  ]
]

-- `Wins`
unfoldable pub wins : Version → Version → Bool
unfolding compare_version
wins incoming stored = elim (compare_version incoming stored) [ greater ↦ true | _ ↦ false ]

unfoldable pub Version-discrete : Discrete Version
unfolding Str-discrete
Version-discrete = hlevel (Str-discrete, ℕ_discrete)
