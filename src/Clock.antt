-- ===== src/Clock.antt =====
-- internal/clock/hlc.go: hybrid logical clock timestamps and the clock that issues them. The mutex
-- makes each method atomic, so a method is a function on the clock; the wall clock's reading (the
-- field `now`) is an argument. Both counters are Go `uint64`, so `logical++` wraps at 2^64.
pub mod Order
pub mod Ticks
pub mod History
use mariamesh.Base.{
  ℕ, ◌+◌, ◌%◌, Bool, true, false, ◌&&◌, ◌||◌, ltb, leb, ◌==◌, if◌then◌else◌, u64, Sign, less, equal,
  greater, List, [], ◌∷◌,
}

pub record Hlc : Type 0 where
  pub physical : ℕ
  pub logical : ℕ

-- `HLC.Compare`
unfoldable pub compare_hlc : Hlc → Hlc → Sign
compare_hlc h o =
    if ltb h.physical o.physical
    then less
    else if ltb o.physical h.physical
    then greater
    else if ltb h.logical o.logical
    then less
    else if ltb o.logical h.logical
    then greater
    else equal

-- `HLC.After`
unfoldable pub is_after : Hlc → Hlc → Bool
unfolding compare_hlc
is_after h o = elim (compare_hlc h o) [ greater ↦ true | _ ↦ false ]

-- `Max`
unfoldable pub max_hlc : Hlc → Hlc → Hlc
unfolding compare_hlc
max_hlc a b = elim (compare_hlc a b) [ less ↦ b | _ ↦ a ]

-- The guarded state of `Clock`.
pub record Clock : Type 0 where
  pub physical : ℕ
  pub logical : ℕ

-- `logical++` on a `uint64`
abbrev pub increment : ℕ → ℕ
increment n = (n + 1) % u64

-- `Clock.Load`
abbrev pub load : Clock → Hlc
load c = record { physical = c.physical; logical = c.logical }

-- `Clock.Restore`
unfoldable pub restore : Hlc → Clock → Clock
restore h c =
    if ltb c.physical h.physical || (h.physical == c.physical && ltb c.logical h.logical)
    then record { physical = h.physical; logical = h.logical }
    else c

-- `Clock.Tick` at the wall time `wall`
unfoldable pub tick : ℕ → Clock → Clock
tick wall c =
    if ltb c.physical wall
    then record { physical = wall; logical = 0 }
    else record c { logical = increment c.logical }

-- `Clock.Update` at the wall time `wall`
unfoldable pub update : ℕ → Hlc → Clock → Clock
update wall remote c =
    if ltb c.physical wall && ltb remote.physical wall
    then record { physical = wall; logical = 0 }
    else if ltb remote.physical c.physical
    then record c { logical = increment c.logical }
    else if ltb c.physical remote.physical
    then record { physical = remote.physical; logical = increment remote.logical }
    else record c {
      logical = increment (if ltb c.logical remote.logical then remote.logical else c.logical);
    }
