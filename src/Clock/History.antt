-- ===== src/Clock/History.antt =====
-- Any sequence of clock calls: the timestamps that a node issues only grow.
use mariamesh.Base.{
  ℕ, ◌+◌, ◌≤◌, ◌<◌, ◌≡◌, ◌≢◌, u64, greater, less, arith, List, [], ◌∷◌, length, All,
}
use mariamesh.Clock.{Hlc, Clock, compare_hlc, load, restore, tick, update}
use mariamesh.Clock.Ticks.{tick_later, update_later, restore_not_earlier}

-- A call of the clock, with the wall time that it reads.
pub data Call : Type 0 where
  ticking : ℕ → Call
  updating : ℕ → Hlc → Call
  restoring : Hlc → Call

-- The timestamps that a sequence of calls returns, in order (`Restore` returns none).
pub issued : List Call → Clock → List Hlc
issued [] c = []
issued (ticking wall ∷ calls) c = load (tick wall c) ∷ issued calls (tick wall c)
issued (updating wall remote ∷ calls) c =
    load (update wall remote c) ∷ issued calls (update wall remote c)
issued (restoring h ∷ calls) c = issued calls (restore h c)

-- Each timestamp is later than `h` and than all before it.
abbrev pub IsIncreasing : Hlc → List Hlc → Type 0
IsIncreasing h [] = Unit
IsIncreasing h (x ∷ xs) = (compare_hlc x h ≡ greater) × IsIncreasing x xs

-- The logical part of what a call observes is at most `n`.
abbrev pub IsBounded : ℕ → Call → Type 0
IsBounded n (ticking wall) = Unit
IsBounded n (updating wall remote) = remote.logical ≤ n
IsBounded n (restoring h) = h.logical ≤ n

IsBounded-weaken :
    (n : ℕ) (calls : List Call) → All (IsBounded n) calls → All (IsBounded (n + 1)) calls
IsBounded-weaken n [] h = tt
IsBounded-weaken n (ticking wall ∷ calls) h = (tt, IsBounded-weaken n calls h.1)
IsBounded-weaken n (updating wall remote ∷ calls) h = (omega arith, IsBounded-weaken n calls h.1)
IsBounded-weaken n (restoring x ∷ calls) h = (omega arith, IsBounded-weaken n calls h.1)

IsIncreasing-weaken :
    (h k : Hlc) (xs : List Hlc) → compare_hlc h k ≢ less → IsIncreasing h xs → IsIncreasing k xs
unfolding compare_hlc
IsIncreasing-weaken h k [] le inc = tt
IsIncreasing-weaken h k (x ∷ xs) le inc = (ground arith, inc.1)

tick_bounded : (n wall : ℕ) (c : Clock) → c.logical ≤ n → (tick wall c).logical ≤ n + 1
unfolding tick
tick_bounded n wall c h = ground arith

update_bounded :
    (n wall : ℕ) (remote : Hlc) (c : Clock)
    → c.logical ≤ n
    → remote.logical ≤ n
    → (update wall remote c).logical ≤ n + 1
unfolding update
update_bounded n wall remote c h k = ground arith

restore_bounded :
    (n : ℕ) (x : Hlc) (c : Clock) → c.logical ≤ n → x.logical ≤ n → (restore x c).logical ≤ n + 1
unfolding restore
restore_bounded n x c h k = ground arith

-- If the clock and all that it observes have logical parts of at most `n`, and `n` with the number
-- of calls stays below 2^64, then each timestamp issued is later than the clock's state before the
-- calls and than every timestamp issued before it, whatever the wall clock does.
pub issued-IsIncreasing :
    (n : ℕ) (calls : List Call) (c : Clock)
    → All (IsBounded n) calls
    → c.logical ≤ n
    → n + length calls < u64
    → IsIncreasing (load c) (issued calls c)
unfolding issued
issued-IsIncreasing n [] c b h l = tt
issued-IsIncreasing n (ticking wall ∷ calls) c b h l = (
  tick_later wall c (omega arith),
  issued-IsIncreasing (n + 1) calls (tick wall c) (IsBounded-weaken n calls b.1)
      (tick_bounded n wall c h) (omega arith),
)
issued-IsIncreasing n (updating wall remote ∷ calls) c b h l = (
  (update_later wall remote c (omega arith) (omega arith)).0,
  issued-IsIncreasing (n + 1) calls (update wall remote c) (IsBounded-weaken n calls b.1)
      (update_bounded n wall remote c h b.0) (omega arith),
)
issued-IsIncreasing n (restoring x ∷ calls) c b h l =
    IsIncreasing-weaken (load (restore x c)) (load c) (issued calls (restore x c))
      (restore_not_earlier x c).0
      (issued-IsIncreasing (n + 1) calls (restore x c) (IsBounded-weaken n calls b.1)
        (restore_bounded n x c h b.0) (omega arith))
