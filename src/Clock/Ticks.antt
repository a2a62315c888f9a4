-- ===== src/Clock/Ticks.antt =====
-- Each clock operation moves the clock forward, as long as the logical counter does not wrap.
use mariamesh.Base.{ℕ, ◌+◌, ◌<◌, ◌≢◌, ◌≡◌, u64, greater, less, arith}
use mariamesh.Clock.{Hlc, Clock, compare_hlc, load, restore, tick, update}

-- A tick is later than all the clock has issued.
pub tick_later :
    (wall : ℕ) (c : Clock)
    → c.logical + 1 < u64
    → compare_hlc (load (tick wall c)) (load c) ≡ greater
unfolding compare_hlc tick
tick_later wall c h = ground arith

-- An update is later than the clock was, and later than the timestamp observed, where the logical
-- parts of both are below the largest `uint64`.
pub update_later :
    (wall : ℕ) (remote : Hlc) (c : Clock)
    → c.logical + 1 < u64
    → remote.logical + 1 < u64
    → (compare_hlc (load (update wall remote c)) (load c) ≡ greater)
      × (compare_hlc (load (update wall remote c)) remote ≡ greater)
unfolding compare_hlc update
update_later wall remote c h k = ground arith

pub restore_not_earlier :
    (h : Hlc) (c : Clock)
    → (compare_hlc (load (restore h c)) (load c) ≢ less)
      × (compare_hlc (load (restore h c)) h ≢ less)
unfolding compare_hlc restore
restore_not_earlier h c = ground arith
