-- ===== src/Examples/Clocks.antt =====
-- Inputs for the clock, the versions and the local state.
use mariamesh.Base.{◌≡◌, arith, List, [], ◌∷◌, bytes, less}
use mariamesh.Examples.{h5}
use mariamesh.Clock.{Hlc, Clock, compare_hlc, load}
use mariamesh.Clock.History.{Call, ticking, updating, issued, IsIncreasing, issued-IsIncreasing}
use mariamesh.Store.Tables.{LocalState}
use mariamesh.Store.LocalState.{save_time, allocate, allocate_behind}

abbrev clock : Clock
clock = record { physical = 3; logical = 0 }

abbrev calls : List Call
calls = ticking 3 ∷ updating 2 h5 ∷ []

issued-IsIncreasing_example : IsIncreasing (load clock) (issued calls clock)
issued-IsIncreasing_example =
    issued-IsIncreasing 1 calls clock (tt, (omega arith, tt)) (omega arith) (omega arith)

abbrev local : LocalState
local = record {
  node_id = bytes "a";
  incarnation_id = bytes "1";
  current_seq = 7;
  hlc = record { physical = 4; logical = 9 };
}

abbrev h4 : Hlc
h4 = record { physical = 4; logical = 3 }

abbrev h6 : Hlc
h6 = record { physical = 6; logical = 3 }

allocate_behind_example :
    compare_hlc (allocate 5 (record local { hlc = save_time h6 local.hlc })).hlc h6 ≡ less
allocate_behind_example = allocate_behind h6 5 local (omega arith) (omega arith) (omega arith)
