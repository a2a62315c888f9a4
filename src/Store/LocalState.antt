-- ===== src/Store/LocalState.antt =====
-- The singleton row: `EnsureLocalState`, `SaveHLC`, `AllocateSeq` (internal/store/store.go), and the
-- allocation of a sequence and a timestamp by the generated triggers (internal/schema/schema.go).
use mariamesh.Base.{
  ℕ, ◌+◌, ◌≡◌, ◌≢◌, ◌≤◌, ◌<◌, max, ltb, leb, ◌==◌, if◌then◌else◌, ite, Str, Str-discrete, none,
  some, Result, ok, err, less, greater, arith,
}
use mariamesh.Clock.{Hlc, compare_hlc}
use mariamesh.Store.Tables.{LocalState, Db, Error, identity_mismatch, no_local_state}

-- `EnsureLocalState`: the row, which is created on a fresh database.
unfoldable pub ensure_local_state : Str → Str → Db → Result Error (LocalState × Db)
ensure_local_state node inc db = elim db.local_state [
  | none ↦
      let st : LocalState = record {
        node_id = node;
        incarnation_id = inc;
        current_seq = 0;
        hlc = record { physical = 0; logical = 0 };
      } in
      ok (st, record db { local_state = some st })
  | some st ↦
      ite (Str-discrete st.node_id node)
        (ite (Str-discrete st.incarnation_id inc) (ok (st, db)) (err identity_mismatch))
        (err identity_mismatch)
]

-- `LoadLocalStateTx`
unfoldable pub load_local_state : Db → Result Error LocalState
load_local_state db = elim db.local_state [ none ↦ err no_local_state | some st ↦ ok st ]

-- The timestamp that `SaveHLC`'s statement stores: the logical part is assigned first, by the old
-- physical part.
unfoldable pub save_time : Hlc → Hlc → Hlc
save_time h stored = record {
  physical = max stored.physical h.physical;
  logical =
      if ltb stored.physical h.physical
      then 0
      else if h.physical == stored.physical
      then max stored.logical h.logical
      else stored.logical;
}

-- `SaveHLC`
unfoldable pub save_hlc : Hlc → Db → Db
save_hlc h db = elim db.local_state [
  | none ↦ db
  | some st ↦ record db { local_state = some (record st { hlc = save_time h st.hlc }) }
]

-- `AllocateSeq`
unfoldable pub allocate_seq : Db → Result Error (ℕ × Db)
allocate_seq db = elim db.local_state [
  | none ↦ err no_local_state
  | some st ↦ ok (
    st.current_seq + 1,
    record db { local_state = some (record st { current_seq = st.current_seq + 1 }) },
  )
]

-- `allocSequenceSQL` at the wall time `now`: the next sequence and timestamp.
unfoldable pub allocate : ℕ → LocalState → LocalState
allocate now st = record st {
  current_seq = st.current_seq + 1;
  hlc = record {
    physical = max st.hlc.physical now;
    logical = if leb now st.hlc.physical then st.hlc.logical + 1 else 0;
  };
}

-- The stored timestamp never moves back, whatever is saved.
pub save_time_monotone : (h stored : Hlc) → compare_hlc (save_time h stored) stored ≢ less
unfolding compare_hlc save_time
save_time_monotone h stored = ground arith

-- Saving a timestamp whose physical part is new stores one before it, unless its logical part is 0.
pub save_time_loses :
    (h stored : Hlc)
    → stored.physical < h.physical
    → 0 < h.logical
    → compare_hlc (save_time h stored) h ≡ less
unfolding compare_hlc save_time
save_time_loses h stored p l = ground arith

-- After a node has saved the clock `h`, with a physical part that was new to the database and a
-- logical part of 2 or more, a local write that reads a wall time of at most `h.physical` is given a
-- timestamp before `h`: the persisted state is not past what the node has observed.
pub allocate_behind :
    (h : Hlc) (now : ℕ) (st : LocalState)
    → st.hlc.physical < h.physical
    → 1 < h.logical
    → now ≤ h.physical
    → compare_hlc (allocate now (record st { hlc = save_time h st.hlc })).hlc h ≡ less
unfolding compare_hlc save_time allocate
allocate_behind h now st p l w = ground arith

-- Where the physical part of the saved clock is not new, the allocated timestamp is past it and past
-- the stored one.
pub allocate_past :
    (h : Hlc) (now : ℕ) (st : LocalState)
    → h.physical ≤ st.hlc.physical
    → (compare_hlc (allocate now (record st { hlc = save_time h st.hlc })).hlc h ≡ greater)
      × (compare_hlc (allocate now (record st { hlc = save_time h st.hlc })).hlc st.hlc ≡ greater)
unfolding compare_hlc save_time allocate
allocate_past h now st p = ground arith

-- A second start with the same identity finds the state that the first one left, and writes nothing.
pub ensure_local_state_twice :
    (node inc : Str) (db db' : Db) (st : LocalState)
    → ensure_local_state node inc db ≡ ok (st, db')
    → ensure_local_state node inc db' ≡ ok (st, db')
unfolding ensure_local_state
ensure_local_state_twice node inc db db' st h = ground arith
