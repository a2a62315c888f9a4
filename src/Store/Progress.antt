-- ===== src/Store/Progress.antt =====
-- `replication_progress` (internal/store/progress.go): the cursors of every receiver, the local
-- vector, and the advance of a cursor over the contiguous part of the log.
pub mod Contiguous
pub mod Cursors
use mariamesh.Base.{
  ℕ, zero, suc, ◌+◌, ◌-◌, ◌≤◌, ◌<◌, max, Bool, true, false, ◌&&◌, ◌||◌, ltb, ◌==◌, if◌then◌else◌,
  ite, Str, Str-discrete, List, [], ◌∷◌, Map, lookup, insert, Option, none, some, Result, ok, err,
  ◌>>=◌, length, take,
}
use mariamesh.Changelog.{Origin, Origin-discrete, Event, key, parse_key}
use mariamesh.Changelog.Vector.{Vector, at_key, origins}
use mariamesh.Store.Tables.{
  Db, LocalState, ProgressKey, ProgressKey-discrete, Error, no_local_state,
}
use mariamesh.Store.Log.{select, same_origin}

-- One stored cursor; 0 where there is no row.
abbrev pub cursor : Origin → Origin → Map ProgressKey ℕ → ℕ
cursor receiver origin t =
    elim (lookup ProgressKey-discrete (record { receiver = receiver; origin = origin }) t) [
      | none ↦ 0
      | some n ↦ n
    ]

-- `GetProgress`: the rows of a receiver, as a vector.
unfoldable pub get_progress : Origin → Map ProgressKey ℕ → Vector
get_progress receiver [] = []
get_progress receiver ((k, n) ∷ t) =
    let rest = get_progress receiver t in
    if same_origin k.receiver receiver then insert Str-discrete (key k.origin) n rest else rest

-- `SetProgress`: `GREATEST` of the stored and the new value.
unfoldable pub set_progress : Origin → Origin → ℕ → Db → Db
set_progress receiver origin seq db =
    let k : ProgressKey = record { receiver = receiver; origin = origin } in
    let n = elim (lookup ProgressKey-discrete k db.progress) as (λ _. ℕ) [
      | none ↦ seq
      | some old ↦ max old seq
    ] in
    record db { progress = insert ProgressKey-discrete k n db.progress }

unfoldable pub set_progress_keys : Origin → List Str → Vector → Db → Db
set_progress_keys receiver [] v db = db
set_progress_keys receiver (k ∷ ks) v db = elim (parse_key k) [
  | none ↦ set_progress_keys receiver ks v db
  | some o ↦ set_progress_keys receiver ks v (set_progress receiver o (at_key k v) db)
]

-- `SetProgressMany`
unfoldable pub set_progress_many : Origin → Vector → Db → Db
unfolding set_progress_keys
set_progress_many receiver v db = set_progress_keys receiver (origins v) v db

-- `AllProgress`: every receiver's vector, by the receiver's key.
unfoldable pub all_progress : Map ProgressKey ℕ → Map Str Vector
all_progress [] = []
all_progress ((k, n) ∷ t) =
    let rest = all_progress t in
    let old = elim (lookup Str-discrete (key k.receiver) rest) as (λ _. Vector) [
      | none ↦ []
      | some v ↦ v
    ] in
    insert Str-discrete (key k.receiver) (insert Str-discrete (key k.origin) n old) rest

-- `LocalVectorTx`
unfoldable pub local_vector : Origin → Db → Vector
unfolding get_progress
local_vector self db =
    let seq = elim db.local_state as (λ _. ℕ) [ none ↦ 0 | some st ↦ st.current_seq ] in
    insert Str-discrete (key self) seq (get_progress self db.progress)

-- The inner loop of `AdvanceContiguous` over the rows of one window: the next sequence expected, and
-- whether a gap stopped it.
unfoldable pub scan : ℕ → List Event → ℕ × Bool
scan next [] = (next, false)
scan next (e ∷ es) =
    let rest = scan (next + 1) es in if e.origin_seq == next then rest else (next, true)

-- One window: the next sequence expected, and whether the loop ends, at a gap or at the end of the
-- rows.
unfoldable pub read_window : ℕ → Origin → List Event → ℕ → ℕ × Bool
read_window window o log cur =
    let rows = take window (select o (cur + 1) none log) in
    let next = scan (cur + 1) rows in (next.0, next.1 || ltb (length rows) window)

-- The outer loop, a window at a time, with fuel; `none` means that the fuel ran out.
unfoldable pub advance_loop : ℕ → ℕ → Origin → List Event → ℕ → Option ℕ
advance_loop zero window o log cur = none
advance_loop (suc fuel) window o log cur =
    let next = read_window window o log cur in
    let rest = advance_loop fuel window o log (next.0 - 1) in
    if next.1 then some (next.0 - 1) else rest

-- `AdvanceContiguous`: the new cursor and the database with it stored. `none` in the first part is
-- exhausted fuel.
unfoldable pub advance_contiguous : ℕ → Origin → Origin → Db → Option (Result Error (ℕ × Db))
advance_contiguous fuel receiver origin db =
    let cur = cursor receiver origin db.progress in
    if same_origin origin receiver
    then (elim db.local_state [
      | none ↦ some (err no_local_state)
      | some st ↦ some (
          ok (
            st.current_seq,
            if ltb cur st.current_seq then set_progress receiver origin st.current_seq db else db,
          ))
    ])
    else elim (advance_loop fuel 4096 origin db.log cur) [
      | none ↦ none
      | some n ↦ some (ok (n, set_progress receiver origin n db))
    ]
