-- ===== src/Examples/Batches.antt =====
-- Inputs for the apply engine.
use mariamesh.Base.{
  ℕ, ◌≡◌, ◌⊎◌, refl, arith, false, List, [], ◌∷◌, Str, bytes, Map, none, some, ok, err,
  Str-discrete, ℕ_discrete, inl, inr, Result, to_lower,
}
use mathlib.Core.List.{Perm, Permᴰ}
use mariamesh.Examples.{
  a1, b1, a1-b1-differ, log_db, log_db-HasUniqueKeys, empty_db, update_of, row, version_at, spec,
  one_table,
}
use mariamesh.Apply.{
  Batch, apply_event, note_event, apply_row, find_winners, write_winners, set_versions, upsert_row,
  apply_events, apply_batch, apply_write, apply_delete, version_of, ApplyResult,
}
use mariamesh.Apply.Cells.{get_value, cell}
use mariamesh.Apply.Cells.Deletes.{no_resurrection, delete_write_diverge}
use mariamesh.Apply.Cells.Orders.{apply_rows, apply_rows-perm}
use mariamesh.Apply.Cells.Writes.{payload_value}
use mariamesh.Apply.Redelivery.{IsRepeated, apply_batch_again, apply_batch-commits}
use mariamesh.Apply.Commit.{IsCommitted, apply_batch_lem}
use mariamesh.Changelog.{Origin-discrete, Event, validate}
use mariamesh.Changelog.Payload.{Value, text, normalize_value}
use mariamesh.Clock.{Clock}
use mariamesh.Conflict.{wins, compare_version}
use mariamesh.Clock.{compare_hlc}
use mariamesh.Sync.Broadcasts.{
  BroadcastFrame, broadcast, unexpected, carries, IsHandled, handle_broadcast, handle_broadcast_lem,
}
use mariamesh.Store.Tables.{Db, Error, LocalState}
use mariamesh.Store.Log.{has_event, insert_event}
use mariamesh.Store.Nodes.{check_incarnation}
use mariamesh.Store.Progress.{local_vector}

abbrev clock : Clock
clock = record { physical = 2; logical = 0 }

abbrev two_events : List (ℕ × Event)
two_events = (3, update_of a1 3) ∷ (3, update_of a1 1) ∷ []

apply_batch_lem_example :
    ((x : Error) × ((apply_batch one_table b1 two_events clock log_db).1 ≡ some (err x)))
    ⊎ ((res : ApplyResult × Db) × ((apply_batch one_table b1 two_events clock log_db).1
          ≡ some (ok res))
        × IsCommitted a1 b1 two_events log_db res.1
        × (res.0.vector ≡ local_vector b1 res.1))
apply_batch_lem_example =
    apply_batch_lem a1 b1 one_table a1-b1-differ two_events clock log_db log_db-HasUniqueKeys

abbrev stored_state : LocalState
stored_state = record {
  node_id = bytes "b";
  incarnation_id = bytes "1";
  current_seq = 0;
  hlc = record { physical = 0; logical = 0 };
}

abbrev started_db : Db
started_db = record log_db { local_state = some stored_state }

abbrev looped : Clock × Result Error Batch
looped =
    apply_events one_table two_events clock
      (record { db = started_db; touched = []; stored = 0; written = 0 })

abbrev last_batch : Batch
last_batch = elim looped.1 [
  | ok b ↦ b
  | err _ ↦ record { db = started_db; touched = []; stored = 0; written = 0 }
]

committed :
    (r : ApplyResult × Db) × ((apply_batch one_table b1 two_events clock started_db).1
      ≡ some (ok r))
unfolding apply_events apply_event validate check_incarnation has_event insert_event note_event
    apply_row apply_write find_winners write_winners set_versions upsert_row to_lower
    Origin-discrete Str-discrete ℕ_discrete
committed =
    apply_batch-commits one_table b1 (3, update_of a1 3) ((3, update_of a1 1) ∷ []) clock looped.0
      started_db stored_state last_batch log_db-HasUniqueKeys refl refl

apply_batch_again_example : IsRepeated one_table b1 two_events clock committed.0.1
apply_batch_again_example =
    apply_batch_again one_table b1 two_events clock clock started_db stored_state committed.0
      log_db-HasUniqueKeys refl committed.1

abbrev payload : Map Str Value
payload = (bytes "x", text (bytes "v")) ∷ []

no_resurrection_example :
    apply_write spec row (version_at 1) payload (apply_delete row (version_at 2) empty_db).1
    ≡ (false, (apply_delete row (version_at 2) empty_db).1)
unfolding wins compare_version compare_hlc
no_resurrection_example =
    no_resurrection spec row (version_at 2) (version_at 1) (bytes "x") payload empty_db refl refl

delete_write_diverge_example :
    (get_value row
        (bytes "x")
        (apply_write spec row (version_at 2) payload (apply_delete row (version_at 1) empty_db).1).1
      ≡ some (text (bytes "v")))
    × (get_value row
          (bytes "x")
          (apply_delete row
            (version_at 1)
            (apply_write spec row (version_at 2) payload empty_db).1).1
        ≡ none)
unfolding wins compare_version compare_hlc payload_value normalize_value Str-discrete ℕ_discrete
delete_write_diverge_example =
    delete_write_diverge spec row (version_at 1) (version_at 2) (bytes "x") payload empty_db
      {x = text (bytes "v")} refl refl refl refl

abbrev IsOfTwo : Event → Type 0
IsOfTwo e = (e ≡ update_of a1 1) ⊎ (e ≡ update_of b1 1)

identified : (e f : Event) → IsOfTwo e → IsOfTwo f → version_of e ≡ version_of f → e ≡ f
identified e f (inl p) (inl q) h = ground arith
identified e f (inl p) (inr q) h = absurd (ground arith)
identified e f (inr p) (inl q) h = absurd (ground arith)
identified e f (inr p) (inr q) h = ground arith

swapped : Perm (update_of a1 1 ∷ update_of b1 1 ∷ []) (update_of b1 1 ∷ update_of a1 1 ∷ [])
swapped = ∣ Permᴰ.swap refl refl ∣₁

apply_rows-perm_example :
    cell row (bytes "x") (apply_rows one_table (update_of a1 1 ∷ update_of b1 1 ∷ []) empty_db)
    ≡ cell row (bytes "x") (apply_rows one_table (update_of b1 1 ∷ update_of a1 1 ∷ []) empty_db)
apply_rows-perm_example =
    apply_rows-perm IsOfTwo identified one_table row (bytes "x") empty_db swapped
      (inl refl, (inr refl, tt)) (refl, (refl, tt)) refl

-- A frame that is applied, an empty one, and one of another kind.
abbrev frames : List BroadcastFrame
frames = broadcast (λ i. 3) (update_of a1 3 ∷ []) ∷ broadcast (λ i. 4) [] ∷ unexpected ∷ []

handle_broadcast_lem_example :
    IsHandled a1 3
      (carries a1 3 frames)
      (has_event a1 3 log_db.log)
      (handle_broadcast one_table b1 frames clock log_db)
handle_broadcast_lem_example =
    handle_broadcast_lem a1 a1 3 one_table b1 frames clock log_db a1-b1-differ log_db-HasUniqueKeys
