-- ===== src/Examples/Sessions.antt =====
-- Inputs for frames and sessions.
use mariamesh.Base.{
  map, ◌≡◌, ◌≤◌, ◌&&◌, ◌⊎◌, refl, arith, true, false, List, [], ◌∷◌, ◌++◌, bytes, some, ok, leb,
  Str-discrete, ℕ_discrete,
}
use mariamesh.Examples.{a1, b1, log_db, log_db-HasUniqueKeys, update_of}
use mariamesh.Apply.{
  apply_batch, apply_events, apply_event, note_event, apply_row, apply_write, assign, find_winners,
  set_versions, upsert_row, write_winners, finish_batch, advance_all,
}
use mariamesh.Clock.{update}
use mariamesh.Examples.{a1-b1-differ, empty_db, one_table}
use mariamesh.Sync.Session.{
  need, batch, is_done, run_session, Session, SessionError, timed, receive_batch, receive_all, ack,
}
use mariamesh.Sync.Session.Completion.{after_need, after_ack, run_session_completes}
use mariamesh.Sync.Session.Delivery.{receive_batch_commits}
use mariamesh.Store.Log.Insertion.{HasUniqueKeys}
use mariamesh.Store.Progress.{local_vector}
use mariamesh.Changelog.{validate}
use mariamesh.Changelog.Payload.{normalize_value}
use mariamesh.Clock.{compare_hlc}
use mariamesh.Conflict.{wins, compare_version}
use mariamesh.Store.Nodes.{check_incarnation}
use mariamesh.Store.Log.{insert_event}
use mariamesh.Store.LocalState.{save_hlc, save_time}
use mariamesh.Store.Progress.{
  advance_contiguous, advance_loop, read_window, scan, get_progress, set_progress,
}
use mariamesh.Store.Tables.{ProgressKey-discrete, RowKey-discrete, FieldKey-discrete}
use mariamesh.Sync.{Batch, send_all}
use mariamesh.Base.{◌||◌, Result, err, to_lower, compare_str}
use mariamesh.Changelog.{Origin, Origin-discrete}
use mariamesh.Changelog.Missing.{Range}
use mariamesh.Protocol.Frames.{write_frame, read_frame, frame_bytes}
use mariamesh.Protocol.RoundTrip.{read_frame-frame_bytes}
use mariamesh.Store.Tables.{Db}
use mariamesh.Store.Log.{has_event, select, insert_by_seq, take_bounded, fetch_range}
use mariamesh.Sync.{Env, truncated, finished, send_range, send_ranges, collect, Broadcaster}
use mariamesh.Sync.Contents.{sent_events, send_range_lem}
use mariamesh.Sync.Sending.{ends_complete, send_ranges_completes}
use mariamesh.Sync.Collecting.{IsFresh, collect_lem}

abbrev env_of : Origin → Env
env_of o = record {
  self = o;
  protocol_version = 1;
  schema_version = 1;
  batch_max_events = 2;
  batch_max_bytes = 0;
  size = λ p. 10;
}

read_frame-frame_bytes_example :
    (write_frame (bytes "hi") ≡ ok (frame_bytes (bytes "hi")))
    × (read_frame (frame_bytes (bytes "hi") ++ bytes "rest") ≡ ok (bytes "hi", bytes "rest"))
read_frame-frame_bytes_example = read_frame-frame_bytes (bytes "hi") (bytes "rest") (omega arith)

send_range_lem_example :
    has_event a1 4 (sent_events (send_range 5 (env_of b1) log_db a1 1 4 false).0)
    ≡ has_event a1 4 log_db.log && (leb 1 4 && leb 4 4)
unfolding send_range fetch_range select insert_by_seq take_bounded Origin-discrete Str-discrete
    ℕ_discrete
send_range_lem_example =
    send_range_lem 5 (env_of b1) log_db a1 1 4 false true 4 log_db-HasUniqueKeys (omega arith)
      (omega arith) refl

abbrev ranges : List Range
ranges = record { origin = a1; from = 1; to = 4 } ∷ record { origin = b1; from = 1; to = 1 } ∷ []

send_ranges_completes_example :
    ((send_ranges (env_of b1) log_db ranges).1 ≡ truncated)
    ⊎ (((send_ranges (env_of b1) log_db ranges).1 ≡ finished true)
        × (ends_complete false (send_ranges (env_of b1) log_db ranges).0 ≡ true))
send_ranges_completes_example = send_ranges_completes (env_of b1) log_db ranges

abbrev busy_db : Db
busy_db = record log_db {
  local_state = some (record {
    node_id = bytes "a";
    incarnation_id = bytes "1";
    current_seq = 4;
    hlc = record { physical = 4; logical = 0 };
  });
}

abbrev broadcaster : Broadcaster
broadcaster = record { self = a1; last_sent = 1; started = true }

collect_lem_example :
    IsFresh a1 2 (collect (λ p. 10) 1 busy_db broadcaster).1.last_sent (update_of a1 2 ∷ [])
    × (1 ≤ (collect (λ p. 10) 1 busy_db broadcaster).1.last_sent)
unfolding collect fetch_range select insert_by_seq take_bounded Origin-discrete Str-discrete
    ℕ_discrete
collect_lem_example =
    collect_lem (λ p. 10) 1 busy_db broadcaster (update_of a1 2 ∷ []) log_db-HasUniqueKeys refl refl

abbrev start : Session
start = record {
  pending = [];
  got_complete = false;
  got_ack = false;
  sent_batches = false;
  clock = record { physical = 2; logical = 0 };
  db = empty_db;
  sent = [];
}

abbrev state_of : Result SessionError Session → Session
state_of (ok s) = s
state_of (err x) = start

abbrev asked_of_b : List Range
asked_of_b = record { origin = b1; from = 1; to = 1 } ∷ []

abbrev answer_of_a : List Batch
answer_of_a = (send_ranges (env_of a1) log_db (record { origin = a1; from = 1; to = 4 } ∷ [])).0

abbrev received : Session
received = state_of (
    receive_all (env_of b1) one_table (λ i. i) answer_of_a
      (after_need (env_of b1) asked_of_b start))

run_session_completes_example :
    (run_session
        (env_of b1)
        one_table
        a1
        (λ i. i)
        (need asked_of_b ∷ (map batch answer_of_a ++ ack [] ∷ []))
        start
      ≡ ok (after_ack a1 [] received))
    × (is_done (after_ack a1 [] received) ≡ true)
    × (has_event a1 4 (after_ack a1 [] received).db.log ≡ true)
unfolding receive_all send_ranges send_all send_range fetch_range take_bounded receive_batch timed
    apply_batch apply_event apply_events validate check_incarnation insert_event note_event
    finish_batch advance_all advance_contiguous advance_loop read_window scan save_hlc save_time
    has_event select insert_by_seq local_vector get_progress set_progress apply_row apply_write
    assign find_winners set_versions upsert_row write_winners to_lower normalize_value update wins
    compare_version compare_hlc compare_str Origin-discrete ProgressKey-discrete RowKey-discrete
    FieldKey-discrete Str-discrete ℕ_discrete
run_session_completes_example =
    run_session_completes (env_of b1) one_table (λ i. i) a1 a1-b1-differ (env_of a1) a1 log_db 1 4 4
      asked_of_b [] start received log_db-HasUniqueKeys tt refl refl (omega arith) (omega arith)
      (omega arith) refl refl refl refl

abbrev acked : Session
acked = state_of (
    receive_batch (env_of b1) one_table (λ i. i)
      (record { events = update_of a1 1 ∷ []; complete = true }) start)

receive_batch_commits_example :
    (acked.sent ≡ [] ++ (ack (local_vector b1 acked.db) ∷ []))
    × (acked.pending ≡ [])
    × HasUniqueKeys acked.db.log
    × (has_event a1 1 acked.db.log
        ≡ has_event a1 1 ([] ++ (update_of a1 1 ∷ [])) || has_event a1 1 [])
unfolding receive_batch timed apply_batch apply_event apply_events validate check_incarnation
    insert_event note_event finish_batch advance_all advance_contiguous advance_loop read_window
    scan save_hlc save_time has_event select insert_by_seq local_vector get_progress set_progress
    apply_row apply_write assign find_winners set_versions upsert_row write_winners to_lower
    normalize_value update wins compare_version compare_hlc compare_str Origin-discrete
    ProgressKey-discrete RowKey-discrete FieldKey-discrete Str-discrete ℕ_discrete
receive_batch_commits_example =
    receive_batch_commits (env_of b1) one_table (λ i. i) a1 a1-b1-differ (update_of a1 1 ∷ []) start
      acked a1 1 tt refl
