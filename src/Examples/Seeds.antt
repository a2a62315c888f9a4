-- ===== src/Examples/Seeds.antt =====
-- Inputs for the seeding of a node.
use mariamesh.Base.{
  ℕ, ◌+◌, ◌*◌, ◌≡◌, ◌≢◌, ◌==◌, refl, arith, false, List, [], ◌∷◌, Str, bytes, none, some, ok, err,
  Option, Result, Str-discrete, ℕ_discrete, to_lower, if◌then◌else◌,
}
use mariamesh.Changelog.{Origin-discrete, key, parse_key, cut}
use mariamesh.Changelog.Payload.{Value, null, text, integer, number}
use mariamesh.Changelog.Vector.{origins, sort_strings, insert_sorted}
use mariamesh.Clock.{Clock}
use mariamesh.Examples.{a1, b1, empty_db, log_db, row, version_at, update_of, node_of}
use mariamesh.Gc.{
  run, run_keys, watermarks, agree, with_pins, fill_pins, stale_epoch, active_keys, active_vectors,
  GcResult, GcError,
}
use mariamesh.Seed.{
  Driver, Wire, marker, encode_value, Table, Scanned, Bound, nil, raw, string, plain, other,
  SeedRequest, SeedRow, SeedError, checksum_mismatch,
}
use mariamesh.Seed.Source.{
  Source, Snapshot, table_rows, wire_values, check_request, prepare, pin_all, stream,
}
use mariamesh.Seed.Source.Pins.{prepare_keeps}
use mariamesh.Seed.Target.{Target, start, fetch, require_empty, tables_empty, count_rows}
use mariamesh.Seed.Target.Steps.{HasCodec, is_marker}
use mariamesh.Seed.Target.Copies.{vector_sum}
use mariamesh.Seed.Target.Mismatch.{fetch-stream_two, source_text, target_text}
use mariamesh.Store.Bootstrap.{create_bootstrap, set_bootstrap_vector}
use mariamesh.Store.LocalState.{load_local_state}
use mariamesh.Store.Log.{has_event}
use mariamesh.Store.Progress.{local_vector, get_progress, all_progress}
use mariamesh.Store.Tables.{Db, active, started}

abbrev scan_value : Option Value → Scanned
scan_value none = nil
scan_value (some null) = nil
scan_value (some (text s)) = raw s
scan_value (some v) = other v

abbrev bind_value : Bound → Value
bind_value nil = null
bind_value (raw s) = text s
bind_value (string s) = text s
bind_value (plain v) = v

abbrev hash : Str → ℕ
hash [] = 1
hash (x ∷ xs) = x + 3 * hash xs

-- Decoding a number gives a float.
abbrev transmit_value : Wire → Wire
transmit_value (plain (integer negative n)) =
    plain (number (record { is_negative = negative; mantissa = n; halvings = 0 }))
transmit_value w = w

abbrev marshal_value : Wire → Str
marshal_value (plain (integer negative n)) = n ∷ []
marshal_value (plain (number f)) = f.mantissa ∷ []
marshal_value (marker s) = s
marshal_value (string s) = s
marshal_value _ = []

abbrev driver : Driver
driver = record {
  scan = scan_value;
  bind = bind_value;
  encode_base64 = λ s. s;
  decode_base64 = λ s. some s;
  marshal = marshal_value;
  transmit = transmit_value;
  crc = hash;
  is_binary = λ t c. false;
}

transmit_value-others : (w : Wire) → is_marker w ≡ false → is_marker (transmit_value w) ≡ false
transmit_value-others (plain (integer negative n)) h = refl
transmit_value-others w h = ground arith

driver-HasCodec : HasCodec driver
driver-HasCodec = record { base64 = λ b. refl; markers = λ b. refl; others = transmit_value-others }

abbrev table_named : Str → Table
table_named name = record { name = name; id_column = bytes "id"; columns = bytes "x" ∷ [] }

abbrev request : SeedRequest
request = record {
  bootstrap_id = bytes "s";
  joining_node_id = bytes "j";
  joining_incarnation_id = bytes "1";
  schema_version = 1;
}

-- A row with a version, and a tombstone of another row.
abbrev view : Db
view = record log_db {
  rows = (row, (bytes "x", text (bytes "v")) ∷ []) ∷ [];
  field_versions =
      (record { table = bytes "t"; row_id = bytes "r"; column = bytes "x" }, version_at 2) ∷ [];
  tombstones = (record { table = bytes "t"; row_id = bytes "q" }, version_at 4) ∷ [];
  local_state = some (record {
    node_id = bytes "a";
    incarnation_id = bytes "1";
    current_seq = 4;
    hlc = record { physical = 4; logical = 0 };
  });
}

abbrev snapshot : Snapshot
snapshot = record { req = request; vector = (key a1, 4) ∷ []; view = view }

abbrev source : List Table → Source
source tables = record { schema_version = 1; tables = tables; chunk_rows = 0 }

abbrev target : Target
target = record {
  self = b1;
  schema_version = 1;
  tables = (bytes "t", table_named (bytes "t")) ∷ (bytes "u", table_named (bytes "u")) ∷ [];
}

abbrev clock : Clock
clock = record { physical = 0; logical = 0 }

abbrev one : Source
one = source (table_named (bytes "t") ∷ [])

abbrev two : Source
two = source (table_named (bytes "t") ∷ table_named (bytes "u") ∷ [])

abbrev sent_row : SeedRow
sent_row = record { id = bytes "r"; values = (bytes "x", string (bytes "v")) ∷ [] }

fetch-stream_two_example :
    (source_text driver view
        (vector_sum snapshot)
        (table_named (bytes "t"))
        (table_named (bytes "u"))
      ≢ target_text driver view
          (vector_sum snapshot)
          (table_named (bytes "t"))
          (table_named (bytes "u")))
    × ((fetch driver target request
          (start (stream driver two snapshot).0 (stream driver two snapshot).1)
          clock
          empty_db).result
        ≡ (if driver.crc (
                source_text driver view
                  (vector_sum snapshot)
                  (table_named (bytes "t"))
                  (table_named (bytes "u")))
              == driver.crc (
                  target_text driver view
                    (vector_sum snapshot)
                    (table_named (bytes "t"))
                    (table_named (bytes "u")))
            then ok snapshot.vector
            else err checksum_mismatch))
unfolding require_empty tables_empty count_rows table_rows wire_values encode_value to_lower
    Str-discrete ℕ_discrete
fetch-stream_two_example =
    fetch-stream_two driver target two snapshot (table_named (bytes "t")) (table_named (bytes "u"))
      (table_named (bytes "t")) (table_named (bytes "u")) clock empty_db sent_row [] refl refl refl
      refl refl driver-HasCodec refl

-- The node `b` has all of the log, to sequence 5.
abbrev source_db : Db
source_db = record view {
  log = update_of a1 5 ∷ view.log;
  nodes = (bytes "b", node_of b1 active 0) ∷ [];
  progress = (record { receiver = b1; origin = a1 }, 5) ∷ [];
}

abbrev prepared : Result SeedError Snapshot × Db
prepared = prepare one (bytes "j") request source_db

abbrev collected : Result GcError (GcResult × Db) → GcResult × Db
collected (ok r) = r
collected (err x) = (record { watermarks = []; deleted = 0; origin_count = 0 }, empty_db)

abbrev prepared_snapshot : Snapshot
prepared_snapshot = record {
  req = request;
  vector = (key a1, 4) ∷ [];
  view = record source_db {
    bootstraps =
        (
          bytes "s",
          record {
            id = bytes "s";
            joining_node_id = bytes "j";
            joining_incarnation_id = bytes "1";
            status = started;
            schema_version = 1;
          },
        )
        ∷ [];
  };
}

prepare_keeps_example :
    has_event a1 5 (collected (run 10 prepared.1)).1.log ≡ has_event a1 5 prepared.1.log
unfolding prepare check_request create_bootstrap load_local_state local_vector get_progress origins
    sort_strings insert_sorted pin_all parse_key cut set_bootstrap_vector run run_keys watermarks
    agree with_pins fill_pins stale_epoch active_keys active_vectors all_progress Str-discrete
    ℕ_discrete Origin-discrete
prepare_keeps_example =
    prepare_keeps one (bytes "j") request source_db prepared.1 (collected (run 10 prepared.1)).1
      prepared_snapshot a1 10 5 (collected (run 10 prepared.1)).0 refl refl refl refl (omega arith)
