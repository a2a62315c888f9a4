-- ===== src/Seed/Target.antt =====
-- internal/seed/target.go: a joining node checks that it is empty, loads the frames of a snapshot as
-- they come, and records the vector at the end. A statement that fails is not modelled.
pub mod Loading
pub mod Loaded
pub mod Contents
pub mod Steps
pub mod Rows
pub mod Received
pub mod LoadedTable
pub mod Emptiness
pub mod Copies
pub mod Mismatch
use mariamesh.Base.{
  ℕ, suc, Bool, true, false, not, ◌==◌, ◌+◌, if◌then◌else◌, Str, Str-discrete, List, [], ◌∷◌, Map,
  map, length, ite, lookup, Option, none, some, Result, ok, err, ◌>>=◌, to_lower, greater,
}
use mariamesh.Apply.{upsert_row}
use mariamesh.Changelog.{Origin}
use mariamesh.Changelog.Payload.{Value}
use mariamesh.Changelog.Vector.{Vector, origins, sort_strings}
use mariamesh.Clock.{Hlc, Clock, compare_hlc, restore, load}
use mariamesh.Seed.{
  Driver, Table, Wire, null, SeedError, SeedRow, SeedRequest, SeedStart, SeedMessage, receive_row,
  decode_value, schema_mismatch, not_empty, bootstrap_mismatch, unregistered_table,
  checksum_mismatch, source_error, read_error, seed_rows, seed_versions, seed_tombstones, seed_end,
  seed_error,
}
use mariamesh.Seed.Digest.{sum_table, sum_row, sum_version, sum_tombstone, sum_vector, sum_all}
use mariamesh.Store.LocalState.{save_hlc}
use mariamesh.Store.Progress.{set_progress_many}
use mariamesh.Store.Tables.{Db, Row, RowKey}
use mariamesh.Store.Versions.{VersionRow, TombstoneRow, set_field_version, set_tombstone}

-- `Target`; `tables` is keyed by the lower-case name.
pub record Target : Type 0 where
  pub self : Origin
  pub schema_version : ℕ
  pub tables : Map Str Table

-- `SELECT COUNT(*)` of a business table.
unfoldable pub count_rows : Str → Map RowKey Row → ℕ
count_rows name [] = 0
count_rows name ((k, row) ∷ m) =
    let rest = count_rows name m in ite (Str-discrete k.table name) (rest + 1) rest

-- The first loop of `requireEmpty`.
unfoldable pub tables_empty : Map Str Table → Map RowKey Row → Bool
unfolding count_rows
tables_empty [] rows = true
tables_empty ((k, t) ∷ ts) rows =
    if count_rows t.name rows == 0 then tables_empty ts rows else false

-- `requireEmpty`
unfoldable pub require_empty : Target → Db → Result SeedError (Unit {0})
unfolding tables_empty
require_empty t db =
    if not (tables_empty t.tables db.rows)
    then err not_empty
    else if not (length db.log == 0)
    then err not_empty
    else if not (length db.field_versions == 0)
    then err not_empty
    else if not (length db.tombstones == 0)
    then err not_empty
    else ok tt

-- The loop of `applyRows` over the sorted columns of a row, with the values as they are bound.
unfoldable pub bind_values : Driver → List Str → Map Str Wire → Result SeedError (Map Str Value)
bind_values d [] values = ok []
bind_values d (k ∷ ks) values =
    let v = elim (lookup Str-discrete k values) as (λ _. Wire) [ none ↦ null | some w ↦ w ] in
    decode_value d v >>= λ b. bind_values d ks values >>= λ rest. ok ((k, d.bind b) ∷ rest)

-- The loop of `applyRows` over the rows of a chunk.
unfoldable pub upsert_rows : Driver → Table → List SeedRow → Db → Result SeedError Db
unfolding bind_values
upsert_rows d spec [] db = ok db
upsert_rows d spec (r ∷ rows) db =
    bind_values d (sort_strings (map (λ e. e.0) r.values)) r.values >>= λ vals.
    upsert_rows d spec rows (upsert_row (record { table = spec.name; row_id = r.id }) vals db)

-- `applyRows`: one transaction, which an error rolls back.
unfoldable pub apply_rows : Driver → Target → Str → List SeedRow → Db → Result SeedError Db
unfolding upsert_rows
apply_rows d t table [] db = ok db
apply_rows d t table (r ∷ rows) db = elim (lookup Str-discrete (to_lower table) t.tables) [
  | none ↦ err unregistered_table
  | some spec ↦ upsert_rows d spec (r ∷ rows) db
]

-- The variables of `Fetch`'s loop.
pub record Transfer : Type 0 where
  pub digest : Str
  pub max_hlc : Hlc
  pub db : Db

-- `if h.Compare(maxHLC) > 0 { maxHLC = h }`
unfoldable pub newer : Hlc → Hlc → Hlc
newer h m = elim (compare_hlc h m) [ greater ↦ h | _ ↦ m ]

-- The loop body for a field version.
unfoldable pub load_version : Str → VersionRow → Transfer → Transfer
unfolding newer
load_version table v s = record {
  digest = sum_version s.digest v;
  max_hlc = newer v.version.hlc s.max_hlc;
  db = set_field_version (record { table = table; row_id = v.row_id }) v.column v.version s.db;
}

-- The loop body for a tombstone.
unfoldable pub load_tombstone : Str → TombstoneRow → Transfer → Transfer
unfolding newer
load_tombstone table v s = record {
  digest = sum_tombstone s.digest v;
  max_hlc = newer v.version.hlc s.max_hlc;
  db = set_tombstone (record { table = table; row_id = v.row_id }) v.version s.db;
}

-- A loop over the items of a frame.
abbrev pub load_all {ℓ} : {A : Type ℓ} → (A → Transfer → Transfer) → List A → Transfer → Transfer
load_all f [] s = s
load_all f (x ∷ xs) s = load_all f xs (f x s)

-- `finish`: the vector and the clock are stored in one transaction.
unfoldable pub finish : Target → Vector → Hlc → Clock → Db → Clock × Db
finish t v h clock db =
    let c = restore h clock in (c, save_hlc (load c) (set_progress_many t.self v db))

-- What `Fetch` leaves: its result, the clock and the database.
pub record Fetched : Type 0 where
  pub result : Result SeedError Vector
  pub clock : Clock
  pub db : Db

-- The loop of `Fetch`; the rows of a frame are decoded first. Where the frames end the next read fails.
unfoldable pub load_frames :
    Driver → Target → Vector → List SeedMessage → Clock → Transfer → Fetched
unfolding apply_rows load_version load_tombstone finish
load_frames d t v [] clock s = record { result = err read_error; clock = clock; db = s.db }
load_frames d t v (seed_rows table rows done ∷ ms) clock s =
    let got = map (receive_row d) rows in
    elim (apply_rows d t table got s.db) [
      | err x ↦ record { result = err x; clock = clock; db = s.db }
      | ok db ↦
          load_frames d t v ms clock
            (record s { digest = sum_all (sum_row d) s.digest got; db = db })
    ]
load_frames d t v (seed_versions table versions done ∷ ms) clock s =
    load_frames d t v ms clock (load_all (load_version table) versions s)
load_frames d t v (seed_tombstones table tombs done ∷ ms) clock s =
    load_frames d t v ms clock (load_all (load_tombstone table) tombs s)
load_frames d t v (seed_end id sum ∷ ms) clock s =
    let end = finish t v s.max_hlc clock s.db in
    if not (sum == d.crc s.digest)
    then record { result = err checksum_mismatch; clock = clock; db = s.db }
    else record { result = ok v; clock = end.0; db = end.1 }
load_frames d t v (seed_error ∷ ms) clock s = record {
  result = err source_error;
  clock = clock;
  db = s.db;
}

-- The loop of `Fetch` that looks for the source's tables.
unfoldable pub check_tables : Map Str Table → List Table → Result SeedError (Unit {0})
check_tables known [] = ok tt
check_tables known (st ∷ tables) = elim (lookup Str-discrete (to_lower st.name) known) [
  | none ↦ err unregistered_table
  | some _ ↦ check_tables known tables
]

-- The checks of the start.
unfoldable pub check_start : Target → SeedRequest → SeedStart → Result SeedError (Unit {0})
unfolding check_tables
check_start t req start =
    if not (start.schema_version == t.schema_version)
    then err schema_mismatch
    else ite (Str-discrete start.bootstrap_id req.bootstrap_id) (check_tables t.tables start.tables)
        (err bootstrap_mismatch)

-- The digest before the loop: the vector, and the names of all tables.
unfoldable pub start_digest : SeedStart → Str
start_digest start =
    sum_all (λ c st. sum_table st.name c) (sum_vector (origins start.vector) start.vector [])
      start.tables

-- What the source answers to the request.
pub data Answer : Type 0 where
  nothing refused : Answer
  start : SeedStart → List SeedMessage → Answer

-- `Fetch`
unfoldable pub fetch : Driver → Target → SeedRequest → Answer → Clock → Db → Fetched
unfolding require_empty check_start start_digest load_frames
fetch d t req answer clock db = elim (require_empty t db) [
  | err x ↦ record { result = err x; clock = clock; db = db }
  | ok _ ↦ elim answer [
    | nothing ↦ record { result = err read_error; clock = clock; db = db }
    | refused ↦ record { result = err source_error; clock = clock; db = db }
    | start st ms ↦ elim (check_start t req st) [
      | err x ↦ record { result = err x; clock = clock; db = db }
      | ok _ ↦ load_frames d t st.vector ms clock (record {
        digest = start_digest st;
        max_hlc = record { physical = 0; logical = 0 };
        db = db;
      })
    ]
  ]
]
