-- ===== src/Seed/Target/Copies.antt =====
-- A fetch of a stream: the target ends with the source's versions, tombstones and vector.
use mariamesh.Base.{
  ℕ, ◌≡◌, ◌≤◌, ◌==◌, if◌then◌else◌, Str, Str-discrete, List, [], lookup, Option, none, some, ok,
  arith, All,
}
use mariamesh.Apply.Cells.{get_value}
use mariamesh.Changelog.{Origin, parse_key}
use mariamesh.Changelog.Vector.{Vector, at_key, origins}
use mariamesh.Clock.{Clock}
use mariamesh.Seed.{
  Driver, Table, Bound, encode_value, decode_value, SeedRequest, SeedStart, SeedMessage,
}
use mariamesh.Seed.Digest.{sum_vector}
use mariamesh.Seed.Source.{Source, Snapshot}
use mariamesh.Seed.Target.{
  Target, Transfer, Fetched, start, load_frames, require_empty, check_start, start_digest, fetch,
}
use mariamesh.Store.Progress.{cursor}
use mariamesh.Store.Tables.{Db, Row, RowKey-discrete}
use mariamesh.Store.Versions.{get_field_version, get_tombstone}

-- The state of the loop when the target has read the start.
abbrev pub begin : SeedStart → Db → Transfer
begin st db = record {
  digest = start_digest st;
  max_hlc = record { physical = 0; logical = 0 };
  db = db;
}

-- What the target has of a row: nothing where the source has none, and else the value of each tracked
-- column, encoded, transmitted and decoded.
abbrev pub IsSent : Driver → Table → Table → Str → Option Row → Db → Type 0
IsSent d table spec id none db =
    lookup RowKey-discrete (record { table = spec.name; row_id = id }) db.rows ≡ none
IsSent d table spec id (some row) db =
    All
      (λ c.
        (x : Bound) × (decode_value d (
            d.transmit
              (encode_value d (d.scan (lookup Str-discrete c row)) (d.is_binary table.name c)))
          ≡ ok x)
        × (get_value (record { table = spec.name; row_id = id }) c db ≡ some (d.bind x)))
      table.columns

-- The cursor of the origin of a key has reached the vector.
abbrev pub IsReached : Origin → Vector → Db → Str → Option Origin → Type 0
IsReached self v db k none = Unit
IsReached self v db k (some o) = at_key k v ≤ cursor self o db.progress

-- What a fetch leaves in a target.
pub record HasSeed (d : Driver) (table spec : Table) (self : Origin) (v : Vector) (view : Db)
    (out : Fetched) : Type 0 where
  pub result : out.result ≡ ok v
  pub fields :
      (id col : Str)
      → get_field_version (record { table = table.name; row_id = id }) col out.db
        ≡ get_field_version (record { table = table.name; row_id = id }) col view
  pub tombs :
      (id : Str)
      → get_tombstone (record { table = table.name; row_id = id }) out.db
        ≡ get_tombstone (record { table = table.name; row_id = id }) view
  pub rows :
      (id : Str)
      → IsSent d table spec id
          (lookup RowKey-discrete (record { table = table.name; row_id = id }) view.rows)
          out.db
  pub cursors : All (λ k. IsReached self v out.db k (parse_key k)) (origins v)

pub fetch-accepted :
    (d : Driver) (t : Target) (req : SeedRequest) (st : SeedStart) (ms : List SeedMessage)
    (clock : Clock) (db : Db)
    → require_empty t db ≡ ok tt
    → check_start t req st ≡ ok tt
    → fetch d t req (start st ms) clock db ≡ load_frames d t st.vector ms clock (begin st db)
unfolding fetch
fetch-accepted d t req st ms clock db a b = ground arith

abbrev pub chunk_size : Source → ℕ
chunk_size src = if src.chunk_rows == 0 then 500 else src.chunk_rows

abbrev pub vector_sum : Snapshot → Str
vector_sum snap = sum_vector (origins snap.vector) snap.vector []
