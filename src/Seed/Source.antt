-- ===== src/Seed/Source.antt =====
-- internal/seed/source.go: `Prepare` and `Stream`. A statement that fails is not modelled.
pub mod Pins
use mariamesh.Base.{
  ℕ, suc, Bool, true, false, not, ◌&&◌, ◌||◌, leb, ◌==◌, if◌then◌else◌, Str, Str-discrete, List, [],
  ◌∷◌, ◌++◌, Map, map, length, ite, lookup, Option, none, some, Result, ok, err,
}
use mariamesh.Changelog.{Origin, is_empty, parse_key}
use mariamesh.Changelog.Payload.{Value}
use mariamesh.Changelog.Vector.{Vector, at_key, origins}
use mariamesh.Seed.{
  Driver, Table, Wire, SeedError, SeedRow, SeedRequest, SeedStart, SeedMessage, encode_value,
  schema_mismatch, identity_mismatch, missing_identity, incarnation_retired, already_active,
  duplicate_bootstrap, store_error, seed_rows, seed_versions, seed_tombstones, seed_end, read_error,
  no_ack,
}
use mariamesh.Seed.Digest.{sum_table, sum_row, sum_version, sum_tombstone, sum_vector, sum_all}
use mariamesh.Store.Tables.{Db, Row, RowKey, SeedStatus, started, completed, aborted}
use mariamesh.Store.Bootstrap.{create_bootstrap, set_bootstrap_vector, finish_bootstrap}
use mariamesh.Store.LocalState.{load_local_state}
use mariamesh.Store.Nodes.{get_node, is_retired, is_active, same_text}
use mariamesh.Store.Progress.{local_vector}
use mariamesh.Store.Versions.{all_field_versions, all_tombstones, VersionRow, TombstoneRow}

-- `Source`
pub record Source : Type 0 where
  pub schema_version : ℕ
  pub tables : List Table
  pub chunk_rows : ℕ

-- `Snapshot`; `view` is the database as the open transaction reads it.
pub record Snapshot : Type 0 where
  pub req : SeedRequest
  pub vector : Vector
  pub view : Db

-- The checks at the head of `Prepare`.
unfoldable pub check_request : Source → Str → SeedRequest → Db → Result SeedError (Unit {0})
check_request src peer req db =
    if not (req.schema_version == src.schema_version)
    then err schema_mismatch
    else if not (is_empty peer) && not (same_text req.joining_node_id peer)
    then err identity_mismatch
    else if is_empty req.bootstrap_id
        || (is_empty req.joining_node_id || is_empty req.joining_incarnation_id)
    then err missing_identity
    else elim (get_node req.joining_node_id db) [
      | none ↦ ok tt
      | some n ↦
          if is_retired n.status && same_text n.incarnation_id req.joining_incarnation_id
          then err incarnation_retired
          else if is_active n.status
          then err already_active
          else ok tt
    ]

-- The loop of `Prepare` that stores the pins.
unfoldable pub pin_all : Str → List Str → Vector → Db → Db
pin_all id [] v db = db
pin_all id (k ∷ ks) v db = elim (parse_key k) [
  | none ↦ pin_all id ks v db
  | some o ↦ pin_all id ks v (set_bootstrap_vector id o (at_key k v) db)
]

-- `Prepare`: the result, and the database; `peer` is the authenticated identity of the caller.
unfoldable pub prepare : Source → Str → SeedRequest → Db → Result SeedError Snapshot × Db
unfolding check_request pin_all
prepare src peer req db = elim (check_request src peer req db) [
  | err x ↦ (err x, db)
  | ok _ ↦
      elim (create_bootstrap
        (record {
          id = req.bootstrap_id;
          joining_node_id = req.joining_node_id;
          joining_incarnation_id = req.joining_incarnation_id;
          status = started;
          schema_version = req.schema_version;
        })
        db) [
          | none ↦ (err duplicate_bootstrap, db)
          | some db1 ↦ elim (load_local_state db1) [
            | err x ↦ (err (store_error x), finish_bootstrap req.bootstrap_id aborted db1)
            | ok st ↦
                let self : Origin = record {
                  node_id = st.node_id;
                  incarnation_id = st.incarnation_id;
                } in
                let v = local_vector self db1 in
                (
                  ok (record { req = req; vector = v; view = db1 }),
                  pin_all req.bootstrap_id (origins v) v db1,
                )
          ]
        ]
]

-- The loop of `streamRows`, `streamVersions` and `streamTombstones` with its `flush`: the messages, and
-- the digest. `batch` is what is not yet flushed.
module _ {ℓ} {A : Type ℓ} (message : List A → Bool → SeedMessage) (item : Str → A → Str) where
  unfoldable pub send_chunks : ℕ → List A → List A → Str → List SeedMessage × Str
  send_chunks chunk [] batch c = (message batch true ∷ [], sum_all item c batch)
  send_chunks chunk (x ∷ xs) batch c =
      let batch' = batch ++ x ∷ [] in
      let flushed = send_chunks chunk xs [] (sum_all item c batch') in
      let more = send_chunks chunk xs batch' c in
      if leb chunk (length batch') then (message batch' false ∷ flushed.0, flushed.1) else more

-- The values of a row, one for each column of the table.
unfoldable pub wire_values : Driver → Str → List Str → Row → Map Str Wire
wire_values d table [] row = []
wire_values d table (c ∷ cs) row =
    (c, encode_value d (d.scan (lookup Str-discrete c row)) (d.is_binary table c))
    ∷ wire_values d table cs row

-- The rows of a table, as `streamRows` reads them.
unfoldable pub table_rows : Driver → Table → Map RowKey Row → List SeedRow
unfolding wire_values
table_rows d t [] = []
table_rows d t ((k, row) ∷ m) =
    let rest = table_rows d t m in
    ite (Str-discrete k.table t.name)
      (record { id = k.row_id; values = wire_values d t.name t.columns row } ∷ rest) rest

-- The messages of one table, and the digest.
unfoldable pub stream_table : Driver → ℕ → Db → Table → Str → List SeedMessage × Str
stream_table d chunk view t c =
    let rows =
      send_chunks (seed_rows t.name) (sum_row d) chunk (table_rows d t view.rows) []
        (sum_table t.name c) in
    let versions =
      send_chunks (seed_versions t.name) sum_version chunk
        (all_field_versions t.name view.field_versions) [] rows.1 in
    let tombs =
      send_chunks (seed_tombstones t.name) sum_tombstone chunk
        (all_tombstones t.name view.tombstones) [] versions.1 in
    (rows.0 ++ (versions.0 ++ tombs.0), tombs.1)

-- The loop of `Stream` over the tables.
unfoldable pub stream_tables : Driver → ℕ → Db → List Table → Str → List SeedMessage × Str
unfolding stream_table
stream_tables d chunk view [] c = ([], c)
stream_tables d chunk view (t ∷ ts) c =
    let one = stream_table d chunk view t c in
    let rest = stream_tables d chunk view ts one.1 in (one.0 ++ rest.0, rest.1)

-- The start, and the messages that `Stream` writes after it.
unfoldable pub stream : Driver → Source → Snapshot → SeedStart × List SeedMessage
unfolding stream_tables
stream d src snap =
    let c = sum_vector (origins snap.vector) snap.vector [] in
    let chunk = if src.chunk_rows == 0 then 500 else src.chunk_rows in
    let (messages, sum) = stream_tables d chunk snap.view src.tables c in
    (
      record {
        bootstrap_id = snap.req.bootstrap_id;
        schema_version = src.schema_version;
        vector = snap.vector;
        tables = src.tables;
      },
      messages ++ seed_end snap.req.bootstrap_id (d.crc sum) ∷ [],
    )

-- What the source reads after the end.
pub data Reply : Type 0 where
  nothing acknowledged unexpected : Reply

-- The end of `Stream`: the session is completed on an ACK, and aborted else.
unfoldable pub end_stream : SeedRequest → Reply → Db → Result SeedError (Unit {0}) × Db
end_stream req acknowledged db = (ok tt, finish_bootstrap req.bootstrap_id completed db)
end_stream req unexpected db = (err no_ack, finish_bootstrap req.bootstrap_id aborted db)
end_stream req nothing db = (err read_error, finish_bootstrap req.bootstrap_id aborted db)
