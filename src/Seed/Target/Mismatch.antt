-- ===== src/Seed/Target/Mismatch.antt =====
-- The digests of the two sides where a snapshot has two tables.
use mariamesh.Base.{
  ℕ, ◌≡◌, ◌≢◌, refl, ap, subst, sym, ◌∙◌, ◌==◌, if◌then◌else◌, Str, Str-discrete, List, [], ◌∷◌,
  ◌++◌, map, lookup, some, Result, ok, err, arith, to_lower,
}
use mariamesh.Changelog.Vector.{Vector, origins}
use mariamesh.Clock.{Clock}
use mariamesh.Seed.{
  Driver, Table, SeedError, SeedRow, receive_row, SeedStart, seed_rows, seed_versions,
  seed_tombstones, seed_end, checksum_mismatch,
}
use mariamesh.Seed.Digest.Prefixes.{
  HasPrefix, HasPrefix-trans, HasPrefix-append, HasPrefix-sum_all, HasPrefix-sum_row,
  HasPrefix-sum_version, HasPrefix-sum_tombstone, HasPrefix-differ,
}
use mariamesh.Seed.Digest.{
  newline, sum_vector, sum_table, sum_row, sum_version, sum_tombstone, sum_all,
}
use mariamesh.Seed.Source.{
  Source, Snapshot, table_rows, send_chunks, stream_table, stream_tables, stream,
}
use mariamesh.Seed.Target.{
  Target, Transfer, start, load_frames, load_all, load_version, load_tombstone, require_empty,
  check_start, check_tables, start_digest, fetch,
}
use mariamesh.Seed.Target.Loading.{append_assoc, append-nil, send_chunks-sum_all}
use mariamesh.Seed.Target.Loaded.{
  load_table, load_frames-stream_table, digest-load_versions, digest-load_tombstones,
  digest-load_rows,
}
use mariamesh.Seed.Target.Steps.{HasCodec, feed-table_rows}
use mariamesh.Seed.Target.Copies.{begin, chunk_size, vector_sum, fetch-accepted}
use mariamesh.Store.Tables.{Db}
use mariamesh.Store.Versions.{VersionRow, TombstoneRow, all_field_versions, all_tombstones}

-- The rows of a table as the target receives them.
abbrev pub received : Driver → Db → Table → List SeedRow
received d view t = map (receive_row d) (table_rows d t view.rows)

-- The text of a table's items, without its name.
unfoldable pub sum_items : Driver → List SeedRow → Db → Str → Table → Str
sum_items d rows view c t =
    sum_all sum_tombstone
      (sum_all sum_version (sum_all (sum_row d) c rows)
        (all_field_versions t.name view.field_versions))
      (all_tombstones t.name view.tombstones)

HasPrefix-after_rows :
    (c : Str) (versions : List VersionRow) (tombs : List TombstoneRow)
    → HasPrefix c (sum_all sum_tombstone (sum_all sum_version c versions) tombs)
HasPrefix-after_rows c versions tombs =
    let s = sum_all sum_version c versions in
    HasPrefix-trans c s _ (HasPrefix-sum_all sum_version c versions HasPrefix-sum_version)
      (HasPrefix-sum_all sum_tombstone s tombs HasPrefix-sum_tombstone)

HasPrefix-row : (d : Driver) (c : Str) (r : SeedRow) → HasPrefix c (sum_row d c r)
HasPrefix-row d c r =
    HasPrefix-trans c (c ++ b'R' ∷ []) _ (HasPrefix-append c (b'R' ∷ [])) (HasPrefix-sum_row d c r)

-- The text of a table that has a row goes on with `R`.
HasPrefix-sum_items :
    (d : Driver) (rows : List SeedRow) (view : Db) (c : Str) (t : Table) (r : SeedRow)
    (rs : List SeedRow)
    → rows ≡ r ∷ rs
    → HasPrefix (c ++ b'R' ∷ []) (sum_items d rows view c t)
unfolding sum_items
HasPrefix-sum_items d rows view c t r rs h =
    let versions = all_field_versions t.name view.field_versions in
    let tombs = all_tombstones t.name view.tombstones in
    let s0 = sum_row d c r in
    let s1 = sum_all (sum_row d) s0 rs in
    let whole = HasPrefix-trans (c ++ b'R' ∷ []) s0 _ (HasPrefix-sum_row d c r) (
      HasPrefix-trans s0 s1 _ (HasPrefix-sum_all (sum_row d) s0 rs (HasPrefix-row d))
        (HasPrefix-after_rows s1 versions tombs)) in
    subst
      (λ rows.
        HasPrefix (c ++ b'R' ∷ [])
          (sum_all sum_tombstone (sum_all sum_version (sum_all (sum_row d) c rows) versions) tombs))
      (sym h) whole

sum_items-stream_table :
    (d : Driver) (chunk : ℕ) (view : Db) (t : Table) (c : Str)
    → (stream_table d chunk view t c).1
      ≡ sum_items d (table_rows d t view.rows) view (sum_table t.name c) t
unfolding stream_table sum_items
sum_items-stream_table d chunk view t c =
    let rows = table_rows d t view.rows in
    let versions = all_field_versions t.name view.field_versions in
    let tombs = all_tombstones t.name view.tombstones in
    let f1 = send_chunks (seed_rows t.name) (sum_row d) chunk rows [] (sum_table t.name c) in
    let f2 = send_chunks (seed_versions t.name) sum_version chunk versions [] f1.1 in
    ground (
      arith,
      send_chunks-sum_all (seed_rows t.name) (sum_row d) chunk rows [] (sum_table t.name c),
      send_chunks-sum_all (seed_versions t.name) sum_version chunk versions [] f1.1,
      send_chunks-sum_all (seed_tombstones t.name) sum_tombstone chunk tombs [] f2.1,
    )

sum_items-load_table :
    (d : Driver) (spec t : Table) (view : Db) (s : Transfer)
    → HasCodec d
    → (s' : Transfer) × (load_table d spec t view s ≡ ok s')
      × (s'.digest ≡ sum_items d (received d view t) view s.digest t)
unfolding load_table sum_items
sum_items-load_table d spec t view s b =
    let rows = feed-table_rows d spec t view.rows s b in
    let versions = all_field_versions t.name view.field_versions in
    let tombs = all_tombstones t.name view.tombstones in
    let s2 = load_all (load_version t.name) versions rows.0 in
    (
      load_all (load_tombstone t.name) tombs s2,
      ground (arith, rows.1),
      ground (
        arith,
        digest-load_rows d spec (table_rows d t view.rows) s rows.0 rows.1,
        digest-load_versions t.name versions rows.0,
        digest-load_tombstones t.name tombs s2,
      ),
    )

-- What the source has written into its digest at the end, for two tables: each table's items follow
-- its name.
abbrev pub source_text : Driver → Db → Str → Table → Table → Str
source_text d view c a b =
    sum_items d (table_rows d b view.rows) view
      (sum_table b.name (sum_items d (table_rows d a view.rows) view (sum_table a.name c) a)) b

-- What the target has: both names come first, and the rows are as they were received.
abbrev pub target_text : Driver → Db → Str → Table → Table → Str
target_text d view c a b =
    sum_items d (received d view b) view
      (sum_items d (received d view a) view (sum_table b.name (sum_table a.name c)) a) b

HasPrefix-items :
    (d : Driver) (rows : List SeedRow) (view : Db) (c : Str) (t : Table)
    → HasPrefix c (sum_items d rows view c t)
unfolding sum_items
HasPrefix-items d rows view c t =
    HasPrefix-trans c (sum_all (sum_row d) c rows) _
      (HasPrefix-sum_all (sum_row d) c rows (HasPrefix-row d))
      (HasPrefix-after_rows (sum_all (sum_row d) c rows)
        (all_field_versions t.name view.field_versions) (all_tombstones t.name view.tombstones))

texts_differ :
    (d : Driver) (view : Db) (c : Str) (a b : Table) (r : SeedRow) (rs : List SeedRow)
    → table_rows d a view.rows ≡ r ∷ rs
    → source_text d view c a b ≢ target_text d view c a b
texts_differ d view c a b r rs h =
    let p = sum_table a.name c in
    let s1 = sum_items d (table_rows d a view.rows) view p a in
    let t0 = sum_table b.name p in
    let t1 = sum_items d (received d view a) view t0 a in
    HasPrefix-differ p _ _ b'R' b'T'
      (HasPrefix-trans (p ++ b'R' ∷ []) s1 _
        (HasPrefix-sum_items d (table_rows d a view.rows) view p a r rs h)
        (HasPrefix-trans s1 (sum_table b.name s1) _ (HasPrefix-append s1 _)
          (HasPrefix-items d (table_rows d b view.rows) view (sum_table b.name s1) b)))
      (HasPrefix-trans (p ++ b'T' ∷ []) t0 _
        (subst (HasPrefix (p ++ b'T' ∷ [])) (append_assoc p (b'T' ∷ []) (b.name ++ newline))
          (HasPrefix-append (p ++ b'T' ∷ []) (b.name ++ newline)))
        (HasPrefix-trans t0 t1 _ (HasPrefix-items d (received d view a) view t0 a)
          (HasPrefix-items d (received d view b) view t1 b)))
      (omega arith)

stream-two :
    (d : Driver) (src : Source) (snap : Snapshot) (a b : Table)
    → src.tables ≡ a ∷ b ∷ []
    → let one = stream_table d (chunk_size src) snap.view a (vector_sum snap) in
      let two = stream_table d (chunk_size src) snap.view b one.1 in
      (stream d src snap).1 ≡ one.0 ++ (two.0 ++ seed_end snap.req.bootstrap_id (d.crc two.1) ∷ [])
unfolding stream stream_tables
stream-two d src snap a b h =
    let one = stream_table d (chunk_size src) snap.view a (vector_sum snap) in
    let two = stream_table d (chunk_size src) snap.view b one.1 in
    let last = seed_end snap.req.bootstrap_id (d.crc two.1) ∷ [] in
    ground (arith, append-nil two.0, append_assoc one.0 two.0 last)

start_digest-two :
    (st : SeedStart) (a b : Table)
    → st.tables ≡ a ∷ b ∷ []
    → start_digest st
      ≡ sum_table b.name (sum_table a.name (sum_vector (origins st.vector) st.vector []))
unfolding start_digest
start_digest-two st a b h = ground arith

check_two :
    (t : Target) (snap : Snapshot) (st : SeedStart) (a b sa sb : Table)
    → st.schema_version ≡ t.schema_version
    → st.bootstrap_id ≡ snap.req.bootstrap_id
    → st.tables ≡ a ∷ b ∷ []
    → lookup Str-discrete (to_lower a.name) t.tables ≡ some sa
    → lookup Str-discrete (to_lower b.name) t.tables ≡ some sb
    → check_start t snap.req st ≡ ok tt
unfolding check_start check_tables
check_two t snap st a b sa sb h g e la lb = ground arith

load_frames-end_result :
    (d : Driver) (t : Target) (v : Vector) (clock : Clock) (id sum : Str) (s : Transfer)
    → (load_frames d t v (seed_end id (d.crc sum) ∷ []) clock s).result
      ≡ (if d.crc sum == d.crc s.digest then ok v else err checksum_mismatch)
unfolding load_frames
load_frames-end_result d t v clock id sum s = ground arith

module _ (d : Driver) (t : Target) (src : Source) (snap : Snapshot) (a b sa sb : Table)
    (clock : Clock) (db : Db) (r : SeedRow) (rs : List SeedRow) where
  -- A snapshot of two tables, the first of which has a row, where the target is empty, has the source's
  -- schema version and both tables, base64 decodes what it encodes and JSON keeps markers apart from
  -- other values: the text that the source sums
  -- differs from the one that the target sums, and the fetch returns the vector where the two CRCs are
  -- nevertheless equal, and else a checksum mismatch.
  pub fetch-stream_two :
      src.tables ≡ a ∷ b ∷ []
      → lookup Str-discrete (to_lower a.name) t.tables ≡ some sa
      → lookup Str-discrete (to_lower b.name) t.tables ≡ some sb
      → src.schema_version ≡ t.schema_version
      → require_empty t db ≡ ok tt
      → HasCodec d
      → table_rows d a snap.view.rows ≡ r ∷ rs
      → let sent = source_text d snap.view (vector_sum snap) a b in
        let read = target_text d snap.view (vector_sum snap) a b in
        (sent ≢ read)
        × ((fetch d t snap.req (start (stream d src snap).0 (stream d src snap).1) clock db).result
            ≡ (if d.crc sent == d.crc read then ok snap.vector else err checksum_mismatch))
  unfolding stream start_digest
  fetch-stream_two two la lb same empty b64 rows =
      let st = (stream d src snap).0 in
      let one = stream_table d (chunk_size src) snap.view a (vector_sum snap) in
      let next = stream_table d (chunk_size src) snap.view b one.1 in
      let last = seed_end snap.req.bootstrap_id (d.crc next.1) ∷ [] in
      let (s1, ok_1, e1) = sum_items-load_table d sa a snap.view (begin st db) b64 in
      let (s2, ok_2, e2) = sum_items-load_table d sb b snap.view s1 b64 in
      let run =
        fetch-accepted d t snap.req st (stream d src snap).1 clock db empty
          (check_two t snap st a b sa sb same refl two la lb)
        ∙ (ap (λ ms. load_frames d t snap.vector ms clock (begin st db))
              (stream-two d src snap a b two)
            ∙ (load_frames-stream_table d t snap.vector clock a sa la (chunk_size src) snap.view
                  (vector_sum snap) (next.0 ++ last) (begin st db) s1 ok_1
                ∙ load_frames-stream_table d t snap.vector clock b sb lb (chunk_size src) snap.view
                    one.1 last s1 s2 ok_2)) in
      let c = vector_sum snap in
      let es : next.1 ≡ source_text d snap.view c a b =
        sum_items-stream_table d (chunk_size src) snap.view b one.1
        ∙ ap (λ x. sum_items d (table_rows d b snap.view.rows) snap.view (sum_table b.name x) b)
            (sum_items-stream_table d (chunk_size src) snap.view a c) in
      let et : s2.digest ≡ target_text d snap.view c a b =
        e2
        ∙ ap (λ x. sum_items d (received d snap.view b) snap.view x b)
            (e1
              ∙ ap (λ x. sum_items d (received d snap.view a) snap.view x a)
                  (start_digest-two st a b two)) in
      let verdict : Str → Str → Result SeedError Vector =
        λ x y. if d.crc x == d.crc y then ok snap.vector else err checksum_mismatch in
      (
        texts_differ d snap.view (vector_sum snap) a b r rs rows,
        ap (λ o. o.result) run
            ∙ (load_frames-end_result d t snap.vector clock snap.req.bootstrap_id next.1 s2
                ∙ (ap (λ x. verdict x s2.digest) es
                    ∙ ap (verdict (source_text d snap.view c a b)) et)),
      )
