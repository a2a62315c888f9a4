-- ===== src/Seed/Target/Loaded.antt =====
-- What the frames of one table leave in the target, item by item.
use mariamesh.Base.{
  ℕ, ◌≡◌, refl, ap, sym, ◌∙◌, Bool, Str, Str-discrete, List, [], ◌∷◌, ◌++◌, map, lookup, some,
  Result, ok, ◌>>=◌, Result-cases, inl, inr, arith, to_lower,
}
use mariamesh.Apply.{upsert_row}
use mariamesh.Changelog.Vector.{Vector, sort_strings}
use mariamesh.Clock.{Clock}
use mariamesh.Seed.{
  Driver, Table, SeedError, SeedRow, SeedMessage, receive_values, receive_row, seed_rows,
  seed_versions, seed_tombstones,
}
use mariamesh.Seed.Digest.{sum_table, sum_row, sum_version, sum_tombstone, sum_all}
use mariamesh.Seed.Source.{send_chunks, table_rows, stream_table}
use mariamesh.Seed.Target.{
  Target, Transfer, load_frames, load_all, load_version, load_tombstone, bind_values, upsert_rows,
  apply_rows,
}
use mariamesh.Seed.Target.Loading.{feed, append_assoc, send_chunks-sum_all, load_frames-send_chunks}
use mariamesh.Store.Tables.{Db}
use mariamesh.Store.Versions.{all_field_versions, all_tombstones, VersionRow, TombstoneRow}

-- A row of a table, as one step of a loader.
unfoldable pub load_row : Driver → Table → SeedRow → Transfer → Result SeedError Transfer
load_row d spec r s =
    let got = receive_values d r.values in
    bind_values d (sort_strings (map (λ e. e.0) got)) got >>= λ vals. ok (record s {
      digest = sum_row d s.digest (receive_row d r);
      db = upsert_row (record { table = spec.name; row_id = r.id }) vals s.db;
    })

-- What a whole table leaves.
unfoldable pub load_table : Driver → Table → Table → Db → Transfer → Result SeedError Transfer
unfolding load_row
load_table d spec t view s = feed (load_row d spec) (table_rows d t view.rows) s >>= λ s1. ok (
    load_all (load_tombstone t.name) (all_tombstones t.name view.tombstones)
      (load_all (load_version t.name) (all_field_versions t.name view.field_versions) s1))

upsert_rows-feed :
    (d : Driver) (spec : Table) (rows : List SeedRow) (s s' : Transfer)
    → feed (load_row d spec) rows s ≡ ok s'
    → (upsert_rows d spec (map (receive_row d) rows) s.db ≡ ok s'.db)
      × (record s { digest = sum_all (sum_row d) s.digest (map (receive_row d) rows); db = s'.db }
          ≡ s')
unfolding upsert_rows load_row
upsert_rows-feed d spec [] s s' h = (ground arith, ground arith)
upsert_rows-feed d spec (r ∷ rows) s s' h =
    let got = receive_values d r.values in
    elim (Result-cases (bind_values d (sort_strings (map (λ e. e.0) got)) got)) [
      | inl (vals, e) ↦
          let s1 : Transfer = record s {
            digest = sum_row d s.digest (receive_row d r);
            db = upsert_row (record { table = spec.name; row_id = r.id }) vals s.db;
          } in
          let rest = upsert_rows-feed d spec rows s1 s' (ground arith) in
          (ground (arith, rest.0), rest.1)
      | inr (x, e) ↦ ground arith
    ]

feed-load_all {ℓ} :
    {A : Type ℓ} (f : A → Transfer → Transfer) (xs : List A) (s : Transfer)
    → feed (λ x s. ok (f x s)) xs s ≡ ok (load_all f xs s)
feed-load_all f [] s = refl
feed-load_all f (x ∷ xs) s = feed-load_all f xs (f x s)

module _ (d : Driver) (t : Target) (v : Vector) (clock : Clock) (table spec : Table)
    (known : lookup Str-discrete (to_lower table.name) t.tables ≡ some spec) where
  load_frames-rows :
      (rows : List SeedRow) (b : Bool) (ms : List SeedMessage) (s s' : Transfer)
      → feed (load_row d spec) rows s ≡ ok s'
      → load_frames d t v (seed_rows table.name rows b ∷ ms) clock s ≡ load_frames d t v ms clock s'
  unfolding load_frames apply_rows upsert_rows
  load_frames-rows [] b ms s s' h = ground arith
  load_frames-rows (r ∷ rows) b ms s s' h =
      let e = upsert_rows-feed d spec (r ∷ rows) s s' h in ground (arith, e.0, e.1)

  load_frames-versions :
      (vs : List VersionRow) (b : Bool) (ms : List SeedMessage) (s s' : Transfer)
      → feed (λ x s. ok (load_version table.name x s)) vs s ≡ ok s'
      → load_frames d t v (seed_versions table.name vs b ∷ ms) clock s
        ≡ load_frames d t v ms clock s'
  unfolding load_frames
  load_frames-versions vs b ms s s' h = ground (arith, feed-load_all (load_version table.name) vs s)

  load_frames-tombstones :
      (vs : List TombstoneRow) (b : Bool) (ms : List SeedMessage) (s s' : Transfer)
      → feed (λ x s. ok (load_tombstone table.name x s)) vs s ≡ ok s'
      → load_frames d t v (seed_tombstones table.name vs b ∷ ms) clock s
        ≡ load_frames d t v ms clock s'
  unfolding load_frames
  load_frames-tombstones vs b ms s s' h =
      ground (arith, feed-load_all (load_tombstone table.name) vs s)

  -- The frames that the source writes for a table load the table's items.
  pub load_frames-stream_table :
      (chunk : ℕ) (view : Db) (c : Str) (ms : List SeedMessage) (s s' : Transfer)
      → load_table d spec table view s ≡ ok s'
      → load_frames d t v ((stream_table d chunk view table c).0 ++ ms) clock s
        ≡ load_frames d t v ms clock s'
  unfolding stream_table load_table
  load_frames-stream_table chunk view c ms s s' h =
      let rows = table_rows d table view.rows in
      let versions = all_field_versions table.name view.field_versions in
      let tombs = all_tombstones table.name view.tombstones in
      let f1 =
        send_chunks (seed_rows table.name) (sum_row d) chunk rows [] (sum_table table.name c) in
      let f2 = send_chunks (seed_versions table.name) sum_version chunk versions [] f1.1 in
      let f3 = send_chunks (seed_tombstones table.name) sum_tombstone chunk tombs [] f2.1 in
      elim (Result-cases (feed (load_row d spec) rows s)) [
        | inl (s1, e) ↦
            let s2 = load_all (load_version table.name) versions s1 in
            ap (λ l. load_frames d t v l clock s)
              (append_assoc f1.0 (f2.0 ++ f3.0) ms
                ∙ ap (λ l. f1.0 ++ l) (append_assoc f2.0 f3.0 ms))
            ∙ (load_frames-send_chunks d t v clock (seed_rows table.name) (sum_row d)
                  (load_row d spec) load_frames-rows chunk rows [] (sum_table table.name c)
                  (f2.0 ++ (f3.0 ++ ms)) s s1 e
                ∙ (load_frames-send_chunks d t v clock (seed_versions table.name) sum_version
                      (λ x s. ok (load_version table.name x s)) load_frames-versions chunk versions
                      [] f1.1 (f3.0 ++ ms) s1 s2
                      (feed-load_all (load_version table.name) versions s1)
                    ∙ load_frames-send_chunks d t v clock (seed_tombstones table.name) sum_tombstone
                        (λ x s. ok (load_tombstone table.name x s)) load_frames-tombstones chunk
                        tombs [] f2.1 ms s2 s'
                        (feed-load_all (load_tombstone table.name) tombs s2 ∙ ground (arith))))
        | inr (x, e) ↦ ground arith
      ]

pub digest-load_versions :
    (table : Str) (vs : List VersionRow) (s : Transfer)
    → (load_all (load_version table) vs s).digest ≡ sum_all sum_version s.digest vs
unfolding load_version
digest-load_versions table [] s = refl
digest-load_versions table (x ∷ vs) s = digest-load_versions table vs (load_version table x s)

pub digest-load_tombstones :
    (table : Str) (vs : List TombstoneRow) (s : Transfer)
    → (load_all (load_tombstone table) vs s).digest ≡ sum_all sum_tombstone s.digest vs
unfolding load_tombstone
digest-load_tombstones table [] s = refl
digest-load_tombstones table (x ∷ vs) s = digest-load_tombstones table vs (load_tombstone table x s)

pub digest-load_rows :
    (d : Driver) (spec : Table) (rows : List SeedRow) (s s' : Transfer)
    → feed (load_row d spec) rows s ≡ ok s'
    → s'.digest ≡ sum_all (sum_row d) s.digest (map (receive_row d) rows)
digest-load_rows d spec rows s s' h =
    ap (λ x. x.digest) (sym (upsert_rows-feed d spec rows s s' h).1)

-- The digest of the loader that starts at the table's name is the source's, where the rows are summed
-- alike once they have been received.
pub digest-load_table :
    (d : Driver) (spec table : Table) (chunk : ℕ) (view : Db) (c : Str) (s s' : Transfer)
    → s.digest ≡ sum_table table.name c
    → sum_all
        (sum_row d)
        (sum_table table.name c)
        (map (receive_row d) (table_rows d table view.rows))
      ≡ sum_all (sum_row d) (sum_table table.name c) (table_rows d table view.rows)
    → load_table d spec table view s ≡ ok s'
    → s'.digest ≡ (stream_table d chunk view table c).1
unfolding stream_table load_table
digest-load_table d spec table chunk view c s s' g alike h =
    let rows = table_rows d table view.rows in
    let versions = all_field_versions table.name view.field_versions in
    let tombs = all_tombstones table.name view.tombstones in
    let f1 =
      send_chunks (seed_rows table.name) (sum_row d) chunk rows [] (sum_table table.name c) in
    let f2 = send_chunks (seed_versions table.name) sum_version chunk versions [] f1.1 in
    elim (Result-cases (feed (load_row d spec) rows s)) [
      | inl (s1, e) ↦
          let s2 = load_all (load_version table.name) versions s1 in
          let e1 =
            digest-load_rows d spec rows s s1 e
            ∙ (ap (λ x. sum_all (sum_row d) x (map (receive_row d) rows)) g
                ∙ alike
                ∙ sym (
                    send_chunks-sum_all (seed_rows table.name) (sum_row d) chunk rows []
                      (sum_table table.name c))) in
          let e2 =
            digest-load_versions table.name versions s1
            ∙ (ap (λ x. sum_all sum_version x versions) e1
                ∙ sym (
                    send_chunks-sum_all (seed_versions table.name) sum_version chunk versions []
                      f1.1)) in
          let e3 =
            digest-load_tombstones table.name tombs s2
            ∙ (ap (λ x. sum_all sum_tombstone x tombs) e2
                ∙ sym (
                    send_chunks-sum_all (seed_tombstones table.name) sum_tombstone chunk tombs []
                      f2.1)) in
          ground (arith, e3)
      | inr (x, e) ↦ ground arith
    ]
