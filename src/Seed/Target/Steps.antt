-- ===== src/Seed/Target/Steps.antt =====
-- What each step of a fetch keeps: every row decodes, and rows, versions and tombstones do not mix.
use mariamesh.Base.{
  ◌≡◌, refl, Bool, true, false, Str, Str-discrete, List, [], ◌∷◌, map, Map, lookup, none, some,
  Option-cases, Result-cases, ok, inl, inr, arith,
}
use mariamesh.Apply.{upsert_row}
use mariamesh.Changelog.{Origin, parse_key}
use mariamesh.Changelog.Vector.{Vector, at_key, origins, sort_strings}
use mariamesh.Clock.{Hlc, Clock}
use mariamesh.Seed.{
  Driver, Table, Wire, Scanned, Bound, nil, raw, at_time, other, null, marker, string, plain,
  object, receive_values, receive_row, SeedRow, encode_value, decode_value,
}
use mariamesh.Seed.Digest.{sum_row}
use mariamesh.Seed.Source.{wire_values, table_rows}
use mariamesh.Seed.Target.{
  Target, Transfer, load_all, load_version, load_tombstone, bind_values, finish,
}
use mariamesh.Seed.Target.Loading.{feed}
use mariamesh.Seed.Target.Loaded.{load_row}
use mariamesh.Store.LocalState.{save_hlc}
use mariamesh.Store.Progress.{set_progress, set_progress_keys, set_progress_many}
use mariamesh.Store.Tables.{Db, Row, RowKey}
use mariamesh.Store.Versions.{VersionRow, TombstoneRow}

abbrev pub is_marker : Wire → Bool
is_marker (marker b) = true
is_marker _ = false

-- Base64 decodes what it encodes, and JSON keeps its texts in a marker and makes no marker of another
-- value.
pub record HasCodec (d : Driver) : Type 0 where
  pub base64 : (b : Str) → d.decode_base64 (d.encode_base64 b) ≡ some b
  pub markers : (b : Str) → d.transmit (marker (d.encode_base64 b)) ≡ marker (d.encode_base64 b)
  pub others : (w : Wire) → is_marker w ≡ false → is_marker (d.transmit w) ≡ false

abbrev IsDecodable : Driver → Wire → Type 0
IsDecodable d w = (b : Bound) × (decode_value d w ≡ ok b)

other-IsDecodable : (d : Driver) (w : Wire) → is_marker w ≡ false → IsDecodable d w
unfolding decode_value
other-IsDecodable d null h = (_, refl)
other-IsDecodable d (marker b) h = ground arith
other-IsDecodable d (string s) h = (_, refl)
other-IsDecodable d (plain v) h = (_, refl)
other-IsDecodable d (object s) h = (_, refl)

-- What the source encodes is decoded, once it has been sent.
encode_value-IsDecodable :
    (d : Driver)
    → HasCodec d
    → (x : Scanned) (b : Bool) → IsDecodable d (d.transmit (encode_value d x b))
unfolding encode_value decode_value
encode_value-IsDecodable d h nil b = other-IsDecodable d _ (h.others null refl)
encode_value-IsDecodable d h (raw s) true = (raw s, ground (arith, h.markers s, h.base64 s))
encode_value-IsDecodable d h (raw s) false = other-IsDecodable d _ (h.others (string s) refl)
encode_value-IsDecodable d h (at_time s) b = other-IsDecodable d _ (h.others (string s) refl)
encode_value-IsDecodable d h (other v) b = other-IsDecodable d _ (h.others (plain v) refl)

-- The value of a key, as the code reads it from the map of a row.
abbrev pub wire_at : Str → Map Str Wire → Wire
wire_at k values = elim (lookup Str-discrete k values) as (λ _. Wire) [ none ↦ null | some w ↦ w ]

wire_values-IsDecodable :
    (d : Driver) (table : Str) (cs : List Str) (row : Row) (k : Str)
    → HasCodec d
    → IsDecodable d (wire_at k (receive_values d (wire_values d table cs row)))
unfolding wire_values decode_value
wire_values-IsDecodable d table [] row k h = (nil, refl)
wire_values-IsDecodable d table (c ∷ cs) row k h = elim (Str-discrete k c) [
  | yes e ↦
      let x =
        encode_value-IsDecodable d h (d.scan (lookup Str-discrete c row)) (d.is_binary table c) in
      (x.0, ground (arith, x.1))
  | no e ↦ let x = wire_values-IsDecodable d table cs row k h in (x.0, ground (arith, x.1))
]

bind_values-ok :
    (d : Driver) (ks : List Str) (values : Map Str Wire)
    → ((k : Str) → IsDecodable d (wire_at k values))
    → (m : _) × (bind_values d ks values ≡ ok m)
unfolding bind_values
bind_values-ok d [] values h = (_, refl)
bind_values-ok d (k ∷ ks) values h =
    let x = h k in
    let rest = bind_values-ok d ks values h in
    ((k, d.bind x.0) ∷ rest.0, ground (arith, x.1, rest.1))

-- Every row that the source reads is loaded.
pub feed-table_rows :
    (d : Driver) (spec table : Table) (m : Map RowKey Row) (s : Transfer)
    → HasCodec d
    → (s' : Transfer) × (feed (load_row d spec) (table_rows d table m) s ≡ ok s')
unfolding table_rows load_row
feed-table_rows d spec table [] s h = (s, refl)
feed-table_rows d spec table ((k, row) ∷ m) s h = elim (Str-discrete k.table table.name) [
  | yes e ↦
      let values = receive_values d (wire_values d table.name table.columns row) in
      let vals =
        bind_values-ok d (sort_strings (map (λ e. e.0) values)) values
          (λ j. wire_values-IsDecodable d table.name table.columns row j h) in
      let r : SeedRow = record { id = k.row_id; values = values } in
      let rest =
        feed-table_rows d spec table m
          (record s {
            digest = sum_row d s.digest r;
            db = upsert_row (record { table = spec.name; row_id = k.row_id }) vals.0 s.db;
          })
          h in
      (rest.0, ground (arith, vals.1, rest.1))
  | no e ↦ let rest = feed-table_rows d spec table m s h in (rest.0, ground (arith, rest.1))
]

-- The versions and tombstones are the same.
pub record SameMeta (a b : Db) : Type 0 where
  pub field_versions : a.field_versions ≡ b.field_versions
  pub tombstones : a.tombstones ≡ b.tombstones

pub feed-SameMeta :
    (d : Driver) (spec : Table) (rows : List SeedRow) (s s' : Transfer)
    → feed (load_row d spec) rows s ≡ ok s'
    → SameMeta s'.db s.db
unfolding load_row upsert_row
feed-SameMeta d spec [] s s' h = record { field_versions = ground arith; tombstones = ground arith }
feed-SameMeta d spec (r ∷ rows) s s' h =
    let got = receive_values d r.values in
    elim (Result-cases (bind_values d (sort_strings (map (λ e. e.0) got)) got)) [
      | inl (vals, e) ↦
          let s1 : Transfer = record s {
            digest = sum_row d s.digest (receive_row d r);
            db = upsert_row (record { table = spec.name; row_id = r.id }) vals s.db;
          } in
          let rest = feed-SameMeta d spec rows s1 s' (ground arith) in
          record {
            field_versions = ground (arith, rest.field_versions);
            tombstones = ground (arith, rest.tombstones);
          }
      | inr (x, e) ↦ ground arith
    ]

pub tombstones-load_versions :
    (table : Str) (vs : List VersionRow) (s : Transfer)
    → (load_all (load_version table) vs s).db.tombstones ≡ s.db.tombstones
unfolding load_version
tombstones-load_versions table [] s = refl
tombstones-load_versions table (x ∷ vs) s =
    tombstones-load_versions table vs (load_version table x s)

pub field_versions-load_tombstones :
    (table : Str) (vs : List TombstoneRow) (s : Transfer)
    → (load_all (load_tombstone table) vs s).db.field_versions ≡ s.db.field_versions
unfolding load_tombstone
field_versions-load_tombstones table [] s = refl
field_versions-load_tombstones table (x ∷ vs) s =
    field_versions-load_tombstones table vs (load_tombstone table x s)

-- The rows, versions and tombstones are the same.
pub record SameData (a b : Db) : Type 0 where
  pub field_versions : a.field_versions ≡ b.field_versions
  pub tombstones : a.tombstones ≡ b.tombstones
  pub rows : a.rows ≡ b.rows

set_progress_keys-SameData :
    (r : Origin) (ks : List Str) (v : Vector) (db : Db) → SameData (set_progress_keys r ks v db) db
unfolding set_progress_keys set_progress
set_progress_keys-SameData r [] v db = record {
  field_versions = refl;
  tombstones = refl;
  rows = refl;
}
set_progress_keys-SameData r (k ∷ ks) v db = elim (Option-cases (parse_key k)) [
  | inl e ↦
      let rest = set_progress_keys-SameData r ks v db in
      record {
        field_versions = ground (arith, rest.field_versions);
        tombstones = ground (arith, rest.tombstones);
        rows = ground (arith, rest.rows);
      }
  | inr (o, e) ↦
      let rest = set_progress_keys-SameData r ks v (set_progress r o (at_key k v) db) in
      record {
        field_versions = ground (arith, rest.field_versions);
        tombstones = ground (arith, rest.tombstones);
        rows = ground (arith, rest.rows);
      }
]

pub finish-SameData :
    (t : Target) (v : Vector) (h : Hlc) (c : Clock) (db : Db) → SameData (finish t v h c db).1 db
unfolding finish set_progress_many save_hlc
finish-SameData t v h c db =
    let p = set_progress_keys-SameData t.self (origins v) v db in
    record {
      field_versions = ground (arith, p.field_versions);
      tombstones = ground (arith, p.tombstones);
      rows = ground (arith, p.rows);
    }
