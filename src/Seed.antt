-- ===== src/Seed.antt =====
-- internal/seed: the transfer of a whole snapshot to a joining node. This module has the data of both
-- sides, the values on the wire (seed.go) and what the code uses of the driver and of the encoders.
pub mod Digest
pub mod Source
pub mod Target
use mariamesh.Base.{
  ℕ, Bool, true, false, Str, bytes, List, [], ◌∷◌, Map, Option, none, some, Result, ok, err,
}
use mariamesh.Changelog.Payload.{Value}
use mariamesh.Changelog.Vector.{Vector}
use mariamesh.Store.Tables.{Error}
use mariamesh.Store.Versions.{VersionRow, TombstoneRow}

-- `Table`
pub record Table : Type 0 where
  pub name : Str
  pub id_column : Str
  pub columns : List Str

-- A value as the driver scans it: `nil`, a `[]byte`, a `time.Time` with its formatted text, or another.
pub data Scanned : Type 0 where
  nil : Scanned
  raw : Str → Scanned
  at_time : Str → Scanned
  other : Value → Scanned

-- A JSON-safe value; `marker` is a `BinaryMarker`. `object` is an object or an array, by its JSON text.
pub data Wire : Type 0 where
  null : Wire
  marker : Str → Wire
  string : Str → Wire
  plain : Value → Wire
  object : Str → Wire

-- A value that is bound to a statement.
pub data Bound : Type 0 where
  nil : Bound
  raw : Str → Bound
  string : Str → Bound
  plain : Value → Bound

-- The code outside the repository: the driver's scan and bind, base64, the JSON text of a value, what
-- a value has become when its text has been decoded into an `any`, the CRC of the bytes written, and
-- whether a column of a table is binary.
pub record Driver : Type 0 where
  pub scan : Option Value → Scanned
  pub bind : Bound → Value
  pub encode_base64 : Str → Str
  pub decode_base64 : Str → Option Str
  pub marshal : Wire → Str
  pub transmit : Wire → Wire
  pub crc : Str → ℕ
  pub is_binary : Str → Str → Bool

-- `encodeValue`
unfoldable pub encode_value : Driver → Scanned → Bool → Wire
encode_value d nil binary = null
encode_value d (raw b) true = marker (d.encode_base64 b)
encode_value d (raw b) false = string b
encode_value d (at_time s) binary = string s
encode_value d (other v) binary = plain v

pub data SeedError : Type 0 where
  schema_mismatch identity_mismatch missing_identity incarnation_retired already_active : SeedError
  duplicate_bootstrap not_empty bootstrap_mismatch unregistered_table bad_value : SeedError
  checksum_mismatch source_error read_error no_ack : SeedError
  store_error : Error → SeedError

-- `decodeValue`
unfoldable pub decode_value : Driver → Wire → Result SeedError Bound
decode_value d null = ok nil
decode_value d (marker b) = elim (d.decode_base64 b) [ none ↦ err bad_value | some s ↦ ok (raw s) ]
decode_value d (string s) = ok (string s)
decode_value d (plain v) = ok (plain v)
decode_value d (object s) = ok (string s)

-- `SeedRow`
pub record SeedRow : Type 0 where
  pub id : Str
  pub values : Map Str Wire

-- A row as the target has decoded it: an integer has become a float, and text that is not UTF-8 has
-- lost bytes. Identifiers and column names are UTF-8.
abbrev pub receive_values : Driver → Map Str Wire → Map Str Wire
receive_values d [] = []
receive_values d ((k, w) ∷ values) = (k, d.transmit w) ∷ receive_values d values

abbrev pub receive_row : Driver → SeedRow → SeedRow
receive_row d r = record r { values = receive_values d r.values }

-- `SeedRequest`
pub record SeedRequest : Type 0 where
  pub bootstrap_id : Str
  pub joining_node_id : Str
  pub joining_incarnation_id : Str
  pub schema_version : ℕ

-- `SeedStart`; of a table only the name is read.
pub record SeedStart : Type 0 where
  pub bootstrap_id : Str
  pub schema_version : ℕ
  pub vector : Vector
  pub tables : List Table

-- The frames that follow the start.
pub data SeedMessage : Type 0 where
  seed_rows : Str → List SeedRow → Bool → SeedMessage
  seed_versions : Str → List VersionRow → Bool → SeedMessage
  seed_tombstones : Str → List TombstoneRow → Bool → SeedMessage
  seed_end : Str → ℕ → SeedMessage
  seed_error : SeedMessage
