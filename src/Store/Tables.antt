-- ===== src/Store/Tables.antt =====
-- The rows of the metadata tables (internal/store and the table definitions of internal/schema),
-- and the database that holds them.
use mariamesh.Base.{ℕ, Option, List, Map, Str, Str-discrete, ◌++◌, bytes}
use mariamesh.Changelog.{Origin, Origin-discrete, Event, Invalid, key}
use mariamesh.Changelog.Payload.{Value}
use mariamesh.Clock.{Hlc}
use mariamesh.Conflict.{Version}

-- `LocalState`: the single row of `replication_local_state`.
pub record LocalState : Type 0 where
  pub node_id : Str
  pub incarnation_id : Str
  pub current_seq : ℕ
  pub hlc : Hlc

-- The node statuses. `unknown` is any text but the three known ones.
pub data Status : Type 0 where
  joining active retired : Status
  unknown : Str → Status

-- `Node`; a `NULL` time is `none`.
pub record Node : Type 0 where
  pub node_id : Str
  pub incarnation_id : Str
  pub name : Str
  pub status : Status
  pub membership_epoch : ℕ
  pub schema_version : ℕ
  pub addr : Str
  pub joined_at : Option ℕ
  pub retired_at : Option ℕ
  pub last_seen : Option ℕ

-- The bootstrap statuses.
pub data SeedStatus : Type 0 where
  started completed aborted : SeedStatus

-- `Bootstrap`
pub record Bootstrap : Type 0 where
  pub id : Str
  pub joining_node_id : Str
  pub joining_incarnation_id : Str
  pub status : SeedStatus
  pub schema_version : ℕ

-- Primary keys of more than one column.
pub record RowKey : Type 0 where
  pub table : Str
  pub row_id : Str

pub record FieldKey : Type 0 where
  pub table : Str
  pub row_id : Str
  pub column : Str

pub record ProgressKey : Type 0 where
  pub receiver : Origin
  pub origin : Origin

pub record PinKey : Type 0 where
  pub bootstrap_id : Str
  pub origin : Origin

unfoldable pub RowKey-discrete : Discrete RowKey
unfolding Str-discrete
RowKey-discrete = hlevel Str-discrete

unfoldable pub FieldKey-discrete : Discrete FieldKey
unfolding Str-discrete
FieldKey-discrete = hlevel Str-discrete

unfoldable pub ProgressKey-discrete : Discrete ProgressKey
unfolding Origin-discrete
ProgressKey-discrete = hlevel Origin-discrete

unfoldable pub PinKey-discrete : Discrete PinKey
unfolding Origin-discrete
PinKey-discrete = hlevel (Str-discrete, Origin-discrete)

-- A business row without its ID column.
abbrev pub Row : Type 0
Row = Map Str Value

-- The tables. `rows` holds the business tables.
pub record Db : Type 0 where
  pub local_state : Option LocalState
  pub log : List Event
  pub field_versions : Map FieldKey Version
  pub tombstones : Map RowKey Version
  pub progress : Map ProgressKey ℕ
  pub nodes : Map Str Node
  pub meta : Map Str ℕ
  pub bootstraps : Map Str Bootstrap
  pub bootstrap_vectors : Map PinKey ℕ
  pub rows : Map RowKey Row

-- The errors that the store's functions return.
pub data Error : Type 0 where
  invalid_event : Invalid → Error
  retired_incarnation history_truncated no_local_state identity_mismatch : Error

-- `EpochKey`
abbrev pub epoch_key : Str
epoch_key = bytes "membership_epoch"

-- `gcMetaKey`
abbrev pub gc_meta_key : Origin → Str
gc_meta_key o = bytes "gc:" ++ key o
