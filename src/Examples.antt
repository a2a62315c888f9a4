-- ===== src/Examples.antt =====
-- Concrete inputs: origins, events and a database, and the properties applied to them in the children.
mod Logs
mod Clocks
mod Catalogues
mod Batches
mod Collections
mod Members
mod Sessions
mod Seeds
mod Writes
mod Replicas
use mariamesh.Base.{
  ℕ, suc, ◌≡◌, ◌≢◌, ◌≤◌, ◌<◌, ◌+◌, ◌&&◌, ◌||◌, ◌⊎◌, ◌↔◌, refl, sym, arith, true, false, Bool, List,
  [], ◌∷◌, ◌++◌, Str, bytes, Map, All, none, some, ok, err, less, equal, greater, leb, ltb, ◌==◌,
  ite, max, if◌then◌else◌, Option, Result, Str-discrete, ℕ_discrete, compare_str, to_lower, not,
  length, inl, inr, map,
}
use mariamesh.Changelog.{Origin, Origin-discrete, Event, op_update, op_delete, key}
use mariamesh.Changelog.Payload.{text}
use mariamesh.Clock.{Hlc}
use mariamesh.Conflict.{Version}
use mariamesh.Apply.{Tables, TableApply}
use mariamesh.Store.Tables.{Db, Node, Status, RowKey, active}
use mariamesh.Store.Log.{has_event}
use mariamesh.Store.Log.Insertion.{HasUniqueKeys}

abbrev pub a1 : Origin
a1 = record { node_id = bytes "a"; incarnation_id = bytes "1" }

abbrev pub b1 : Origin
b1 = record { node_id = bytes "b"; incarnation_id = bytes "1" }

pub a1-b1-differ : a1 ≢ b1
a1-b1-differ = λ e. ground arith

abbrev pub h5 : Hlc
h5 = record { physical = 5; logical = 1 }

abbrev pub update_of : Origin → ℕ → Event
update_of o seq = record {
  origin = o;
  origin_seq = seq;
  change_id = bytes "c";
  table = bytes "T";
  row_id = bytes "r";
  op = op_update;
  hlc = record { physical = seq; logical = 0 };
  payload = (bytes "x", text (bytes "v")) ∷ [];
}

abbrev pub spec : TableApply
spec = record { name = bytes "t"; id_column = bytes "id"; columns = bytes "x" ∷ [] }

abbrev pub one_table : Tables
one_table = (bytes "t", spec) ∷ []

abbrev pub row : RowKey
row = record { table = bytes "t"; row_id = bytes "r" }

abbrev pub version_at : ℕ → Version
version_at n = record {
  hlc = record { physical = n; logical = 0 };
  origin_id = bytes "a";
  origin_seq = n;
}

abbrev pub empty_db : Db
empty_db = record {
  local_state = none;
  log = [];
  field_versions = [];
  tombstones = [];
  progress = [];
  nodes = [];
  meta = [];
  bootstraps = [];
  bootstrap_vectors = [];
  rows = [];
}

-- Sequences 1, 2 and 4 of one origin, and one event of another.
abbrev pub log_db : Db
log_db = record empty_db {
  log = update_of a1 4 ∷ update_of a1 1 ∷ update_of b1 1 ∷ update_of a1 2 ∷ [];
}

pub log_db-HasUniqueKeys : HasUniqueKeys log_db.log
unfolding has_event Origin-discrete Str-discrete ℕ_discrete
log_db-HasUniqueKeys = (refl, (refl, (refl, (refl, tt))))

abbrev pub node_of : Origin → Status → ℕ → Node
node_of o status epoch = record {
  node_id = o.node_id;
  incarnation_id = o.incarnation_id;
  name = bytes "n";
  status = status;
  membership_epoch = epoch;
  schema_version = 1;
  addr = bytes "h";
  joined_at = none;
  retired_at = none;
  last_seen = none;
}
