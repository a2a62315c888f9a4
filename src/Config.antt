-- ===== src/Config.antt =====
-- config.go: the defaults and the required fields of a configuration.
use mariamesh.Base.{
  ℕ, zero, suc, ◌*◌, ◌^◌, ◌≡◌, refl, Bool, true, false, not, if◌then◌else◌, Str, Result, fail_if,
  ◌>>◌, arith,
}
use mariamesh.Changelog.{is_empty}

-- A Go `int`, or a duration in nanoseconds.
pub data ℤ : Type 0 where
  pos : ℕ → ℤ
  negsuc : ℕ → ℤ

-- `c > 0`
abbrev pub is_positive : ℤ → Bool
is_positive (pos zero) = false
is_positive (pos (suc n)) = true
is_positive (negsuc n) = false

-- `Config`: the handles are whether they are set, and the identifiers their text, empty where they are
-- the nil UUID.
pub record Config : Type 0 where
  pub has_db : Bool
  pub node_id : Str
  pub incarnation_id : Str
  pub namespace : Str
  pub has_tls : Bool
  pub has_logger : Bool
  pub listen_addr : Str
  pub advertise_addr : Str
  pub sync_batch_max_events : ℤ
  pub sync_batch_max_bytes : ℤ
  pub sync_interval : ℤ
  pub heartbeat_interval : ℤ
  pub gc_interval : ℤ
  pub seed_chunk_rows : ℤ
  pub dial_timeout : ℤ
  pub idle_timeout : ℤ

-- `time.Second`
abbrev pub seconds : ℕ → ℤ
seconds n = pos (n * 10 ^ 9)

-- `if c <= 0 { c = d }`
abbrev pub or_default : ℤ → ℤ → ℤ
or_default d c = if is_positive c then c else d

-- `setDefaults`; the logger that is not set becomes one that discards.
unfoldable pub set_defaults : Config → Config
set_defaults c = record c {
  sync_batch_max_events = or_default (pos 500) c.sync_batch_max_events;
  sync_batch_max_bytes = or_default (pos (2 * 2 ^ 20)) c.sync_batch_max_bytes;
  sync_interval = or_default (seconds 5) c.sync_interval;
  heartbeat_interval = or_default (seconds 2) c.heartbeat_interval;
  seed_chunk_rows = or_default (pos 500) c.seed_chunk_rows;
  dial_timeout = or_default (seconds 5) c.dial_timeout;
  idle_timeout = or_default (seconds 30) c.idle_timeout;
  has_logger = true;
}

pub data ConfigError : Type 0 where
  missing_db missing_node_id missing_incarnation_id missing_namespace : ConfigError
  missing_tls missing_listen_addr : ConfigError

-- `validate`
unfoldable pub validate_config : Config → Result ConfigError (Unit {0})
validate_config c = do
  fail_if (not c.has_db) missing_db
  fail_if (is_empty c.node_id) missing_node_id
  fail_if (is_empty c.incarnation_id) missing_incarnation_id
  fail_if (is_empty c.namespace) missing_namespace
  fail_if (not c.has_tls) missing_tls
  fail_if (is_empty c.listen_addr) missing_listen_addr

-- `advertiseAddr` of replication.go
unfoldable pub advertise_addr_of : Config → Str
advertise_addr_of c = if not (is_empty c.advertise_addr) then c.advertise_addr else c.listen_addr

-- The limits and intervals that the loops need are positive.
pub record IsReady (c : Config) : Type 0 where
  pub events : is_positive c.sync_batch_max_events ≡ true
  pub bytes : is_positive c.sync_batch_max_bytes ≡ true
  pub sync : is_positive c.sync_interval ≡ true
  pub heartbeat : is_positive c.heartbeat_interval ≡ true
  pub chunk : is_positive c.seed_chunk_rows ≡ true
  pub dial : is_positive c.dial_timeout ≡ true
  pub idle : is_positive c.idle_timeout ≡ true

or_default-positive : (d c : ℤ) → is_positive d ≡ true → is_positive (or_default d c) ≡ true
or_default-positive d (pos zero) h = h
or_default-positive d (pos (suc n)) h = refl
or_default-positive d (negsuc n) h = h

or_default-twice : (d c : ℤ) → or_default d (or_default d c) ≡ or_default d c
or_default-twice (pos zero) (pos zero) = refl
or_default-twice (pos (suc m)) (pos zero) = refl
or_default-twice (negsuc m) (pos zero) = refl
or_default-twice d (pos (suc n)) = refl
or_default-twice (pos zero) (negsuc n) = refl
or_default-twice (pos (suc m)) (negsuc n) = refl
or_default-twice (negsuc m) (negsuc n) = refl

-- Whatever is configured, the defaults make every limit and interval but that of the collection
-- positive, and applying them again changes nothing.
pub set_defaults-IsReady :
    (c : Config) → IsReady (set_defaults c) × (set_defaults (set_defaults c) ≡ set_defaults c)
unfolding set_defaults
set_defaults-IsReady c = (
  record {
    events = or_default-positive _ c.sync_batch_max_events refl;
    bytes = or_default-positive _ c.sync_batch_max_bytes refl;
    sync = or_default-positive _ c.sync_interval refl;
    heartbeat = or_default-positive _ c.heartbeat_interval refl;
    chunk = or_default-positive _ c.seed_chunk_rows refl;
    dial = or_default-positive _ c.dial_timeout refl;
    idle = or_default-positive _ c.idle_timeout refl;
  },
  ground (
    arith,
    or_default-twice (pos 500) c.sync_batch_max_events,
    or_default-twice (pos (2 * 2 ^ 20)) c.sync_batch_max_bytes,
    or_default-twice (seconds 5) c.sync_interval,
    or_default-twice (seconds 2) c.heartbeat_interval,
    or_default-twice (pos 500) c.seed_chunk_rows,
    or_default-twice (seconds 5) c.dial_timeout,
    or_default-twice (seconds 30) c.idle_timeout,
  ),
)
