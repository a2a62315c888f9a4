-- ===== src/Store/Bootstrap.antt =====
-- Seed sessions and their retention pins (internal/store/nodes.go).
use mariamesh.Base.{
  ℕ, min, Bool, true, false, ◌||◌, Str, Str-discrete, [], ◌∷◌, Map, lookup, insert, Option, none,
  some, if◌then◌else◌,
}
use mariamesh.Changelog.{Origin, key}
use mariamesh.Changelog.Vector.{Vector}
use mariamesh.Store.Tables.{Db, Bootstrap, SeedStatus, started, PinKey, PinKey-discrete}

-- `CreateBootstrap`: an `INSERT`, which fails (`none`) on an identifier that exists.
unfoldable pub create_bootstrap : Bootstrap → Db → Option Db
create_bootstrap b db = elim (lookup Str-discrete b.id db.bootstraps) [
  | none ↦ some (record db { bootstraps = (b.id, b) ∷ db.bootstraps })
  | some _ ↦ none
]

-- `SetBootstrapVector`
unfoldable pub set_bootstrap_vector : Str → Origin → ℕ → Db → Db
set_bootstrap_vector id o seq db = record db {
  bootstrap_vectors =
      insert PinKey-discrete (record { bootstrap_id = id; origin = o }) seq db.bootstrap_vectors;
}

-- `FinishBootstrap`
unfoldable pub finish_bootstrap : Str → SeedStatus → Db → Db
finish_bootstrap id status db = elim (lookup Str-discrete id db.bootstraps) [
  | none ↦ db
  | some b ↦ record db {
    bootstraps = insert Str-discrete id (record b { status = status }) db.bootstraps;
  }
]

abbrev pub is_started : SeedStatus → Bool
is_started started = true
is_started _ = false

-- `HasActiveBootstrap`
unfoldable pub has_active_bootstrap : Map Str Bootstrap → Bool
has_active_bootstrap [] = false
has_active_bootstrap ((k, b) ∷ m) = is_started b.status || has_active_bootstrap m

-- The session of a pin is active.
abbrev pub is_active_pin : Map Str Bootstrap → PinKey → Bool
is_active_pin sessions k = elim (lookup Str-discrete k.bootstrap_id sessions) [
  | none ↦ false
  | some b ↦ is_started b.status
]

-- `ActiveBootstrapPins`: `MIN(seed_seq) … GROUP BY` origin over the active sessions' pins.
unfoldable pub active_pins : Map Str Bootstrap → Map PinKey ℕ → Vector
active_pins sessions [] = []
active_pins sessions ((k, n) ∷ pins) =
    let rest = active_pins sessions pins in
    let low = elim (lookup Str-discrete (key k.origin) rest) as (λ _. ℕ) [
      | none ↦ n
      | some m ↦ min m n
    ] in
    if is_active_pin sessions k then insert Str-discrete (key k.origin) low rest else rest
