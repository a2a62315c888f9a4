-- ===== src/Gc.antt =====
-- internal/gc/gc.go: the watermarks of a collection, and one collection cycle.
pub mod Safety
pub mod Gaps
pub mod Pins
use mariamesh.Base.{
  ℕ, ◌+◌, ◌≤◌, ◌<◌, Bool, true, false, ◌||◌, ltb, ◌==◌, if◌then◌else◌, Str, Str-discrete, List, [],
  ◌∷◌, ◌++◌, Map, lookup, insert, Option, none, some, Result, ok, err,
}
use mariamesh.Changelog.{Origin, key, parse_key}
use mariamesh.Changelog.Vector.{Vector, at_key, contains, origins}
use mariamesh.Changelog.Least.{min_vector, union_keys}
use mariamesh.Store.Tables.{Db, Node}
use mariamesh.Store.Bootstrap.{has_active_bootstrap, active_pins}
use mariamesh.Store.Log.{delete_through}
use mariamesh.Store.Nodes.{is_active, get_epoch, list_nodes}
use mariamesh.Store.Progress.{all_progress}

pub data GcError : Type 0 where
  stale_membership : GcError

-- Some known node carries a newer epoch (also `StaleEpoch` of internal/membership).
unfoldable pub stale_epoch : List Node → ℕ → Bool
stale_epoch [] epoch = false
stale_epoch (n ∷ nodes) epoch = ltb epoch n.membership_epoch || stale_epoch nodes epoch

abbrev pub node_key : Node → Str
node_key n = key (record { node_id = n.node_id; incarnation_id = n.incarnation_id })

-- The keys of the active nodes.
unfoldable pub active_keys : List Node → List Str
active_keys [] = []
active_keys (n ∷ nodes) =
    if is_active n.status then node_key n ∷ active_keys nodes else active_keys nodes

-- The vectors of the receivers that are active.
unfoldable pub active_vectors : List Str → Map Str Vector → List Vector
active_vectors keys [] = []
active_vectors keys ((k, v) ∷ m) =
    if contains k keys then v ∷ active_vectors keys m else active_vectors keys m

-- The pins, with 0 for the known origins that have none.
unfoldable pub fill_pins : List Str → Vector → Vector
fill_pins [] pins = []
fill_pins (k ∷ ks) pins = insert Str-discrete k (at_key k pins) (fill_pins ks pins)

-- The vectors to agree with: those of the receivers, and that of the seeds.
unfoldable pub with_pins : Db → List Vector → List Vector
unfolding fill_pins
with_pins db vs =
    if has_active_bootstrap db.bootstraps
    then vs ++ (fill_pins (union_keys vs) (active_pins db.bootstraps db.bootstrap_vectors) ∷ [])
    else vs

unfoldable pub agree : Db → List Vector → Vector
agree db [] = []
agree db (v ∷ vs) = min_vector (with_pins db (v ∷ vs))

-- `Watermarks`
unfoldable pub watermarks : Db → Result GcError Vector
watermarks db =
    if stale_epoch (list_nodes db) (get_epoch db)
    then err stale_membership
    else ok (agree db (active_vectors (active_keys (list_nodes db)) (all_progress db.progress)))

pub record GcResult : Type 0 where
  pub watermarks : Vector
  pub deleted : ℕ
  pub origin_count : ℕ

-- The loop of `Run` over the keys of the watermarks.
unfoldable pub run_keys : ℕ → List Str → GcResult → Db → GcResult × Db
run_keys limit [] res db = (res, db)
run_keys limit (k ∷ ks) res db =
    if at_key k res.watermarks == 0 then run_keys limit ks res db else (elim (parse_key k) [
      | none ↦ run_keys limit ks res db
      | some o ↦
          let (n, db') = delete_through o (at_key k res.watermarks) limit db in
          run_keys limit ks
            (record res { deleted = res.deleted + n; origin_count = res.origin_count + 1 }) db'
    ])

-- `Run`
unfoldable pub run : ℕ → Db → Result GcError (GcResult × Db)
run limit db = elim (watermarks db) [
  | err x ↦ err x
  | ok w ↦ ok (
      run_keys (if limit == 0 then 1000 else limit) (origins w)
        (record { watermarks = w; deleted = 0; origin_count = 0 }) db)
]
