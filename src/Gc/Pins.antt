-- ===== src/Gc/Pins.antt =====
-- A collection keeps what an active seed session has pinned.
use mariamesh.Base.{
  ℕ, ◌≡◌, ◌≤◌, ◌<◌, min, inl, inr, some, none, true, arith, Str, Str-discrete, List, [], ◌∷◌, ◌++◌,
  Map, lookup, lookup-insert, ok, Option-cases, Bool-cases, Result-cases, if◌then◌else◌, ◌==◌,
}
use mariamesh.Changelog.{Origin, key}
use mariamesh.Changelog.Vector.{Vector, at_key, origins}
use mariamesh.Changelog.Least.{union_keys, IsLowerBound}
use mariamesh.Gc.{
  watermarks, agree, with_pins, fill_pins, active_vectors, active_keys, run, GcResult,
}
use mariamesh.Gc.Safety.{min_vector-lower, run_keys_keeps}
use mariamesh.Store.Bootstrap.{has_active_bootstrap, active_pins, is_active_pin, is_started}
use mariamesh.Store.Log.{has_event}
use mariamesh.Store.Nodes.{list_nodes}
use mariamesh.Store.Progress.{all_progress}
use mariamesh.Store.Tables.{Db, Bootstrap, PinKey, PinKey-discrete, started}

IsLowerBound-last :
    (b : ℕ) (k : Str) (vs : List Vector) (v : Vector)
    → IsLowerBound b k (vs ++ v ∷ [])
    → b ≤ at_key k v
IsLowerBound-last b k [] v h = h.0
IsLowerBound-last b k (x ∷ vs) v h = IsLowerBound-last b k vs v h.1

fill_pins-le :
    (k : Str) (ks : List Str) (pins : Vector) → at_key k (fill_pins ks pins) ≤ at_key k pins
unfolding fill_pins
fill_pins-le k [] pins = omega arith
fill_pins-le k (j ∷ ks) pins = ground (
  arith,
  lookup-insert Str-discrete k j (at_key j pins) (fill_pins ks pins),
  fill_pins-le k ks pins,
)

-- What the loop stores for an origin: the smaller of the new pin and of what is there.
abbrev low : Map Str ℕ → Str → ℕ → ℕ
low rest k m = elim (lookup Str-discrete k rest) as (λ _. ℕ) [ none ↦ m | some x ↦ min x m ]

low-le :
    (rest : Vector) (k : Str) (m x : ℕ) → lookup Str-discrete k rest ≡ some x → low rest k m ≤ x
low-le rest k m x h = ground arith

low-le_new : (rest : Vector) (k : Str) (m : ℕ) → low rest k m ≤ m
low-le_new rest k m = ground (arith, Option-cases (lookup Str-discrete k rest))

-- The smallest pin of an origin is at most that of any active session.
active_pins-le :
    (sessions : Map Str Bootstrap) (pins : Map PinKey ℕ) (j : PinKey) (n : ℕ)
    → is_active_pin sessions j ≡ true
    → lookup PinKey-discrete j pins ≡ some n
    → (x : ℕ) × (lookup Str-discrete (key j.origin) (active_pins sessions pins) ≡ some x) × (x ≤ n)
unfolding active_pins
active_pins-le sessions [] j n a l = cc
active_pins-le sessions ((i, m) ∷ pins) j n a l =
    let rest = active_pins sessions pins in
    let new = low rest (key i.origin) m in
    let stored = lookup-insert Str-discrete (key j.origin) (key i.origin) new rest in
    elim (PinKey-discrete j i) [
      | yes e ↦ (new, ground (arith, stored), ground (arith, low-le_new rest (key i.origin) m))
      | no e ↦
          let (x, f, g) = active_pins-le sessions pins j n a (ground arith) in
          elim (Bool-cases (is_active_pin sessions i)) [
            | inl b ↦ elim (Str-discrete (key j.origin) (key i.origin)) [
              | yes k ↦
                  (new, ground (arith, stored), ground (arith, low-le rest (key i.origin) m x))
              | no k ↦ (x, ground (arith, stored), g)
            ]
            | inr b ↦ (x, ground arith, g)
          ]
    ]

has_active-lookup :
    (id : Str) (b : Bootstrap) (sessions : Map Str Bootstrap)
    → lookup Str-discrete id sessions ≡ some b
    → is_started b.status ≡ true
    → has_active_bootstrap sessions ≡ true
unfolding has_active_bootstrap
has_active-lookup id b [] l h = cc
has_active-lookup id b ((k, x) ∷ m) l h = ground (arith, has_active-lookup id b m)

-- The watermark of an origin is at most what an active session has pinned for it.
agree-pinned :
    (id : Str) (b : Bootstrap) (o : Origin) (n : ℕ) (db : Db) (vs : List Vector)
    → lookup Str-discrete id db.bootstraps ≡ some b
    → b.status ≡ started
    → lookup PinKey-discrete (record { bootstrap_id = id; origin = o }) db.bootstrap_vectors
      ≡ some n
    → at_key (key o) (agree db vs) ≤ n
unfolding agree with_pins
agree-pinned id b o n db [] l h p = omega arith
agree-pinned id b o n db (v ∷ vs) l h p =
    let pins = active_pins db.bootstraps db.bootstrap_vectors in
    let all = (v ∷ vs) ++ fill_pins (union_keys (v ∷ vs)) pins ∷ [] in
    let least =
      IsLowerBound-last _ (key o) (v ∷ vs) (fill_pins (union_keys (v ∷ vs)) pins)
        (min_vector-lower (key o) all) in
    let pinned =
      active_pins-le db.bootstraps db.bootstrap_vectors (record { bootstrap_id = id; origin = o }) n
        (ground arith) p in
    ground (
      arith,
      least,
      pinned.1,
      pinned.2,
      has_active-lookup id b db.bootstraps l,
      fill_pins-le (key o) (union_keys (v ∷ vs)) pins,
    )

-- A collection that runs while a seed session is active keeps every event of an origin beyond the
-- sequence that the session has pinned for the origin.
pub run_keeps_pinned :
    (limit : ℕ) (db db' : Db) (res : GcResult) (id : Str) (b : Bootstrap) (o : Origin) (n s : ℕ)
    → run limit db ≡ ok (res, db')
    → lookup Str-discrete id db.bootstraps ≡ some b
    → b.status ≡ started
    → lookup PinKey-discrete (record { bootstrap_id = id; origin = o }) db.bootstrap_vectors
      ≡ some n
    → n < s
    → has_event o s db'.log ≡ has_event o s db.log
unfolding run watermarks
run_keeps_pinned limit db db' res id b o n s h l a p g = elim (Result-cases (watermarks db)) [
  | inl (w, e) ↦
      let vs = active_vectors (active_keys (list_nodes db)) (all_progress db.progress) in
      let least = agree-pinned id b o n db vs l a p in
      let w_eq : agree db vs ≡ w = ground arith in
      let keep =
        run_keys_keeps (if limit == 0 then 1000 else limit) (origins w)
          (record { watermarks = w; deleted = 0; origin_count = 0 }) db o s
          (ground (arith, least, w_eq)) in
      ground arith
  | inr (x, e) ↦ ground arith
]
