-- ===== src/Gc/Safety.antt =====
-- A collection keeps every event that some active receiver may still need.
use mariamesh.Base.{
  ℕ, ◌≡◌, ◌≤◌, ◌<◌, ◌⊎◌, inl, inr, some, true, false, arith, refl, Str, Str-discrete, List, [], ◌∷◌,
  ◌++◌, Map, All, ok, err, Option-cases, Bool-cases, Result-cases, lookup, if◌then◌else◌, ◌==◌, ltb,
  ap, subst, sym, ◌∙◌, ◌+◌,
}
use mariamesh.Changelog.{Origin, key, parse_key}
use mariamesh.Changelog.Keys.{parse_key_sound}
use mariamesh.Changelog.Vector.{Vector, at_key, origins, contains}
use mariamesh.Changelog.Least.{min_vector, min_vector_greatest, IsLowerBound}
use mariamesh.Gc.{
  watermarks, agree, with_pins, active_vectors, active_keys, stale_epoch, run, run_keys, GcResult,
  stale_membership,
}
use mariamesh.Store.Tables.{Db, Node}
use mariamesh.Store.Bootstrap.{has_active_bootstrap}
use mariamesh.Store.Log.{has_event, delete_through}
use mariamesh.Store.Log.Deletion.{delete_through_others}
use mariamesh.Store.Nodes.{list_nodes, get_epoch}
use mariamesh.Store.Progress.{all_progress}

All-append-left {ℓ} : {A : Type ℓ} (P : A → Type 0) (xs ys : List A) → All P (xs ++ ys) → All P xs
All-append-left P [] ys h = tt
All-append-left P (x ∷ xs) ys h = (h.0, All-append-left P xs ys h.1)

with_pins-lower :
    (b : ℕ) (k : Str) (db : Db) (vs : List Vector)
    → IsLowerBound b k (with_pins db vs)
    → IsLowerBound b k vs
unfolding with_pins
with_pins-lower b k db vs h = elim (Bool-cases (has_active_bootstrap db.bootstraps)) [
  | inl e ↦ All-append-left (λ v. b ≤ at_key k v) vs _ (rw e at h)
  | inr e ↦ rw e at h
]

pub min_vector-lower : (k : Str) (vs : List Vector) → IsLowerBound (at_key k (min_vector vs)) k vs
min_vector-lower k [] = tt
min_vector-lower k (v ∷ vs) = (min_vector_greatest _ k v vs).0 (omega arith)

agree-le : (k : Str) (db : Db) (vs : List Vector) → IsLowerBound (at_key k (agree db vs)) k vs
unfolding agree
agree-le k db [] = tt
agree-le k db (v ∷ vs) =
    with_pins-lower _ k db (v ∷ vs) (min_vector-lower k (with_pins db (v ∷ vs)))

active_vectors-le :
    (b : ℕ) (k r : Str) (v : Vector) (keys : List Str) (m : Map Str Vector)
    → contains r keys ≡ true
    → lookup Str-discrete r m ≡ some v
    → IsLowerBound b k (active_vectors keys m)
    → b ≤ at_key k v
unfolding active_vectors
active_vectors-le b k r v keys [] c h a = cc
active_vectors-le b k r v keys ((j, w) ∷ m) c h a =
    ground (arith, active_vectors-le b k r v keys m c)

-- A watermark is at most the cursor of every active receiver that has stored progress.
pub watermarks-le :
    (k r : Str) (v w : Vector) (db : Db)
    → watermarks db ≡ ok w
    → contains r (active_keys (list_nodes db)) ≡ true
    → lookup Str-discrete r (all_progress db.progress) ≡ some v
    → at_key k w ≤ at_key k v
unfolding watermarks
watermarks-le k r v w db h c l =
    let vs = active_vectors (active_keys (list_nodes db)) (all_progress db.progress) in
    let e : agree db vs ≡ w = ground arith in
    active_vectors-le (at_key k w) k r v (active_keys (list_nodes db)) (all_progress db.progress) c
      l (rw (← e) (agree-le k db vs))

pub run_keys_keeps :
    (limit : ℕ) (ks : List Str) (res : GcResult) (db : Db) (p : Origin) (s : ℕ)
    → at_key (key p) res.watermarks < s
    → has_event p s (run_keys limit ks res db).1.log ≡ has_event p s db.log
unfolding run_keys
run_keys_keeps limit [] res db p s h = refl
run_keys_keeps limit (k ∷ ks) res db p s h = elim (Option-cases (parse_key k)) [
  | inl e ↦ ground (arith, run_keys_keeps limit ks res db p s h)
  | inr (o, e) ↦
      let k_key = (parse_key_sound k o e).0 in
      let through = at_key k res.watermarks in
      let n = (delete_through o through limit db).0 in
      ground (
        arith,
        run_keys_keeps limit ks res db p s h,
        run_keys_keeps limit ks
            (record res { deleted = res.deleted + n; origin_count = res.origin_count + 1 })
            (delete_through o through limit db).1 p s h,
        delete_through_others o p through limit s db
            (λ same. subst (λ x. at_key x res.watermarks < s) (ap key same ∙ sym k_key) h),
      )
]

-- A collection that runs keeps every event beyond the cursor of any active receiver that has stored
-- progress.
pub run_keeps :
    (limit : ℕ) (db db' : Db) (res : GcResult) (r : Str) (v : Vector) (p : Origin) (s : ℕ)
    → run limit db ≡ ok (res, db')
    → contains r (active_keys (list_nodes db)) ≡ true
    → lookup Str-discrete r (all_progress db.progress) ≡ some v
    → at_key (key p) v < s
    → has_event p s db'.log ≡ has_event p s db.log
unfolding run
run_keeps limit db db' res r v p s h c l g = elim (Result-cases (watermarks db)) [
  | inl (w, e) ↦
      let low = watermarks-le (key p) r v w db e c l in
      let keep =
        run_keys_keeps (if limit == 0 then 1000 else limit) (origins w)
          (record { watermarks = w; deleted = 0; origin_count = 0 }) db p s (omega arith) in
      ground arith
  | inr (x, e) ↦ ground arith
]

abbrev agreed : Db → Vector
agreed db = agree db (active_vectors (active_keys (list_nodes db)) (all_progress db.progress))

stale_epoch-false :
    (nodes : List Node) (e : ℕ)
    → stale_epoch nodes e ≡ false
    → All (λ n. n.membership_epoch ≤ e) nodes
unfolding stale_epoch
stale_epoch-false [] e h = tt
stale_epoch-false (n ∷ nodes) e h = elim (Bool-cases (ltb e n.membership_epoch)) [
  | inl t ↦ ground arith
  | inr t ↦ (ground arith, stale_epoch-false nodes e (ground arith))
]

-- Some node is known at a newer epoch.
abbrev pub IsBehind : ℕ → List Node → Type 0
IsBehind epoch [] = ⊥
IsBehind epoch (n ∷ nodes) = (epoch < n.membership_epoch) ⊎ IsBehind epoch nodes

stale_epoch-IsBehind : (nodes : List Node) (e : ℕ) → stale_epoch nodes e ≡ true → IsBehind e nodes
unfolding stale_epoch
stale_epoch-IsBehind [] e h = ground arith
stale_epoch-IsBehind (n ∷ nodes) e h = elim (Bool-cases (ltb e n.membership_epoch)) [
  | inl t ↦ inl (ground arith)
  | inr t ↦ inr (stale_epoch-IsBehind nodes e (ground arith))
]

-- A collection fails just where some known node has a newer epoch than the local one; where every
-- known node's epoch is at most the local one, it returns a result and a database.
pub run_stale :
    (limit : ℕ) (db : Db)
    → ((run limit db ≡ err stale_membership) × IsBehind (get_epoch db) (list_nodes db))
      ⊎ ((r : GcResult × Db) × (run limit db ≡ ok r)
          × All (λ n. n.membership_epoch ≤ get_epoch db) (list_nodes db))
unfolding run watermarks
run_stale limit db = elim (Bool-cases (stale_epoch (list_nodes db) (get_epoch db))) [
  | inl e ↦ inl (ground arith, stale_epoch-IsBehind (list_nodes db) (get_epoch db) e)
  | inr e ↦ inr (
    run_keys (if limit == 0 then 1000 else limit) (origins (agreed db))
        (record { watermarks = agreed db; deleted = 0; origin_count = 0 }) db,
    ground arith,
    stale_epoch-false _ _ e,
  )
]
