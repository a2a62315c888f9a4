-- ===== src/Sync/Collecting.antt =====
-- A broadcast carries events beyond the last one that was sent.
use mariamesh.Base.{
  ℕ, zero, suc, ◌+◌, ◌^◌, ◌≡◌, ◌≤◌, arith, subst, true, leb, List, [], ◌∷◌, Map, Str, some, ok,
  Option-cases, Result-cases, Bool-cases, inl, inr, take, All,
}
use mariamesh.Changelog.{Origin, Event}
use mariamesh.Changelog.Payload.{Value}
use mariamesh.Store.Tables.{Db}
use mariamesh.Store.Log.{fetch_range, select}
use mariamesh.Store.Log.Insertion.{HasUniqueKeys}
use mariamesh.Store.Log.Fetching.{IsAscending, select-IsAscending, fetch_range_lem}
use mariamesh.Sync.{Broadcaster, collect, last_seq}

-- Every event is the origin's own, beyond `lo` and not beyond `hi`.
abbrev pub IsFresh : Origin → ℕ → ℕ → List Event → Type 0
IsFresh o lo hi = All (λ e. (e.origin ≡ o) × (lo ≤ e.origin_seq) × (e.origin_seq ≤ hi))

IsFresh-mono :
    (o : Origin) (m n hi : ℕ) (es : List Event) → m ≤ n → IsFresh o n hi es → IsFresh o m hi es
IsFresh-mono o m n hi [] h f = tt
IsFresh-mono o m n hi (e ∷ es) h f =
    ((f.0.0, omega (arith, f.0.1), f.0.2), IsFresh-mono o m n hi es h f.1)

IsFresh-last :
    (o : Origin) (m n : ℕ) (x : Event) (xs : List Event)
    → IsAscending o m (x ∷ xs)
    → IsFresh o m (last_seq x (take n xs)) (x ∷ take n xs) × (x.origin_seq ≤ last_seq x (take n xs))
IsFresh-last o m zero x xs a = ground arith
IsFresh-last o m (suc n) x [] a = ground arith
IsFresh-last o m (suc n) x (y ∷ ys) a =
    let rest = IsFresh-last o (suc x.origin_seq) n y ys a.2 in
    let tail =
      IsFresh-mono o m (suc x.origin_seq) (last_seq y (take n ys)) (y ∷ take n ys)
        (omega (arith, a.1)) rest.0 in
    (((a.0, a.1, omega (arith, rest.1, a.2.1)), tail), omega (arith, rest.1, a.2.1))

abbrev IsFreshRun : Origin → ℕ → List Event → Type 0
IsFreshRun o m [] = Unit
IsFreshRun o m (d ∷ ds) = IsFresh o m (last_seq d ds) (d ∷ ds)

first-IsFresh :
    (o : Origin) (m n : ℕ) (d : Event) (ds xs : List Event)
    → IsAscending o m xs
    → take n xs ≡ d ∷ ds
    → IsFresh o m (last_seq d ds) (d ∷ ds)
first-IsFresh o m zero d ds xs a h = absurd (ground arith)
first-IsFresh o m (suc n) d ds [] a h = absurd (ground arith)
first-IsFresh o m (suc n) d ds (x ∷ xs) a h = subst (IsFreshRun o m) h (IsFresh-last o m n x xs a).0

fetched-IsFresh :
    (size : Map Str Value → ℕ) (o : Origin) (from to me mb : ℕ) (db : Db) (d : Event)
    (ds : List Event)
    → HasUniqueKeys db.log
    → from ≤ to
    → fetch_range size o from to me mb db ≡ ok (d ∷ ds)
    → IsFresh o from (last_seq d ds) (d ∷ ds)
fetched-IsFresh size o from to me mb db d ds u h g =
    elim (fetch_range_lem size o from to me mb db h) [
      | inl r ↦ absurd (ground arith)
      | inr (w, (n, f, p)) ↦
          first-IsFresh o from n d ds (select o from (some to) db.log)
            (select-IsAscending o from (some to) db.log u) (ground arith)
    ]

-- The events that a started broadcaster collects are its own, lie beyond the last one sent, and are
-- not beyond the new one, where the log's keys are unique; the last one sent never goes back.
pub collect_lem :
    (size : Map Str Value → ℕ) (me : ℕ) (db : Db) (b : Broadcaster) (es : List Event)
    → HasUniqueKeys db.log
    → b.started ≡ true
    → (collect size me db b).0 ≡ ok es
    → IsFresh b.self (b.last_sent + 1) (collect size me db b).1.last_sent es
      × (b.last_sent ≤ (collect size me db b).1.last_sent)
unfolding collect
collect_lem size me db b es u st h = elim (Option-cases db.local_state) [
  | inl e ↦ absurd (ground arith)
  | inr (l, e) ↦ elim (Bool-cases (leb l.current_seq b.last_sent)) [
    | inl old ↦ ground arith
    | inr new ↦
        elim (Result-cases
          (fetch_range size b.self (b.last_sent + 1) l.current_seq me (2 ^ 20) db)) [
            | inr (x, g) ↦ absurd (ground arith)
            | inl ([], g) ↦ ground arith
            | inl (d ∷ ds, g) ↦
                let f =
                  fetched-IsFresh size b.self (b.last_sent + 1) l.current_seq me (2 ^ 20) db d ds u
                    (ground arith) g in
                ground (arith, f, f.0)
          ]
  ]
]
