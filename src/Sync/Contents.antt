-- ===== src/Sync/Contents.antt =====
-- The events that answer a Need are those of the log.
use mariamesh.Base.{
  ℕ, zero, suc, ◌+◌, ◌≡◌, ◌≢◌, ◌≤◌, ◌<◌, arith, refl, sym, ap, ◌∙◌, Bool, true, false, ◌&&◌, ◌||◌,
  ltb, leb, List, [], ◌∷◌, ◌++◌, some, ok, Result-cases, Bool-cases, inl, inr, take, ◌⊎◌,
}
use mariamesh.Changelog.{Origin, Event}
use mariamesh.Store.Tables.{Db}
use mariamesh.Store.Log.{fetch_range, select, has_event}
use mariamesh.Store.Log.Insertion.{HasUniqueKeys}
use mariamesh.Store.Log.Fetching.{
  IsAscending, has_event-select, select-IsAscending, fetch_range_lem,
}
use mariamesh.Sync.{Env, Batch, finished, last_seq, send_range}

-- The events of the batches, in the order in which they are sent.
abbrev pub sent_events : List Batch → List Event
sent_events [] = []
sent_events (b ∷ bs) = b.events ++ sent_events bs

pub has_event-append :
    (o : Origin) (s : ℕ) (xs ys : List Event)
    → has_event o s (xs ++ ys) ≡ has_event o s xs || has_event o s ys
unfolding has_event
has_event-append o s [] ys = refl
has_event-append o s (x ∷ xs) ys = ground (arith, has_event-append o s xs ys)

has_event_below :
    (o : Origin) (m s : ℕ) (xs : List Event) → IsAscending o m xs → s < m → has_event o s xs ≡ false
unfolding has_event
has_event_below o m s [] a h = refl
has_event_below o m s (x ∷ xs) a h = ground (arith, has_event_below o (suc x.origin_seq) s xs a.2)

last_seq-le :
    (o : Origin) (m n : ℕ) (x : Event) (xs : List Event)
    → IsAscending o m (x ∷ xs)
    → x.origin_seq ≤ last_seq x (take n xs)
last_seq-le o m zero x xs a = omega arith
last_seq-le o m (suc n) x [] a = omega arith
last_seq-le o m (suc n) x (y ∷ ys) a =
    omega (arith, a.2.1, last_seq-le o (suc x.origin_seq) n y ys a.2)

-- The rows that are fetched are those up to the last of them.
has_event-take :
    (o : Origin) (m n s : ℕ) (x : Event) (xs : List Event)
    → IsAscending o m (x ∷ xs)
    → has_event o s (x ∷ take n xs) ≡ has_event o s (x ∷ xs) && leb s (last_seq x (take n xs))
unfolding has_event
has_event-take o m zero s x xs a = ground (arith, has_event_below o (suc x.origin_seq) s xs a.2)
has_event-take o m (suc n) s x [] a = ground arith
has_event-take o m (suc n) s x (y ∷ ys) a = ground (
  arith,
  has_event-take o (suc x.origin_seq) n s y ys a.2,
  last_seq-le o (suc x.origin_seq) n y ys a.2,
)

first_rows :
    (o : Origin) (from n s : ℕ) (stored : Bool) (xs es : List Event)
    → IsAscending o from xs
    → has_event o s xs ≡ stored
    → (xs ≢ [] → 0 < n)
    → es ≡ take n xs
    → ((es ≡ []) × (stored ≡ false))
      ⊎ ((e : Event) × (ds : List Event) × (es ≡ e ∷ ds)
          × (from ≤ last_seq e ds)
          × (has_event o s es ≡ stored && leb s (last_seq e ds)))
unfolding has_event
first_rows o from zero s b [] es a h p g = inl (g, sym h)
first_rows o from (suc n) s b [] es a h p g = inl (g, sym h)
first_rows o from zero s b (x ∷ xs) es a h p g = absurd (ground (arith, p))
first_rows o from (suc n) s b (x ∷ xs) es a h p g = inr (
  x,
  take n xs,
  g,
  omega (arith, a.1, last_seq-le o from n x xs a),
  ground (arith, has_event-take o from n s x xs a),
)

-- What a fetch gives: nothing where the interval is empty, else the stored events up to the last one.
fetched :
    (env : Env) (db : Db) (o : Origin) (from to s : ℕ) (es : List Event)
    → HasUniqueKeys db.log
    → from ≤ to
    → fetch_range env.size o from to env.batch_max_events env.batch_max_bytes db ≡ ok es
    → ((es ≡ []) × ((has_event o s db.log && (leb from s && leb s to)) ≡ false))
      ⊎ ((e : Event) × (ds : List Event) × (es ≡ e ∷ ds)
          × (from ≤ last_seq e ds)
          × (has_event o s es
              ≡ (has_event o s db.log && (leb from s && leb s to)) && leb s (last_seq e ds)))
fetched env db o from to s es u h g =
    elim (fetch_range_lem env.size o from to env.batch_max_events env.batch_max_bytes db h) [
      | inl r ↦ absurd (ground arith)
      | inr (w, (n, f, p)) ↦
          first_rows o from n s _ (select o from (some to) db.log) es
            (select-IsAscending o from (some to) db.log u)
            (has_event-select o s from (some to) db.log) p (ground arith)
    ]

send_range-empty :
    (fuel : ℕ) (env : Env) (db : Db) (o : Origin) (from to : ℕ) (t : Bool)
    → ltb to from ≡ false
    → fetch_range env.size o from to env.batch_max_events env.batch_max_bytes db ≡ ok []
    → send_range (suc fuel) env db o from to t ≡ ([], finished false)
unfolding send_range
send_range-empty fuel env db o from to t h g = ground arith

send_range-rows :
    (fuel : ℕ) (env : Env) (db : Db) (o : Origin) (from to : ℕ) (t : Bool) (d : Event)
    (ds : List Event)
    → ltb to from ≡ false
    → from ≤ last_seq d ds
    → fetch_range env.size o from to env.batch_max_events env.batch_max_bytes db ≡ ok (d ∷ ds)
    → ((leb to (last_seq d ds) ≡ true)
        × (send_range (suc fuel) env db o from to t
            ≡ (record { events = d ∷ ds; complete = true } ∷ [], finished true)))
      ⊎ ((leb to (last_seq d ds) ≡ false)
          × ((send_range (suc fuel) env db o from to t).0
              ≡ record { events = d ∷ ds; complete = false }
                ∷ (send_range fuel env db o (last_seq d ds + 1) to (leb to (last_seq d ds))).0)
          × ((send_range (suc fuel) env db o from to t).1
              ≡ (send_range fuel env db o (last_seq d ds + 1) to (leb to (last_seq d ds))).1))
unfolding send_range
send_range-rows fuel env db o from to t d ds h l g = elim (Bool-cases (leb to (last_seq d ds))) [
  | inl c ↦ inl (c, ground arith)
  | inr c ↦ inr (c, ground arith, ground arith)
]

-- A range that is answered without an error is answered in full: exactly the stored events of the
-- origin in the interval are sent, whatever the limits on a batch, where the log's keys are unique
-- and the fuel is more than the length of the interval.
pub send_range_lem :
    (fuel : ℕ) (env : Env) (db : Db) (o : Origin) (from to : ℕ) (t t' : Bool) (s : ℕ)
    → HasUniqueKeys db.log
    → to < from + fuel
    → 0 < fuel
    → (send_range fuel env db o from to t).1 ≡ finished t'
    → has_event o s (sent_events (send_range fuel env db o from to t).0)
      ≡ has_event o s db.log && (leb from s && leb s to)
unfolding send_range has_event
send_range_lem zero env db o from to t t' s u h p e = absurd (ground arith)
send_range_lem (suc fuel) env db o from to t t' s u h p e = elim (Bool-cases (ltb to from)) [
  | inl over ↦ ground arith
  | inr more ↦
      elim (Result-cases
        (fetch_range env.size o from to env.batch_max_events env.batch_max_bytes db)) [
          | inr (x, g) ↦ absurd (ground arith)
          | inl (es, g) ↦ elim (fetched env db o from to s es u (ground arith) g) [
            | inl (r, q) ↦
                ground (arith, send_range-empty fuel env db o from to t more (g ∙ ap ok r))
            | inr (d, ds, r, l, q) ↦
                let last = last_seq d ds in
                let later = (send_range fuel env db o (last + 1) to (leb to last)).0 in
                ground (
                  arith,
                  send_range-rows fuel env db o from to t d ds more l (g ∙ ap ok r),
                  send_range_lem fuel env db o (last + 1) to (leb to last) t' s u,
                  has_event-append o s (d ∷ ds) (sent_events later),
                  has_event-append o s (d ∷ ds) [],
                )
          ]
        ]
]
