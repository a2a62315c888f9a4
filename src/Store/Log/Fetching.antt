-- ===== src/Store/Log/Fetching.antt =====
-- `FetchRange`: the rows of one origin in order, as far as the limits allow.
use mariamesh.Base.{
  ℕ, suc, ◌+◌, ◌≡◌, ◌≢◌, ◌⊎◌, ◌≤◌, ◌<◌, ◌&&◌, ◌||◌, Bool, true, false, leb, ltb, List, [], ◌∷◌, ok,
  err, arith, Option, none, some, length, take, Map, Str, refl, Bool-cases, inl, inr,
}
use mariamesh.Changelog.{Origin, Event}
use mariamesh.Changelog.Payload.{Value}
use mariamesh.Store.Tables.{Db, history_truncated}
use mariamesh.Store.Log.{
  has_key, has_event, insert_by_seq, select, take_bounded, fetch_range, gc_watermark,
}
use mariamesh.Store.Log.Insertion.{HasUniqueKeys}

-- The upper bound of a query, where it has one.
abbrev pub is_within : Option ℕ → ℕ → Bool
is_within none s = true
is_within (some h) s = leb s h

-- The rows ascend strictly by sequence, from `n` on, and are of one origin.
abbrev pub IsAscending : Origin → ℕ → List Event → Type 0
IsAscending o n [] = Unit
IsAscending o n (e ∷ es) = (e.origin ≡ o) × (n ≤ e.origin_seq) × IsAscending o (suc e.origin_seq) es

has_event-insert_by_seq :
    (o : Origin) (s : ℕ) (e : Event) (es : List Event)
    → has_event o s (insert_by_seq e es) ≡ has_key o s e || has_event o s es
unfolding has_event insert_by_seq
has_event-insert_by_seq o s e [] = refl
has_event-insert_by_seq o s e (f ∷ fs) = ground (arith, has_event-insert_by_seq o s e fs)

-- A query finds exactly the rows of the log in its bounds.
pub has_event-select :
    (o : Origin) (s lo : ℕ) (hi : Option ℕ) (log : List Event)
    → has_event o s (select o lo hi log) ≡ has_event o s log && (leb lo s && is_within hi s)
unfolding has_event select
has_event-select o s lo hi [] = refl
has_event-select o s lo none (e ∷ log) =
    ground (
      arith,
      has_event-select o s lo none log,
      has_event-insert_by_seq o s e (select o lo none log),
    )
has_event-select o s lo (some h) (e ∷ log) = ground (
  arith,
  has_event-select o s lo (some h) log,
  has_event-insert_by_seq o s e (select o lo (some h) log),
)

insert_by_seq-IsAscending :
    (o : Origin) (n : ℕ) (e : Event) (es : List Event)
    → e.origin ≡ o
    → n ≤ e.origin_seq
    → has_event o e.origin_seq es ≡ false
    → IsAscending o n es
    → IsAscending o n (insert_by_seq e es)
unfolding has_event insert_by_seq
insert_by_seq-IsAscending o n e [] p l a h = ground arith
insert_by_seq-IsAscending o n e (f ∷ fs) p l a h =
    ground (arith, insert_by_seq-IsAscending o (suc f.origin_seq) e fs)

-- A query returns its rows in strictly ascending order.
pub select-IsAscending :
    (o : Origin) (lo : ℕ) (hi : Option ℕ) (log : List Event)
    → HasUniqueKeys log
    → IsAscending o lo (select o lo hi log)
unfolding select
select-IsAscending o lo hi [] u = tt
select-IsAscending o lo none (e ∷ log) u = ground (
  arith,
  select-IsAscending o lo none log u.1,
  has_event-select o e.origin_seq lo none log,
  insert_by_seq-IsAscending o lo e (select o lo none log),
)
select-IsAscending o lo (some h) (e ∷ log) u = ground (
  arith,
  select-IsAscending o lo (some h) log u.1,
  has_event-select o e.origin_seq lo (some h) log,
  insert_by_seq-IsAscending o lo e (select o lo (some h) log),
)

take_bounded-take :
    (size : Map Str Value → ℕ) (me mb count budget : ℕ) (es : List Event)
    → (n : ℕ) × (take_bounded size me mb count budget es ≡ take n es) × (es ≢ [] → 0 < n)
unfolding take_bounded
take_bounded-take size me mb count budget [] = (0, refl, ground arith)
take_bounded-take size me mb count budget (e ∷ es) =
    let b : ℕ = budget + size e.payload + 128 in
    let r = take_bounded-take size me mb (count + 1) b es in
    elim (Bool-cases ((ltb 0 me && leb me (count + 1)) || (ltb 0 mb && leb mb b))) [
      | inl stop ↦ (1, ground arith, ground arith)
      | inr go ↦ (suc r.0, ground (arith, r.1), ground arith)
    ]

length-take_bounded :
    (size : Map Str Value → ℕ) (me mb count budget : ℕ) (es : List Event)
    → 0 < me
    → count < me
    → length (take_bounded size me mb count budget es) + count ≤ me
unfolding take_bounded
length-take_bounded size me mb count budget [] p h = omega arith
length-take_bounded size me mb count budget (e ∷ es) p h =
    ground (arith, length-take_bounded size me mb (count + 1) (budget + size e.payload + 128) es p)

-- A fetch of a non-empty interval is refused exactly when it reaches into collected history.
-- Otherwise it returns the first rows of the interval in order: at least one if there is any, and no
-- more than `max_events` where that limit is set.
pub fetch_range_lem :
    (size : Map Str Value → ℕ) (o : Origin) (from to me mb : ℕ) (db : Db)
    → from ≤ to
    → ((from ≤ gc_watermark o db) × (fetch_range size o from to me mb db ≡ err history_truncated))
      ⊎ ((gc_watermark o db < from)
          × ((n : ℕ) × (fetch_range size o from to me mb db
                ≡ ok (take n (select o from (some to) db.log)))
              × (select o from (some to) db.log ≢ [] → 0 < n)))
unfolding fetch_range
fetch_range_lem size o from to me mb db h =
    let r = take_bounded-take size me mb 0 0 (select o from (some to) db.log) in
    elim (Bool-cases (leb from (gc_watermark o db))) [
      | inl gone ↦ inl (ground arith, ground arith)
      | inr kept ↦ inr (ground arith, (r.0, ground (arith, r.1), r.2))
    ]

-- A fetch with a limit on the number of events returns at most that many.
pub length-fetch_range :
    (size : Map Str Value → ℕ) (o : Origin) (from to me mb : ℕ) (db : Db) (es : List Event)
    → 0 < me
    → fetch_range size o from to me mb db ≡ ok es
    → length es ≤ me
unfolding fetch_range
length-fetch_range size o from to me mb db es p h =
    ground (arith, length-take_bounded size me mb 0 0 (select o from (some to) db.log) p p)
