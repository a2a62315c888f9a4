-- ===== src/Sync/Session/Delivery.antt =====
-- What one side sends for a range is stored by the other.
use mariamesh.Base.{
  ℕ, ◌+◌, ◌-◌, ◌≡◌, ◌≢◌, ◌≤◌, arith, refl, sym, subst, ap, ◌∙◌, Bool, true, false, ◌&&◌, ◌||◌, leb,
  List, [], ◌∷◌, ◌++◌, ok, Result-cases, inl, inr,
}
use mariamesh.Apply.{Tables}
use mariamesh.Apply.Batches.{delivers}
use mariamesh.Apply.Commit.{apply_batch_lem}
use mariamesh.Changelog.{Origin, Event, is_empty}
use mariamesh.Changelog.Missing.{Range}
use mariamesh.Store.Tables.{Db}
use mariamesh.Store.Log.{has_event}
use mariamesh.Store.Log.Insertion.{HasUniqueKeys}
use mariamesh.Store.Progress.{local_vector}
use mariamesh.Sync.{Env, Batch, finished, send_range, send_all, send_ranges}
use mariamesh.Sync.Contents.{sent_events, send_range_lem, has_event-append}
use mariamesh.Sync.Sending.{send_ranges_completes, Outcome-cases, ends_complete, ends_complete_mono}
use mariamesh.Sync.Session.{Session, timed, receive_batch, receive_all, ack}

delivers-timed :
    (o : Origin) (s i : ℕ) (wall : ℕ → ℕ) (es : List Event)
    → delivers o s (timed wall i es) ≡ has_event o s es
unfolding delivers timed has_event
delivers-timed o s i wall [] = refl
delivers-timed o s i wall (e ∷ es) = ground (arith, delivers-timed o s (i + 1) wall es)

receive_batch-waits :
    (env : Env) (tables : Tables) (wall : ℕ → ℕ) (es : List Event) (s s' : Session)
    → receive_batch env tables wall (record { events = es; complete = false }) s ≡ ok s'
    → s' ≡ record s { pending = s.pending ++ es }
unfolding receive_batch
receive_batch-waits env tables wall es s s' h = ground arith

empty : (es : List Event) → is_empty es ≡ true → es ≡ []
empty [] h = refl
empty (e ∷ es) h = cc

seam :
    (c : Bool) (pending : List Event) (bs : List Batch)
    → (c ≡ true → pending ≡ [])
    → ends_complete c bs ≡ true
    → ends_complete (is_empty pending) bs ≡ true
seam true pending bs h t = ground (arith, h refl)
seam false pending bs h t = ends_complete_mono (is_empty pending) bs t

sent_events-append :
    (p : Origin) (n : ℕ) (xs ys : List Batch)
    → has_event p n (sent_events (xs ++ ys))
      ≡ has_event p n (sent_events xs) || has_event p n (sent_events ys)
unfolding has_event
sent_events-append p n [] ys = refl
sent_events-append p n (x ∷ xs) ys = ground (
  arith,
  sent_events-append p n xs ys,
  has_event-append p n x.events (sent_events (xs ++ ys)),
  has_event-append p n x.events (sent_events xs),
)

-- The answer to a Need of one range has exactly the stored events of the range.
sent_for_one :
    (env : Env) (db : Db) (r : Range) (n : ℕ)
    → HasUniqueKeys db.log
    → 1 ≤ r.from
    → r.from ≤ r.to
    → (send_ranges env db (r ∷ [])).1 ≡ finished true
    → has_event r.origin n (sent_events (send_ranges env db (r ∷ [])).0)
      ≡ has_event r.origin n db.log && (leb r.from n && leb n r.to)
unfolding send_ranges send_all has_event
sent_for_one env db r n u low h e =
    let sent = (send_range (r.to - r.from + 1) env db r.origin r.from r.to false).0 in
    let lem = λ (t : Bool).
      send_range_lem (r.to - r.from + 1) env db r.origin r.from r.to false t n u (omega arith)
        (omega arith) in
    elim (Outcome-cases (send_range (r.to - r.from + 1) env db r.origin r.from r.to false).1) [
      | inl (true, f) ↦ ground (arith, lem true, sent_events-append r.origin n sent [])
      | inl (false, f) ↦ ground (
        arith,
        lem false,
        sent_events-append r.origin n sent [],
        sent_events-append r.origin n sent (record { events = []; complete = true } ∷ []),
        sent_events-append r.origin n (sent ++ []) (record { events = []; complete = true } ∷ []),
      )
      | inr (inl f) ↦ absurd (ground arith)
      | inr (inr f) ↦ absurd (ground arith)
    ]

module _ (env : Env) (tables : Tables) (wall : ℕ → ℕ) (o : Origin) (ne : o ≢ env.self) where
  -- On a log with unique keys, a complete batch that is received without an error is stored with all
  -- that was pending, and only then acknowledged, with the vector of the committed database.
  pub receive_batch_commits :
      (es : List Event) (s s' : Session) (p : Origin) (n : ℕ)
      → HasUniqueKeys s.db.log
      → receive_batch env tables wall (record { events = es; complete = true }) s ≡ ok s'
      → (s'.sent ≡ s.sent ++ (ack (local_vector env.self s'.db) ∷ []))
        × (s'.pending ≡ [])
        × HasUniqueKeys s'.db.log
        × (has_event p n s'.db.log ≡ has_event p n (s.pending ++ es) || has_event p n s.db.log)
  unfolding receive_batch
  receive_batch_commits es s s' p n u h =
      elim (apply_batch_lem o env.self tables ne (timed wall 0 (s.pending ++ es)) s.clock s.db u) [
        | inl (x, e) ↦ absurd (ground arith)
        | inr (res, e, c, v) ↦
            let d : s'.db ≡ res.1 = ground arith in
            let held = c.delivered p n in
            let same = delivers-timed p n 0 wall (s.pending ++ es) in
            (
              ground arith,
              ground arith,
              subst (λ x. HasUniqueKeys x.log) (sym d) c.unique,
              ap (λ x. has_event p n x.log) d ∙ held ∙ ap (λ b. b || has_event p n s.db.log) same,
            )
      ]

  receive_batch-holds :
      (es : List Event) (c : Bool) (s s' : Session) (p : Origin) (n : ℕ)
      → HasUniqueKeys s.db.log
      → receive_batch env tables wall (record { events = es; complete = c }) s ≡ ok s'
      → HasUniqueKeys s'.db.log
        × (has_event p n s'.pending || has_event p n s'.db.log
            ≡ has_event p n es || (has_event p n s.pending || has_event p n s.db.log))
        × (c ≡ true → s'.pending ≡ [])
  unfolding has_event
  receive_batch-holds es true s s' p n u h =
      let r = receive_batch_commits es s s' p n u h in
      (r.2, ground (arith, r, has_event-append p n s.pending es), λ t. r.1)
  receive_batch-holds es false s s' p n u h =
      let e = receive_batch-waits env tables wall es s s' h in
      (
        subst (λ x. HasUniqueKeys x.db.log) (sym e) u,
        ground (arith, e, has_event-append p n s.pending es),
        λ t. absurd (ground arith),
      )

  -- Whatever the batches are cut into, the events that are held, pending or stored, are those that
  -- were held and those that are received; after a complete batch all are stored.
  receive_all-holds :
      (bs : List Batch) (s s' : Session) (p : Origin) (n : ℕ)
      → HasUniqueKeys s.db.log
      → receive_all env tables wall bs s ≡ ok s'
      → (has_event p n s'.pending || has_event p n s'.db.log
          ≡ has_event p n (sent_events bs) || (has_event p n s.pending || has_event p n s.db.log))
        × (ends_complete (is_empty s.pending) bs ≡ true → s'.pending ≡ [])
  unfolding receive_all has_event
  receive_all-holds [] s s' p n u h =
      let e : s ≡ s' = ground arith in
      (ground (arith, e), λ t. subst (λ x. x.pending ≡ []) e (empty s.pending t))
  receive_all-holds (b ∷ bs) s s' p n u h =
      elim (Result-cases (receive_batch env tables wall b s)) [
        | inr (x, e) ↦ absurd (ground arith)
        | inl (s1, e) ↦
            let one = receive_batch-holds b.events b.complete s s1 p n u e in
            let rest = receive_all-holds bs s1 s' p n one.0 (ground arith) in
            (
              ground (arith, one.1, rest.0, has_event-append p n b.events (sent_events bs)),
              λ t. rest.1 (seam b.complete s1.pending bs one.2 t),
            )
      ]

  -- What one side has of an asked range, the other side has after it read the answer: for an origin
  -- that is not the receiver's, if both logs have unique keys, the sender answers the range without an
  -- error, and the receiver reads all batches of the answer without an error, with nothing pending
  -- before, then every event of the range that the sender stores is in the receiver's log.
  pub answer_delivers :
      (sender : Env) (db : Db) (from to n : ℕ) (s s' : Session)
      → HasUniqueKeys db.log
      → HasUniqueKeys s.db.log
      → s.pending ≡ []
      → 1 ≤ from
      → from ≤ n
      → n ≤ to
      → has_event o n db.log ≡ true
      → (send_ranges sender db (record { origin = o; from = from; to = to } ∷ [])).1 ≡ finished true
      → receive_all env tables wall
          (send_ranges sender db (record { origin = o; from = from; to = to } ∷ [])).0
          s
        ≡ ok s'
      → has_event o n s'.db.log ≡ true
  unfolding has_event
  answer_delivers sender db from to n s s' u v clean low a b here e got =
      let r : Range = record { origin = o; from = from; to = to } in
      let bs = (send_ranges sender db (r ∷ [])).0 in
      let held = receive_all-holds bs s s' o n v got in
      let sent = sent_for_one sender db r n u low (omega arith) e in
      elim (send_ranges_completes sender db (r ∷ [])) [
        | inl t ↦ absurd (ground arith)
        | inr (f, c) ↦
            let flushed = held.1 (ends_complete_mono (is_empty s.pending) bs c) in
            ground (arith, held.0, sent)
      ]
