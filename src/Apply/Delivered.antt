-- ===== src/Apply/Delivered.antt =====
-- What the loop of `ApplyBatch` leaves of its events: they pass the checks, and are in the log.
use mariamesh.Base.{
  Bool, ℕ, ◌≡◌, ap, ◌∙◌, inl, inr, List, [], ◌∷◌, All, ok, Result-cases, if◌then◌else◌, arith,
}
use mariamesh.Apply.{Tables, Batch, apply_event, apply_events, note_event}
use mariamesh.Apply.Batches.{
  IsDelivered, apply_row-KeepsLog, apply_events_stores, apply_event-HasUniqueKeys,
  apply_event_stores,
}
use mariamesh.Changelog.{Origin, Event, validate}
use mariamesh.Clock.{Clock, update}
use mariamesh.Store.Log.{has_event, insert_event}
use mariamesh.Store.Log.Insertion.{HasUniqueKeys}
use mariamesh.Store.Nodes.{check_incarnation}
use mariamesh.Store.Tables.{Db}

-- The membership and the local state are the same.
abbrev pub KeepsSelf : Db → Db → Type 0
KeepsSelf db db' = (db'.nodes ≡ db.nodes) × (db'.local_state ≡ db.local_state)

insert_event-KeepsSelf :
    (e : Event) (db db' : Db) (new : Bool) → insert_event e db ≡ ok (new, db') → KeepsSelf db db'
unfolding insert_event
insert_event-KeepsSelf e db db' new h = (ground arith, ground arith)

apply_event-KeepsSelf :
    (tables : Tables) (e : Event) (b b' : Batch) (new : Bool)
    → apply_event tables e b ≡ ok (new, b')
    → KeepsSelf b.db b'.db
unfolding apply_event note_event
apply_event-KeepsSelf tables e b b' new h = elim (Result-cases (insert_event e b.db)) [
  | inl ((n, db), i) ↦
      let one = insert_event-KeepsSelf e b.db db n i in
      let two = apply_row-KeepsLog tables e db in
      (ground (arith, one, two), ground (arith, one, two))
  | inr (x, i) ↦ ground arith
]

pub apply_events-KeepsSelf :
    (tables : Tables) (es : List (ℕ × Event)) (c c' : Clock) (b b' : Batch)
    → apply_events tables es c b ≡ (c', ok b')
    → KeepsSelf b.db b'.db
unfolding apply_events
apply_events-KeepsSelf tables [] c c' b b' h = (ground arith, ground arith)
apply_events-KeepsSelf tables (x ∷ es) c c' b b' h =
    elim (Result-cases (apply_event tables x.1 b)) [
      | inl ((new, b1), i) ↦
          let one = apply_event-KeepsSelf tables x.1 b b1 new i in
          let two =
            apply_events-KeepsSelf tables es (if new then update x.0 x.1.hlc c else c) c' b1 b'
              (ground arith) in
          (two.0 ∙ one.0, two.1 ∙ one.1)
      | inr (e, i) ↦ ground arith
    ]

pub check_incarnation-nodes :
    (o : Origin) (db db' : Db)
    → db'.nodes ≡ db.nodes
    → check_incarnation o.node_id o.incarnation_id db'
      ≡ check_incarnation o.node_id o.incarnation_id db
unfolding check_incarnation
check_incarnation-nodes o db db' h = ground arith

apply_event-accepts :
    (tables : Tables) (e : Event) (b b' : Batch) (new : Bool)
    → apply_event tables e b ≡ ok (new, b')
    → (validate e ≡ ok tt)
      × (check_incarnation e.origin.node_id e.origin.incarnation_id b.db ≡ ok tt)
unfolding apply_event
apply_event-accepts tables e b b' new h = (ground arith, ground arith)

-- Every event of a loop that succeeded passes the checks, and its key is in the log.
pub apply_events-IsDelivered :
    (tables : Tables) (es : List (ℕ × Event)) (c c' : Clock) (b b' : Batch)
    → HasUniqueKeys b.db.log
    → apply_events tables es c b ≡ (c', ok b')
    → All (λ d. IsDelivered b'.db d.1) es
unfolding apply_events
apply_events-IsDelivered tables [] c c' b b' u h = tt
apply_events-IsDelivered tables (x ∷ es) c c' b b' u h =
    elim (Result-cases (apply_event tables x.1 b)) [
      | inl ((new, b1), i) ↦
          let c1 = if new then update x.0 x.1.hlc c else c in
          let more : apply_events tables es c1 b1 ≡ (c', ok b') = ground arith in
          let u1 = apply_event-HasUniqueKeys tables x.1 b b1 new u i in
          let checks = apply_event-accepts tables x.1 b b1 new i in
          let self =
            (apply_events-KeepsSelf tables es c1 c' b1 b' more).0
            ∙ (apply_event-KeepsSelf tables x.1 b b1 new i).0 in
          let o = x.1.origin in
          (
            (
              checks.0,
              check_incarnation-nodes o b.db b'.db self ∙ checks.1,
              ground (
                arith,
                apply_event_stores tables x.1 b b1 new o x.1.origin_seq i,
                (apply_events_stores tables es c1 c' b1 b' u1 more).1 o x.1.origin_seq,
              ),
            ),
            apply_events-IsDelivered tables es c1 c' b1 b' u1 more,
          )
      | inr (e, i) ↦ ground arith
    ]

pub IsDelivered-kept :
    (es : List (ℕ × Event)) (db db' : Db)
    → db'.nodes ≡ db.nodes
    → db'.log ≡ db.log
    → All (λ d. IsDelivered db d.1) es
    → All (λ d. IsDelivered db' d.1) es
IsDelivered-kept [] db db' n l h = tt
IsDelivered-kept ((w, e) ∷ es) db db' n l h = (
  (
    h.0.0,
    check_incarnation-nodes e.origin db db' n ∙ h.0.1,
    ap (has_event e.origin e.origin_seq) l ∙ h.0.2,
  ),
  IsDelivered-kept es db db' n l h.1,
)
