-- ===== src/Apply/Batches.antt =====
-- The loop of `ApplyBatch` and what follows it.
use mariamesh.Base.{
  ℕ, ◌≡◌, ◌≤◌, ◌||◌, inl, inr, true, false, arith, refl, Bool, Str, List, [], ◌∷◌, Map, All, ok,
  Option-cases, ◌+◌, Result-cases, if◌then◌else◌, lookup, Str-discrete, to_lower,
}
use mariamesh.Apply.{
  Tables, apply_row, apply_write, apply_delete, write_winners, set_versions, upsert_row, Batch,
  note_event, apply_event, apply_events, find_winners, version_of,
}
use mariamesh.Changelog.{Origin, Event, validate}
use mariamesh.Changelog.Payload.{Value}
use mariamesh.Clock.{Clock, update}
use mariamesh.Conflict.{Version}
use mariamesh.Store.Tables.{Db, RowKey}
use mariamesh.Store.Log.{has_key, has_event, insert_event}
use mariamesh.Store.Log.Insertion.{
  HasUniqueKeys, insert_event-HasUniqueKeys, has_event-insert_event,
}
use mariamesh.Store.Nodes.{check_incarnation}

-- The log, the membership, the cursors and the local state are the same.
abbrev pub KeepsLog : Db → Db → Type 0
KeepsLog db db' =
    (db'.log ≡ db.log)
    × (db'.nodes ≡ db.nodes)
    × (db'.progress ≡ db.progress)
    × (db'.local_state ≡ db.local_state)

set_versions-KeepsLog :
    (r : RowKey) (v : Version) (w : Map Str Value) (db : Db) → KeepsLog db (set_versions r v w db)
unfolding set_versions
set_versions-KeepsLog r v [] db = (refl, refl, refl, refl)
set_versions-KeepsLog r v (e ∷ w) db = set_versions-KeepsLog r v w db

write_winners-KeepsLog :
    (r : RowKey) (v : Version) (w : Map Str Value) (db : Db)
    → KeepsLog db (write_winners r v w db).1
unfolding write_winners upsert_row
write_winners-KeepsLog r v [] db = (refl, refl, refl, refl)
write_winners-KeepsLog r v (e ∷ w) db =
    ground (arith, set_versions-KeepsLog r v (e ∷ w) (upsert_row r (e ∷ w) db))

-- Applying a row never touches the log, the membership, the cursors or the local state.
pub apply_row-KeepsLog :
    (tables : Tables) (e : Event) (db : Db) → KeepsLog db (apply_row tables e db).1
unfolding apply_row apply_write apply_delete
apply_row-KeepsLog tables e db =
    elim (Option-cases (lookup Str-discrete (to_lower e.table) tables)) [
      | inl h ↦ ground arith
      | inr (spec, h) ↦
          let r : RowKey = record { table = spec.name; row_id = e.row_id } in
          ground (
            arith,
            write_winners-KeepsLog r (version_of e)
                (find_winners spec r (version_of e) db e.payload) db,
          )
    ]

-- The event passes the checks of `ApplyBatch`, and its key is in the log already.
abbrev pub IsDelivered : Db → Event → Type 0
IsDelivered db e =
    (validate e ≡ ok tt)
    × (check_incarnation e.origin.node_id e.origin.incarnation_id db ≡ ok tt)
    × (has_event e.origin e.origin_seq db.log ≡ true)

apply_event_again :
    (tables : Tables) (e : Event) (b : Batch)
    → IsDelivered b.db e
    → (b' : Batch) × (apply_event tables e b ≡ ok (false, b'))
      × (b'.db ≡ b.db)
      × (b'.stored ≡ b.stored)
      × (b'.written ≡ b.written)
unfolding apply_event note_event insert_event
apply_event_again tables e b d =
    (note_event tables e (false, b.db) b, ground arith, refl, refl, refl)

-- The loop over events whose keys are all in the log changes neither the tables nor the clock, and
-- counts nothing as stored or written.
pub apply_events_again :
    (tables : Tables) (es : List (ℕ × Event)) (c : Clock) (b : Batch)
    → All (λ d. IsDelivered b.db d.1) es
    → (b' : Batch) × (apply_events tables es c b ≡ (c, ok b'))
      × (b'.db ≡ b.db)
      × (b'.stored ≡ b.stored)
      × (b'.written ≡ b.written)
unfolding apply_events
apply_events_again tables [] c b d = (b, refl, refl, refl, refl)
apply_events_again tables (x ∷ es) c b d =
    let one = apply_event_again tables x.1 b d.0 in
    let rest = apply_events_again tables es c one.0 (rw one.2 d.1) in
    (
      rest.0,
      ground (arith, one.1, rest.1),
      ground (arith, one.2, rest.2),
      ground (arith, one.3, rest.3),
      ground (arith, one.4, rest.4),
    )

-- What one accepted event does to the log: it is stored, and nothing else changes.
pub apply_event_stores :
    (tables : Tables) (e : Event) (b b' : Batch) (new : Bool) (o : Origin) (s : ℕ)
    → apply_event tables e b ≡ ok (new, b')
    → has_event o s b'.db.log ≡ has_key o s e || has_event o s b.db.log
unfolding apply_event note_event
apply_event_stores tables e b b' new o s h = elim (Result-cases (insert_event e b.db)) [
  | inl ((n, db), i) ↦
      ground (arith, has_event-insert_event e b.db db n o s i, apply_row-KeepsLog tables e db)
  | inr (x, i) ↦ ground arith
]

pub apply_event-HasUniqueKeys :
    (tables : Tables) (e : Event) (b b' : Batch) (new : Bool)
    → HasUniqueKeys b.db.log
    → apply_event tables e b ≡ ok (new, b')
    → HasUniqueKeys b'.db.log
unfolding apply_event note_event
apply_event-HasUniqueKeys tables e b b' new u h = elim (Result-cases (insert_event e b.db)) [
  | inl ((n, db), i) ↦
      ground (arith, insert_event-HasUniqueKeys e b.db db n u i, apply_row-KeepsLog tables e db)
  | inr (x, i) ↦ ground arith
]

-- Some event of the deliveries has the key.
unfoldable pub delivers : Origin → ℕ → List (ℕ × Event) → Bool
delivers o s [] = false
delivers o s (d ∷ es) = delivers o s es || has_key o s d.1

-- A batch whose loop succeeds leaves in the log exactly what was there and what it delivers, each
-- key once.
pub apply_events_stores :
    (tables : Tables) (es : List (ℕ × Event)) (c c' : Clock) (b b' : Batch)
    → HasUniqueKeys b.db.log
    → apply_events tables es c b ≡ (c', ok b')
    → HasUniqueKeys b'.db.log
      × ((o : Origin) (s : ℕ) → has_event o s b'.db.log ≡ delivers o s es || has_event o s b.db.log)
unfolding apply_events delivers
apply_events_stores tables [] c c' b b' u h = (ground arith, λ o s. ground arith)
apply_events_stores tables (x ∷ es) c c' b b' u h = elim (Result-cases (apply_event tables x.1 b)) [
  | inl ((new, b1), i) ↦
      let rest =
        apply_events_stores tables es (if new then update x.0 x.1.hlc c else c) c' b1 b'
          (apply_event-HasUniqueKeys tables x.1 b b1 new u i) (ground arith) in
      (rest.0, λ o s. ground (arith, rest.1 o s, apply_event_stores tables x.1 b b1 new o s i))
  | inr (e, i) ↦ ground arith
]

apply_event_counts :
    (tables : Tables) (e : Event) (b b' : Batch) (new : Bool)
    → apply_event tables e b ≡ ok (new, b')
    → b'.written + b.stored ≤ b'.stored + b.written
unfolding apply_event note_event
apply_event_counts tables e b b' new h = elim (Result-cases (insert_event e b.db)) [
  | inl ((n, db), i) ↦ ground arith
  | inr (x, i) ↦ ground arith
]

insert_event-progress :
    (e : Event) (db db' : Db) (new : Bool)
    → insert_event e db ≡ ok (new, db')
    → db'.progress ≡ db.progress
unfolding insert_event
insert_event-progress e db db' new h = ground arith

pub apply_events-progress :
    (tables : Tables) (es : List (ℕ × Event)) (c c' : Clock) (b b' : Batch)
    → apply_events tables es c b ≡ (c', ok b')
    → b'.db.progress ≡ b.db.progress
unfolding apply_events apply_event note_event
apply_events-progress tables [] c c' b b' h = ground arith
apply_events-progress tables (x ∷ es) c c' b b' h = elim (Result-cases (insert_event x.1 b.db)) [
  | inl ((new, db), i) ↦ ground (
    arith,
    insert_event-progress x.1 b.db db new i,
    apply_row-KeepsLog tables x.1 db,
    apply_events-progress tables es (if new then update x.0 x.1.hlc c else c) c'
        (note_event tables x.1 (new, db) b) b',
  )
  | inr (e, i) ↦ ground arith
]
