-- ===== src/Store/Log/Insertion.antt =====
-- `InsertEvent`: the log keeps its primary key, and re-delivery changes nothing.
use mariamesh.Base.{ℕ, ◌≡◌, ◌||◌, Bool, true, false, List, [], ◌∷◌, ok, arith}
use mariamesh.Changelog.{Origin, Event}
use mariamesh.Store.Tables.{Db}
use mariamesh.Store.Log.{has_key, has_event, insert_event}

-- No two rows have the same origin and sequence.
abbrev pub HasUniqueKeys : List Event → Type 0
HasUniqueKeys [] = Unit
HasUniqueKeys (e ∷ log) = (has_event e.origin e.origin_seq log ≡ false) × HasUniqueKeys log

has_event_self : (e : Event) (log : List Event) → has_event e.origin e.origin_seq (e ∷ log) ≡ true
unfolding has_event
has_event_self e log = ground arith

pub insert_event-HasUniqueKeys :
    (e : Event) (db db' : Db) (new : Bool)
    → HasUniqueKeys db.log
    → insert_event e db ≡ ok (new, db')
    → HasUniqueKeys db'.log
unfolding insert_event
insert_event-HasUniqueKeys e db db' new u h = ground arith

-- A delivery that is accepted reports whether the event was new, and stores that event and no other.
pub has_event-insert_event :
    (e : Event) (db db' : Db) (new : Bool) (o : Origin) (seq : ℕ)
    → insert_event e db ≡ ok (new, db')
    → (has_event o seq db'.log ≡ has_key o seq e || has_event o seq db.log)
      × (has_event e.origin e.origin_seq db.log ≡ (elim new [ true ↦ false | false ↦ true ]))
unfolding insert_event has_event
has_event-insert_event e db db' new o seq h = ground arith

-- A second delivery of an event that was accepted is a no-op that reports `inserted = false`.
pub insert_event_twice :
    (e : Event) (db db' : Db) (new : Bool)
    → insert_event e db ≡ ok (new, db')
    → insert_event e db' ≡ ok (false, db')
unfolding insert_event
insert_event_twice e db db' new h = ground (arith, has_event_self e db.log)
