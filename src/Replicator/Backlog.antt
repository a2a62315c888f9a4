-- ===== src/Replicator/Backlog.antt =====
-- `PendingChanges` of replication.go.
use mariamesh.Base.{
  ℕ, ◌+◌, ◌-◌, ◌≤◌, ◌≡◌, max, ltb, if◌then◌else◌, Str, Str-discrete, List, [], ◌∷◌, map, insert,
  lookup-insert, inl, inr, arith, true, Bool-cases,
}
use mariamesh.Changelog.{Origin, Origin-discrete, Event, key}
use mariamesh.Changelog.Vector.{Vector, at_key, sort_strings}
use mariamesh.Changelog.Least.{union_keys}
use mariamesh.Store.Log.{has_event}
use mariamesh.Store.Progress.{local_vector}
use mariamesh.Store.Tables.{Db}

-- `PendingOrigin`
pub record PendingOrigin : Type 0 where
  pub origin : Str
  pub contiguous : ℕ
  pub max_stored : ℕ
  pub pending : ℕ

-- `MAX(origin_seq) … GROUP BY` origin, by the origin's key.
unfoldable pub maxima : List Event → Vector
maxima [] = []
maxima (e ∷ log) =
    let rest = maxima log in
    insert Str-discrete (key e.origin) (max (at_key (key e.origin) rest) e.origin_seq) rest

-- The body of the last loop.
unfoldable pub pending_of : Vector → Vector → Str → PendingOrigin
pending_of vec stored k = record {
  origin = k;
  contiguous = at_key k vec;
  max_stored = at_key k stored;
  pending = if ltb (at_key k vec) (at_key k stored) then at_key k stored - at_key k vec else 0;
}

-- `PendingChanges`
unfoldable pub pending_changes : Origin → Db → List PendingOrigin
unfolding maxima pending_of
pending_changes self db =
    let vec = local_vector self db in
    let stored = maxima db.log in
    map (pending_of vec stored) (sort_strings (union_keys (vec ∷ stored ∷ [])))

-- A stored event is at most its origin's maximum.
pub maxima-le :
    (o : Origin) (s : ℕ) (log : List Event)
    → has_event o s log ≡ true
    → s ≤ at_key (key o) (maxima log)
unfolding maxima has_event Origin-discrete
maxima-le o s [] h = ground arith
maxima-le o s (e ∷ log) h = ground (
  arith,
  maxima-le o s log,
  lookup-insert Str-discrete (key o) (key e.origin)
      (max (at_key (key e.origin) (maxima log)) e.origin_seq) (maxima log),
)

-- The backlog of an origin covers every stored event of it beyond the cursor.
pub pending_of-le :
    (self o : Origin) (s : ℕ) (db : Db)
    → has_event o s db.log ≡ true
    → s
      ≤ at_key (key o) (local_vector self db)
        + (pending_of (local_vector self db) (maxima db.log) (key o)).pending
unfolding pending_of
pending_of-le self o s db h =
    let low = maxima-le o s db.log h in
    elim (Bool-cases
      (ltb (at_key (key o) (local_vector self db)) (at_key (key o) (maxima db.log)))) [
        | inl b ↦ ground (arith, low)
        | inr b ↦ ground (arith, low)
      ]
