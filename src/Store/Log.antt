-- ===== src/Store/Log.antt =====
-- `replication_log` (internal/store/store.go): `InsertEvent`, `HasEvent`, `FetchRange`,
-- `DeleteThrough` and the persisted collection watermark.
pub mod Insertion
pub mod Fetching
pub mod Deletion
use mariamesh.Base.{
  ℕ, zero, suc, ◌+◌, ◌≤◌, ◌<◌, Bool, true, false, ◌&&◌, ◌||◌, ltb, leb, ◌==◌, if◌then◌else◌, ite,
  Str, Str-discrete, List, [], ◌∷◌, Map, insert, Option, none, some, Result, ok, err, ◌>>=◌, ◌>>◌,
}
use mariamesh.Changelog.{Origin, Origin-discrete, Event, Invalid, validate}
use mariamesh.Changelog.Payload.{Value}
use mariamesh.Changelog.Vector.{at_key}
use mariamesh.Store.Tables.{Db, Error, invalid_event, history_truncated, gc_meta_key}

-- Two texts or origins are equal.
abbrev pub same_origin : Origin → Origin → Bool
same_origin a b = ite (Origin-discrete a b) true false

-- The row has the primary key (`o`, `seq`).
abbrev pub has_key : Origin → ℕ → Event → Bool
has_key o seq e = same_origin e.origin o && e.origin_seq == seq

-- `HasEvent`
unfoldable pub has_event : Origin → ℕ → List Event → Bool
has_event o seq [] = false
has_event o seq (e ∷ log) = has_key o seq e || has_event o seq log

abbrev pub lift_invalid {ℓ} : {A : Type ℓ} → Result Invalid A → Result Error A
lift_invalid (ok a) = ok a
lift_invalid (err e) = err (invalid_event e)

-- `InsertEvent`: `INSERT IGNORE`, with the flag that tells whether a row was added.
unfoldable pub insert_event : Event → Db → Result Error (Bool × Db)
insert_event e db = do
  lift_invalid (validate e)
  ok (
      if has_event e.origin e.origin_seq db.log
      then (false, db)
      else (true, record db { log = e ∷ db.log }))

-- `ORDER BY origin_seq`
unfoldable pub insert_by_seq : Event → List Event → List Event
insert_by_seq e [] = e ∷ []
insert_by_seq e (f ∷ fs) =
    if leb e.origin_seq f.origin_seq then e ∷ f ∷ fs else f ∷ insert_by_seq e fs

-- `SELECT … WHERE origin = o AND lo <= origin_seq (AND origin_seq <= hi) ORDER BY origin_seq`
unfoldable pub select : Origin → ℕ → Option ℕ → List Event → List Event
select o lo hi [] = []
select o lo hi (e ∷ log) =
    let within : Bool = elim hi [ none ↦ true | some h ↦ leb e.origin_seq h ] in
    if same_origin e.origin o && leb lo e.origin_seq && within
    then insert_by_seq e (select o lo hi log)
    else select o lo hi log

-- `gcWatermark`
abbrev pub gc_watermark : Origin → Db → ℕ
gc_watermark o db = at_key (gc_meta_key o) db.meta

-- `setGCWatermark`
unfoldable pub set_gc_watermark : Origin → ℕ → Db → Db
set_gc_watermark o through db = record db {
  meta = insert Str-discrete (gc_meta_key o) through db.meta;
}

-- The loop of `FetchRange` over the rows, with its counters; `size` is the length of a payload's
-- JSON text. A limit of 0 is no limit.
unfoldable pub take_bounded : (Map Str Value → ℕ) → ℕ → ℕ → ℕ → ℕ → List Event → List Event
take_bounded size max_events max_bytes count budget [] = []
take_bounded size max_events max_bytes count budget (e ∷ es) =
    let budget' = budget + size e.payload + 128 in
    let rest = take_bounded size max_events max_bytes (count + 1) budget' es in
    if (ltb 0 max_events && leb max_events (count + 1))
      || (ltb 0 max_bytes && leb max_bytes budget')
    then e ∷ []
    else e ∷ rest

-- `FetchRange`
unfoldable pub fetch_range :
    (Map Str Value → ℕ) → Origin → ℕ → ℕ → ℕ → ℕ → Db → Result Error (List Event)
fetch_range size o from to max_events max_bytes db =
    if ltb to from
    then ok []
    else if leb from (gc_watermark o db)
    then err history_truncated
    else ok (take_bounded size max_events max_bytes 0 0 (select o from (some to) db.log))

-- `DELETE … WHERE origin = o AND origin_seq <= through LIMIT limit`: the number of rows deleted, and
-- the rows that stay. The statement has no order, so which rows go is the table's.
unfoldable pub delete_rows : Origin → ℕ → ℕ → List Event → ℕ × List Event
delete_rows o through limit [] = (0, [])
delete_rows o through zero (e ∷ log) = (0, e ∷ log)
delete_rows o through (suc limit) (e ∷ log) =
    let hit = delete_rows o through limit log in
    let miss = delete_rows o through (suc limit) log in
    if same_origin e.origin o && leb e.origin_seq through
    then (suc hit.0, hit.1)
    else (miss.0, e ∷ miss.1)

-- `DeleteThrough`: the number of rows deleted, and the database after it.
unfoldable pub delete_through : Origin → ℕ → ℕ → Db → ℕ × Db
unfolding set_gc_watermark
delete_through o through limit db =
    let limit' = if limit == 0 then 1000 else limit in
    let (n, log) = delete_rows o through limit' db.log in
    let db' = record db { log = log } in
    (n, if ltb n limit' then set_gc_watermark o through db' else db')
