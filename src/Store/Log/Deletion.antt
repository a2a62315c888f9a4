-- ===== src/Store/Log/Deletion.antt =====
-- `DeleteThrough`: what a bounded batch removes, and when the watermark moves.
use mariamesh.Base.{
  ℕ, zero, suc, ◌≡◌, ◌≢◌, ◌≤◌, ◌<◌, false, List, [], ◌∷◌, err, arith, refl, lookup-insert_self,
  Str-discrete, Map, Str,
}
use mariamesh.Changelog.{Origin, Event}
use mariamesh.Changelog.Payload.{Value}
use mariamesh.Store.Tables.{Db, history_truncated, gc_meta_key}
use mariamesh.Store.Log.{
  has_event, delete_rows, delete_through, gc_watermark, set_gc_watermark, fetch_range,
}

delete_rows-le :
    (o : Origin) (t limit : ℕ) (log : List Event) → (delete_rows o t limit log).0 ≤ limit
unfolding delete_rows
delete_rows-le o t limit [] = omega arith
delete_rows-le o t zero (e ∷ log) = omega arith
delete_rows-le o t (suc limit) (e ∷ log) =
    ground (arith, delete_rows-le o t limit log, delete_rows-le o t (suc limit) log)

-- A batch that stays below its limit leaves no row of the origin at or below `t`.
delete_rows_complete :
    (o : Origin) (t limit s : ℕ) (log : List Event)
    → (delete_rows o t limit log).0 < limit
    → s ≤ t
    → has_event o s (delete_rows o t limit log).1 ≡ false
unfolding delete_rows has_event
delete_rows_complete o t limit s [] h l = refl
delete_rows_complete o t zero s (e ∷ log) h l = ground arith
delete_rows_complete o t (suc limit) s (e ∷ log) h l =
    ground (arith, delete_rows_complete o t limit s log, delete_rows_complete o t (suc limit) s log)

-- A batch touches no row above `t`, and none of another origin.
delete_rows_others :
    (o p : Origin) (t limit s : ℕ) (log : List Event)
    → (p ≡ o → t < s)
    → has_event p s (delete_rows o t limit log).1 ≡ has_event p s log
unfolding delete_rows has_event
delete_rows_others o p t limit s [] h = refl
delete_rows_others o p t zero s (e ∷ log) h = refl
delete_rows_others o p t (suc limit) s (e ∷ log) h =
    ground
      (arith, delete_rows_others o p t limit s log h, delete_rows_others o p t (suc limit) s log h)

-- Whatever the batch limit, a collection removes only rows of its origin at or below `through`.
pub delete_through_others :
    (o p : Origin) (through limit s : ℕ) (db : Db)
    → (p ≡ o → through < s)
    → has_event p s (delete_through o through limit db).1.log ≡ has_event p s db.log
unfolding delete_through set_gc_watermark
delete_through_others o p through limit s db h = ground (
  arith,
  delete_rows_others o p through limit s db.log h,
  delete_rows_others o p through 1000 s db.log h,
)

-- A batch that removes fewer rows than its limit leaves no row of the origin at a sequence of at most
-- `through`, and records `through` as the watermark.
pub delete_through_complete :
    (o : Origin) (through limit s : ℕ) (db : Db)
    → 0 < limit
    → (delete_through o through limit db).0 < limit
    → s ≤ through
    → (gc_watermark o (delete_through o through limit db).1 ≡ through)
      × (has_event o s (delete_through o through limit db).1.log ≡ false)
unfolding delete_through set_gc_watermark
delete_through_complete o through limit s db p h l = ground (
  arith,
  delete_rows_complete o through limit s db.log,
  lookup-insert_self Str-discrete (gc_meta_key o) through db.meta,
)

-- A full batch leaves the watermark alone, though rows are gone: until a later batch is not full, a
-- request for them is not refused.
pub delete_through_full :
    (o p : Origin) (through limit : ℕ) (db : Db)
    → 0 < limit
    → (delete_through o through limit db).0 ≡ limit
    → gc_watermark p (delete_through o through limit db).1 ≡ gc_watermark p db
unfolding delete_through
delete_through_full o p through limit db h e = ground arith

has_event-tail :
    (o : Origin) (s : ℕ) (e : Event) (log : List Event)
    → has_event o s (e ∷ log) ≡ false
    → has_event o s log ≡ false
unfolding has_event
has_event-tail o s e log h = ground arith

delete_rows_none :
    (o : Origin) (t limit : ℕ) (log : List Event)
    → ((s : ℕ) → s ≤ t → has_event o s log ≡ false)
    → (delete_rows o t limit log).0 ≡ 0
unfolding delete_rows has_event
delete_rows_none o t limit [] h = refl
delete_rows_none o t zero (e ∷ log) h = refl
delete_rows_none o t (suc limit) (e ∷ log) h = ground (
  arith,
  h e.origin_seq,
  delete_rows_none o t (suc limit) log (λ s l. has_event-tail o s e log (h s l)),
)

-- The watermark can move back. After all rows up to `w` were collected, a collection through a lower
-- sequence records the lower watermark, and a request that was refused before, for sequences up to
-- `w` that no longer exist, is then answered as if they had never been written.
pub delete_through_forgets :
    (size : Map Str Value → ℕ) (o : Origin) (through limit from to me mb : ℕ) (db : Db)
    → 0 < limit
    → ((s : ℕ) → s ≤ gc_watermark o db → has_event o s db.log ≡ false)
    → through < from
    → from ≤ gc_watermark o db
    → from ≤ to
    → (fetch_range size o from to me mb db ≡ err history_truncated)
      × (fetch_range size o from to me mb (delete_through o through limit db).1
          ≢ err history_truncated)
unfolding delete_through fetch_range set_gc_watermark
delete_through_forgets size o through limit from to me mb db p gone l g f = ground (
  arith,
  delete_rows_none o through limit db.log (λ s h. gone s (omega arith)),
  lookup-insert_self Str-discrete (gc_meta_key o) through db.meta,
)
