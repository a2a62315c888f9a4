-- ===== src/Apply/Redelivery.antt =====
-- `ApplyBatch` on a batch that it has applied before.
use mariamesh.Base.{
  ℕ, ◌≡◌, refl, ap, sym, subst, ◌∙◌, inl, inr, List, [], ◌∷◌, Map, All, Str, suc, some, ok,
  Result-cases, Bool-cases, ltb, arith,
}
use mariamesh.Apply.{
  Tables, Batch, apply_events, advance_all, finish_batch, apply_batch, ApplyResult,
}
use mariamesh.Apply.Batches.{IsDelivered, apply_events_again, apply_events_stores}
use mariamesh.Apply.Delivered.{apply_events-KeepsSelf, apply_events-IsDelivered, IsDelivered-kept}
use mariamesh.Changelog.{Origin, Origin-discrete, Event}
use mariamesh.Clock.{Clock, load, Hlc}
use mariamesh.Store.LocalState.{save_hlc, save_time}
use mariamesh.Store.Log.Insertion.{HasUniqueKeys}
use mariamesh.Store.Progress.{cursor, set_progress, advance_contiguous, local_vector}
use mariamesh.Store.Progress.Contiguous.{max_seq, advance_contiguous_lem}
use mariamesh.Store.Tables.{Db, LocalState}

-- Only the local state and the cursors may differ.
abbrev pub KeepsTables : Db → Db → Type 0
KeepsTables db db' = db' ≡ record db { local_state = db'.local_state; progress = db'.progress }

-- Advancing a cursor succeeds where there is a local state, and changes nothing else.
advance_one-KeepsTables :
    (self t : Origin) (st : LocalState) (db : Db)
    → HasUniqueKeys db.log
    → db.local_state ≡ some st
    → (r : ℕ × Db) × (advance_contiguous (suc (max_seq db.log)) self t db ≡ some (ok r))
      × (r.1 ≡ record db { progress = r.1.progress })
unfolding advance_contiguous set_progress
advance_one-KeepsTables self t st db u s = elim (Origin-discrete t self) [
  | yes same ↦ elim (Bool-cases (ltb (cursor self t db.progress) st.current_seq)) [
    | inl h ↦ ((st.current_seq, set_progress self t st.current_seq db), ground arith, refl)
    | inr h ↦ ((st.current_seq, db), ground arith, refl)
  ]
  | no other ↦
      let (n, e, gap) = advance_contiguous_lem self t db u other in
      ((n, set_progress self t n db), e, refl)
]

advance_all-KeepsTables :
    (self : Origin) (touched : Map Str Origin) (st : LocalState) (db : Db)
    → HasUniqueKeys db.log
    → db.local_state ≡ some st
    → (db' : Db) × (advance_all self touched db ≡ some (ok db'))
      × (db' ≡ record db { progress = db'.progress })
unfolding advance_all
advance_all-KeepsTables self [] st db u s = (db, refl, refl)
advance_all-KeepsTables self ((k, t) ∷ touched) st db u s =
    let (r, e, keep) = advance_one-KeepsTables self t st db u s in
    let (db', f, rest) =
      advance_all-KeepsTables self touched st r.1
        (subst HasUniqueKeys (sym (ap (λ d. d.log) keep)) u) (ap (λ d. d.local_state) keep ∙ s) in
    (
      db',
      ground (arith, e, f),
      rest ∙ ap {A = Db} {B = Db} (λ d. record d { progress = db'.progress }) keep,
    )

save_hlc-KeepsTables :
    (h : Hlc) (st : LocalState) (db : Db)
    → db.local_state ≡ some st
    → save_hlc h db ≡ record db { local_state = some (record st { hlc = save_time h st.hlc }) }
unfolding save_hlc
save_hlc-KeepsTables h st db s = ground arith

-- The end of a batch whose loop succeeded commits, and changes only the local state and the cursors.
pub finish_batch-KeepsTables :
    (self : Origin) (c : Clock) (b : Batch) (st : LocalState)
    → HasUniqueKeys b.db.log
    → b.db.local_state ≡ some st
    → (db' : Db) × (finish_batch self c (ok b)
        ≡ some (
            ok (
              record { stored = b.stored; written = b.written; vector = local_vector self db' },
              db',
            )))
      × (db' ≡ record b.db {
        local_state = some (record st { hlc = save_time (load c) st.hlc });
        progress = db'.progress;
      })
unfolding finish_batch
finish_batch-KeepsTables self c b st u s =
    let saved = save_hlc-KeepsTables (load c) st b.db s in
    let (db', e, keep) =
      advance_all-KeepsTables self b.touched (record st { hlc = save_time (load c) st.hlc })
        (save_hlc (load c) b.db) (subst HasUniqueKeys (sym (ap (λ d. d.log) saved)) u)
        (ap (λ d. d.local_state) saved) in
    (
      db',
      ground (arith, e),
      keep ∙ ap {A = Db} {B = Db} (λ d. record d { progress = db'.progress }) saved,
    )

-- The batch is applied with the clock: it commits, leaves the clock
-- in memory, counts nothing, and changes no table but the local state and the cursors.
abbrev pub IsRepeated : Tables → Origin → List (ℕ × Event) → Clock → Db → Type 0
IsRepeated tables self es c db =
    (r : ApplyResult × Db) × (apply_batch tables self es c db ≡ (c, some (ok r)))
    × (r.0.stored ≡ 0)
    × (r.0.written ≡ 0)
    × KeepsTables db r.1

apply_batch-delivered :
    (tables : Tables) (self : Origin) (es : List (ℕ × Event)) (c : Clock) (db : Db)
    (st : LocalState)
    → HasUniqueKeys db.log
    → db.local_state ≡ some st
    → All (λ d. IsDelivered db d.1) es
    → IsRepeated tables self es c db
unfolding apply_batch
apply_batch-delivered tables self [] c db st u s d = (
  (record { stored = 0; written = 0; vector = local_vector self db }, db),
  refl,
  refl,
  refl,
  refl,
)
apply_batch-delivered tables self (x ∷ es) c db st u s d =
    let b : Batch = record { db = db; touched = []; stored = 0; written = 0 } in
    let (b', e, same, stored, written) = apply_events_again tables (x ∷ es) c b d in
    let (db', f, keep) =
      finish_batch-KeepsTables self c b' st (subst HasUniqueKeys (ap (λ d. d.log) (sym same)) u)
        (ap (λ d. d.local_state) same ∙ s) in
    (
      (record { stored = b'.stored; written = b'.written; vector = local_vector self db' }, db'),
      ground (arith, e, f),
      stored,
      written,
      ground (arith, keep, same),
    )

-- A batch that `ApplyBatch` has committed is delivered again, with any clock, on a node that has its
-- local state and a log with unique keys: it commits again, leaves that clock as it is, counts no event
-- as stored or written, and leaves every table as it was but the local state and the cursors.
pub apply_batch_again :
    (tables : Tables) (self : Origin) (es : List (ℕ × Event)) (c later : Clock) (db : Db)
    (st : LocalState) (r : ApplyResult × Db)
    → HasUniqueKeys db.log
    → db.local_state ≡ some st
    → (apply_batch tables self es c db).1 ≡ some (ok r)
    → IsRepeated tables self es later r.1
unfolding apply_batch finish_batch
apply_batch_again tables self [] c later db st r u s h =
    apply_batch-delivered tables self [] later r.1 st (subst HasUniqueKeys (ground arith) u)
      (ground arith) tt
apply_batch_again tables self (x ∷ es) c later db st r u s h =
    let b : Batch = record { db = db; touched = []; stored = 0; written = 0 } in
    let run = apply_events tables (x ∷ es) c b in
    elim (Result-cases (apply_events tables (x ∷ es) c b).1) [
      | inr (e, i) ↦ ground (arith, i)
      | inl (b', i) ↦
          let loop : apply_events tables (x ∷ es) c b ≡ (run.0, ok b') = λ j. (run.0, i j) in
          let keys = (apply_events_stores tables (x ∷ es) c run.0 b b' u loop).0 in
          let state = (apply_events-KeepsSelf tables (x ∷ es) c run.0 b b' loop).1 ∙ s in
          let (db', f, keep) = finish_batch-KeepsTables self run.0 b' st keys state in
          let end : r.1 ≡ db' = ground (arith, f, i) in
          let kept = end ∙ keep in
          apply_batch-delivered tables self (x ∷ es) later r.1
            (record st { hlc = save_time (load run.0) st.hlc })
            (subst HasUniqueKeys (sym (ap (λ d. d.log) kept)) keys) (ap (λ d. d.local_state) kept)
            (IsDelivered-kept (x ∷ es) b'.db r.1 (ap (λ d. d.nodes) kept) (ap (λ d. d.log) kept)
              (apply_events-IsDelivered tables (x ∷ es) c run.0 b b' u loop))
    ]

-- A batch whose loop succeeds commits, where there is a local state.
pub apply_batch-commits :
    (tables : Tables) (self : Origin) (x : ℕ × Event) (es : List (ℕ × Event)) (c c' : Clock)
    (db : Db) (st : LocalState) (b : Batch)
    → HasUniqueKeys db.log
    → db.local_state ≡ some st
    → apply_events tables (x ∷ es) c (record { db = db; touched = []; stored = 0; written = 0 })
      ≡ (c', ok b)
    → (r : ApplyResult × Db) × ((apply_batch tables self (x ∷ es) c db).1 ≡ some (ok r))
unfolding apply_batch
apply_batch-commits tables self x es c c' db st b u s h =
    let b0 : Batch = record { db = db; touched = []; stored = 0; written = 0 } in
    let keys = (apply_events_stores tables (x ∷ es) c c' b0 b u h).0 in
    let state = (apply_events-KeepsSelf tables (x ∷ es) c c' b0 b h).1 ∙ s in
    let (db', f, keep) = finish_batch-KeepsTables self c' b st keys state in
    (
      (record { stored = b.stored; written = b.written; vector = local_vector self db' }, db'),
      ground (arith, h, f),
    )
