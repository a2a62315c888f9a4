-- ===== src/Apply/Commit.antt =====
-- After its loop `ApplyBatch` advances the cursors, and only over what is stored.
use mariamesh.Base.{
  ℕ, ◌≡◌, ◌≢◌, ◌≤◌, ◌<◌, ◌||◌, inl, inr, some, true, arith, refl, Str, List, [], ◌∷◌, Map, ok, err,
  Result, Option, Option-cases, Bool-cases, Result-cases, suc, dec_lt, max, ◌⊎◌, ◌∙◌, sym, subst,
  ltb, ap,
}
use mariamesh.Apply.{
  Tables, Batch, apply_events, advance_all, finish_batch, apply_batch, ApplyResult,
}
use mariamesh.Apply.Batches.{apply_events_stores, apply_events-progress, delivers}
use mariamesh.Changelog.{Origin, Origin-discrete, Event}
use mariamesh.Clock.{Clock, load, Hlc}
use mariamesh.Store.Tables.{Db, Error, no_local_state}
use mariamesh.Store.LocalState.{save_hlc}
use mariamesh.Store.Log.{has_event}
use mariamesh.Store.Log.Insertion.{HasUniqueKeys}
use mariamesh.Store.Progress.{cursor, set_progress, advance_contiguous, local_vector}
use mariamesh.Store.Progress.Contiguous.{max_seq, IsFirstGap, advance_contiguous_lem}
use mariamesh.Store.Progress.Cursors.{cursor-set_progress}

-- A remote origin's cursor moves forward, and only over sequences that are stored.
pub record IsSoundFor (o self : Origin) (db db' : Db) : Type 0 where
  pub same_log : db'.log ≡ db.log
  pub forward : cursor self o db.progress ≤ cursor self o db'.progress
  pub stored :
      (s : ℕ)
      → cursor self o db.progress < s
      → s ≤ cursor self o db'.progress
      → has_event o s db.log ≡ true

IsSoundFor-refl : (o self : Origin) (db : Db) → IsSoundFor o self db db
IsSoundFor-refl o self db = record {
  same_log = refl;
  forward = omega arith;
  stored = λ s p q. absurd (omega arith);
}

IsSoundFor-trans :
    (o self : Origin) (a b c : Db)
    → IsSoundFor o self a b
    → IsSoundFor o self b c
    → IsSoundFor o self a c
IsSoundFor-trans o self a b c f g = record {
  same_log = ground arith;
  forward = omega (arith, f.forward, g.forward);
  stored = λ s p q. elim (dec_lt (cursor self o b.progress) s) [
    | yes l ↦ ground (arith, g.stored s l q, f.same_log)
    | no l ↦ f.stored s p (omega arith)
  ];
}

set_progress-log : (self t : Origin) (n : ℕ) (db : Db) → (set_progress self t n db).log ≡ db.log
unfolding set_progress
set_progress-log self t n db = refl

IsSoundFor-other :
    (o self t : Origin) (n : ℕ) (db : Db) → o ≢ t → IsSoundFor o self db (set_progress self t n db)
IsSoundFor-other o self t n db ne =
    let e : cursor self o (set_progress self t n db).progress ≡ cursor self o db.progress =
      ground (arith, cursor-set_progress self self t o n db) in
    record {
      same_log = set_progress-log self t n db;
      forward = omega arith;
      stored = λ s p q. absurd (omega arith);
    }

IsSoundFor-same :
    (self t : Origin) (n : ℕ) (db : Db)
    → IsFirstGap t db.log (cursor self t db.progress) n
    → IsSoundFor t self db (set_progress self t n db)
IsSoundFor-same self t n db gap =
    let e : cursor self t (set_progress self t n db).progress ≡ max (cursor self t db.progress) n =
      ground (arith, cursor-set_progress self self t t n db) in
    record {
      same_log = set_progress-log self t n db;
      forward = omega arith;
      stored = λ s p q. gap.stored s p (omega (arith, gap.forward));
    }

-- A computation that fails with an error, or ends with a database that keeps the log and moves the
-- cursor of `o` soundly.
abbrev pub EndsSoundly :
    (o self : Origin) (db : Db) {A : Type 0} → (A → Db) → Option (Result Error A) → Type 0
EndsSoundly o self db {A} f r =
    ((x : Error) × (r ≡ some (err x))) ⊎ ((a : A) × (r ≡ some (ok a)) × IsSoundFor o self db (f a))

advance_own :
    (o self t : Origin) (db : Db)
    → o ≢ self
    → t ≡ self
    → EndsSoundly o self db (λ r. r.1) (advance_contiguous (suc (max_seq db.log)) self t db)
unfolding advance_contiguous
advance_own o self t db ne same =
    let differ : o ≢ t = λ h. ne (h ∙ same) in
    elim (Option-cases db.local_state) [
      | inl e ↦ inl (no_local_state, ground arith)
      | inr (st, e) ↦ elim (Bool-cases (ltb (cursor self t db.progress) st.current_seq)) [
        | inl h ↦ inr (
          (st.current_seq, set_progress self t st.current_seq db),
          ground arith,
          IsSoundFor-other o self t st.current_seq db differ,
        )
        | inr h ↦ inr ((st.current_seq, db), ground arith, IsSoundFor-refl o self db)
      ]
    ]

advance_one :
    (o self t : Origin) (db : Db)
    → HasUniqueKeys db.log
    → o ≢ self
    → EndsSoundly o self db (λ r. r.1) (advance_contiguous (suc (max_seq db.log)) self t db)
advance_one o self t db u ne = elim (Origin-discrete t self) [
  | yes same ↦ advance_own o self t db ne same
  | no other ↦
      let (n, e, gap) = advance_contiguous_lem self t db u other in
      inr (
        (n, set_progress self t n db),
        e,
        elim (Origin-discrete o t) [
          | yes h ↦
              subst (λ x. IsSoundFor x self db (set_progress self t n db)) (sym h)
                (IsSoundFor-same self t n db gap)
          | no h ↦ IsSoundFor-other o self t n db h
        ],
      )
]

advance_all-EndsSoundly :
    (o self : Origin) (touched : Map Str Origin) (db : Db)
    → HasUniqueKeys db.log
    → o ≢ self
    → EndsSoundly o self db (λ r. r) (advance_all self touched db)
unfolding advance_all
advance_all-EndsSoundly o self [] db u ne = inr (db, refl, IsSoundFor-refl o self db)
advance_all-EndsSoundly o self ((k, t) ∷ touched) db u ne = elim (advance_one o self t db u ne) [
  | inl (x, e) ↦ inl (x, ground arith)
  | inr (r, e, sound) ↦ elim (advance_all-EndsSoundly o self touched r.1 (rw sound.same_log u) ne) [
    | inl (x, h) ↦ inl (x, ground arith)
    | inr (db', h, rest) ↦ inr (db', ground arith, IsSoundFor-trans o self db r.1 db' sound rest)
  ]
]

-- What a successful batch does to the log and to the node's cursor for the remote origin `o`.
pub record IsCommitted (o self : Origin) (es : List (ℕ × Event)) (db db' : Db) : Type 0 where
  pub unique : HasUniqueKeys db'.log
  pub delivered :
      (p : Origin) (s : ℕ) → has_event p s db'.log ≡ delivers p s es || has_event p s db.log
  pub forward : cursor self o db.progress ≤ cursor self o db'.progress
  pub stored :
      (s : ℕ)
      → cursor self o db.progress < s
      → s ≤ cursor self o db'.progress
      → has_event o s db'.log ≡ true

save_hlc-others :
    (h : Hlc) (db : Db) → ((save_hlc h db).log ≡ db.log) × ((save_hlc h db).progress ≡ db.progress)
unfolding save_hlc
save_hlc-others h db = elim (Option-cases db.local_state) [
  | inl e ↦ ground arith
  | inr (st, e) ↦ ground arith
]

module _ (o self : Origin) where
  commit :
      (es : List (ℕ × Event)) (db saved db' : Db)
      → HasUniqueKeys saved.log
      → ((p : Origin) (s : ℕ) → has_event p s saved.log ≡ delivers p s es || has_event p s db.log)
      → cursor self o saved.progress ≡ cursor self o db.progress
      → IsSoundFor o self saved db'
      → IsCommitted o self es db db'
  commit es db saved db' u d cur sound = record {
    unique = rw sound.same_log u;
    delivered = λ p s. rw sound.same_log (d p s);
    forward = omega (arith, sound.forward);
    stored = λ s p q. rw sound.same_log (sound.stored s (omega arith) q);
  }

module _ (o self : Origin) (tables : Tables) (ne : o ≢ self) where
  finish_batch-IsCommitted :
      (es : List (ℕ × Event)) (c c' : Clock) (b b' : Batch)
      → HasUniqueKeys b.db.log
      → apply_events tables es c b ≡ (c', ok b')
      → ((x : Error) × (finish_batch self c' (ok b') ≡ some (err x)))
        ⊎ ((res : ApplyResult × Db) × (finish_batch self c' (ok b') ≡ some (ok res))
            × IsCommitted o self es b.db res.1
            × (res.0.vector ≡ local_vector self res.1))
  unfolding finish_batch
  finish_batch-IsCommitted es c c' b b' u h =
      let log = apply_events_stores tables es c c' b b' u h in
      let keep = save_hlc-others (load c') b'.db in
      let cur : cursor self o (save_hlc (load c') b'.db).progress ≡ cursor self o b.db.progress =
        ap (cursor self o) (keep.1 ∙ apply_events-progress tables es c c' b b' h) in
      elim (advance_all-EndsSoundly o self b'.touched (save_hlc (load c') b'.db) (rw keep.0 log.0)
        ne) [
          | inl (x, e) ↦ inl (x, ground arith)
          | inr (db', e, sound) ↦ inr (
            (
              record { stored = b'.stored; written = b'.written; vector = local_vector self db' },
              db',
            ),
            ground arith,
            commit o self es b.db (save_hlc (load c') b'.db) db' (rw keep.0 log.0)
                (λ p s. rw keep.0 (log.1 p s)) cur sound,
            refl,
          )
        ]

  -- On a log whose keys are unique, `ApplyBatch` always ends, whatever its events. Either it returns
  -- an error, or it commits: the log then holds exactly what it held and what was delivered, each key
  -- once; a remote origin's cursor has not moved back, and has moved only over stored sequences; and
  -- the vector returned is the one of the committed database.
  pub apply_batch_lem :
      (es : List (ℕ × Event)) (c : Clock) (db : Db)
      → HasUniqueKeys db.log
      → ((x : Error) × ((apply_batch tables self es c db).1 ≡ some (err x)))
        ⊎ ((res : ApplyResult × Db) × ((apply_batch tables self es c db).1 ≡ some (ok res))
            × IsCommitted o self es db res.1
            × (res.0.vector ≡ local_vector self res.1))
  unfolding apply_batch delivers finish_batch
  apply_batch_lem [] c db u = inr (
    (record { stored = 0; written = 0; vector = local_vector self db }, db),
    refl,
    commit o self [] db db db u (λ p s. refl) refl (IsSoundFor-refl o self db),
    refl,
  )
  apply_batch_lem (e ∷ es) c db u =
      let b : Batch = record { db = db; touched = []; stored = 0; written = 0 } in
      let run = apply_events tables (e ∷ es) c b in
      elim (Result-cases (apply_events tables (e ∷ es) c b).1) [
        | inl (b', h) ↦ rw h (finish_batch-IsCommitted (e ∷ es) c run.0 b b' u (λ i. (run.0, h i)))
        | inr (x, h) ↦ inl (x, rw (h, finish_batch))
      ]
