-- ===== src/Sync/Broadcasts.antt =====
-- `HandleBroadcast` in internal/sync/sync.go: the events of each frame are applied as one batch.
use mariamesh.Base.{
  ℕ, ◌≡◌, ◌≢◌, ◌⊎◌, inl, inr, refl, subst, sym, Bool, Bool-cases, true, false, ◌||◌, List, [], ◌∷◌,
  none, some, Result, ok, err, arith,
}
use mariamesh.Apply.{Tables, apply_batch, ApplyResult}
use mariamesh.Apply.Batches.{delivers}
use mariamesh.Apply.Commit.{apply_batch_lem}
use mariamesh.Changelog.{Origin, Event}
use mariamesh.Clock.{Clock}
use mariamesh.Store.Log.{has_event}
use mariamesh.Store.Log.Insertion.{HasUniqueKeys}
use mariamesh.Store.Tables.{Db, Error}
use mariamesh.Sync.Session.{timed}

-- A frame of the stream, with the wall times that the clock reads for its events.
pub data BroadcastFrame : Type 0 where
  broadcast : (ℕ → ℕ) → List Event → BroadcastFrame
  undecoded unexpected : BroadcastFrame

pub data BroadcastError : Type 0 where
  bad_frame unexpected_kind no_fuel : BroadcastError
  apply_error : Error → BroadcastError

-- `HandleBroadcast`: the end of the frames is the end of the stream.
unfoldable pub handle_broadcast :
    Tables
    → Origin
    → List BroadcastFrame
    → Clock
    → Db
    → Result BroadcastError (Unit {0}) × Clock × Db
unfolding timed
handle_broadcast tables self [] clock db = (ok tt, clock, db)
handle_broadcast tables self (undecoded ∷ fs) clock db = (err bad_frame, clock, db)
handle_broadcast tables self (unexpected ∷ fs) clock db = (err unexpected_kind, clock, db)
handle_broadcast tables self (broadcast wall [] ∷ fs) clock db =
    handle_broadcast tables self fs clock db
handle_broadcast tables self (broadcast wall (e ∷ es) ∷ fs) clock db =
    let (clock', res) = apply_batch tables self (timed wall 0 (e ∷ es)) clock db in
    elim res [
      | none ↦ (err no_fuel, clock', db)
      | some (err x) ↦ (err (apply_error x), clock', db)
      | some (ok (r, db')) ↦ handle_broadcast tables self fs clock' db'
    ]

-- Some frame has the event.
unfoldable pub carries : Origin → ℕ → List BroadcastFrame → Bool
unfolding timed
carries p s [] = false
carries p s (broadcast wall es ∷ fs) = carries p s fs || delivers p s (timed wall 0 es)
carries p s (_ ∷ fs) = carries p s fs

-- How a stream ends, for one key: `carried` is that a frame has it, and `there` that the log had it.
pub record IsHandled (p : Origin) (s : ℕ) (carried there : Bool)
    (out : Result BroadcastError (Unit {0}) × Clock × Db) : Type 0 where
  pub unique : HasUniqueKeys out.2.log
  pub outcome :
      ((out.0 ≡ ok tt) × (has_event p s out.2.log ≡ carried || there))
      ⊎ ((x : BroadcastError) × (out.0 ≡ err x)
          × (x ≢ no_fuel)
          × ((there ≡ false) ⊎ (has_event p s out.2.log ≡ true)))

IsHandled-failed :
    (p : Origin) (s : ℕ) (carried : Bool) (x : BroadcastError) (clock : Clock) (db : Db)
    → x ≢ no_fuel
    → HasUniqueKeys db.log
    → IsHandled p s carried (has_event p s db.log) (err x, clock, db)
IsHandled-failed p s carried x clock db n u = record {
  unique = u;
  outcome = inr (x, refl, n, ground (arith, Bool-cases (has_event p s db.log)));
}

IsHandled-then :
    (p : Origin) (s : ℕ) (carried now there : Bool)
    (out : Result BroadcastError (Unit {0}) × Clock × Db)
    → IsHandled p s carried (now || there) out
    → IsHandled p s (carried || now) there out
IsHandled-then p s carried now there out h = record {
  unique = h.unique;
  outcome = elim h.outcome [
    | inl (o, e) ↦ inl (o, ground (arith, e, Bool-cases carried, Bool-cases now))
    | inr (x, o, n, k) ↦ inr (x, o, n, ground (arith, k, Bool-cases now, Bool-cases there))
  ];
}

handle_broadcast-ok :
    (tables : Tables) (self : Origin) (wall : ℕ → ℕ) (e : Event) (es : List Event)
    (fs : List BroadcastFrame) (clock : Clock) (db : Db) (r : ApplyResult × Db)
    → (apply_batch tables self (timed wall 0 (e ∷ es)) clock db).1 ≡ some (ok r)
    → handle_broadcast tables self (broadcast wall (e ∷ es) ∷ fs) clock db
      ≡ handle_broadcast tables self fs
          (apply_batch tables self (timed wall 0 (e ∷ es)) clock db).0
          r.1
unfolding handle_broadcast
handle_broadcast-ok tables self wall e es fs clock db r h = ground arith

handle_broadcast-err :
    (tables : Tables) (self : Origin) (wall : ℕ → ℕ) (e : Event) (es : List Event)
    (fs : List BroadcastFrame) (clock : Clock) (db : Db) (x : Error)
    → (apply_batch tables self (timed wall 0 (e ∷ es)) clock db).1 ≡ some (err x)
    → handle_broadcast tables self (broadcast wall (e ∷ es) ∷ fs) clock db
      ≡ (err (apply_error x), (apply_batch tables self (timed wall 0 (e ∷ es)) clock db).0, db)
unfolding handle_broadcast
handle_broadcast-err tables self wall e es fs clock db x h = ground arith

-- A stream of broadcasts always ends, and its log has unique keys, where it had before. If it is
-- handled to its end, the log has exactly what was there and what the frames carried. If it fails, the
-- log still has what was there.
pub handle_broadcast_lem :
    (o p : Origin) (s : ℕ) (tables : Tables) (self : Origin) (fs : List BroadcastFrame)
    (clock : Clock) (db : Db)
    → o ≢ self
    → HasUniqueKeys db.log
    → IsHandled p s
        (carries p s fs)
        (has_event p s db.log)
        (handle_broadcast tables self fs clock db)
unfolding handle_broadcast carries delivers
handle_broadcast_lem o p s tables self [] clock db n u = record {
  unique = u;
  outcome = inl (refl, refl);
}
handle_broadcast_lem o p s tables self (undecoded ∷ fs) clock db n u =
    IsHandled-failed p s _ bad_frame clock db (λ e. ground arith) u
handle_broadcast_lem o p s tables self (unexpected ∷ fs) clock db n u =
    IsHandled-failed p s _ unexpected_kind clock db (λ e. ground arith) u
handle_broadcast_lem o p s tables self (broadcast wall [] ∷ fs) clock db n u =
    IsHandled-then p s _ _ _ _ (handle_broadcast_lem o p s tables self fs clock db n u)
handle_broadcast_lem o p s tables self (broadcast wall (e ∷ es) ∷ fs) clock db n u =
    let events = timed wall 0 (e ∷ es) in
    elim (apply_batch_lem o self tables n events clock db u) [
      | inl (x, f) ↦
          subst (IsHandled p s _ (has_event p s db.log))
            (sym (handle_broadcast-err tables self wall e es fs clock db x f))
            (IsHandled-failed p s _ (apply_error x) _ db (λ e. ground arith) u)
      | inr (r, f, c, v) ↦
          subst (IsHandled p s _ (has_event p s db.log))
            (sym (handle_broadcast-ok tables self wall e es fs clock db r f))
            (IsHandled-then p s _ _ _ _ (
              subst
                (λ b.
                  IsHandled p s (carries p s fs) b (
                    handle_broadcast tables self fs (apply_batch tables self events clock db).0
                      r.1))
                (c.delivered p s)
                (handle_broadcast_lem o p s tables self fs
                  (apply_batch tables self events clock db).0 r.1 n c.unique)))
    ]
