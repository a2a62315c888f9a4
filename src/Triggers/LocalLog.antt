-- ===== src/Triggers/LocalLog.antt =====
-- The log of a node's own writes, as the triggers keep it.
use mariamesh.Base.{
  ℕ, ◌+◌, ◌-◌, ◌≡◌, ◌≢◌, ◌<◌, inl, inr, refl, ap, sym, subst, ◌∙◌, false, if◌then◌else◌, Str, List,
  [], ◌∷◌, Map, some, ok, Bool-cases, arith, greater, less,
}
use mariamesh.Changelog.{Origin, Event, Operation}
use mariamesh.Changelog.Payload.{Value}
use mariamesh.Clock.{Hlc, compare_hlc}
use mariamesh.Store.LocalState.{allocate}
use mariamesh.Store.Log.{has_event, same_origin}
use mariamesh.Store.Tables.{Db, LocalState}
use mariamesh.Triggers.{TableSpec, log_change}

-- The rows of the log that an origin wrote, the newest first.
unfoldable pub own : Origin → List Event → List Event
own self [] = []
own self (e ∷ log) = let rest = own self log in if same_origin e.origin self then e ∷ rest else rest

-- A time is later than that of the first event.
abbrev pub IsLater : Hlc → List Event → Type 0
IsLater h [] = Unit
IsLater h (e ∷ es) = compare_hlc h e.hlc ≡ greater

-- A time is not before that of the first event.
abbrev pub IsPast : Hlc → List Event → Type 0
IsPast h [] = Unit
IsPast h (e ∷ es) = compare_hlc h e.hlc ≢ less

-- The events are numbered n, n - 1, …, 1, and each is later than the next.
unfoldable pub IsNumbered : ℕ → List Event → Type 0
IsNumbered n [] = n ≡ 0
IsNumbered n (e ∷ es) = (e.origin_seq ≡ n) × (0 < n) × IsLater e.hlc es × IsNumbered (n - 1) es

abbrev pub self_of : LocalState → Origin
self_of st = record { node_id = st.node_id; incarnation_id = st.incarnation_id }

-- The node's own events have the sequences 1, …, `current_seq`, in the order of their times, and none
-- is after the stored time.
pub record IsOwnHistory (st : LocalState) (log : List Event) : Type 0 where
  pub numbered : IsNumbered st.current_seq (own (self_of st) log)
  pub past : IsPast st.hlc (own (self_of st) log)

pub allocate_later :
    (now : ℕ) (st : LocalState) → compare_hlc (allocate now st).hlc st.hlc ≡ greater
unfolding allocate compare_hlc
allocate_later now st = ground arith

has_event-IsNumbered :
    (self : Origin) (s n : ℕ) (log : List Event)
    → IsNumbered n (own self log)
    → n < s
    → has_event self s log ≡ false
unfolding has_event own IsNumbered
has_event-IsNumbered self s n [] k g = refl
has_event-IsNumbered self s n (e ∷ log) k g = elim (Bool-cases (same_origin e.origin self)) [
  | inl b ↦
      let k' : IsNumbered n (e ∷ own self log) = ground arith in
      let rest = has_event-IsNumbered self s (n - 1) log k'.3 (omega (arith, k'.1)) in
      ground (arith, k'.0)
  | inr b ↦ ground (arith, has_event-IsNumbered self s n log)
]

-- What a write that is logged makes of the database.
pub record IsLogged (st : LocalState) (now : ℕ) (e : Event) (db db' : Db) : Type 0 where
  pub result : db' ≡ record db { local_state = some (allocate now st); log = e ∷ db.log }
  pub origin : e.origin ≡ self_of st
  pub seq : e.origin_seq ≡ (allocate now st).current_seq
  pub time : e.hlc ≡ (allocate now st).hlc

pub allocate_next : (now : ℕ) (st : LocalState) → (allocate now st).current_seq ≡ st.current_seq + 1
unfolding allocate
allocate_next now st = refl

pub allocate_self : (now : ℕ) (st : LocalState) → self_of (allocate now st) ≡ self_of st
unfolding allocate
allocate_self now st = refl

pub log_change-IsLogged :
    (now : ℕ) (cid : Str) (spec : TableSpec) (id : Str) (op : Operation) (p : Map Str Value)
    (st : LocalState) (db : Db)
    → db.local_state ≡ some st
    → IsOwnHistory st db.log
    → (e : Event) × (db' : Db) × (log_change now cid spec id op p db ≡ ok db')
      × (e.table ≡ spec.name)
      × (e.row_id ≡ id)
      × (e.op ≡ op)
      × (e.payload ≡ p)
      × IsLogged st now e db db'
unfolding log_change
log_change-IsLogged now cid spec id op p st db s inv =
    let st' = allocate now st in
    let e : Event = record {
      origin = self_of st;
      origin_seq = st'.current_seq;
      change_id = cid;
      table = spec.name;
      row_id = id;
      op = op;
      hlc = st'.hlc;
      payload = p;
    } in
    let fresh : has_event (self_of st) st'.current_seq db.log ≡ false =
      has_event-IsNumbered (self_of st) st'.current_seq st.current_seq db.log inv.numbered
        (omega (arith, allocate_next now st)) in
    (
      e,
      record db { local_state = some st'; log = e ∷ db.log },
      ground (arith, fresh),
      refl,
      refl,
      refl,
      refl,
      record { result = refl; origin = refl; seq = refl; time = refl },
    )

IsPast-IsLater :
    (h k : Hlc) (es : List Event) → compare_hlc h k ≡ greater → IsPast k es → IsLater h es
unfolding compare_hlc
IsPast-IsLater h k [] g p = tt
IsPast-IsLater h k (e ∷ es) g p = ground arith

own-logged :
    (self : Origin) (e : Event) (log : List Event)
    → e.origin ≡ self
    → own self (e ∷ log) ≡ e ∷ own self log
unfolding own
own-logged self e log h = ground arith

IsNumbered-logged :
    (now : ℕ) (st : LocalState) (e : Event) (db db' : Db)
    → IsOwnHistory st db.log
    → IsLogged st now e db db'
    → IsNumbered (allocate now st).current_seq (e ∷ own (self_of st) db.log)
unfolding IsNumbered
IsNumbered-logged now st e db db' inv l =
    let seq = allocate_next now st in
    (
      l.seq,
      omega (arith, seq),
      IsPast-IsLater e.hlc st.hlc (own (self_of st) db.log)
          (ap (λ t. compare_hlc t st.hlc) l.time ∙ allocate_later now st) inv.past,
      subst (λ n. IsNumbered n (own (self_of st) db.log)) (omega (arith, seq)) inv.numbered,
    )

compare_hlc_refl : (h : Hlc) → compare_hlc h h ≢ less
unfolding compare_hlc
compare_hlc_refl h = ground arith

pub IsOwnHistory-logged :
    (now : ℕ) (st : LocalState) (e : Event) (db db' : Db)
    → IsOwnHistory st db.log
    → IsLogged st now e db db'
    → IsOwnHistory (allocate now st) (e ∷ db.log)
IsOwnHistory-logged now st e db db' inv l =
    let self = allocate_self now st in
    let es : own (self_of (allocate now st)) (e ∷ db.log) ≡ e ∷ own (self_of st) db.log =
      ap (λ o. own o (e ∷ db.log)) self ∙ own-logged (self_of st) e db.log l.origin in
    record {
      numbered =
          subst (IsNumbered (allocate now st).current_seq) (sym es)
            (IsNumbered-logged now st e db db' inv l);
      past =
          subst (IsPast (allocate now st).hlc) (sym es)
            (subst (λ h. compare_hlc h e.hlc ≢ less) l.time (compare_hlc_refl e.hlc));
    }
