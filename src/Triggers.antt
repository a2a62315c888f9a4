-- ===== src/Triggers.antt =====
-- internal/schema/schema.go: what the generated triggers do when the application writes a row. The
-- text of the statements is not modelled; a trigger is a function on the database that runs in the
-- transaction of the write.
pub mod LocalLog
pub mod Firing
pub mod Overwrites
pub mod History
use mariamesh.Base.{
  ℕ, Bool, true, false, not, if◌then◌else◌, ite, Str, Str-discrete, trim_space, List, [], ◌∷◌, Map,
  lookup, insert, Option, none, some, Result, ok, err, ◌>>=◌,
}
use mariamesh.Changelog.{Origin, Event, Operation, op_insert, op_update, op_delete, is_empty}
use mariamesh.Changelog.Payload.{Value, null}
use mariamesh.Store.LocalState.{allocate}
use mariamesh.Store.Log.{has_event}
use mariamesh.Store.Tables.{Db, LocalState, Row}

-- `TableSpec`
pub record TableSpec : Type 0 where
  pub name : Str
  pub id_column : Str
  pub columns : List Str

pub data SpecError : Type 0 where
  missing_name missing_id_column missing_columns : SpecError

-- The checks of `TriggerSQL`.
unfoldable pub check_spec : TableSpec → Result SpecError (Unit {0})
check_spec spec =
    if is_empty (trim_space spec.name)
    then err missing_name
    else if is_empty (trim_space spec.id_column)
    then err missing_id_column
    else if is_empty spec.columns
    then err missing_columns
    else ok tt

-- What fails the application's statement: a log row with a key that exists, an identifier that
-- changes, or no local state, where the log's columns refuse the null variables.
pub data TriggerError : Type 0 where
  duplicate_key immutable_id no_state : TriggerError

-- `NEW.c`: a column that has no value is null.
abbrev pub column_value : Str → Row → Value
column_value c row = elim (lookup Str-discrete c row) as (λ _. Value) [ none ↦ null | some v ↦ v ]

-- `allocSequenceSQL`, and the `INSERT` into the log; `now` is the wall time and `change_id` what
-- `UUID()` returns.
unfoldable pub log_change :
    ℕ → Str → TableSpec → Str → Operation → Map Str Value → Db → Result TriggerError Db
log_change now change_id spec row_id op payload db = elim db.local_state [
  | none ↦ err no_state
  | some st ↦
      let st' = allocate now st in
      let self : Origin = record { node_id = st.node_id; incarnation_id = st.incarnation_id } in
      let e : Event = record {
        origin = self;
        origin_seq = st'.current_seq;
        change_id = change_id;
        table = spec.name;
        row_id = row_id;
        op = op;
        hlc = st'.hlc;
        payload = payload;
      } in
      if has_event self st'.current_seq db.log
      then err duplicate_key
      else ok (record db { local_state = some st'; log = e ∷ db.log })
]

-- The pairs of `insertTrigger`.
unfoldable pub all_values : List Str → Row → Map Str Value
all_values [] new = []
all_values (c ∷ cs) new = (c, column_value c new) ∷ all_values cs new

-- The column tests of `updateTrigger`; `same` is the `<=>` of a column.
unfoldable pub changed_values : (Str → Value → Value → Bool) → List Str → Row → Row → Map Str Value
changed_values same [] old new = []
changed_values same (c ∷ cs) old new =
    let rest = changed_values same cs old new in
    if not (same c (column_value c old) (column_value c new))
    then (c, column_value c new) ∷ rest
    else rest

-- What fires a trigger: the identifiers and rows that it sees.
pub data Write : Type 0 where
  inserted : Str → Row → Write
  updated : Str → Row → Str → Row → Write
  deleted : Str → Write

-- The body of `insertTrigger`, `updateTrigger` and `deleteTrigger`; `applying` is that the connection
-- has set `@replication_apply`.
unfoldable pub fire :
    (Str → Value → Value → Bool) → TableSpec → Bool → ℕ → Str → Write → Db → Result TriggerError Db
unfolding log_change all_values changed_values
fire same spec true now change_id w db = ok db
fire same spec false now change_id (inserted id new) db =
    log_change now change_id spec id op_insert (all_values spec.columns new) db
fire same spec false now change_id (updated old_id old new_id new) db =
    let changes = changed_values same spec.columns old new in
    ite (Str-discrete old_id new_id)
      (if is_empty changes
        then ok db
        else log_change now change_id spec new_id op_update changes db)
      (err immutable_id)
fire same spec false now change_id (deleted id) db =
    log_change now change_id spec id op_delete [] db

-- The triggers of a series of writes, each with the table, the wall time and the change's identifier.
-- A write that fails leaves the database as it was.
pub record Call : Type 0 where
  pub spec : TableSpec
  pub applying : Bool
  pub now : ℕ
  pub change_id : Str
  pub write : Write

unfoldable pub fire_all : (Str → Value → Value → Bool) → List Call → Db → Db
unfolding fire
fire_all same [] db = db
fire_all same (c ∷ cs) db = elim (fire same c.spec c.applying c.now c.change_id c.write db) [
  | err x ↦ fire_all same cs db
  | ok db' ↦ fire_all same cs db'
]
