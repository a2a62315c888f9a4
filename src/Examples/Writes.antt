-- ===== src/Examples/Writes.antt =====
-- Inputs for the triggers.
use mariamesh.Base.{
  ℕ, ◌+◌, ◌≡◌, ◌⊎◌, refl, arith, true, false, greater, Bool, List, [], ◌∷◌, Str, bytes, none, some,
  ok, err, Str-discrete, ℕ_discrete, ltb,
}
use mariamesh.Apply.{apply_write}
use mariamesh.Apply.Cells.{get_value}
use mariamesh.Apply.Cells.Writes.{payload_value}
use mariamesh.Changelog.{Event, Origin-discrete, validate}
use mariamesh.Changelog.Payload.{Value, text, normalize_value}
use mariamesh.Clock.{compare_hlc}
use mariamesh.Examples.{a1, empty_db, row, version_at, spec}
use mariamesh.Store.LocalState.{ensure_local_state, allocate}
use mariamesh.Store.Log.{has_event}
use mariamesh.Store.Tables.{Db, LocalState, Row}
use mariamesh.Triggers.{
  TableSpec, Write, inserted, updated, deleted, Call, immutable_id, fire, fire_all, log_change,
  changed_values,
}
use mariamesh.Triggers.History.{
  HasOwnHistory, ensure_local_state-HasOwnHistory, fire_all-HasOwnHistory, fire_lem,
}
use mariamesh.Triggers.Firing.{IsRenaming, IsUnchanged, IsWritten}
use mariamesh.Triggers.Overwrites.{fire-apply_write}

abbrev table : TableSpec
table = record { name = bytes "t"; id_column = bytes "id"; columns = bytes "x" ∷ [] }

-- A comparison that tells texts of different first bytes apart.
abbrev first_byte : Value → ℕ
first_byte (text (c ∷ s)) = c
first_byte _ = 0

abbrev same : Str → Value → Value → Bool
same c v w = mariamesh.Base.◌==◌ (first_byte v) (first_byte w)

abbrev value_row : Str → Row
value_row s = (bytes "x", text s) ∷ []

abbrev fresh_state : LocalState
fresh_state = record {
  node_id = bytes "a";
  incarnation_id = bytes "1";
  current_seq = 0;
  hlc = record { physical = 0; logical = 0 };
}

abbrev fresh_db : Db
fresh_db = record empty_db { local_state = some fresh_state }

fresh_db-HasOwnHistory : HasOwnHistory a1 fresh_db
unfolding ensure_local_state
fresh_db-HasOwnHistory =
    ensure_local_state-HasOwnHistory (bytes "a") (bytes "1") fresh_state empty_db fresh_db refl refl
      refl

abbrev call_of : ℕ → Write → Call
call_of now w = record {
  spec = table;
  applying = false;
  now = now;
  change_id = bytes "c";
  write = w;
}

-- An insertion, an update with an earlier wall time, a changed identifier, and a deletion.
abbrev calls : List Call
calls =
    call_of 7 (inserted (bytes "r") (value_row (bytes "v")))
    ∷ call_of 6 (updated (bytes "r") (value_row (bytes "v")) (bytes "r") (value_row (bytes "w")))
    ∷ call_of 8 (updated (bytes "r") (value_row (bytes "w")) (bytes "q") (value_row (bytes "w")))
    ∷ call_of 9 (deleted (bytes "r"))
    ∷ []

fire_all-HasOwnHistory_example : HasOwnHistory a1 (fire_all same calls fresh_db)
fire_all-HasOwnHistory_example =
    fire_all-HasOwnHistory same calls a1 fresh_db fresh_db-HasOwnHistory

abbrev renaming : Call
renaming =
    call_of 8 (updated (bytes "r") (value_row (bytes "w")) (bytes "q") (value_row (bytes "w")))

fire_lem_example :
    ((fire same table false 8 (bytes "c") renaming.write fresh_db ≡ err immutable_id)
      × (false ≡ false)
      × IsRenaming renaming.write)
    ⊎ (((fire same table false 8 (bytes "c") renaming.write fresh_db ≡ ok fresh_db)
          × ((false ≡ true) ⊎ IsUnchanged same table renaming.write))
        ⊎ ((e : Event) × (st st' : LocalState) × (some fresh_state ≡ some st)
            × (fire same table false 8 (bytes "c") renaming.write fresh_db
                ≡ ok (record fresh_db { local_state = some st'; log = e ∷ [] }))
            × (false ≡ false)
            × IsWritten same table renaming.write e
            × (e.table ≡ bytes "t")
            × (e.row_id ≡ bytes "q")
            × (e.origin ≡ a1)
            × (e.origin_seq ≡ st.current_seq + 1)
            × (compare_hlc e.hlc st.hlc ≡ greater)
            × (validate e ≡ ok tt)))
fire_lem_example = fire_lem same renaming a1 fresh_db fresh_db-HasOwnHistory refl refl refl refl

-- A local update at time 9, and a remote one from time 2.
abbrev local_write : Write
local_write = updated (bytes "r") (value_row (bytes "v")) (bytes "r") (value_row (bytes "w"))

abbrev written_db : Db
written_db = record fresh_db { rows = (row, value_row (bytes "w")) ∷ [] }

abbrev logged_db : Db
logged_db = record written_db {
  local_state = some (allocate 9 fresh_state);
  log =
      record {
        origin = a1;
        origin_seq = 1;
        change_id = bytes "c";
        table = bytes "t";
        row_id = bytes "r";
        op = mariamesh.Changelog.op_update;
        hlc = record { physical = 9; logical = 0 };
        payload = (bytes "x", text (bytes "w")) ∷ [];
      }
      ∷ [];
}

fire-apply_write_example :
    get_value row
      (bytes "x")
      (apply_write spec row (version_at 2) ((bytes "x", text (bytes "old")) ∷ []) logged_db).1
    ≡ some (text (bytes "old"))
unfolding fire log_change changed_values allocate has_event payload_value normalize_value
    Str-discrete ℕ_discrete
fire-apply_write_example =
    fire-apply_write same table false 9 (bytes "c") local_write written_db logged_db spec row
      (version_at 2) (bytes "x") ((bytes "x", text (bytes "old")) ∷ []) (text (bytes "old")) refl
      refl refl refl
