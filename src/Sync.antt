-- ===== src/Sync.antt =====
-- internal/sync/sync.go and broadcast.go: the check of a HELLO, the batches that answer a Need, and
-- the events that a broadcast carries. The database is as it stands at the call; a cancelled context
-- and a failed write are not modelled.
pub mod Sending
pub mod Contents
pub mod Handshake
pub mod Collecting
pub mod Session
pub mod Opening
pub mod Broadcasts
use mariamesh.Base.{
  ℕ, zero, suc, ◌+◌, ◌-◌, ◌*◌, ◌^◌, Bool, true, false, ◌&&◌, ◌||◌, not, ltb, leb, ◌==◌,
  if◌then◌else◌, Str, List, [], ◌∷◌, ◌++◌, Map, Option, none, some, Result, ok, err, ◌>>◌, fail_if,
}
use mariamesh.Changelog.{Origin, Event, is_empty}
use mariamesh.Changelog.Missing.{Range}
use mariamesh.Changelog.Payload.{Value}
use mariamesh.Protocol.{Hello}
use mariamesh.Store.Tables.{Db}
use mariamesh.Store.Log.{fetch_range}
use mariamesh.Store.Nodes.{same_text}

-- `Env`: what the modelled functions read of it; `size` is the length of a payload's JSON text.
pub record Env : Type 0 where
  pub self : Origin
  pub protocol_version : ℕ
  pub schema_version : ℕ
  pub batch_max_events : ℕ
  pub batch_max_bytes : ℕ
  pub size : Map Str Value → ℕ

pub data SyncError : Type 0 where
  protocol_mismatch schema_mismatch missing_identity self_connection : SyncError

-- `validateHello`
unfoldable pub validate_hello : Env → Hello → Result SyncError (Unit {0})
validate_hello env peer =
    fail_if (not (peer.protocol == env.protocol_version)) protocol_mismatch
    >> fail_if (not (peer.schema_version == env.schema_version)) schema_mismatch
    >> fail_if (is_empty peer.node_id || is_empty peer.incarnation_id) missing_identity
    >> fail_if
        (same_text peer.node_id env.self.node_id
          && same_text peer.incarnation_id env.self.incarnation_id)
        self_connection

-- `Batch`
pub record Batch : Type 0 where
  pub events : List Event
  pub complete : Bool

-- How the sending ends: `finished` holds the code's `terminated`.
pub data Outcome : Type 0 where
  finished : Bool → Outcome
  truncated out_of_fuel : Outcome

-- `events[len(events)-1].OriginSeq`
abbrev pub last_seq : Event → List Event → ℕ
last_seq e [] = e.origin_seq
last_seq e (d ∷ ds) = last_seq d ds

-- The inner loop of `sendRanges`, on fuel.
unfoldable pub send_range : ℕ → Env → Db → Origin → ℕ → ℕ → Bool → List Batch × Outcome
send_range zero env db o from to terminated = ([], out_of_fuel)
send_range (suc fuel) env db o from to terminated =
    if ltb to from
    then ([], finished terminated)
    else (elim (fetch_range env.size o from to env.batch_max_events env.batch_max_bytes db) [
      | err x ↦ ([], truncated)
      | ok [] ↦ ([], finished false)
      | ok (e ∷ es) ↦
          let last = last_seq e es in
          let complete = leb to last in
          let batch : Batch = record { events = e ∷ es; complete = complete } in
          let rest = send_range fuel env db o (last + 1) to complete in
          if complete || ltb last from
          then (batch ∷ [], finished complete)
          else (batch ∷ rest.0, rest.1)
    ])

-- The outer loop of `sendRanges`; a range takes at most one round per sequence.
unfoldable pub send_all : Env → Db → List Range → Bool → List Batch × Outcome
unfolding send_range
send_all env db [] terminated = ([], finished terminated)
send_all env db (r ∷ rs) terminated =
    if ltb r.from 1 || ltb r.to r.from
    then send_all env db rs terminated
    else (let (sent, out) = send_range (r.to - r.from + 1) env db r.origin r.from r.to terminated in
        elim out [
          | finished t ↦ let rest = send_all env db rs t in (sent ++ rest.0, rest.1)
          | truncated ↦ (sent, truncated)
          | out_of_fuel ↦ (sent, out_of_fuel)
        ])

-- `sendRanges`: the batches written; `finished` where it returns no error.
unfoldable pub send_ranges : Env → Db → List Range → List Batch × Outcome
unfolding send_all
send_ranges env db rs =
    let (sent, out) = send_all env db rs false in
    elim out [
      | finished true ↦ (sent, finished true)
      | finished false ↦ (sent ++ (record { events = []; complete = true } ∷ []), finished true)
      | truncated ↦ (sent, truncated)
      | out_of_fuel ↦ (sent, out_of_fuel)
    ]

-- `Broadcaster`
pub record Broadcaster : Type 0 where
  pub self : Origin
  pub last_sent : ℕ
  pub started : Bool

pub data CollectError : Type 0 where
  no_local_state history_gone : CollectError

-- `Collect`; a failed call leaves the broadcaster as it was.
unfoldable pub collect :
    (Map Str Value → ℕ) → ℕ → Db → Broadcaster → Result CollectError (List Event) × Broadcaster
collect size max_events db b = elim db.local_state [
  | none ↦ (err no_local_state, b)
  | some st ↦
      if not b.started
      then (ok [], record b { last_sent = st.current_seq; started = true })
      else if leb st.current_seq b.last_sent
      then (ok [], b)
      else (elim (fetch_range size b.self (b.last_sent + 1) st.current_seq max_events (2 ^ 20) db) [
        | err x ↦ (err history_gone, b)
        | ok [] ↦ (ok [], record b { last_sent = st.current_seq })
        | ok (e ∷ es) ↦ (ok (e ∷ es), record b { last_sent = last_seq e es })
      ])
]
