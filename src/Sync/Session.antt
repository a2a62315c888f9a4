-- ===== src/Sync/Session.antt =====
-- The loop of `Session` in internal/sync/sync.go, after the HELLOs: one step per frame read. The
-- frames written are collected in order. A frame that cannot be read, decoded or written ends the
-- session with an error, and is not modelled further.
pub mod Delivery
pub mod Completion
use mariamesh.Base.{
  ℕ, ◌+◌, Bool, true, false, ◌&&◌, if◌then◌else◌, List, [], ◌∷◌, ◌++◌, map, Option, none, some,
  Result, ok, err, ◌>>=◌,
}
use mariamesh.Apply.{Tables, apply_batch}
use mariamesh.Changelog.{Origin, Event}
use mariamesh.Changelog.Missing.{Range}
use mariamesh.Changelog.Vector.{Vector}
use mariamesh.Clock.{Clock}
use mariamesh.Store.Tables.{Db, Error}
use mariamesh.Store.Progress.{set_progress_many}
use mariamesh.Sync.{Env, Batch, Outcome, finished, truncated, out_of_fuel, send_ranges}

-- The frames of a session after the HELLOs.
pub data Message : Type 0 where
  need : List Range → Message
  batch : Batch → Message
  ack : Vector → Message
  failure : Message

pub data SessionError : Type 0 where
  history_error peer_error no_fuel read_error : SessionError
  apply_error : Error → SessionError

-- The variables of the loop, and the state that its calls change.
pub record Session : Type 0 where
  pub pending : List Event
  pub got_complete : Bool
  pub got_ack : Bool
  pub sent_batches : Bool
  pub clock : Clock
  pub db : Db
  pub sent : List Message

abbrev pub is_done : Session → Bool
is_done s = s.got_complete && s.got_ack && s.sent_batches

-- The events of a batch, each with the wall time that the clock reads for it.
unfoldable pub timed : (ℕ → ℕ) → ℕ → List Event → List (ℕ × Event)
timed wall i [] = []
timed wall i (e ∷ es) = (wall i, e) ∷ timed wall (i + 1) es

-- `case protocol.KindBatch`
unfoldable pub receive_batch :
    Env → Tables → (ℕ → ℕ) → Batch → Session → Result SessionError Session
unfolding timed
receive_batch env tables wall b s =
    let pending = s.pending ++ b.events in
    if b.complete
    then (elim (apply_batch tables env.self (timed wall 0 pending) s.clock s.db).1 [
      | none ↦ err no_fuel
      | some (err x) ↦ err (apply_error x)
      | some (ok (res, db)) ↦ ok (record s {
        pending = [];
        got_complete = true;
        clock = (apply_batch tables env.self (timed wall 0 pending) s.clock s.db).0;
        db = db;
        sent = s.sent ++ (ack res.vector ∷ []);
      })
    ])
    else ok (record s { pending = pending })

-- One round of the loop; `peer` is the other side, whose vectors `RecordPeerVector` stores.
unfoldable pub step :
    Env → Tables → Origin → (ℕ → ℕ) → Message → Session → Result SessionError Session
unfolding receive_batch
step env tables peer wall (need rs) s =
    let (bs, out) = send_ranges env s.db rs in
    elim out [
      | finished t ↦ ok (record s { sent_batches = true; sent = s.sent ++ map batch bs })
      | truncated ↦ err history_error
      | out_of_fuel ↦ err no_fuel
    ]
step env tables peer wall (batch b) s = receive_batch env tables wall b s
step env tables peer wall (ack v) s =
    ok (record s { got_ack = true; db = set_progress_many peer v s.db })
step env tables peer wall failure s = err peer_error

-- The loop over the frames that the peer sends; the frames left over are not read.
unfoldable pub run_session :
    Env → Tables → Origin → (ℕ → ℕ) → List Message → Session → Result SessionError Session
unfolding step
run_session env tables peer wall [] s = if is_done s then ok s else err read_error
run_session env tables peer wall (m ∷ ms) s =
    if is_done s
    then ok s
    else step env tables peer wall m s >>= run_session env tables peer wall ms

-- The batches of a peer, read one after the other.
unfoldable pub receive_all :
    Env → Tables → (ℕ → ℕ) → List Batch → Session → Result SessionError Session
unfolding receive_batch
receive_all env tables wall [] s = ok s
receive_all env tables wall (b ∷ bs) s =
    receive_batch env tables wall b s >>= receive_all env tables wall bs
