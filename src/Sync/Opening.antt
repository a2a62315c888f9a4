-- ===== src/Sync/Opening.antt =====
-- The opening of `Session` in internal/sync/sync.go: the HELLOs, the checks of the peer and the Need,
-- and the whole session.
use mariamesh.Base.{
  ℕ, Bool, false, if◌then◌else◌, Str, List, [], ◌∷◌, Option, none, some, Result, ok, err,
}
use mariamesh.Apply.{Tables}
use mariamesh.Changelog.Missing.{Range, missing}
use mariamesh.Clock.{Clock}
use mariamesh.Protocol.{Hello}
use mariamesh.Store.Progress.{local_vector}
use mariamesh.Store.Tables.{Db}
use mariamesh.Sync.{Env, SyncError, protocol_mismatch, schema_mismatch, validate_hello}
use mariamesh.Sync.Handshake.{hello_of}
use mariamesh.Sync.Session.{Message, Session, SessionError, run_session}

-- The error codes that a session sends.
pub data ErrorCode : Type 0 where
  schema_code protocol_code retired_code internal_code : ErrorCode

-- What ends a session before its loop. `peer_retired` wraps `ErrPeerRetired`, and `peer_refused` is
-- any other error of `CheckPeer`.
pub data OpenError : Type 0 where
  read_error peer_error expected_hello peer_retired peer_refused : OpenError
  hello_error : SyncError → OpenError

-- `codeOf`
unfoldable pub code_of : OpenError → ErrorCode
code_of (hello_error schema_mismatch) = schema_code
code_of (hello_error protocol_mismatch) = protocol_code
code_of (hello_error _) = internal_code
code_of peer_retired = retired_code
code_of _ = internal_code

-- The first frame of a peer.
pub data FirstFrame : Type 0 where
  greeting : Hello → FirstFrame
  refusal another : FirstFrame

-- `readHello`; `none` is that no frame could be read or decoded.
unfoldable pub read_hello : Option FirstFrame → Result OpenError Hello
read_hello none = err read_error
read_hello (some (greeting h)) = ok h
read_hello (some refusal) = err peer_error
read_hello (some another) = err expected_hello

-- The frames that a side writes before its loop.
pub data OpeningFrame : Type 0 where
  sent_hello : Hello → OpeningFrame
  sent_error : ErrorCode → OpeningFrame
  sent_need : List Range → OpeningFrame

-- What follows the HELLOs: the checks of the peer, and the Need.
unfoldable pub greet :
    Env
    → (Hello → Result OpenError (Unit {0}))
    → Hello
    → Hello
    → List OpeningFrame × Result OpenError Hello
unfolding code_of
greet env check mine peer = elim (validate_hello env peer) [
  | err x ↦ (sent_hello mine ∷ sent_error (code_of (hello_error x)) ∷ [], err (hello_error x))
  | ok _ ↦ elim (check peer) [
    | err x ↦ (sent_hello mine ∷ sent_error (code_of x) ∷ [], err x)
    | ok _ ↦ (sent_hello mine ∷ sent_need (missing mine.vector peer.vector) ∷ [], ok peer)
  ]
]

-- `Session` up to its loop; `check` is `CheckPeer`. The side that initiated writes its HELLO before it
-- reads the peer's, and the other one after.
unfoldable pub open_session :
    Env
    → ℕ
    → Str
    → Bool
    → (Hello → Result OpenError (Unit {0}))
    → Option FirstFrame
    → Db
    → List OpeningFrame × Result OpenError Hello
unfolding read_hello greet
open_session env epoch addr initiated check first db =
    let mine = hello_of env epoch addr (local_vector env.self db) in
    elim (read_hello first) [
      | err x ↦ (if initiated then sent_hello mine ∷ [] else [], err x)
      | ok peer ↦ greet env check mine peer
    ]

-- How a whole session ends.
pub data SessionEnd : Type 0 where
  not_opened : OpenError → SessionEnd
  opened : Result SessionError Session → SessionEnd

-- `Session`: the frames written before the loop, and the end; `frames` are those that the peer sends
-- after its HELLO.
unfoldable pub run_whole :
    Env
    → Tables
    → ℕ
    → Str
    → Bool
    → (Hello → Result OpenError (Unit {0}))
    → (ℕ → ℕ)
    → Option FirstFrame
    → List Message
    → Clock
    → Db
    → List OpeningFrame × SessionEnd
unfolding open_session
run_whole env tables epoch addr initiated check wall first frames clock db =
    let (sent, res) = open_session env epoch addr initiated check first db in
    elim res [
      | err x ↦ (sent, not_opened x)
      | ok peer ↦ (
        sent,
        opened (
            run_session env tables
              (record { node_id = peer.node_id; incarnation_id = peer.incarnation_id }) wall frames
              (record {
                pending = [];
                got_complete = false;
                got_ack = false;
                sent_batches = false;
                clock = clock;
                db = db;
                sent = [];
              })),
      )
    ]
