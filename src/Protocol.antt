-- ===== src/Protocol.antt =====
-- internal/protocol/message.go: envelopes, and the messages of a session and of a heartbeat; frames
-- are in the child module.
pub mod Frames
pub mod RoundTrip
use mariamesh.Base.{
  ℕ, Bool, not, ◌==◌, Str, Str-discrete, List, Option, none, some, Result, ok, err, ite, true,
  false, ◌>>=◌, ◌>>◌, fail_if,
}
use mariamesh.Changelog.{Origin, Event}
use mariamesh.Changelog.Vector.{Vector}
use mariamesh.Store.Tables.{Status}

-- `Version`
abbrev pub version : ℕ
version = 1

pub data Kind : Type 0 where
  hello need batch ack broadcast heartbeat error : Kind
  other : Str → Kind

abbrev pub is_heartbeat : Kind → Bool
is_heartbeat heartbeat = true
is_heartbeat _ = false

-- `Envelope`; the body is JSON text.
pub record Envelope : Type 0 where
  pub v : ℕ
  pub namespace : Str
  pub kind : Kind
  pub body : Str

pub data ProtocolError : Type 0 where
  bad_envelope bad_version bad_namespace bad_body : ProtocolError

-- A JSON decoder's result as the code reports it.
abbrev pub or_fail {ℓ κ} : {A : Type ℓ} {E : Type κ} → E → Option A → Result E A
or_fail e none = err e
or_fail e (some a) = ok a

-- `Decode`, where `unmarshal` is the JSON decoder of envelopes.
unfoldable pub decode : (Str → Option Envelope) → Str → Str → Result ProtocolError Envelope
decode unmarshal frame want_namespace = or_fail bad_envelope (unmarshal frame) >>= λ e.
    fail_if (not (e.v == version)) bad_version
    >> fail_if (ite (Str-discrete e.namespace want_namespace) false true) bad_namespace
    >> ok e

-- `Hello`
pub record Hello : Type 0 where
  pub protocol : ℕ
  pub node_id : Str
  pub incarnation_id : Str
  pub schema_version : ℕ
  pub membership_epoch : ℕ
  pub addr : Str
  pub vector : Vector

-- `MemberInfo`
pub record MemberInfo : Type 0 where
  pub node_id : Str
  pub incarnation_id : Str
  pub name : Str
  pub status : Status
  pub schema_version : ℕ
  pub epoch : ℕ
  pub addr : Str

-- `Heartbeat`
pub record Heartbeat : Type 0 where
  pub node_id : Str
  pub incarnation_id : Str
  pub name : Str
  pub status : Status
  pub schema_version : ℕ
  pub epoch : ℕ
  pub addr : Str
  pub members : List MemberInfo
