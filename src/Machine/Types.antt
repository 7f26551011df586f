-- ===== src/Machine/Types.antt =====
-- The types of crates/ruxmsg-core/src/machine.rs, and the engine's constructor and accessors.
use ruxmsg.Prelude.{
  ℕ, ◌++◌, List, [], ◌∷◌, Option, some, none, Bool, true, false, is_some, length, String, ltb,
  if◌then◌else◌,
}
use ruxmsg.Protocol.{
  Bytes, SessionId, PeerIdentity, HandshakePurpose, initiator_to_responder, responder_to_initiator,
  rekey_message_limit_default,
}
use ruxmsg.Cbor.{Cbor}
use ruxmsg.Crypto.{Primitives, IdentityKeypair, EphemeralKeypair, SessionKeys}
use ruxmsg.Encoding.{Transcript}
use ruxmsg.Wire.{Frame}
use ruxmsg.Close.{CloseReason}
use ruxmsg.Handshake.Hello.{HelloRole, initiator, responder, HelloPayload}
use ruxmsg.Handshake.Commit.{CommitPayload}
use ruxmsg.Data.Channel.{DataSender, DataReceiver, new_sender, new_receiver}

-- What the engine is given: the codec, the primitives, and its `Entropy` source, which answers
-- draw number `n` of so many bytes.
pub record Env : Type 0 where
  pub cbor : Cbor
  pub primitives : Primitives
  pub entropy : ℕ → ℕ → Bytes

abbrev pub late_rekey_frame_grace : ℕ
late_rekey_frame_grace = 8

abbrev pub rekey_rejection_warning_threshold : ℕ
rekey_rejection_warning_threshold = 3

pub data DeadlineKind : Type 0 where
  handshake_frame sas_wait handshake_total rekey_due drain : DeadlineKind

abbrev pub kind_eq : DeadlineKind → DeadlineKind → Bool
kind_eq handshake_frame handshake_frame = true
kind_eq sas_wait sas_wait = true
kind_eq handshake_total handshake_total = true
kind_eq rekey_due rekey_due = true
kind_eq drain drain = true
kind_eq _ _ = false

pub data RekeyFailure : Type 0 where
  failed_timeout failed_identity failed_invalid failed_repeated : RekeyFailure

pub data SendRejection : Type 0 where
  not_active too_large : SendRejection

pub data CloseCause : Type 0 where
  local_cause : CloseCause
  peer_unauthenticated : CloseReason → CloseCause
  transport_lost_cause protocol_error_cause authentication_failure_cause : CloseCause
  sas_rejected_cause timeout_cause : CloseCause

pub data Event : Type 0 where
  session_established : PeerIdentity → Event
  rekey_started rekey_completed : Event
  rekey_failed : RekeyFailure → Event
  data_rejected : Event
  send_rejected : SendRejection → Event
  session_closed : CloseCause → Event

pub data Input : Type 0 where
  start_input : Input
  frame_received : Frame → Input
  sas_decision : Bool → Input
  local_send : Bytes → Input
  local_close : CloseReason → Input
  request_rekey : Input
  timeout : ℕ → Input
  transport_closed : Input
  malformed : Bool → Input

pub data Effect : Type 0 where
  send : Frame → Effect
  set_deadline : ℕ → DeadlineKind → ℕ → Effect
  cancel_deadline : ℕ → Effect
  request_sas : String × String × String → PeerIdentity → Effect
  deliver : Bytes → Effect
  notify : Event → Effect
  close_transport : Effect

pub data EngineState : Type 0 where
  is_idle is_handshaking is_active is_rekeying is_closed : EngineState

pub data Phase : Type 0 where
  idle handshaking established closed : Phase

pub data Step : Type 0 where
  hello reveal sas auth_resp auth_init confirm_resp confirm_init : Step

pub record Session : Type 0 where
  pub id : SessionId
  pub peer : PeerIdentity
  pub sender : DataSender
  pub receiver : DataReceiver

unfoldable pub new_session : SessionKeys → HelloRole → PeerIdentity → Session
new_session keys initiator peer = record {
  id = keys.session_id;
  peer = peer;
  sender = new_sender keys.session_id initiator_to_responder keys.initiator_to_responder;
  receiver = new_receiver keys.session_id responder_to_initiator keys.responder_to_initiator;
}
new_session keys responder peer = record {
  id = keys.session_id;
  peer = peer;
  sender = new_sender keys.session_id responder_to_initiator keys.responder_to_initiator;
  receiver = new_receiver keys.session_id initiator_to_responder keys.initiator_to_responder;
}

pub record Run : Type 0 where
  pub purpose : HandshakePurpose
  pub role : HelloRole
  pub previous : Option SessionId
  pub ephemeral : EphemeralKeypair
  pub local_hello : HelloPayload
  pub local_hello_frame : Option Frame
  pub commit : Option CommitPayload
  pub step : Step
  pub remote_identity : Option PeerIdentity
  pub shared : Option Bytes
  pub transcript : Option Transcript
  pub hash : Option Bytes
  pub keys : Option SessionKeys
  pub early : Option Frame

pub record Candidate : Type 0 where
  pub keys : SessionKeys
  pub peer : PeerIdentity
  pub role : HelloRole

-- `entropy_draws` is how often the entropy source was asked.
pub record Engine : Type 0 where
  pub role : HelloRole
  pub identity : IdentityKeypair
  pub entropy_draws : ℕ
  pub phase : Phase
  pub run : Option Run
  pub active : Option Session
  pub draining : Option Session
  pub deadlines : List (ℕ × DeadlineKind)
  pub next_deadline : ℕ
  pub messages : ℕ
  pub rekey_message_limit : ℕ
  pub rekey_blocked : Bool
  pub late_rekey_frames : ℕ
  pub consecutive_rekey_rejections : ℕ

unfoldable pub new : HelloRole → IdentityKeypair → Engine
new role identity = record {
  role = role;
  identity = identity;
  entropy_draws = 0;
  phase = idle;
  run = none;
  active = none;
  draining = none;
  deadlines = [];
  next_deadline = 0;
  messages = 0;
  rekey_message_limit = rekey_message_limit_default;
  rekey_blocked = false;
  late_rekey_frames = 0;
  consecutive_rekey_rejections = 0;
}

unfoldable pub set_rekey_message_limit : Engine → ℕ → Engine
set_rekey_message_limit e limit = record e {
  rekey_message_limit = if ltb limit 1 then 1 else limit;
}

unfoldable pub state_of : Phase → Bool → EngineState
state_of idle running = is_idle
state_of handshaking running = is_handshaking
state_of established running = if running then is_rekeying else is_active
state_of closed running = is_closed

unfoldable pub state : Engine → EngineState
state e = state_of e.phase (is_some e.run)

abbrev session_peer : Option Session → Option PeerIdentity
session_peer none = none
session_peer (some s) = some s.peer

abbrev pub session_id_of : Option Session → Option SessionId
session_id_of none = none
session_id_of (some s) = some s.id

abbrev pub peer_identity : Engine → Option PeerIdentity
peer_identity e = session_peer e.active

abbrev pub active_session_id : Engine → Option SessionId
active_session_id e = session_id_of e.active

abbrev pub draining_session_id : Engine → Option SessionId
draining_session_id e = session_id_of e.draining

abbrev pub armed_deadlines : Engine → ℕ
armed_deadlines e = length e.deadlines

-- `(&mut self, out: &mut Vec<Effect>)`.
pub record Ctx : Type 0 where
  pub engine : Engine
  pub out : List Effect

abbrev pub emit : Ctx → Effect → Ctx
emit x effect = record x { out = x.out ++ (effect ∷ []) }
