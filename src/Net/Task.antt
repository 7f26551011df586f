-- ===== src/Net/Task.antt =====
-- `Task` of crates/ruxmsg-net/src/lib.rs: one connection, its engine and its stream.
--
-- The outside world answers the n-th attempt to write, the n-th event for the application and the
-- n-th look at the clock, so that a run is a function of those answers. `events` and `wire` are
-- what was accepted so far.
pub mod Effects
pub mod Coupled
pub mod Loop
pub mod Ending
pub mod Synced
use ruxmsg.Prelude.{
  ℕ, zero, suc, ◌+◌, List, [], ◌∷◌, ◌++◌, Option, some, none, Bool, true, false, if◌then◌else◌, not,
  ◌&&◌, ◌||◌, ltb, leb, ◌==◌, map, length, ◌⊎◌, inl, inr, Result, ok, err, String,
}
use ruxmsg.Protocol.{Bytes, PeerIdentity}
use ruxmsg.Wire.{Frame, encode}
use ruxmsg.Close.{CloseReason, shutdown}
use ruxmsg.Machine.Types.{
  Env, CloseCause, RekeyFailure, SendRejection, Event, session_established, rekey_started,
  rekey_completed, rekey_failed, data_rejected, send_rejected, session_closed, Effect, send,
  set_deadline, cancel_deadline, request_sas, deliver, notify, close_transport, Input, start_input,
  frame_received, sas_decision, local_send, local_close, request_rekey, timeout, transport_closed,
  malformed, EngineState, is_idle, is_handshaking, is_active, is_rekeying, is_closed, Phase, Engine,
  state,
}
use ruxmsg.Machine.Handle.{handle}
use ruxmsg.Net.Decoder.{DecodeError, unsupported, malformed_frame, push, next_frame}

-- A `SocketAddr` by its text.
abbrev pub SocketAddr : Type 0
SocketAddr = String

pub data ConnEvent : Type 0 where
  sas_required : String × String × String → PeerIdentity → ConnEvent
  established_event : PeerIdentity → ConnEvent
  message_event : Bytes → ConnEvent
  rekey_started_event rekey_completed_event : ConnEvent
  rekey_failed_event : RekeyFailure → ConnEvent
  data_rejected_event : ConnEvent
  send_rejected_event : SendRejection → ConnEvent
  closed_event : CloseCause → ConnEvent

-- The queues of a handle belong to the connection of the ID. The other events of the facade are
-- not a task's.
pub data NetEvent : Type 0 where
  opened : ℕ → SocketAddr → Bool → NetEvent
  conn : ℕ → ConnEvent → NetEvent

pub data Control : Type 0 where
  close_command : CloseReason → Control
  rekey_command : Control
  sas_command : Bool → Control

pub record World : Type 0 where
  pub takes_write : ℕ → Bytes → Bool
  pub takes_event : ℕ → NetEvent → Bool
  pub now : ℕ → ℕ

pub record Task : Type 0 where
  pub id : ℕ
  pub engine : Engine
  pub deadlines : List (ℕ × ℕ)
  pub decoder : Bytes
  pub permit : Bool
  pub lost : Bool
  pub orphaned : Bool
  pub closing : Bool
  pub wire : List Bytes
  pub events : List NetEvent
  pub writes : ℕ
  pub offers : ℕ
  pub looks : ℕ

-- What `Net::spawn` makes of an ID, an engine and a permit.
unfoldable pub new_task : ℕ → Engine → Bool → Task
new_task id engine permit = record {
  id = id;
  engine = engine;
  deadlines = [];
  decoder = [];
  permit = permit;
  lost = false;
  orphaned = false;
  closing = false;
  wire = [];
  events = [];
  writes = 0;
  offers = 0;
  looks = 0;
}

-- `retain(|(armed, _)| *armed != id)`
unfoldable pub retain_armed : ℕ → List (ℕ × ℕ) → List (ℕ × ℕ)
retain_armed id [] = []
retain_armed id ((armed, due) ∷ ds) =
    if armed == id then retain_armed id ds else (armed, due) ∷ retain_armed id ds

-- `filter` and `map` of `fire_due`, and the sort of its pairs.
unfoldable pub due_at : ℕ → List (ℕ × ℕ) → List (ℕ × ℕ)
due_at now [] = []
due_at now ((id, at) ∷ ds) = if leb at now then (at, id) ∷ due_at now ds else due_at now ds

abbrev pub pair_le : ℕ × ℕ → ℕ × ℕ → Bool
pair_le (a, b) (c, d) = ltb a c || (a == c && leb b d)

unfoldable pub sorted_insert : ℕ × ℕ → List (ℕ × ℕ) → List (ℕ × ℕ)
sorted_insert p [] = p ∷ []
sorted_insert p (q ∷ qs) = if pair_le p q then p ∷ q ∷ qs else q ∷ sorted_insert p qs

unfoldable pub sort : List (ℕ × ℕ) → List (ℕ × ℕ)
sort [] = []
sort (p ∷ ps) = sorted_insert p (sort ps)

abbrev pub is_closed_state : EngineState → Bool
is_closed_state is_closed = true
is_closed_state _ = false

-- `notify` as the application sees it.
unfoldable pub conn_event : Event → ConnEvent
conn_event (session_established peer) = established_event peer
conn_event rekey_started = rekey_started_event
conn_event rekey_completed = rekey_completed_event
conn_event (rekey_failed failure) = rekey_failed_event failure
conn_event data_rejected = data_rejected_event
conn_event (send_rejected reason) = send_rejected_event reason
conn_event (session_closed cause) = closed_event cause

-- The permit counts only while the connection is not authenticated.
unfoldable pub permit_after : Event → Bool → Bool
permit_after (session_established peer) permit = false
permit_after (session_closed cause) permit = false
permit_after _ permit = permit

-- What `select!` finds ready: bytes, the end of the stream or an error of it, a queued message, a
-- command (or none, when every handle was dropped), or the earliest deadline.
pub data Ready : Type 0 where
  bytes_read : Bytes → Ready
  stream_ended : Ready
  message_queued : Bytes → Ready
  command_queued : Option Control → Ready
  deadline_due : Ready

abbrev pub command_input : Option Control → Input
command_input (some (close_command reason)) = local_close reason
command_input (some rekey_command) = request_rekey
command_input (some (sas_command approved)) = sas_decision approved
command_input none = local_close shutdown

abbrev pub and_then : Option Task → (Task → Option Task) → Option Task
and_then none next = none
and_then (some t) next = next t

module _ (env : Env) (world : World) where
  -- A frame that cannot be encoded, or is not taken in time, is an error.
  unfoldable pub write_bytes : Bytes → Task → Task × Bool
  write_bytes bytes t =
      let took = world.takes_write t.writes bytes in
      (
        record t { writes = t.writes + 1; wire = if took then t.wire ++ (bytes ∷ []) else t.wire },
        took,
      )

  unfoldable pub write : Frame → Task → Task × Bool
  write frame t = elim (encode frame) [ err e ↦ (t, false) | ok bytes ↦ write_bytes bytes t ]

  unfoldable pub send_frame : Frame → Task → Task
  send_frame frame t =
      let (t', took) = write frame t in if t.lost then t else record t' { lost = not took }

  unfoldable pub offer : NetEvent → Task → Task
  offer event t =
      let took = world.takes_event t.offers event in
      record t {
        offers = t.offers + 1;
        events = if took then t.events ++ (event ∷ []) else t.events;
        orphaned = t.orphaned || not took;
      }

  unfoldable pub emit : ConnEvent → Task → Task
  emit event t = offer (conn t.id event) t

  unfoldable pub process_one : Effect → Task → Task
  process_one (send frame) t = send_frame frame t
  process_one (set_deadline id kind after) t = record t {
    deadlines = t.deadlines ++ ((id, world.now t.looks + after) ∷ []);
    looks = t.looks + 1;
  }
  process_one (cancel_deadline id) t = record t { deadlines = retain_armed id t.deadlines }
  process_one (request_sas words peer) t = emit (sas_required words peer) t
  process_one (deliver content) t = emit (message_event content) t
  process_one (notify event) t =
      emit (conn_event event) (record t { permit = permit_after event t.permit })
  process_one close_transport t = record t { closing = true }

  unfoldable pub process : List Effect → Task → Task
  process [] t = t
  process (e ∷ es) t = process es (process_one e t)

  unfoldable pub hand_over : Input → Task → Task
  hand_over input t =
      let y = handle env t.engine input in process y.out (record t { engine = y.engine })

  -- A failed write means that the transport is gone; a vanished consumer, that nobody answers.
  unfoldable pub give_up_lost : Task → Task
  give_up_lost t =
      if t.lost && not (is_closed_state (state t.engine)) then hand_over transport_closed t else t

  unfoldable pub give_up_orphaned : Task → Task
  give_up_orphaned t =
      if t.orphaned && not (is_closed_state (state t.engine))
      then hand_over (local_close shutdown) t
      else t

  unfoldable pub apply : Input → Task → Task
  apply input t = give_up_orphaned (give_up_lost (hand_over input t))

  -- The error of the decoder as the engine's input.
  abbrev pub decode_input : DecodeError → Input
  decode_input unsupported = malformed false
  decode_input malformed_frame = malformed true

  -- The loop over frames, with fuel; `none` means that the fuel ran out.
  unfoldable pub drain_frames : ℕ → Task → Option Task
  drain_frames zero t = none
  drain_frames (suc fuel) t =
      let (b, found) = next_frame t.decoder in
      let t' = record t { decoder = b } in
      elim t.closing [
        | true ↦ some t
        | false ↦ elim found [
          | inr none ↦ some t'
          | inr (some frame) ↦ drain_frames fuel (apply (frame_received frame) t')
          | inl e ↦ drain_frames fuel (apply (decode_input e) t')
        ]
      ]

  unfoldable pub fire_each : List (ℕ × ℕ) → Task → Task
  fire_each [] t = t
  fire_each ((at, id) ∷ due) t =
      fire_each due (apply (timeout id) (record t { deadlines = retain_armed id t.deadlines }))

  unfoldable pub fire_due : Task → Task
  fire_due t =
      let now = world.now t.looks in
      fire_each (sort (due_at now t.deadlines)) (record t { looks = t.looks + 1 })

  -- One turn of the loop. More fuel than two for each byte is never needed: a frame takes bytes,
  -- and a bad one closes the connection.
  unfoldable pub turn : Ready → Task → Option Task
  turn (bytes_read chunk) t =
      let t' = record t { decoder = push t.decoder chunk } in
      drain_frames (suc (suc (length t'.decoder))) t'
  turn stream_ended t = some (apply transport_closed t)
  turn (message_queued content) t = some (apply (local_send content) t)
  turn (command_queued command) t = some (apply (command_input command) t)
  turn deadline_due t = some (fire_due t)

  unfoldable pub turns : List Ready → Task → Option Task
  turns [] t = some t
  turns (r ∷ rs) t = elim t.closing [ true ↦ some t | false ↦ and_then (turn r t) (turns rs) ]

  -- `Task::run` up to the shutdown of the stream: a task that is to be announced and cannot be
  -- ends before it starts its engine.
  unfoldable pub announced : Option (SocketAddr × Bool) → Task → Task × Bool
  announced none t = (t, true)
  announced (some (remote, outbound)) t =
      let event = opened t.id remote outbound in (offer event t, world.takes_event t.offers event)

  unfoldable pub begin : List Ready → Task × Bool → Option Task
  begin rs (t, true) = turns rs (apply start_input t)
  begin rs (t, false) = some t

  unfoldable pub run : Option (SocketAddr × Bool) → List Ready → Task → Option Task
  run announce rs t = begin rs (announced announce t)
