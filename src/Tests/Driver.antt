-- ===== src/Tests/Driver.antt =====
-- Concrete runs of the frame reader, of the engine's deadlines and of a task.
use ruxmsg.Prelude.{
  length, ◌+◌, ◌++◌, ◌^◌, ◌≤◌, ◌<◌, ◌≡◌, ◌⊎◌, inr, refl, List, [], ◌∷◌, some, none, true, not, ◌==◌,
  ok, arith,
}
use ruxmsg.Protocol.{Bytes, frame_length, max_payload}
use ruxmsg.Wire
use ruxmsg.Wire.{Frame}
use ruxmsg.Close.{normal}
use ruxmsg.Handshake.Hello.{responder}
use ruxmsg.Machine.Types.{
  DeadlineKind, Input, start_input, local_send, local_close, timeout, new, armed_deadlines, state,
  state_of,
}
use ruxmsg.Machine.Handle.{run, handle, handle_in, dispatch}
use ruxmsg.Machine.Runs.{start, start_in, start_idle, start_as}
use ruxmsg.Machine.Deadlines.{arm, cancel, push_deadline, retain_others, cancel_effects}
use ruxmsg.Machine.Effects.Table.{ids, sets}
use ruxmsg.Machine.Effects.Armed.{armed_of, run-armed_le, driver_table-new}
use ruxmsg.Machine.Effects.Lifetime.{run_effects, run_effects-Speaks, driver_table}
use ruxmsg.Machine.Effects.Closing.{Speaks}
use ruxmsg.Net.Decoder.Drain.{Drained, drain_all, feed_chunks, fresh_drain}
use ruxmsg.Net.Decoder.Chunks.{concat, feed_chunks-drain_all}
use ruxmsg.Net.Decoder.Stream.{encode_all, feed_chunks-encode_all}
use ruxmsg.Net.Task
use ruxmsg.Net.Task.{
  turns, stream_ended, World, Task, new_task, apply, hand_over, Ready, bytes_read, stream_ended,
  deadline_due, message_queued,
}
use ruxmsg.Net.Task.Coupled.{IsCoupled, IsHealthy, apply-IsHealthy}
use ruxmsg.Net.Task.Effects.{armed_ids}
use ruxmsg.Net.Task.Synced.{IsOrderly, hand_over-armed_ids}
use ruxmsg.Net.Task.Ending.{IsOver, turns-IsOver}
use ruxmsg.Net.Facade.{
  listen, accepted, accept_failed, new_net, max_unauthenticated_handshakes, releases,
  listen-launched_le,
}
use ruxmsg.Net.Task.Loop.{run-IsCoupled}
use ruxmsg.Tests.Toy.{toy_env, toy_identity, toy_frame, established_engine}

-- The bytes of the frame in two chunks, the second with the start of another.
abbrev two_chunks : List Bytes
two_chunks = (1 ∷ 1 ∷ 0 ∷ []) ∷ (0 ∷ 0 ∷ 3 ∷ 161 ∷ 0 ∷ 1 ∷ 1 ∷ []) ∷ []

feed_chunks-drain_all_example :
    (d d' : Drained) × (feed_chunks two_chunks fresh_drain ≡ some d')
    × (drain_all (concat two_chunks) ≡ some d)
    × (d'.frames ≡ d.frames)
    × (d'.failure ≡ d.failure)
feed_chunks-drain_all_example = feed_chunks-drain_all two_chunks

abbrev frame_chunks : List Bytes
frame_chunks = (1 ∷ 1 ∷ 0 ∷ []) ∷ (0 ∷ 0 ∷ 3 ∷ 161 ∷ 0 ∷ 1 ∷ []) ∷ []

toy_frame-encoded : encode_all (toy_frame ∷ []) ≡ ok (concat frame_chunks)
unfolding encode_all Wire.encode Wire.u32_length Wire.check_length frame_length max_payload
toy_frame-encoded = refl

feed_chunks-encode_all_example :
    (d : Drained) × (feed_chunks frame_chunks fresh_drain ≡ some d)
    × (d.frames ≡ toy_frame ∷ [])
    × (d.failure ≡ none)
feed_chunks-encode_all_example =
    feed_chunks-encode_all (toy_frame ∷ []) frame_chunks toy_frame-encoded

abbrev three_inputs : List Input
three_inputs = start_input ∷ timeout 0 ∷ local_close normal ∷ []

run-armed_le_example :
    ((k : DeadlineKind)
      → armed_of k (run toy_env (new responder toy_identity) three_inputs).deadlines ≤ 1)
    × (armed_deadlines (run toy_env (new responder toy_identity) three_inputs) ≤ 5)
run-armed_le_example = run-armed_le toy_env responder toy_identity three_inputs

run_effects-Speaks_example :
    Speaks
      (run_effects toy_env established_engine three_inputs)
      (run toy_env established_engine three_inputs)
run_effects-Speaks_example =
    run_effects-Speaks toy_env established_engine three_inputs (λ e. ground arith)

started_sets : sets (run_effects toy_env (new responder toy_identity) (start_input ∷ [])) < 2 ^ 64
unfolding run_effects handle handle_in dispatch start start_in start_idle start_as arm cancel
    push_deadline retain_others cancel_effects new
started_sets = omega arith

driver_table-new_example :
    driver_table toy_env (new responder toy_identity) [] (start_input ∷ [])
    ≡ ids (run toy_env (new responder toy_identity) (start_input ∷ [])).deadlines
driver_table-new_example =
    driver_table-new toy_env responder toy_identity (start_input ∷ []) started_sets

-- A world whose second write and fourth event fail.
abbrev toy_world : World
toy_world = record {
  takes_write = λ n bytes. not (n == 1);
  takes_event = λ n event. not (n == 3);
  now = λ n. n;
}

abbrev toy_task : Task
toy_task = new_task 1 established_engine true

toy_task-IsCoupled : IsCoupled toy_task
unfolding new_task state state_of
toy_task-IsCoupled = refl

run-IsCoupled_example :
    (u : Task) × (Task.run toy_env toy_world
        (some ("10.0.0.1:7000", true))
        (bytes_read (1 ∷ 9 ∷ 0 ∷ 0 ∷ 0 ∷ 0 ∷ []) ∷ deadline_due ∷ [])
        toy_task
      ≡ some u)
    × IsCoupled u
run-IsCoupled_example =
    run-IsCoupled toy_env toy_world (some ("10.0.0.1:7000", true))
      (bytes_read (1 ∷ 9 ∷ 0 ∷ 0 ∷ 0 ∷ 0 ∷ []) ∷ deadline_due ∷ []) toy_task toy_task-IsCoupled

apply-IsHealthy_example :
    IsHealthy (apply toy_env toy_world (local_send (42 ∷ [])) toy_task)
    ⊎ ((Task.is_closed_state
            (state (apply toy_env toy_world (local_send (42 ∷ [])) toy_task).engine)
          ≡ true)
        × ((apply toy_env toy_world (local_send (42 ∷ [])) toy_task).closing ≡ true))
apply-IsHealthy_example =
    apply-IsHealthy toy_env toy_world (local_send (42 ∷ [])) toy_task toy_task-IsCoupled

abbrev idle_task : Task
idle_task = new_task 1 (new responder toy_identity) true

start_sets : 0 + sets (handle toy_env (new responder toy_identity) start_input).out < 2 ^ 64
unfolding handle handle_in dispatch start start_in start_idle start_as arm cancel push_deadline
    retain_others cancel_effects new
start_sets = omega arith

hand_over-armed_ids_example :
    let u = hand_over toy_env toy_world start_input idle_task in
    (armed_ids u.deadlines ≡ ids u.engine.deadlines) × IsOrderly toy_env u.engine
unfolding new_task new
hand_over-armed_ids_example =
    hand_over-armed_ids toy_env toy_world start_input idle_task refl ((tt, tt), inr refl) start_sets

turns-IsOver_example :
    (u : Task) × (turns toy_env toy_world
        ((deadline_due ∷ []) ++ (stream_ended ∷ deadline_due ∷ []))
        toy_task
      ≡ some u)
    × IsOver toy_env toy_world u
turns-IsOver_example =
    turns-IsOver toy_env toy_world (deadline_due ∷ []) (deadline_due ∷ []) stream_ended toy_task tt
      toy_task-IsCoupled

listen-launched_le_example :
    length
      (listen 0
        (accepted "10.0.0.1:7000" ∷ accept_failed ∷ accepted "10.0.0.2:7000" ∷ [])
        (new_net toy_identity)).launched
    ≤ max_unauthenticated_handshakes
      + releases (accepted "10.0.0.1:7000" ∷ accept_failed ∷ accepted "10.0.0.2:7000" ∷ [])
listen-launched_le_example =
    listen-launched_le toy_identity 0
      (accepted "10.0.0.1:7000" ∷ accept_failed ∷ accepted "10.0.0.2:7000" ∷ [])
