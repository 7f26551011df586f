-- ===== src/Net/Task/Loop.antt =====
-- The loops of a task of crates/ruxmsg-net/src/lib.rs come to an end.
use ruxmsg.Prelude.{
  ℕ, zero, suc, ◌<◌, ◌≡◌, refl, ap, ◌∙◌, inl, inr, List, [], ◌∷◌, Option, some, none, Bool, true,
  false, Bool-cases, length, arith,
}
use ruxmsg.Machine.Types.{Env, frame_received, start_input, transport_closed, local_send, timeout}
use ruxmsg.Net.Decoder.{DecodeError, unsupported, malformed_frame, next_frame}
use ruxmsg.Net.Decoder.Reading.{Found, Stays, reading, next_frame-reading, reading-Stays}
use ruxmsg.Net.Task.{
  World, Task, apply, decode_input, drain_frames, retain_armed, fire_each, fire_due, Ready,
  bytes_read, stream_ended, message_queued, command_queued, deadline_due, command_input, and_then,
  turn, turns, announced, begin, run, offer, SocketAddr,
}
use ruxmsg.Net.Task.Coupled.{IsCoupled, EndsAll, apply-IsCoupled, apply-decoder, apply_ends}

module _ (env : Env) (world : World) where
  -- A loop that comes to an end, with the task and the engine still coupled.
  abbrev pub Ends : Option Task → Type 0
  Ends o = (t : Task) × (o ≡ some t) × IsCoupled t

  abbrev after_found : ℕ → Task → Found → Option Task
  after_found n t (b, inr none) = some (record t { decoder = b })
  after_found n t (b, inr (some f)) =
      drain_frames env world n (apply env world (frame_received f) (record t { decoder = b }))
  after_found n t (b, inl e) =
      drain_frames env world n
        (apply env world (decode_input env world e) (record t { decoder = b }))

  abbrev by_closing : ℕ → Task → Bool → Option Task
  by_closing n t true = some t
  by_closing n t false = after_found n t (next_frame t.decoder)

  drain_by :
      (n : ℕ) (t : Task) (b : Bool)
      → t.closing ≡ b
      → drain_frames env world (suc n) t ≡ by_closing n t b
  unfolding drain_frames
  drain_by n t true h = ap (by_closing n t) h
  drain_by n t false h = ap (by_closing n t) h

  decode_input-EndsAll : (e : DecodeError) → EndsAll (decode_input env world e)
  decode_input-EndsAll unsupported = tt
  decode_input-EndsAll malformed_frame = tt

  -- One round more is enough once a frame was bad.
  after_bad :
      (e : DecodeError) (n : ℕ) (t : Task)
      → IsCoupled t
      → Ends (drain_frames env world (suc n) (apply env world (decode_input env world e) t))
  after_bad e n t c =
      let u = apply env world (decode_input env world e) t in
      (
        u,
        drain_by n u true
            (apply_ends env world (decode_input env world e) t (decode_input-EndsAll e) c),
        apply-IsCoupled env world (decode_input env world e) t c,
      )

  drain_found-Ends :
      (n : ℕ) (t : Task) (r : Found)
      → length t.decoder < n
      → IsCoupled t
      → Stays t.decoder [] r
      → ((u : Task) → suc (length u.decoder) < n → IsCoupled u → Ends (drain_frames env world n u))
      → Ends (after_found n t r)
  drain_found-Ends n t (b, inr none) h c s again = (record t { decoder = b }, refl, c)
  drain_found-Ends n t (b, inr (some f)) h c s again =
      let u = record t { decoder = b } in
      again (apply env world (frame_received f) u)
        (omega (arith, ap length (apply-decoder env world (frame_received f) u), s.1, h))
        (apply-IsCoupled env world (frame_received f) u c)
  drain_found-Ends zero t (b, inl e) h c s again = absurd (omega (arith, h))
  drain_found-Ends (suc n) t (b, inl e) h c s again = after_bad e n (record t { decoder = b }) c

  drain_frames-Ends :
      (n : ℕ) (t : Task)
      → suc (length t.decoder) < n
      → IsCoupled t
      → Ends (drain_frames env world n t)
  drain_frames-Ends zero t h c = absurd (omega (arith, h))
  drain_frames-Ends (suc n) t h c = elim (Bool-cases t.closing) [
    | inl e ↦ (t, drain_by n t true e, c)
    | inr e ↦
        let p = next_frame-reading t.decoder in
        let (u, q, k) =
          drain_found-Ends n t (reading t.decoder) (omega (arith, h)) c (reading-Stays t.decoder [])
            (drain_frames-Ends n) in
        (u, drain_by n t false e ∙ ap (after_found n t) p ∙ q, k)
  ]

  fire_each-IsCoupled :
      (due : List (ℕ × ℕ)) (t : Task) → IsCoupled t → IsCoupled (fire_each env world due t)
  unfolding fire_each
  fire_each-IsCoupled [] t c = c
  fire_each-IsCoupled ((at, id) ∷ due) t c =
      let u : Task = record t { deadlines = retain_armed id t.deadlines } in
      fire_each-IsCoupled due (apply env world (timeout id) u)
        (apply-IsCoupled env world (timeout id) u c)

  pub turn-Ends : (r : Ready) (t : Task) → IsCoupled t → Ends (turn env world r t)
  unfolding turn fire_due
  turn-Ends (bytes_read chunk) t c = drain_frames-Ends _ _ (omega arith) c
  turn-Ends stream_ended t c = (_, refl, apply-IsCoupled env world transport_closed t c)
  turn-Ends (message_queued content) t c =
      (_, refl, apply-IsCoupled env world (local_send content) t c)
  turn-Ends (command_queued command) t c =
      (_, refl, apply-IsCoupled env world (command_input command) t c)
  turn-Ends deadline_due t c = (_, refl, fire_each-IsCoupled _ _ c)

  turns-Ends : (rs : List Ready) (t : Task) → IsCoupled t → Ends (turns env world rs t)
  unfolding turns
  turns-Ends [] t c = (t, refl, c)
  turns-Ends (r ∷ rs) t c = elim (Bool-cases t.closing) [
    | inl e ↦ (t, ap by_end e, c)
    | inr e ↦
        let (u, p, k) = turn-Ends r t c in
        let (v, q, k') = turns-Ends rs u k in
        (v, ap by_end e ∙ ap (λ o. and_then o (turns env world rs)) p ∙ q, k')
  ]
    where
      by_end : Bool → Option Task
      by_end true = some t
      by_end false = and_then (turn env world r t) (turns env world rs)

  begin-Ends :
      (rs : List Ready) (t : Task) (b : Bool) → IsCoupled t → Ends (begin env world rs (t, b))
  unfolding begin
  begin-Ends rs t true c = turns-Ends rs _ (apply-IsCoupled env world start_input t c)
  begin-Ends rs t false c = (t, refl, c)

  -- From a task that closes just when its engine is closed, whatever becomes ready, in any order,
  -- the connection comes to such a state: no loop over frames runs forever.
  pub run-IsCoupled :
      (announce : Option (SocketAddr × Bool)) (rs : List Ready) (t : Task)
      → IsCoupled t
      → (u : Task) × (run env world announce rs t ≡ some u) × IsCoupled u
  unfolding run announced offer
  run-IsCoupled none rs t c = begin-Ends rs t true c
  run-IsCoupled (some (remote, outbound)) rs t c = begin-Ends rs _ _ c
