-- ===== src/Tests/Witnesses.antt =====
-- The theorems of the development at concrete inputs.
use ruxmsg.Prelude.{
  ℕ, ◌≡◌, ◌≢◌, refl, inl, inr, List, [], ◌∷◌, some, false, arith, lookup, insert, remove, ok, err,
  Error, message_key_unavailable,
}
use ruxmsg.Protocol.{responder_to_initiator}
use ruxmsg.Prelude.{◌≤◌, length, ◌++◌, ◌<◌, replicate, not}
use ruxmsg.Protocol.{Bytes, max_payload}
use ruxmsg.Crypto.{sas_indices, derive_message_key}
use ruxmsg.Crypto.Sas.{sas_indices-lt}
use ruxmsg.Crypto.Nonces.{message_nonce-injective}
use ruxmsg.Prelude.{Result}
use ruxmsg.Wire.Structure.{Reader, validate_items}
use ruxmsg.Wire.Structure.Fuel.{validate_items_lem}
use ruxmsg.Wire
use ruxmsg.Wire.RoundTrip.{decode-encode}
use ruxmsg.Data.Padding.{padded}
use ruxmsg.Data.Padding.Least.{FillsQuanta, padded_lem}
use ruxmsg.Handshake.Auth.{local_identity_wins_rekey_glare}
use ruxmsg.Handshake.Auth.Glare.{glare_lem}
use ruxmsg.Ratchet.Replay.{new, classify, offer_all}
use ruxmsg.Ratchet.Replay
use ruxmsg.Ratchet.Replay.Seen.{spec_classify, Distinct, classify-spec_classify, accepted-Distinct}
use ruxmsg.Ratchet.Chain.{
  derive_next, derive_rounds, derive_through, exceeds_limits, saturating_add, ReceivingChain,
  prepare_message_key, commit_message_key,
}
use ruxmsg.Ratchet.Chain
use ruxmsg.Ratchet.Chain.Keys
use ruxmsg.Ratchet.Chain.Keys.{
  prepare_message_key-IsValid, IsServed, Call, prepares, commits, chain_at, key_at, IsValid,
  new-IsValid, prepare_served, prepare_not_served, prepare_committed, run-IsValid,
}
use ruxmsg.Handshake.Hello.{initiator}
use ruxmsg.Machine.Types
use ruxmsg.Machine.Types.{
  Ctx, Engine, established, start_input, sas_decision, frame_received, request_rekey, local_send,
}
use ruxmsg.Machine.Handle
use ruxmsg.Machine.Handle.{handle}
use ruxmsg.Machine.Spec.Core.{core, core_of}
use ruxmsg.Machine.Spec.Outcome.{Outcome}
use ruxmsg.Machine.Spec.Moves.{Moves, Valid}
use ruxmsg.Machine.Spec.Refine.{handle-Moves}
use ruxmsg.Machine.Spec.Safety.{Approved, WithPeer, run-Valid, run_not-Approved, run-WithPeer}
use ruxmsg.Tests.Toy.{
  toy_env, toy_primitives, toy_identity, toy_frame, toy_session, established_engine,
}

abbrev fresh_engine : Engine
fresh_engine = Types.new initiator toy_identity

fresh_engine-Valid : Valid (core fresh_engine)
unfolding Types.new
fresh_engine-Valid = (refl, refl, refl)

handle-Moves_example :
    Moves start_input (core fresh_engine) (core_of (handle toy_env fresh_engine start_input))
handle-Moves_example = handle-Moves toy_env fresh_engine start_input fresh_engine-Valid

run-Valid_example : Valid (
    core (
      Handle.run toy_env fresh_engine
        (start_input ∷ frame_received toy_frame ∷ request_rekey ∷ [])))
run-Valid_example =
    run-Valid toy_env (start_input ∷ frame_received toy_frame ∷ request_rekey ∷ []) fresh_engine
      fresh_engine-Valid

none-Approved : ¬ Approved (start_input ∷ frame_received toy_frame ∷ sas_decision false ∷ [])
none-Approved (inl a) = ground arith
none-Approved (inr (inl a)) = ground arith
none-Approved (inr (inr (inl a))) = ground arith
none-Approved (inr (inr (inr a))) = absurd a

run_not-Approved_example :
    (Handle.run toy_env
      (Types.new initiator toy_identity)
      (start_input ∷ frame_received toy_frame ∷ sas_decision false ∷ [])).phase
    ≢ established
run_not-Approved_example =
    run_not-Approved toy_env initiator toy_identity
      (start_input ∷ frame_received toy_frame ∷ sas_decision false ∷ []) none-Approved

run-WithPeer_example : WithPeer (8 ∷ []) (
    core (
      Handle.run toy_env established_engine
        (local_send (1 ∷ []) ∷ request_rekey ∷ frame_received toy_frame ∷ [])))
run-WithPeer_example =
    run-WithPeer toy_env (local_send (1 ∷ []) ∷ request_rekey ∷ frame_received toy_frame ∷ [])
      established_engine (8 ∷ []) (toy_session, refl, tt) (inr (refl, (toy_session, refl, refl)))

abbrev toy_context : Ctx
toy_context = record { engine = established_engine; out = [] }

abbrev some_counters : List ℕ
some_counters = 0 ∷ 2 ∷ 1 ∷ 2 ∷ 70 ∷ []

classify-spec_classify_example :
    classify (offer_all (Replay.new, []) some_counters).0 2
    ≡ spec_classify (offer_all (Replay.new, []) some_counters).1 2
classify-spec_classify_example = classify-spec_classify some_counters 2

accepted-Distinct_example : Distinct (offer_all (Replay.new, []) some_counters).1
accepted-Distinct_example = accepted-Distinct some_counters

abbrev toy_chain : ReceivingChain
toy_chain = Chain.new (10 ∷ []) responder_to_initiator

toy_chain-IsValid : IsValid toy_primitives (10 ∷ []) responder_to_initiator toy_chain
toy_chain-IsValid = new-IsValid toy_primitives (10 ∷ []) responder_to_initiator

toy_chain-IsServed : IsServed toy_chain 2
unfolding Chain.new
toy_chain-IsServed = inr (omega arith, (λ q. omega arith), omega arith, omega arith)

toy_chain-not-IsServed : ¬ IsServed toy_chain 100
unfolding Chain.new lookup
toy_chain-not-IsServed (inl (key, e)) = ground arith
toy_chain-not-IsServed (inr (a, b, c, d)) = omega arith

-- 65 keys are retained, and 63 more are derived.
abbrev crowded_chain : ReceivingChain
crowded_chain = (prepare_message_key toy_primitives toy_chain 64).0

crowded_chain-IsValid : IsValid toy_primitives (10 ∷ []) responder_to_initiator crowded_chain
crowded_chain-IsValid =
    prepare_message_key-IsValid toy_primitives (10 ∷ []) responder_to_initiator toy_chain 64
      toy_chain-IsValid

crowded_chain_size : (crowded_chain.next_counter ≡ 65) × (length crowded_chain.skipped ≡ 65)
unfolding Chain.new prepare_message_key derive_next derive_rounds derive_through exceeds_limits
    saturating_add derive_message_key lookup insert remove
crowded_chain_size = (refl, refl)

crowded_chain-IsServed : IsServed crowded_chain 127
crowded_chain-IsServed = inr (
  omega (arith, crowded_chain_size),
  (λ q. omega arith),
  omega (arith, crowded_chain_size),
  omega (arith, crowded_chain_size),
)

prepare_served_example :
    ((prepare_message_key toy_primitives crowded_chain 127).1
      ≡ ok (key_at toy_primitives (10 ∷ []) responder_to_initiator 127))
    × (lookup 127 (prepare_message_key toy_primitives crowded_chain 127).0.skipped
        ≡ some (key_at toy_primitives (10 ∷ []) responder_to_initiator 127))
prepare_served_example =
    prepare_served toy_primitives (10 ∷ []) responder_to_initiator crowded_chain 127
      crowded_chain-IsValid crowded_chain-IsServed

prepare_not_served_example :
    (e : Error) × (prepare_message_key toy_primitives toy_chain 100 ≡ (toy_chain, err e))
prepare_not_served_example =
    prepare_not_served toy_primitives (10 ∷ []) responder_to_initiator toy_chain 100
      toy_chain-IsValid toy_chain-not-IsServed

chain_run-IsValid_example : IsValid toy_primitives (10 ∷ []) responder_to_initiator (
    Keys.run toy_primitives
      (10 ∷ [])
      responder_to_initiator
      toy_chain
      (prepares 2 ∷ commits 0 ∷ prepares 200 ∷ commits 2 ∷ []))
chain_run-IsValid_example =
    run-IsValid toy_primitives (10 ∷ []) responder_to_initiator toy_chain
      (prepares 2 ∷ commits 0 ∷ prepares 200 ∷ commits 2 ∷ []) toy_chain-IsValid

prepare_committed_example :
    let c = (commit_message_key (prepare_message_key toy_primitives toy_chain 2).0 2).0 in
    prepare_message_key toy_primitives c 2 ≡ (c, err (message_key_unavailable 2))
prepare_committed_example =
    prepare_committed toy_primitives (10 ∷ []) responder_to_initiator toy_chain 2 toy_chain-IsValid
      toy_chain-IsServed

toy_frame_fits : length toy_frame.payload ≤ max_payload toy_frame.message_type
unfolding max_payload
toy_frame_fits = omega arith

decode-encode_example :
    (sent : Bytes) × (Wire.encode toy_frame ≡ ok sent)
    × (Wire.decode (sent ++ 9 ∷ []) ≡ ok (toy_frame, length sent))
decode-encode_example = decode-encode toy_frame (9 ∷ []) toy_frame_fits

padded_lem_example :
    (n : ℕ) × (padded (1 ∷ 2 ∷ []) ≡ ok (record { content = 1 ∷ 2 ∷ []; padding = replicate n 0 }))
    × (n < 512)
    × FillsQuanta (1 ∷ 2 ∷ []) n
    × ((k : ℕ) → k < n → ¬ FillsQuanta (1 ∷ 2 ∷ []) k)
padded_lem_example = padded_lem (1 ∷ 2 ∷ []) (omega arith)

glare_lem_example :
    local_identity_wins_rekey_glare (1 ∷ 2 ∷ []) (1 ∷ 3 ∷ [])
    ≡ not (local_identity_wins_rekey_glare (1 ∷ 3 ∷ []) (1 ∷ 2 ∷ []))
glare_lem_example = glare_lem (1 ∷ 2 ∷ []) (1 ∷ 3 ∷ []) refl (λ q. ground arith)

sas_indices-lt_example :
    ((sas_indices (255 ∷ 254 ∷ 253 ∷ 252 ∷ 251 ∷ [])).first < 2048)
    × ((sas_indices (255 ∷ 254 ∷ 253 ∷ 252 ∷ 251 ∷ [])).second < 2048)
    × ((sas_indices (255 ∷ 254 ∷ 253 ∷ 252 ∷ 251 ∷ [])).third < 2048)
sas_indices-lt_example = sas_indices-lt (255 ∷ 254 ∷ 253 ∷ 252 ∷ 251 ∷ [])

message_nonce-injective_example :
    (responder_to_initiator ≡ responder_to_initiator) × (◌≡◌ {A = ℕ} 77 77)
message_nonce-injective_example =
    message_nonce-injective responder_to_initiator responder_to_initiator 77 77 (omega arith)
      (omega arith) refl

abbrev map_reader : Reader
map_reader = record { position = 0; rest = 161 ∷ 0 ∷ 1 ∷ [] }

validate_items_lem_example :
    (result : Result Reader) × (validate_items 4 map_reader (1 ∷ []) ≡ some result)
validate_items_lem_example = validate_items_lem 4 map_reader (1 ∷ []) (omega arith)
