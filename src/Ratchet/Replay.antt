-- ===== src/Ratchet/Replay.antt =====
-- `ReplayWindow` of crates/ruxmsg-core/src/ratchet.rs: the highest accepted counter and a u64
-- whose bit `d` stands for the counter `highest - d`.
pub mod Bits
pub mod Seen
pub mod Again
use Prim.Native.Nat.{bit_and, bit_or}
use ruxmsg.Prelude.{
  ℕ, ◌-◌, ◌*◌, ◌%◌, ◌^◌, List, [], ◌∷◌, Option, some, none, ltb, leb, ◌==◌, if◌then◌else◌, Result,
  ok, err, replay_rejected,
}
use ruxmsg.Protocol.{replay_window_size}

pub data ReplayStatus : Type 0 where
  fresh duplicate too_old : ReplayStatus

pub record ReplayWindow : Type 0 where
  pub highest : Option ℕ
  pub bits : ℕ

abbrev pub new : ReplayWindow
new = record { highest = none; bits = 0 }

unfoldable pub classify_below : ℕ → ℕ → ℕ → ReplayStatus
classify_below bits highest counter =
    if ltb highest counter
    then fresh
    else if leb replay_window_size (highest - counter)
    then too_old
    else if bit_and bits (2 ^ (highest - counter)) == 0
    then fresh
    else duplicate

unfoldable pub classify : ReplayWindow → ℕ → ReplayStatus
unfolding classify_below
classify w counter = elim w.highest [
  | none ↦ fresh
  | some highest ↦ classify_below w.bits highest counter
]

-- The three arms of `accept`, after its guard.
unfoldable pub record_counter : ReplayWindow → ℕ → ReplayWindow
record_counter w counter = elim w.highest [
  | none ↦ record { highest = some counter; bits = 1 }
  | some highest ↦
      if ltb highest counter
      then record {
        highest = some counter;
        bits =
            if leb 64 (counter - highest)
            then 1
            else bit_or (w.bits * 2 ^ (counter - highest) % 2 ^ 64) 1;
      }
      else record w { bits = bit_or w.bits (2 ^ (highest - counter)) }
]

unfoldable pub accept : ReplayWindow → ℕ → Result ReplayWindow
accept w counter = elim (classify w counter) [
  | fresh ↦ ok (record_counter w counter)
  | _ ↦ err replay_rejected
]

-- A client that offers counters in turn; `accepted` are those that went through, last first.
unfoldable pub offer : ReplayWindow × List ℕ → ℕ → ReplayWindow × List ℕ
offer (w, accepted) c = elim (accept w c) [ ok w' ↦ (w', c ∷ accepted) | err e ↦ (w, accepted) ]

unfoldable pub offer_all : ReplayWindow × List ℕ → List ℕ → ReplayWindow × List ℕ
offer_all s [] = s
offer_all s (c ∷ cs) = offer_all (offer s c) cs
