-- ===== src/Crypto/Sas.antt =====
-- The three indices of the short authentication string.
use Prim.Native.Nat.{bit_and}
use ruxmsg.Prelude.{ℕ, zero, suc, ◌/◌, ◌≤◌, ◌<◌, arith}
use ruxmsg.Protocol.{Bytes}
use ruxmsg.Crypto.{sas_indices}
use ruxmsg.Ratchet.Replay.Bits.{low_and, and-zero}

bit_and-le : (fuel x y : ℕ) → y ≤ fuel → bit_and x y ≤ y
bit_and-le fuel x zero h = omega (arith, and-zero x)
bit_and-le zero x (suc y) h = absurd (omega arith)
bit_and-le (suc fuel) x (suc y) h =
    omega (arith, low_and x (suc y), bit_and-le fuel (x / 2) (suc y / 2) (omega arith))

below_2048 : (x : ℕ) → bit_and x 2047 < 2048
below_2048 x = omega (arith, bit_and-le 2047 x 2047 (omega arith))

-- Each of the three indices of a SAS is an index of the list of 2048 words.
pub sas_indices-lt :
    (hash : Bytes)
    → ((sas_indices hash).first < 2048)
      × ((sas_indices hash).second < 2048)
      × ((sas_indices hash).third < 2048)
unfolding sas_indices
sas_indices-lt hash = (below_2048 _, below_2048 _, below_2048 _)
