-- ===== src/Net/Facade.antt =====
-- `Net` of crates/ruxmsg-net/src/lib.rs: what it launches. A launched connection is its task as it
-- starts, and whether and how it is announced. What the listener meets is a list.
use ruxmsg.Prelude.{
  ℕ, suc, ◌+◌, ◌-◌, ◌%◌, ◌^◌, ◌≤◌, inl, inr, List, [], ◌∷◌, Option, some, none, Bool, true, false,
  leb, ◌==◌, if◌then◌else◌, length, Bool-cases, arith,
}
use ruxmsg.Crypto.{IdentityKeypair}
use ruxmsg.Handshake.Hello.{HelloRole, initiator, responder}
use ruxmsg.Machine.Types
use ruxmsg.Net.Task.{SocketAddr, Task, new_task}

abbrev pub max_unauthenticated_handshakes : ℕ
max_unauthenticated_handshakes = 4

abbrev pub max_accept_failures : ℕ
max_accept_failures = 20

pub record Net : Type 0 where
  pub identity : IdentityKeypair
  pub next_id : ℕ
  pub permits : ℕ

pub record Launched : Type 0 where
  pub task : Task
  pub announce : Option (SocketAddr × Bool)

unfoldable pub new_net : IdentityKeypair → Net
new_net identity = record {
  identity = identity;
  next_id = 1;
  permits = max_unauthenticated_handshakes;
}

-- The ID is a u64 that wraps around.
unfoldable pub spawn : HelloRole → Bool → Option (SocketAddr × Bool) → Net → Net × Launched
spawn role permit announce net = (
  record net { next_id = (net.next_id + 1) % 2 ^ 64 },
  record { task = new_task net.next_id (Types.new role net.identity) permit; announce = announce },
)

unfoldable pub adopt : HelloRole → Net → Net × Launched
adopt role net = spawn role false none net

-- The outcome of a dial: a stream to a remote address, or an error that is told.
unfoldable pub dialed : Option SocketAddr → Net → Net × Option Launched
dialed none net = (net, none)
dialed (some remote) net =
    let (net', launched) = spawn initiator false (some (remote, true)) net in (net', some launched)

-- A connection, a failure to accept one, or a task that gives its permit back.
pub data Met : Type 0 where
  accepted : SocketAddr → Met
  accept_failed : Met
  released : Met

pub record Listening : Type 0 where
  pub net : Net
  pub launched : List Launched
  pub stopped : Bool

abbrev pub also : Launched → Listening → Listening
also l s = record s { launched = l ∷ s.launched }

abbrev pub with_permit : SocketAddr → Net → Net × Launched
with_permit remote net =
    spawn responder true (some (remote, false)) (record net { permits = net.permits - 1 })

-- The loop of a listener, with the failures in a row. Without a permit the stream is dropped.
unfoldable pub listen : ℕ → List Met → Net → Listening
listen failures [] net = record { net = net; launched = []; stopped = false }
listen failures (released ∷ ms) net = listen failures ms (record net { permits = net.permits + 1 })
listen failures (accept_failed ∷ ms) net =
    let rest = listen (failures + 1) ms net in
    if leb max_accept_failures (failures + 1)
    then record { net = net; launched = []; stopped = true }
    else rest
listen failures (accepted remote ∷ ms) net =
    let dropped = listen 0 ms net in
    let (net', l) = with_permit remote net in
    let rest = listen 0 ms net' in if net.permits == 0 then dropped else also l rest

abbrev pub releases : List Met → ℕ
releases [] = 0
releases (released ∷ ms) = suc (releases ms)
releases (_ ∷ ms) = releases ms

listen-permits :
    (failures : ℕ) (ms : List Met) (net : Net)
    → length (listen failures ms net).launched ≤ net.permits + releases ms
unfolding listen spawn
listen-permits failures [] net = omega arith
listen-permits failures (released ∷ ms) net =
    omega (arith, listen-permits failures ms (record net { permits = net.permits + 1 }))
listen-permits failures (accept_failed ∷ ms) net =
    elim (Bool-cases (leb max_accept_failures (failures + 1))) [
      | inl e ↦ rw (e, listen) (omega arith)
      | inr e ↦ rw (e, listen) (listen-permits (failures + 1) ms net)
    ]
listen-permits failures (accepted remote ∷ ms) net = elim (Bool-cases (net.permits == 0)) [
  | inl e ↦ rw (e, listen) (listen-permits 0 ms net)
  | inr e ↦
      let k = listen-permits 0 ms (with_permit remote net).0 in rw (e, listen) (ground (arith, k))
]

-- Whatever a listener of a new facade meets, it launches at most four connections more than permits
-- were given back.
pub listen-launched_le :
    (identity : IdentityKeypair) (failures : ℕ) (ms : List Met)
    → length (listen failures ms (new_net identity)).launched
      ≤ max_unauthenticated_handshakes + releases ms
unfolding new_net
listen-launched_le identity failures ms = listen-permits failures ms (new_net identity)
