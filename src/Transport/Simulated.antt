-- ===== src/Transport/Simulated.antt =====
-- crates/arxia-transport/src/sim/simulated.rs: a link with bounded queues, latency and loss. The loss
-- rate is a floating-point number that is read in one place alone, where it becomes a whole number
-- that the random numbers are compared with; the model starts from that number.
mod Calls
mod Queues
mod Service
mod Tests
use Prim.Native.Nat.{bit_xor}
use arxia.Prelude.{
  ℕ, ◌+◌, ◌*◌, ◌/◌, ◌%◌, ◌^◌, Option, none, some, List, [], ◌∷◌, ◌++◌, length, drop, leb, ltb, ◌==◌,
  max, if◌then◌else◌,
}
use arxia.Prelude.Words.{saturating_add}
use arxia.Prelude.Result.{Result, ok, err}
use arxia.Transport.Messages.{
  TransportMessage, TransportError, payload_too_large, back_pressure, message_lost,
}

abbrev default_inbox_capacity : ℕ
default_inbox_capacity = 1024

abbrev default_outbox_capacity : ℕ
default_outbox_capacity = 1024

-- `DEFAULT_PRNG_SEED`, 0xDEAD_BEEF_CAFE_BABE
abbrev default_prng_seed : ℕ
default_prng_seed = 16045690984503098046

-- The next state, which is also the number drawn.
unfoldable xorshift64 : ℕ → ℕ
xorshift64 state =
    let x = bit_xor state (state * 2 ^ 13 % 2 ^ 64) in
    let y = bit_xor x (x / 2 ^ 7) in bit_xor y (y * 2 ^ 17 % 2 ^ 64)

pub record SimulatedTransport : Type 0 where
  pub inbox : List TransportMessage
  scheduled_inbox : List (ℕ × TransportMessage)
  pub outbox : List TransportMessage
  pub inbox_capacity : ℕ
  pub outbox_capacity : ℕ
  pub inbox_dropped : ℕ
  pub latency_ms : ℕ
  loss_threshold : ℕ
  pub mtu : ℕ
  rng_state : ℕ

pub with_capacity_and_seed : (latency_ms loss mtu inbox outbox seed : ℕ) → SimulatedTransport
with_capacity_and_seed latency_ms loss mtu inbox outbox seed = record {
  inbox = [];
  scheduled_inbox = [];
  outbox = [];
  inbox_capacity = max inbox 1;
  outbox_capacity = max outbox 1;
  inbox_dropped = 0;
  latency_ms = latency_ms;
  loss_threshold = loss;
  mtu = mtu;
  rng_state = if seed == 0 then default_prng_seed else seed;
}

with_capacity : (latency_ms loss mtu inbox outbox : ℕ) → SimulatedTransport
with_capacity latency_ms loss mtu inbox outbox =
    with_capacity_and_seed latency_ms loss mtu inbox outbox default_prng_seed

new : (latency_ms loss mtu : ℕ) → SimulatedTransport
new latency_ms loss mtu =
    with_capacity latency_ms loss mtu default_inbox_capacity default_outbox_capacity

unfoldable with_seed : (latency_ms loss mtu seed : ℕ) → SimulatedTransport
with_seed latency_ms loss mtu seed =
    with_capacity_and_seed latency_ms loss mtu default_inbox_capacity default_outbox_capacity seed

pub inject_message : TransportMessage → SimulatedTransport → SimulatedTransport
inject_message msg t =
    let full = leb t.inbox_capacity (length t.inbox) in
    record t {
      inbox = (if full then drop 1 t.inbox else t.inbox) ++ (msg ∷ []);
      inbox_dropped = if full then saturating_add t.inbox_dropped 1 else t.inbox_dropped;
    }

pub inject_message_with_arrival : TransportMessage → ℕ → SimulatedTransport → SimulatedTransport
inject_message_with_arrival msg sent_at_ms t = record t {
  scheduled_inbox = t.scheduled_inbox ++ ((saturating_add sent_at_ms t.latency_ms, msg) ∷ []);
}

-- `pop_front` of the scheduled inbox where its front is due.
pub pop_due :
    ℕ → List (ℕ × TransportMessage) → Option TransportMessage × List (ℕ × TransportMessage)
pop_due now_ms [] = (none, [])
pop_due now_ms ((deliver_at, m) ∷ scheduled) =
    if leb deliver_at now_ms then (some m, scheduled) else (none, (deliver_at, m) ∷ scheduled)

pub try_recv_at : ℕ → SimulatedTransport → Option TransportMessage × SimulatedTransport
try_recv_at now_ms t =
    let popped = pop_due now_ms t.scheduled_inbox in
    (popped.0, record t { scheduled_inbox = popped.1 })

pub send :
    TransportMessage → SimulatedTransport → Result TransportError (Unit {0}) × SimulatedTransport
send msg t =
    let rng_val = xorshift64 t.rng_state in
    let t' = record t { rng_state = rng_val } in
    if ltb t.mtu (length msg.payload)
    then (err (payload_too_large (length msg.payload) t.mtu), t)
    else if leb t.outbox_capacity (length t.outbox)
    then (err (back_pressure t.outbox_capacity), t)
    else if ltb rng_val t.loss_threshold
    then (err message_lost, t')
    else (ok tt, record t' { outbox = t.outbox ++ (msg ∷ []) })

pub pop_front : List TransportMessage → Option TransportMessage
pop_front [] = none
pop_front (m ∷ inbox) = some m

pub try_recv : SimulatedTransport → Option TransportMessage × SimulatedTransport
try_recv t = (pop_front t.inbox, record t { inbox = drop 1 t.inbox })
