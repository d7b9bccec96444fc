-- ===== src/Transport/Simulated/Service.antt =====
-- What a link delivers, and when.
use mathlib.Core.Path.{subst}
use mathlib.Core.List.{append_assoc, append-nil}
use arxia.Prelude.{
  ℕ, suc, ◌≤◌, ◌<◌, ◌^◌, ◌≡◌, refl, sym, ap, ◌∙◌, Bool, Option, none, some, List, [], ◌∷◌, ◌++◌,
  length, take, drop, drop-append, max, leb, if◌then◌else◌, arith,
}
use arxia.Prelude.{Bool-cases, inl, inr}
use arxia.Prelude.Words.{saturating_add}
use arxia.Transport.Messages.{TransportMessage}
use arxia.Transport.Simulated.{
  SimulatedTransport, with_capacity_and_seed, inject_message, inject_message_with_arrival,
  try_recv_at, try_recv, send, pop_front, pop_due,
}
use arxia.Transport.Simulated.Calls.{
  Call, inject_call, arrival_call, recv_call, recv_at_call, send_call, step, run, injected,
  scheduled, arriving, arrived, returned, sending, sent, departed, messages, lost,
}
use arxia.Transport.Simulated.Queues.{IsBounded, run_order, run-IsBounded, run_drops}

abbrev contents : List (ℕ × TransportMessage) → List TransportMessage
contents [] = []
contents (x ∷ xs) = x.1 ∷ contents xs

abbrev pub first : List TransportMessage → Option TransportMessage
first [] = none
first (m ∷ ms) = some m

-- The first message, if its time has come.
abbrev first_due : ℕ → List (ℕ × TransportMessage) → Option TransportMessage
first_due now_ms [] = none
first_due now_ms ((deliver_at, m) ∷ xs) = if leb deliver_at now_ms then some m else none

step_latency : (call : Call) (t : SimulatedTransport) → (step call t).latency_ms ≡ t.latency_ms
unfolding inject_message inject_message_with_arrival try_recv_at try_recv send
step_latency (inject_call m) t = refl
step_latency (arrival_call m sent_at_ms) t = refl
step_latency recv_call t = refl
step_latency (recv_at_call now_ms) t = refl
step_latency (send_call m) t = ground arith

-- What was to arrive before and after some messages left the front.
record IsServed (before after : List (ℕ × TransportMessage)) (out : List TransportMessage)
    : Type 0 where
  rest : after ≡ drop (length out) before
  front : out ≡ contents (take (length out) before)

IsServed-none : (xs : List (ℕ × TransportMessage)) → IsServed xs xs []
IsServed-none xs = record { rest = refl; front = refl }

IsServed-due :
    (now_ms : ℕ) (xs ys : List (ℕ × TransportMessage))
    → IsServed (xs ++ ys) ((pop_due now_ms xs).1 ++ ys) (returned (pop_due now_ms xs).0)
unfolding pop_due
IsServed-due now_ms [] ys = IsServed-none ys
IsServed-due now_ms ((at, m) ∷ xs) ys = elim (Bool-cases (leb at now_ms)) [
  | inl due ↦ rw due (record { rest = refl; front = refl })
  | inr early ↦ rw early (IsServed-none ((at, m) ∷ xs ++ ys))
]

step-IsServed :
    (call : Call) (calls : List Call) (t : SimulatedTransport)
    → IsServed
        (t.scheduled_inbox ++ scheduled t.latency_ms (call ∷ calls))
        ((step call t).scheduled_inbox ++ scheduled t.latency_ms calls)
        (arriving call t)
unfolding inject_message inject_message_with_arrival try_recv_at try_recv send
step-IsServed (inject_call m) calls t = IsServed-none _
step-IsServed (arrival_call m sent_at_ms) calls t = record {
  rest =
      append_assoc t.scheduled_inbox ((saturating_add sent_at_ms t.latency_ms, m) ∷ [])
        (scheduled t.latency_ms calls);
  front = refl;
}
step-IsServed recv_call calls t = IsServed-none _
step-IsServed (recv_at_call now_ms) calls t =
    IsServed-due now_ms t.scheduled_inbox (scheduled t.latency_ms calls)
step-IsServed (send_call m) calls t = record { rest = ground arith; front = refl }

drop-drop :
    (xs : List (ℕ × TransportMessage)) (out later : List TransportMessage)
    → drop (length later) (drop (length out) xs) ≡ drop (length (out ++ later)) xs
drop-drop xs [] later = refl
drop-drop [] (m ∷ out) [] = refl
drop-drop [] (m ∷ out) (n ∷ later) = refl
drop-drop (x ∷ xs) (m ∷ out) later = drop-drop xs out later

take-take :
    (xs : List (ℕ × TransportMessage)) (out later : List TransportMessage)
    → out ≡ contents (take (length out) xs)
    → later ≡ contents (take (length later) (drop (length out) xs))
    → out ++ later ≡ contents (take (length (out ++ later)) xs)
take-take xs [] later e f = f
take-take [] (m ∷ out) later e f = cc
take-take (x ∷ xs) (m ∷ out) later e f = ground (arith, take-take xs out later (cc (e)) f, e)

IsServed-then :
    (xs ys zs : List (ℕ × TransportMessage)) (out later : List TransportMessage)
    → IsServed xs ys out
    → IsServed ys zs later
    → IsServed xs zs (out ++ later)
IsServed-then xs ys zs out later u v = record {
  rest = v.rest ∙ ap (drop (length later)) u.rest ∙ drop-drop xs out later;
  front =
      take-take xs out later u.front (v.front ∙ ap (λ l. contents (take (length later) l)) u.rest);
}

run-IsServed :
    (calls : List Call) (t : SimulatedTransport)
    → IsServed
        (t.scheduled_inbox ++ scheduled t.latency_ms calls)
        (run calls t).scheduled_inbox
        (arrived calls t)
unfolding run arrived
run-IsServed [] t = record { rest = sym (append-nil t.scheduled_inbox); front = refl }
run-IsServed (call ∷ calls) t =
    IsServed-then _ _ _ (arriving call t) (arrived calls (step call t)) (step-IsServed call calls t)
      (subst
        (λ l.
          IsServed ((step call t).scheduled_inbox ++ scheduled l calls)
            (run calls (step call t)).scheduled_inbox (arrived calls (step call t)))
        (step_latency call t) (run-IsServed calls (step call t)))

step_sent :
    (call : Call) (t : SimulatedTransport) → (step call t).outbox ≡ t.outbox ++ sending call t
unfolding inject_message inject_message_with_arrival try_recv_at try_recv send
step_sent (inject_call m) t = sym (append-nil t.outbox)
step_sent (arrival_call m sent_at_ms) t = sym (append-nil t.outbox)
step_sent recv_call t = sym (append-nil t.outbox)
step_sent (recv_at_call now_ms) t = sym (append-nil t.outbox)
step_sent (send_call m) t = ground (arith, append-nil t.outbox)

run_sent :
    (calls : List Call) (t : SimulatedTransport) → (run calls t).outbox ≡ t.outbox ++ sent calls t
unfolding run sent
run_sent [] t = sym (append-nil t.outbox)
run_sent (call ∷ calls) t =
    run_sent calls (step call t)
    ∙ ap (λ o. o ++ sent calls (step call t)) (step_sent call t)
    ∙ append_assoc t.outbox (sending call t) (sent calls (step call t))

-- What a link has done after calls on a link that began as `t`, and what it does next.
pub record IsFaithful (t : SimulatedTransport) (calls : List Call) (now_ms : ℕ) : Type 0 where
  order : injected calls ≡ messages (departed calls t) ++ (run calls t).inbox
  dropped : (run calls t).inbox_dropped ≡ lost (departed calls t)
  next_received :
      (try_recv (run calls t)).0 ≡ first (drop (length (departed calls t)) (injected calls))
  on_time :
      arrived calls t ≡ contents (take (length (arrived calls t)) (scheduled t.latency_ms calls))
  next_arrived :
      (try_recv_at now_ms (run calls t)).0
      ≡ first_due now_ms (drop (length (arrived calls t)) (scheduled t.latency_ms calls))
  outgoing : (run calls t).outbox ≡ sent calls t
  inbox_bound : length (run calls t).inbox ≤ t.inbox_capacity
  outbox_bound : length (run calls t).outbox ≤ t.outbox_capacity

length-messages : (xs : List (Bool × TransportMessage)) → length (messages xs) ≡ length xs
length-messages [] = refl
length-messages (x ∷ xs) = ap suc (length-messages xs)

first_front : (xs : List TransportMessage) → pop_front xs ≡ first xs
unfolding pop_front
first_front [] = refl
first_front (x ∷ xs) = refl

due_front :
    (now_ms : ℕ) (xs : List (ℕ × TransportMessage)) → (pop_due now_ms xs).0 ≡ first_due now_ms xs
unfolding pop_due
due_front now_ms [] = refl
due_front now_ms (x ∷ xs) = ground arith

try_recv-first : (t : SimulatedTransport) → (try_recv t).0 ≡ first t.inbox
unfolding try_recv pop_front
try_recv-first t = first_front t.inbox

try_recv_at-first_due :
    (now_ms : ℕ) (t : SimulatedTransport)
    → (try_recv_at now_ms t).0 ≡ first_due now_ms t.scheduled_inbox
unfolding try_recv_at pop_due
try_recv_at-first_due now_ms t = due_front now_ms t.scheduled_inbox

-- Whatever is called on a new link, with fewer than 2^64 calls: the messages that were injected are, in
-- their order, those that left the inbox, each dropped or returned by `try_recv`, and then those that
-- are in it; the drops are counted; and the next `try_recv` returns the first that has not left. The
-- messages with a time of arrival are returned by `try_recv_at` in the order in which they were
-- injected, and the next call of it returns the first of the others exactly if its time has come. The
-- outbox has the messages for which `send` returned `Ok`. The inbox and the outbox hold no more than
-- their capacities, of which 0 counts as 1.
pub queues_lem :
    (calls : List Call) (latency_ms loss mtu inbox outbox seed now_ms : ℕ)
    → length calls < 2 ^ 64
    → IsFaithful (with_capacity_and_seed latency_ms loss mtu inbox outbox seed) calls now_ms
      × ((with_capacity_and_seed latency_ms loss mtu inbox outbox seed).inbox_capacity
          ≡ max inbox 1)
      × ((with_capacity_and_seed latency_ms loss mtu inbox outbox seed).outbox_capacity
          ≡ max outbox 1)
unfolding with_capacity_and_seed
queues_lem calls latency_ms loss mtu inbox outbox seed now_ms small =
    let t = with_capacity_and_seed latency_ms loss mtu inbox outbox seed in
    let v : IsBounded t = record {
      room = ground arith;
      inbox = omega arith;
      outbox = omega arith;
    } in
    let bounds = run-IsBounded calls t v in
    let served = run-IsServed calls t in
    let order = run_order calls t in
    (
      record {
        order = order;
        dropped = omega (arith, run_drops calls t v (omega arith));
        next_received =
            try_recv-first (run calls t)
            ∙ ap first (
                sym (
                  drop-append (messages (departed calls t)) (run calls t).inbox
                    (length (departed calls t)) (length-messages (departed calls t)))
                ∙ ap (drop (length (departed calls t))) (sym order));
        on_time = served.front;
        next_arrived =
            try_recv_at-first_due now_ms (run calls t) ∙ ap (first_due now_ms) served.rest;
        outgoing = run_sent calls t;
        inbox_bound = bounds.0;
        outbox_bound = bounds.1;
      },
      refl,
      refl,
    )
