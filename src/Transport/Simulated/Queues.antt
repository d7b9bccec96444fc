-- ===== src/Transport/Simulated/Queues.antt =====
-- The queues of a link under any calls.
use mathlib.Core.List.{append_assoc, append-nil}
use arxia.Prelude.{
  Option, none, some, take, ◌+◌, ◌≤◌, ◌<◌, ◌^◌, ◌≡◌, refl, ap, ◌∙◌, Bool, true, false, List, [],
  ◌∷◌, ◌++◌, length, length-append, drop, max, arith,
}
use arxia.Transport.Messages.{TransportMessage}
use arxia.Transport.Simulated.{
  SimulatedTransport, inject_message, inject_message_with_arrival, try_recv_at, try_recv, send,
  pop_front,
}
use arxia.Transport.Simulated.Calls.{
  Call, inject_call, arrival_call, recv_call, recv_at_call, send_call, step, run, injected, marked,
  returned, left, departed, messages, lost, messages-append, lost-append,
}

pub record IsBounded (t : SimulatedTransport) : Type 0 where
  pub room : 1 ≤ t.inbox_capacity
  pub inbox : length t.inbox ≤ t.inbox_capacity
  pub outbox : length t.outbox ≤ t.outbox_capacity

oldest_first :
    (b : Bool) (xs ys : List TransportMessage)
    → xs ++ ys ≡ messages (marked b (take 1 xs)) ++ (drop 1 xs ++ ys)
oldest_first b [] ys = refl
oldest_first b (x ∷ xs) ys = refl

received_first :
    (xs ys : List TransportMessage)
    → xs ++ ys ≡ messages (marked false (returned (pop_front xs))) ++ (drop 1 xs ++ ys)
unfolding pop_front
received_first [] ys = refl
received_first (x ∷ xs) ys = refl

step_order :
    (call : Call) (calls : List Call) (t : SimulatedTransport)
    → t.inbox ++ injected (call ∷ calls)
      ≡ messages (left call t) ++ ((step call t).inbox ++ injected calls)
unfolding inject_message inject_message_with_arrival try_recv_at try_recv send
step_order (inject_call m) calls t = ground (
  arith,
  oldest_first true t.inbox (m ∷ injected calls),
  append_assoc (drop 1 t.inbox) (m ∷ []) (injected calls),
  append_assoc t.inbox (m ∷ []) (injected calls),
)
step_order (arrival_call m sent_at_ms) calls t = refl
step_order recv_call calls t = received_first t.inbox (injected calls)
step_order (recv_at_call now_ms) calls t = refl
step_order (send_call m) calls t = ground arith

length-drop_one : (xs : List TransportMessage) → length (drop 1 xs) + 1 ≤ max (length xs) 1
length-drop_one [] = omega arith
length-drop_one (x ∷ xs) = ground arith

pub run_order :
    (calls : List Call) (t : SimulatedTransport)
    → t.inbox ++ injected calls ≡ messages (departed calls t) ++ (run calls t).inbox
unfolding run departed
run_order [] t = append-nil t.inbox
run_order (call ∷ calls) t =
    step_order call calls t
    ∙ ap (λ ms. messages (left call t) ++ ms) (run_order calls (step call t))
    ∙ ground (
      arith,
      append_assoc (messages (left call t)) (messages (departed calls (step call t)))
          (run calls (step call t)).inbox,
      messages-append (left call t) (departed calls (step call t)),
    )

step-IsBounded : (call : Call) (t : SimulatedTransport) → IsBounded t → IsBounded (step call t)
unfolding inject_message inject_message_with_arrival try_recv_at try_recv send
step-IsBounded (inject_call m) t v = record {
  room = v.room;
  inbox = ground (
    arith,
    v.room,
    v.inbox,
    length-append (drop 1 t.inbox) (m ∷ []),
    length-append t.inbox (m ∷ []),
    length-drop_one t.inbox,
  );
  outbox = v.outbox;
}
step-IsBounded (arrival_call m sent_at_ms) t v = record {
  room = v.room;
  inbox = v.inbox;
  outbox = v.outbox;
}
step-IsBounded recv_call t v = record {
  room = v.room;
  inbox = ground (arith, v.inbox, length-drop_one t.inbox);
  outbox = v.outbox;
}
step-IsBounded (recv_at_call now_ms) t v = record {
  room = v.room;
  inbox = v.inbox;
  outbox = v.outbox;
}
step-IsBounded (send_call m) t v = record {
  room = ground (arith, v.room);
  inbox = ground (arith, v.inbox);
  outbox = ground (arith, v.outbox, length-append t.outbox (m ∷ []));
}

step-capacities :
    (call : Call) (t : SimulatedTransport)
    → ((step call t).inbox_capacity ≡ t.inbox_capacity)
      × ((step call t).outbox_capacity ≡ t.outbox_capacity)
unfolding inject_message inject_message_with_arrival try_recv_at try_recv send
step-capacities (inject_call m) t = (refl, refl)
step-capacities (arrival_call m sent_at_ms) t = (refl, refl)
step-capacities recv_call t = (refl, refl)
step-capacities (recv_at_call now_ms) t = (refl, refl)
step-capacities (send_call m) t = ground arith

pub run-IsBounded :
    (calls : List Call) (t : SimulatedTransport)
    → IsBounded t
    → (length (run calls t).inbox ≤ t.inbox_capacity)
      × (length (run calls t).outbox ≤ t.outbox_capacity)
unfolding run
run-IsBounded [] t v = (v.inbox, v.outbox)
run-IsBounded (call ∷ calls) t v =
    omega
      (arith, run-IsBounded calls (step call t) (step-IsBounded call t v), step-capacities call t)

lost_oldest : (xs : List TransportMessage) → 1 ≤ length xs → lost (marked true (take 1 xs)) ≡ 1
lost_oldest [] h = omega arith
lost_oldest (x ∷ xs) h = omega arith

lost-received : (o : Option TransportMessage) → lost (marked false (returned o)) ≡ 0
lost-received none = refl
lost-received (some m) = refl

step_drops :
    (call : Call) (t : SimulatedTransport)
    → IsBounded t
    → t.inbox_dropped + 1 < 2 ^ 64
    → (step call t).inbox_dropped ≡ t.inbox_dropped + lost (left call t)
unfolding inject_message inject_message_with_arrival try_recv_at try_recv send
step_drops (inject_call m) t v small = ground (arith, lost_oldest t.inbox, v.room)
step_drops (arrival_call m sent_at_ms) t v small = omega arith
step_drops recv_call t v small = omega (arith, lost-received (pop_front t.inbox))
step_drops (recv_at_call now_ms) t v small = omega arith
step_drops (send_call m) t v small = ground arith

one_oldest : (xs : List TransportMessage) → lost (marked true (take 1 xs)) ≤ 1
one_oldest [] = omega arith
one_oldest (x ∷ xs) = omega arith

lost-left : (call : Call) (t : SimulatedTransport) → lost (left call t) ≤ 1
lost-left (inject_call m) t = ground (arith, one_oldest t.inbox)
lost-left (arrival_call m sent_at_ms) t = omega arith
lost-left recv_call t = omega (arith, lost-received (try_recv t).0)
lost-left (recv_at_call now_ms) t = omega arith
lost-left (send_call m) t = omega arith

pub run_drops :
    (calls : List Call) (t : SimulatedTransport)
    → IsBounded t
    → t.inbox_dropped + length calls < 2 ^ 64
    → (run calls t).inbox_dropped ≡ t.inbox_dropped + lost (departed calls t)
unfolding run departed
run_drops [] t v small = omega arith
run_drops (call ∷ calls) t v small =
    let d = step_drops call t v (omega arith) in
    omega (
      arith,
      d,
      run_drops calls (step call t) (step-IsBounded call t v) (omega (arith, d, lost-left call t)),
      lost-append (left call t) (departed calls (step call t)),
    )
