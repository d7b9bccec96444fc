-- ===== src/Transport/Simulated/Calls.antt =====
-- Calls of a link, and what leaves its inbox in them.
use arxia.Prelude.{
  Option, none, some, take, ℕ, ◌+◌, ◌≡◌, refl, ap, Bool, true, false, List, [], ◌∷◌, ◌++◌, length,
  leb, arith, if◌then◌else◌,
}
use arxia.Prelude.Words.{saturating_add}
use arxia.Prelude.Result.{is_ok}
use arxia.Transport.Messages.{TransportMessage}
use arxia.Transport.Simulated.{
  SimulatedTransport, inject_message, inject_message_with_arrival, try_recv_at, try_recv, send,
}

pub data Call : Type 0 where
  inject_call : TransportMessage → Call
  arrival_call : TransportMessage → ℕ → Call
  recv_call : Call
  recv_at_call : ℕ → Call
  send_call : TransportMessage → Call

abbrev pub step : Call → SimulatedTransport → SimulatedTransport
step (inject_call m) t = inject_message m t
step (arrival_call m sent_at_ms) t = inject_message_with_arrival m sent_at_ms t
step recv_call t = (try_recv t).1
step (recv_at_call now_ms) t = (try_recv_at now_ms t).1
step (send_call m) t = (send m t).1

unfoldable pub run : List Call → SimulatedTransport → SimulatedTransport
run [] t = t
run (call ∷ calls) t = run calls (step call t)

-- The messages that are injected, without latency.
abbrev pub injected : List Call → List TransportMessage
injected [] = []
injected (inject_call m ∷ calls) = m ∷ injected calls
injected (_ ∷ calls) = injected calls

-- The messages that are injected with a time of arrival, and when each is due at a latency.
abbrev pub scheduled : ℕ → List Call → List (ℕ × TransportMessage)
scheduled latency [] = []
scheduled latency (arrival_call m sent_at_ms ∷ calls) =
    (saturating_add sent_at_ms latency, m) ∷ scheduled latency calls
scheduled latency (_ ∷ calls) = scheduled latency calls

-- What a receive returned, as a list.
abbrev pub returned : Option TransportMessage → List TransportMessage
returned none = []
returned (some m) = m ∷ []

-- Marks whether messages were lost.
abbrev pub marked : Bool → List TransportMessage → List (Bool × TransportMessage)
marked lost [] = []
marked lost (m ∷ ms) = (lost, m) ∷ marked lost ms

-- What leaves the inbox in a call: the oldest message is lost where a new one finds the inbox full, and
-- what `try_recv` returns is received.
abbrev pub left : Call → SimulatedTransport → List (Bool × TransportMessage)
left (inject_call m) t =
    if leb t.inbox_capacity (length t.inbox) then marked true (take 1 t.inbox) else []
left recv_call t = marked false (returned (try_recv t).0)
left _ t = []

-- What `try_recv_at` returns, over the calls.
abbrev pub arriving : Call → SimulatedTransport → List TransportMessage
arriving (recv_at_call now_ms) t = returned (try_recv_at now_ms t).0
arriving _ t = []

unfoldable pub arrived : List Call → SimulatedTransport → List TransportMessage
arrived [] t = []
arrived (call ∷ calls) t = arriving call t ++ arrived calls (step call t)

-- The messages for which `send` returns `Ok`.
abbrev pub sending : Call → SimulatedTransport → List TransportMessage
sending (send_call m) t = if is_ok (send m t).0 then m ∷ [] else []
sending _ t = []

unfoldable pub sent : List Call → SimulatedTransport → List TransportMessage
sent [] t = []
sent (call ∷ calls) t = sending call t ++ sent calls (step call t)

unfoldable pub departed : List Call → SimulatedTransport → List (Bool × TransportMessage)
departed [] t = []
departed (call ∷ calls) t = left call t ++ departed calls (step call t)

abbrev pub messages : List (Bool × TransportMessage) → List TransportMessage
messages [] = []
messages (x ∷ xs) = x.1 ∷ messages xs

-- The number of messages that are lost.
abbrev pub lost : List (Bool × TransportMessage) → ℕ
lost [] = 0
lost ((true, m) ∷ xs) = lost xs + 1
lost ((false, m) ∷ xs) = lost xs

pub messages-append :
    (xs ys : List (Bool × TransportMessage)) → messages (xs ++ ys) ≡ messages xs ++ messages ys
messages-append [] ys = refl
messages-append (x ∷ xs) ys = ap (λ ms. x.1 ∷ ms) (messages-append xs ys)

pub lost-append : (xs ys : List (Bool × TransportMessage)) → lost (xs ++ ys) ≡ lost xs + lost ys
lost-append [] ys = omega arith
lost-append ((true, m) ∷ xs) ys = omega (arith, lost-append xs ys)
lost-append ((false, m) ∷ xs) ys = lost-append xs ys
