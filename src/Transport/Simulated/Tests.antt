-- ===== src/Transport/Simulated/Tests.antt =====
-- A link with room for one message, at which the theorem on its queues is applied.
use arxia.Prelude.{ℕ, ◌≡◌, List, [], ◌∷◌, max, arith}
use arxia.Transport.Messages.{TransportMessage}
use arxia.Transport.Simulated.{with_capacity_and_seed}
use arxia.Transport.Simulated.Calls.{
  Call, inject_call, recv_call, arrival_call, recv_at_call, send_call,
}
use arxia.Transport.Simulated.Service.{IsFaithful, queues_lem}

abbrev message : ℕ → TransportMessage
message n = record { from = 97 ∷ []; to = 98 ∷ []; payload = n ∷ []; timestamp = n }

abbrev calls : List Call
calls =
    inject_call (message 1)
    ∷ inject_call (message 2)
    ∷ recv_call
    ∷ inject_call (message 3)
    ∷ arrival_call (message 4) 1
    ∷ recv_at_call 3
    ∷ send_call (message 5)
    ∷ []

queues_lem_example :
    IsFaithful (with_capacity_and_seed 5 0 256 1 1 7) calls 9
    × ((with_capacity_and_seed 5 0 256 1 1 7).inbox_capacity ≡ max 1 1)
    × ((with_capacity_and_seed 5 0 256 1 1 7).outbox_capacity ≡ max 1 1)
queues_lem_example = queues_lem calls 5 0 256 1 1 7 9 (omega arith)
