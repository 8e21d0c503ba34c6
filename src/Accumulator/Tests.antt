-- ===== src/Accumulator/Tests.antt =====
-- A queue that batches two tickets at a time, or what has come by the next tick.
use rivalry.Prelude.{pos, ◌≡◌, refl, true, List, [], ◌∷◌, ◌++◌, String, contains}
use mathlib.Core.List.{Sublistᴰ}
use rivalry.Wire.Streams.{StreamTicket}
use rivalry.Sample.ListSets.{list_sets, list_sets-AreSets}
use rivalry.Accumulator.{
  AccumulatorConfig, reset_timeout, forward, Event, delivered, timed_out, new_accumulator,
  on_ticket, on_timeout, step, run,
}
use rivalry.Accumulator.Reference.{outcome, batched, run-batched}
use rivalry.Accumulator.Invariant.{IsHandled, run-IsHandled, new_accumulator-IsPool, ids}
use rivalry.Accumulator.Batches.{forwarded, deliveries, run_in_order, timeout_forwards_all}

abbrev config : AccumulatorConfig
config = record { max_tickets = pos 2; max_delay = pos 1000 }

abbrev ticket : String → StreamTicket
ticket k = record { matchmaking_queue = "duel"; match_request_id = k; number_of_players = pos 1 }

-- "a" comes twice before its batch is forwarded, and once more after that.
abbrev events : List Event
events =
    delivered (ticket "a")
    ∷ delivered (ticket "a")
    ∷ delivered (ticket "b")
    ∷ timed_out
    ∷ delivered (ticket "a")
    ∷ []

run-events : run list_sets events (new_accumulator list_sets "duel" config) ≡ (
  record {
    matchmaking_queue = "duel";
    config = config;
    match_requests_seen = "a" ∷ [];
    match_request_slice = ticket "a" ∷ [];
  },
  reset_timeout (pos 1000) ∷ forward (ticket "a" ∷ ticket "b" ∷ []) ∷ [],
)
unfolding run step on_ticket on_timeout new_accumulator
run-events = refl

run-IsHandled_example :
    IsHandled list_sets config (run list_sets events (new_accumulator list_sets "duel" config))
unfolding new_accumulator
run-IsHandled_example =
    run-IsHandled list_sets-AreSets events (new_accumulator list_sets "duel" config)
      (new_accumulator-IsPool list_sets-AreSets "duel" config)

run_in_order_example :
    let (a, effects) = run list_sets events (new_accumulator list_sets "duel" config) in
    Sublistᴰ (forwarded effects ++ a.match_request_slice) (deliveries events)
run_in_order_example = run_in_order list_sets-AreSets "duel" config events

timeout_forwards_all_example :
    let (a, effects) = run list_sets events (new_accumulator list_sets "duel" config) in
    let (a', last) = on_timeout list_sets a in
    (contains "b" (ids (forwarded (effects ++ last))) ≡ true) × (a'.match_request_slice ≡ [])
timeout_forwards_all_example = timeout_forwards_all list_sets-AreSets "duel" config events "b" refl

run-batched_example :
    outcome (run list_sets events (new_accumulator list_sets "duel" config))
    ≡ batched config.max_tickets events []
run-batched_example = run-batched list_sets-AreSets "duel" config events

batched-events :
    batched config.max_tickets events [] ≡ (ticket "a" ∷ [], (ticket "a" ∷ ticket "b" ∷ []) ∷ [])
batched-events = refl
