-- ===== src/System/Tests.antt =====
-- Two players ask for a match, and their batch reaches the matcher, which pairs them.
use rivalry.Prelude.{◌≡◌, refl, some, false, List, [], ◌∷◌, String}
use rivalry.Prelude.Results.{ok}
use rivalry.Wire.Api
use rivalry.Platform.View.{ticket_assignments}
use rivalry.Redis.{redis_key}
use rivalry.Frontend.{new_service, Service, match_player}
use rivalry.Matcher.{on_message}
use rivalry.Matcher.Returns.{on_batch_returns}
use rivalry.Tickets.Queue.{accumulated_received}
use rivalry.System.{Outside, Event, asked, batched, handle, run}
use rivalry.System.Handlers.{IsQuiet}
use rivalry.System.Keeps.{AreOwned, AreExclusive}
use rivalry.System.Exclusive.{run-AreOwned, run-owner}
use rivalry.Sample.ListSets.{list_sets}
use rivalry.Sample.Memory.{Memory, memory_view, memory-IsReliable}
use rivalry.Sample.World.{env, env-IsSound, world, request, server, ticket}
use rivalry.Sample.Pairing.{pairing, pairing-IsWellBehaved}

abbrev outside : Outside Memory
outside = record {
  matchmaker = pairing;
  assignment = record { make_assignment = λ req w. (ok (record { game_server = some server }), w) };
  send = λ resp w. (ok tt, w);
  error_text = λ e. "error";
}

outside-IsQuiet : IsQuiet memory_view env outside
outside-IsQuiet = record {
  make_matches_quiet = λ req w. refl;
  make_assignment_quiet = λ req w. refl;
  send_quiet = λ resp w. refl;
  subscribe_quiet = λ subject w. refl;
}

abbrev service : Service (List String)
service = new_service list_sets ("duel" ∷ [])

abbrev events : List (Event (List String))
events =
    asked service (request "a" "ann") ∷ asked service (request "b" "bob") ∷ batched "batch ab" ∷ []

abbrev empty : Memory
empty = world [] false

none-AreOwned : AreOwned memory_view env empty
none-AreOwned i m (x, at, u) k c = cc

abbrev late : Memory
late = world (("om:ticket_assignments:b", "m0") ∷ []) false

asks : Api.MatchRequest → Memory → Memory
asks req w = (match_player env outside.send outside.error_text service req w).1

-- The events are handled, whatever the world.
ends : (w : Memory) → (w' : Memory) × (run env outside events w ≡ some w')
unfolding run handle on_message accumulated_received asks
ends w =
    let (w', e) =
      on_batch_returns env-IsSound pairing pairing-IsWellBehaved (ticket "a" ∷ ticket "b" ∷ [])
        (asks (request "b" "bob") (asks (request "a" "ann") w)) in
    (w', rw e refl)

run-AreOwned_example :
    AreOwned memory_view env (ends empty).0 × AreExclusive memory_view env (ends empty).0
run-AreOwned_example =
    run-AreOwned env-IsSound memory-IsReliable outside outside-IsQuiet events empty (ends empty).0
      (ends empty).1 none-AreOwned

run-owner_example : memory_view.entry (ends late).0 ticket_assignments "b" ≡ some "m0"
unfolding redis_key
run-owner_example =
    run-owner env-IsSound memory-IsReliable outside outside-IsQuiet events late (ends late).0 "b"
      "m0" (ends late).1 refl
