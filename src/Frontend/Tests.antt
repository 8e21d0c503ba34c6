-- ===== src/Frontend/Tests.antt =====
-- A client whose identifier is in use.
use rivalry.Prelude.{String, ◌≡◌, ◌≢◌, refl, some, eq_iff, arith, [], ◌∷◌, false, true}
use rivalry.Prelude.Results.{Action, ok, Error}
use rivalry.Wire.Api
use rivalry.Redis.{redis_key, mget, collect, prefix_keys, mset, get, prefix_values}
use rivalry.Frontend.{match_player, new_service, on_update}
use rivalry.Frontend.Assigned.{on_update-add_assignment_to_match_requests}
use rivalry.Tickets.{get_match_request, get_match_requests, unmarshal_all, db_game_server}
use rivalry.Tickets.Matching.{add_assignment_to_match_requests, with_server, publish_all}
use rivalry.Tickets.Stored.{IsStored}
use rivalry.Platform.Backoff.{retry, constant}
use rivalry.Frontend.Refusals.{Refuses, match_player-Refuses}
use rivalry.Sample.ListSets.{list_sets}
use rivalry.Sample.Memory.{Memory, memory_view}
use rivalry.Sample.World.{env, env-IsSound, world, request, server, db_server, document, duel}

abbrev taken : Memory
taken = world (("om:tickets:a", "doc a") ∷ []) false

abbrev deliver : Api.MatchResponse → Action Memory (Unit {0})
deliver response w = (ok tt, w)

abbrev text_of : Error → String
text_of e = "duplicate ticket id"

named_a : (request "a" "ann").id ≢ ""
named_a e = ground (arith, eq_iff "a" "")

match_player-Refuses_example : Refuses memory_view true taken (
    match_player env deliver text_of
      (new_service list_sets ("duel" ∷ []))
      (request "a" "ann")
      taken)
unfolding redis_key
match_player-Refuses_example =
    match_player-Refuses env-IsSound deliver text_of ("duel" ∷ []) (request "a" "ann") taken "doc a"
      named_a refl

abbrev both_stored : Memory
both_stored = world (("om:tickets:a", "doc a") ∷ ("om:tickets:b", "doc b") ∷ []) false

abbrev assigned_both : Memory
assigned_both =
    (add_assignment_to_match_requests env server (duel "m1" ("a" ∷ "b" ∷ [])) both_stored).1

document_of_ann : IsStored memory_view env "a" both_stored
unfolding redis_key
document_of_ann = ("doc a", document "a" "ann", refl, refl, refl)

on_update-add_assignment_to_match_requests_example :
    on_update env deliver text_of "a" assigned_both
    ≡ (retry env.backoff
        (deliver (record { game_server = some server }))
        (constant env.backoff 100000000 ∷ [])
        assigned_both).1
unfolding add_assignment_to_match_requests get_match_request get_match_requests with_server
    unmarshal_all publish_all db_game_server redis_key mget collect prefix_keys mset get retry
    prefix_values
on_update-add_assignment_to_match_requests_example =
    on_update-add_assignment_to_match_requests env-IsSound deliver text_of server
      (duel "m1" ("a" ∷ "b" ∷ [])) both_stored assigned_both assigned_both "a"
      (record (document "a" "ann") { game_server = some db_server }) refl document_of_ann refl refl
