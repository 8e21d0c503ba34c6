-- ===== src/Tickets/Tests.antt =====
-- Requests of two players, in a store that may hold one of them already.
use rivalry.Prelude.{some, ◌≡◌, ◌==◌, ◌≢◌, refl, false, [], ◌∷◌, eq_iff, arith, to_int32}
use rivalry.Prelude.Results.{ok}
use rivalry.Platform.View.{IsSame}
use rivalry.Platform.Backoff.{retry}
use rivalry.Platform.Sets.{add_all}
use rivalry.Redis.{setnx, get, del, redis_key}
use rivalry.Tickets.{
  db_game_server, create_match_request, get_match_request, publish_stream_ticket, document_of,
  stream_ticket_from_db_request, get_match_request_topic, get_accumulated_match_request_topic,
  get_match_request_subject,
}
use rivalry.Tickets.Create.{Submits, create_match_request_lem, create_match_request_taken}
use rivalry.Tickets.Read.{get-create_match_request}
use rivalry.Tickets.Matching.Reached.{Assigns, add_assignment_to_match_requests-Assigns}
use rivalry.Tickets.Queue.{requeue_match_requests}
use rivalry.Tickets.Apart.{topics_apart}
use rivalry.Matches.{unassigned_matches_topic}
use rivalry.Tickets.Queue.Requeue.{Requeues, requeue_match_requests_lem}
use rivalry.Tickets.Matching.{add_assignment_to_match_requests}
use rivalry.Tickets.Queue.{publish_accumulated_match_requests}
use rivalry.Tickets.Queue.Forwarded.{Forwards, publish_accumulated-received}
use rivalry.Sample.Memory.{Memory, memory_view}
use rivalry.Sample.World.{
  server, db_server, env, env-IsSound, world, request, document, ticket, duel,
}

abbrev empty : Memory
empty = world [] false

abbrev taken : Memory
taken = world (("om:tickets:a", "doc a") ∷ []) false

a_is_named : (request "a" "ann").id ≢ ""
a_is_named e = ground (arith, eq_iff "a" "")

created : (create_match_request env (request "a" "ann") empty).0 ≡ ok tt
unfolding create_match_request document_of retry publish_stream_ticket stream_ticket_from_db_request
    get_match_request_topic setnx redis_key del add_all to_int32
created = refl

create_match_request_lem_example :
    Submits memory_view env
      (document "a" "ann")
      empty
      (create_match_request env (request "a" "ann") empty)
unfolding document_of add_all
create_match_request_lem_example =
    create_match_request_lem env-IsSound (request "a" "ann") empty a_is_named

create_match_request_taken_example :
    let (r, w) = create_match_request env (request "a" "ann") taken in
    (r ≢ ok tt) × IsSame memory_view taken w
unfolding redis_key
create_match_request_taken_example =
    create_match_request_taken env-IsSound (request "a" "ann") taken {x = "doc a"} a_is_named refl

get-create_match_request_example :
    document "a" "ann" ≡ document_of env.sets (request "a" "ann") (env.now empty).0
unfolding create_match_request document_of retry publish_stream_ticket stream_ticket_from_db_request
    get_match_request_topic setnx redis_key del add_all to_int32 get_match_request get
get-create_match_request_example =
    get-create_match_request env-IsSound (request "a" "ann") empty
      (create_match_request env (request "a" "ann") empty).1
      (create_match_request env (request "a" "ann") empty).1 (document "a" "ann") a_is_named refl
      refl

-- Only "a" is put back: "b" has an owner.
abbrev half_owned : Memory
half_owned = world (("om:ticket_assignments:b", "m0") ∷ []) false

requeue_match_requests_lem_example :
    (w' : Memory) × (requeue_match_requests env
        (some (ticket "a") ∷ some (ticket "b") ∷ [])
        half_owned
      ≡ some w')
    × Requeues memory_view env (ticket "a" ∷ ticket "b" ∷ []) half_owned w'
requeue_match_requests_lem_example =
    requeue_match_requests_lem env-IsSound (ticket "a" ∷ ticket "b" ∷ []) half_owned

abbrev both_stored : Memory
both_stored = world (("om:tickets:a", "doc a") ∷ ("om:tickets:b", "doc b") ∷ []) false

add_assignment_to_match_requests-Assigns_example :
    Assigns env-IsSound db_server
      ("a" ∷ "b" ∷ [])
      both_stored
      (add_assignment_to_match_requests env server (duel "m1" ("a" ∷ "b" ∷ [])) both_stored)
unfolding db_game_server
add_assignment_to_match_requests-Assigns_example =
    add_assignment_to_match_requests-Assigns env-IsSound server (duel "m1" ("a" ∷ "b" ∷ []))
      both_stored

topics_apart_example :
    ((get_match_request_topic "duel" == get_match_request_topic "team") ≡ ("duel" == "team"))
    × ((get_accumulated_match_request_topic "duel" == get_accumulated_match_request_topic "team")
        ≡ ("duel" == "team"))
    × ((get_match_request_subject "duel" == get_match_request_subject "team") ≡ ("duel" == "team"))
    × ((get_match_request_topic "duel" == get_accumulated_match_request_topic "team") ≡ false)
    × ((unassigned_matches_topic == get_match_request_topic "duel") ≡ false)
    × ((unassigned_matches_topic == get_accumulated_match_request_topic "duel") ≡ false)
topics_apart_example = topics_apart "duel" "team"

publish_accumulated-received_example :
    Forwards memory_view env "duel"
      (ticket "a" ∷ ticket "b" ∷ [])
      empty
      (publish_accumulated_match_requests env "duel" (ticket "a" ∷ ticket "b" ∷ []) empty)
publish_accumulated-received_example =
    publish_accumulated-received env-IsSound "duel" (ticket "a" ∷ ticket "b" ∷ []) empty
