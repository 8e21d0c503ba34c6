-- ===== src/Matches/Tests.antt =====
-- A match of "a" and "b", with the stream up or down, and one that comes too late.
use rivalry.Wire.Api.{Match}
use rivalry.Prelude.{◌≡◌, refl, true, false, Option, some, [], ◌∷◌}
use rivalry.Prelude.Results.{ok, external}
use rivalry.Redis.{msetnx, set, del, get, redis_key, prefix_values, prefix_keys}
use rivalry.Tickets.Matching.{
  allocations, assign_match_requests_to_match, release_match_requests_from_match,
}
use rivalry.Platform.Backoff.{retry}
use rivalry.Matches.{create_match, identify, get_match, match_received, unassigned_matches_topic}
use rivalry.Matches.Received.{match_received-create_match}
use rivalry.Matches.Create.{Creates, create_match_lem}
use rivalry.Matches.Ownership.{
  Steps, takes, is_refused, gives_back, stays, then, here, IsExclusive, reached-IsExclusive,
}
use rivalry.Matches.Rollback.{IsBack, create_match-IsBack}
use rivalry.Sample.Memory.{Memory, memory_view, memory-IsReliable}
use rivalry.Sample.World.{env, env-IsSound, world, duel}

abbrev empty : Memory
empty = world [] false

abbrev offline : Memory
offline = world [] true

abbrev late : Memory
late = world (("om:ticket_assignments:b", "m0") ∷ []) false

creates : (create_match env (duel "" ("a" ∷ "b" ∷ [])) empty).0 ≡ ok true
unfolding create_match identify assign_match_requests_to_match release_match_requests_from_match
    allocations msetnx set del redis_key prefix_values prefix_keys
creates = refl

comes_late : (create_match env (duel "m1" ("a" ∷ "b" ∷ [])) late).0 ≡ ok false
unfolding create_match identify assign_match_requests_to_match release_match_requests_from_match
    allocations msetnx set del redis_key prefix_values prefix_keys
comes_late = refl

create_match_lem_example :
    Creates memory_view env
      (duel "m1" ("a" ∷ "b" ∷ []))
      empty
      (create_match env (duel "" ("a" ∷ "b" ∷ [])) empty)
unfolding identify
create_match_lem_example = create_match_lem env-IsSound (duel "" ("a" ∷ "b" ∷ [])) empty

create_match-IsBack_example :
    IsBack memory_view
      (duel "m1" ("a" ∷ "b" ∷ []))
      offline
      (create_match env (duel "m1" ("a" ∷ "b" ∷ [])) offline).1
unfolding create_match identify assign_match_requests_to_match release_match_requests_from_match
    allocations msetnx set del redis_key prefix_values prefix_keys
create_match-IsBack_example =
    create_match-IsBack env-IsSound memory-IsReliable (duel "m1" ("a" ∷ "b" ∷ [])) offline
      (create_match env (duel "m1" ("a" ∷ "b" ∷ [])) offline).1 (external "nats: connection closed")
      refl

-- "m1" takes "a" and "b", "m2" comes too late for "b", "m1" gives up, and "m2" is tried again.
abbrev first : Match
first = duel "m1" ("a" ∷ "b" ∷ [])

abbrev second : Match
second = duel "m2" ("b" ∷ "c" ∷ [])

abbrev after_first : Memory
after_first = (assign_match_requests_to_match env first empty).1

abbrev after_release : Memory
after_release = (release_match_requests_from_match env first after_first).1

abbrev after_second : Memory
after_second = (assign_match_requests_to_match env second after_release).1

two_matchers : Steps memory_view env (empty, []) (after_second, second ∷ [])
unfolding assign_match_requests_to_match release_match_requests_from_match allocations msetnx del
    redis_key prefix_values prefix_keys
two_matchers = then (takes first refl) (
    then (is_refused second refl)
      (then (gives_back first (ok tt) here refl) (then (takes second refl) stays)))

reached-IsExclusive_example : IsExclusive memory_view (after_second, second ∷ [])
reached-IsExclusive_example =
    reached-IsExclusive env-IsSound empty after_second (second ∷ []) two_matchers

abbrev created : Memory
created = (create_match env first empty).1

pass_on : Option Match → Memory → Option Memory
pass_on m w = some w

match_received-create_match_example :
    (created.sent ≡ (unassigned_matches_topic, "m1") ∷ [])
    × (match_received env pass_on "m1" created ≡ pass_on (some first) created)
unfolding create_match identify assign_match_requests_to_match release_match_requests_from_match
    allocations msetnx set del get get_match retry redis_key prefix_values prefix_keys
match_received-create_match_example =
    match_received-create_match env-IsSound first first empty created created created pass_on refl
      refl refl
