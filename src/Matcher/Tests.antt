-- ===== src/Matcher/Tests.antt =====
-- A matchmaker that pairs the first two tickets, and one that makes a ticket up.
use rivalry.Prelude.{String, ◌≡◌, ◌≢◌, refl, true, false, some, none, [], ◌∷◌, contains}
use rivalry.Prelude.Results.{ok}
use rivalry.Matcher.{on_match, on_batch}
use rivalry.Matcher.Returns.{on_batch_returns, on_match_panics}
use rivalry.Matches.{create_match, identify}
use rivalry.Redis.{msetnx, redis_key, prefix_values, prefix_keys}
use rivalry.Tickets.Matching.{allocations, assign_match_requests_to_match}
use rivalry.Tickets.Stored.{IsStored}
use rivalry.Tickets.Queue.{ids_of}
use rivalry.Matcher.Kept.{IsKept}
use rivalry.Matcher.Lossless.{IsApart, on_batch_keeps}
use rivalry.Sample.Memory.{Memory, memory_view}
use rivalry.Sample.Pairing.{pairing, pairing-IsWellBehaved}
use rivalry.Sample.Steady.{
  steady, steady-IsSound, steady-IsAnswering, ticket_a, ticket_b, readable_tickets,
}
use rivalry.Sample.World.{env, env-IsSound, world, ticket, duel}

abbrev stored : Memory
stored = world (("om:tickets:a", "doc a") ∷ ("om:tickets:b", "doc b") ∷ []) false

abbrev late : Memory
late = world (("om:ticket_assignments:b", "m0") ∷ []) false

on_batch_returns_example :
    (w' : Memory) × (on_batch env pairing (ticket "a" ∷ ticket "b" ∷ []) stored ≡ some w')
on_batch_returns_example =
    on_batch_returns env-IsSound pairing pairing-IsWellBehaved (ticket "a" ∷ ticket "b" ∷ []) stored

pairing-IsApart : IsApart memory_view pairing
pairing-IsApart ss w = (refl, refl, refl)

on_batch_keeps_example :
    (w' : Memory) × (on_batch steady pairing (ticket "a" ∷ ticket "b" ∷ []) stored ≡ some w')
    × ((k : String)
        → contains k (ids_of (ticket "a" ∷ ticket "b" ∷ [])) ≡ true
        → IsStored memory_view steady k stored
        → IsKept memory_view steady k stored w')
on_batch_keeps_example =
    on_batch_keeps steady-IsSound steady-IsAnswering pairing pairing-IsWellBehaved pairing-IsApart
      (ticket "a" ∷ ticket "b" ∷ []) stored (ticket_a, (ticket_b, tt)) readable_tickets

not_true : ok false ≢ ok true
not_true e = cc

on_match_panics_example :
    on_match env pairing (some (duel "m1" ("a" ∷ "b" ∷ []))) (("b", ticket "b") ∷ [], late) ≡ none
unfolding create_match identify assign_match_requests_to_match allocations msetnx redis_key
    prefix_values prefix_keys
on_match_panics_example =
    on_match_panics env pairing (duel "m1" ("a" ∷ "b" ∷ [])) (("b", ticket "b") ∷ []) late late "a"
      (ok false) refl refl not_true refl
