-- ===== src/Dispenser/Tests.antt =====
-- A message about a match that was taken out of the store again, and a match with and without a
-- game server.
use rivalry.Prelude.{◌≡◌, refl, none, some, [], ◌∷◌, ◌⊎◌, false}
use rivalry.Prelude.Results.{ok, err, Error, external}
use rivalry.CustomLogic
use rivalry.CustomLogic.{AssignmentServiceClient}
use rivalry.Dispenser.{on_message, on_match, make_assignment, add_assignment}
use rivalry.Dispenser.Requeued.{Requeues, on_match-Requeues}
use rivalry.Dispenser.Dispenses.{AreDispensed, on_match-IsServed}
use rivalry.Platform.Backoff.{retry, exponential}
use rivalry.Dispenser.Panics.{missing_match_panics}
use rivalry.Sample.Memory.{Memory, memory_view}
use rivalry.Sample.World.{env, env-IsSound, world, server, duel}

abbrev one_server : AssignmentServiceClient Memory
one_server = record { make_assignment = λ req w. (ok (record { game_server = some server }), w) }

missing_match_panics_example : on_message env one_server "m1" (world [] false) ≡ none
missing_match_panics_example =
    missing_match_panics env-IsSound one_server "m1" (world [] false) refl

abbrev no_server : AssignmentServiceClient Memory
no_server = record { make_assignment = λ req w. (err (external "unavailable"), w) }

abbrev both_stored : Memory
both_stored = world (("om:tickets:a", "doc a") ∷ ("om:tickets:b", "doc b") ∷ []) false

on_match-Requeues_example :
    (w2 : Memory) × (on_match env no_server (some (duel "m1" ("a" ∷ "b" ∷ []))) both_stored
      ≡ some w2)
    × Requeues env-IsSound no_server "m1" both_stored w2
unfolding make_assignment retry CustomLogic.make_assignment
on_match-Requeues_example =
    on_match-Requeues env-IsSound no_server (duel "m1" ("a" ∷ "b" ∷ [])) both_stored both_stored
      (external "unavailable") refl

on_match-IsServed_example :
    (w2 : Memory) × (on_match env one_server (some (duel "m1" ("a" ∷ "b" ∷ []))) both_stored
      ≡ some w2)
    × (memory_view.sent w2 ≡ [])
    × (AreDispensed env-IsSound one_server (duel "m1" ("a" ∷ "b" ∷ [])) server both_stored w2
        ⊎ ((e : Error) × (retry env.backoff
                (add_assignment env one_server (some server) (duel "m1" ("a" ∷ "b" ∷ [])))
                (exponential env.backoff ∷ [])
                both_stored
              ≡ (err e, w2))))
unfolding make_assignment retry CustomLogic.make_assignment
on_match-IsServed_example =
    on_match-IsServed env-IsSound one_server (duel "m1" ("a" ∷ "b" ∷ [])) server both_stored
      both_stored refl
