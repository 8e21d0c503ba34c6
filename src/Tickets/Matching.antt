-- ===== src/Tickets/Matching.antt =====
-- internal/managers/tickets/tickets.go: the operations on the tickets of a match.
pub mod Assign
pub mod Telling
pub mod Update
pub mod Reached
use rivalry.Prelude.{String, Bool, true, Option, none, some, List, [], ◌∷◌, Map, insert}
use rivalry.Prelude.Results.{
  Action, Result, ok, err, wrapped, pure, lift, and_then, ◌>>=◌, ◌>>◌, wrap_error,
}
use rivalry.Wire.Api
use rivalry.Wire.Documents
use rivalry.Platform.Backoff.{retry, exponential}
use rivalry.Platform.Env.{Env}
use rivalry.Tickets.{get_match_request_subject, get_match_requests, db_game_server}

-- `allocations[t] = match.MatchId` for every ticket of the match.
unfoldable pub allocations : String → List String → Map String
allocations match_id [] = []
allocations match_id (t ∷ ts) = insert t match_id (allocations match_id ts)

module _ {W S : Type 0} (env : Env W S) where
  open env use {kv_store, pubsub_client, backoff}

  assign_ids : String → List String → Action W Bool
  assign_ids match_id [] = pure true
  assign_ids match_id (t ∷ ts) =
      kv_store.msetnx "ticket_assignments" (allocations match_id (t ∷ ts))

  -- Answers whether the match owns its tickets now.
  unfoldable pub assign_match_requests_to_match : Api.Match → Action W Bool
  unfolding assign_ids
  assign_match_requests_to_match m = assign_ids m.match_id m.match_request_ids

  release_ids : List String → Action W (Unit {0})
  release_ids [] = pure tt
  release_ids (t ∷ ts) = kv_store.del "ticket_assignments" (t ∷ ts)

  unfoldable pub release_match_requests_from_match : Api.Match → Action W (Unit {0})
  unfolding release_ids
  release_match_requests_from_match m = release_ids m.match_request_ids

  -- The loop that fills `data`: each document with the game server, under its own identifier.
  unfoldable pub with_server :
      Documents.GameServer → List Documents.MatchRequest → Map String → Result (Map String)
  with_server gs [] found = ok found
  with_server gs (mr ∷ mrs) found =
      elim (env.match_requests.marshal (record mr { game_server = some gs })) [
        | ok req_bytes ↦ with_server gs mrs (insert mr.id req_bytes found)
        | err e ↦ err (wrapped "failed to marshal match request" e)
      ]

  unfoldable pub publish_assigned : String → Action W (Unit {0})
  publish_assigned match_request_id =
      retry backoff (pubsub_client.publish (get_match_request_subject match_request_id) "assigned")
        (exponential backoff ∷ [])

  -- One goroutine for each ticket, all waited for; they are run in the order of the list. What a
  -- publication returns is dropped.
  unfoldable pub publish_all : List String → W → W
  unfolding publish_assigned
  publish_all [] w = w
  publish_all (t ∷ ts) w = publish_all ts (publish_assigned t w).1

  add_assignment : Api.GameServer → List String → Action W (Unit {0})
  unfolding with_server publish_all
  add_assignment assignment [] = pure tt
  add_assignment assignment (t ∷ ts) = do
    match_requests ← get_match_requests env (t ∷ ts)
    found ← lift (with_server (db_game_server assignment) match_requests [])
    kv_store.mset "tickets" found
    λ w. (ok tt, publish_all (t ∷ ts) w)

  unfoldable pub add_assignment_to_match_requests : Api.GameServer → Api.Match → Action W (Unit {0})
  unfolding add_assignment
  add_assignment_to_match_requests assignment m = add_assignment assignment m.match_request_ids
