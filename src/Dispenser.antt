-- ===== src/Dispenser.antt =====
-- internal/app/backend/dispenser.go: a match that was announced is given a game server, which is
-- written into its requests; where none can be had, the match is announced again.
pub mod Panics
pub mod Requeued
pub mod Dispenses
mod Tests
use rivalry.Prelude.{String, Bool, true, false, Option, none, some, List, [], ◌∷◌}
use rivalry.Prelude.Results.{Action, Result, ok, err, pure, and_then, ◌>>=◌, ◌>>◌}
use rivalry.Wire.Api.{Match, GameServer}
use rivalry.Platform.Backoff.{retry, exponential}
use rivalry.Platform.Env.{Env}
use rivalry.Tickets.{get_match_requests}
use rivalry.Tickets.Matching.{add_assignment_to_match_requests}
use rivalry.Matches.{match_received, stream_matches, requeue}
use rivalry.CustomLogic
use rivalry.CustomLogic.{AssignmentServiceClient}

module _ {W S : Type 0} (env : Env W S) (client : AssignmentServiceClient W) where
  open env use {backoff}

  -- `AddAssignmentToMatchRequests` where the game server may be nil: `ok false` is the panic that
  -- reading its address is, after the requests were read.
  unfoldable pub add_nil : List String → Action W Bool
  add_nil [] = pure true
  add_nil (t ∷ ts) = get_match_requests env (t ∷ ts) >>= λ _. pure false

  unfoldable pub add_assignment : Option GameServer → Match → Action W Bool
  unfolding add_nil
  add_assignment (some assignment) m =
      add_assignment_to_match_requests env assignment m >> pure true
  add_assignment none m = add_nil m.match_request_ids

  unfoldable pub make_assignment : Option Match → Action W (Option GameServer)
  make_assignment m =
      retry backoff (CustomLogic.make_assignment client m) (exponential backoff ∷ [])

  -- A match that cannot be announced again is logged.
  unfoldable pub requeue_match : Match → W → W
  requeue_match m w = (retry backoff (requeue env m.match_id) (exponential backoff ∷ []) w).1

  -- A failure is logged; a panic is passed on.
  unfoldable pub add_assignment_to_tickets : Match → Option GameServer → W → Option W
  unfolding add_assignment
  add_assignment_to_tickets m assignment w =
      let (r, w') = retry backoff (add_assignment assignment m) (exponential backoff ∷ []) w in
      elim r [ err e ↦ some w' | ok finished ↦ elim finished [ true ↦ some w' | false ↦ none ] ]

  unfoldable pub dispense : Match → Result (Option GameServer) × W → Option W
  unfolding requeue_match add_assignment_to_tickets
  dispense m (err e, w) = some (requeue_match m w)
  dispense m (ok assignment, w) = add_assignment_to_tickets m assignment w

  -- The callback of `Run`. The service is asked in any case; then the identifier of a nil match is
  -- read, or the tickets of one, which is a panic.
  unfoldable pub on_match : Option Match → W → Option W
  unfolding dispense
  on_match none w = none
  on_match (some m) w = dispense m (make_assignment (some m) w)

  -- `Run`: the subscription, and what is done with a message.
  pub run : Action W (Unit {0})
  run = stream_matches env

  unfoldable pub on_message : String → W → Option W
  on_message = match_received env on_match
