-- ===== src/System.antt =====
-- The services of Rivalry over one store and one stream: the messages and calls that the frontend, the
-- accumulators, the matchers and the dispenser handle, one after the other.
pub mod Acts
pub mod Calls
pub mod Handlers
pub mod Backends
pub mod Dispatch
pub mod Keeps
pub mod Exclusive
mod Tests
use rivalry.Prelude.{String, Option, some, List, [], ◌∷◌}
use rivalry.Prelude.Results.{Action, Error, unless_panic}
use rivalry.Wire.Api
use rivalry.Wire.Streams.{StreamTicket}
use rivalry.Platform.Env.{Env}
use rivalry.Tickets.Queue.{publish_accumulated_match_requests}
use rivalry.CustomLogic.{MatchMakerServiceClient, AssignmentServiceClient}
use rivalry.Frontend.{Service, match_player, on_update}
use rivalry.Matcher as Matching
use rivalry.Dispenser as Dispensing

-- The services that the user of Rivalry runs, and the streams to the game clients.
pub record Outside (W : Type 0) : Type 0 where
  pub matchmaker : MatchMakerServiceClient W
  pub assignment : AssignmentServiceClient W
  pub send : Api.MatchResponse → Action W (Unit {0})
  pub error_text : Error → String

-- A game client asks for a match; a message wakes the frontend; an accumulator forwards a batch; a
-- batch reaches a matcher; a match reaches the dispenser.
pub data Event (S : Type 0) : Type 0 where
  asked : Service S → Api.MatchRequest → Event S
  woken : String → Event S
  forwarded : String → List StreamTicket → Event S
  batched : String → Event S
  announced : String → Event S

module _ {W S : Type 0} (env : Env W S) (outside : Outside W) where
  -- The handler of each; `none` is a panic.
  unfoldable pub handle : Event S → W → Option W
  handle (asked service req) w =
      some (match_player env outside.send outside.error_text service req w).1
  handle (woken k) w = some (on_update env outside.send outside.error_text k w)
  handle (forwarded queue sts) w = some (publish_accumulated_match_requests env queue sts w).1
  handle (batched b) w = Matching.on_message env outside.matchmaker b w
  handle (announced match_id) w = Dispensing.on_message env outside.assignment match_id w

  unfoldable pub run : List (Event S) → W → Option W
  run [] w = some w
  run (e ∷ es) w = unless_panic (run es) (handle e w)
