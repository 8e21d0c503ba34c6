-- ===== src/Commands/Closes.antt =====
-- The ends of the commands.
use rivalry.Prelude.{◌≡◌, ◌⊎◌, Bool, true, false, some, List, [], ◌∷◌, if◌then◌else◌, arith}
use rivalry.Prelude.Results.{Result}
use rivalry.Commands.Flags.{Values, get_string}
use rivalry.Commands.Steps.{
  Step, Steps, Runtime, open_store, open_stream, open_pubsub, close_store, close_stream,
  close_pubsub, dial, opening_clients,
}
use rivalry.Commands.AccumulatorCommand
use rivalry.Commands.MatcherCommand
use rivalry.Commands.DispenserCommand
use rivalry.Commands.FrontendCommand

pub data Command : Type 0 where
  accumulator matcher dispenser frontend : Command

unfoldable pub run_command : Command → Runtime → Values → Steps
run_command accumulator = AccumulatorCommand.run
run_command matcher = MatcherCommand.run
run_command dispenser = DispenserCommand.run
run_command frontend = FrontendCommand.run

abbrev closes_store : List Step → Bool
closes_store [] = false
closes_store (close_store ∷ t) = true
closes_store (_ ∷ t) = closes_store t

abbrev closes_stream : List Step → Bool
closes_stream [] = false
closes_stream (close_stream ∷ t) = true
closes_stream (_ ∷ t) = closes_stream t

abbrev closes_pubsub : List Step → Bool
closes_pubsub [] = false
closes_pubsub (close_pubsub ∷ t) = true
closes_pubsub (_ ∷ t) = closes_pubsub t

-- What is opened and not closed later on. There is no step that closes a gRPC connection.
abbrev pub left_open : List Step → List Step
left_open [] = []
left_open (open_store prefix options ∷ t) =
    let rest = left_open t in if closes_store t then rest else open_store prefix options ∷ rest
left_open (open_stream addr group ∷ t) =
    let rest = left_open t in if closes_stream t then rest else open_stream addr group ∷ rest
left_open (open_pubsub addr ∷ t) =
    let rest = left_open t in if closes_pubsub t then rest else open_pubsub addr ∷ rest
left_open (dial target ∷ t) = dial target ∷ left_open t
left_open (_ ∷ t) = left_open t

-- The gRPC connections that were dialled.
abbrev pub dialled : List Step → List Step
dialled [] = []
dialled (dial target ∷ t) = dial target ∷ dialled t
dialled (_ ∷ t) = dialled t

-- The gRPC connection that a command with these flags needs.
abbrev pub connections : Command → Values → List Step
connections accumulator values = []
connections matcher values = dial (get_string values "matchmaker_target") ∷ []
connections dispenser values = dial (get_string values "assignment_target") ∷ []
connections frontend values = []

-- A command that returns, with an error or without, has closed each client of the store, the stream
-- and the pub-sub broker that it opened. What it leaves open are the gRPC connections that it dialled:
-- none, or the one that the matcher and the dispenser need.
pub run_command-left_open :
    (c : Command) (rt : Runtime) (values : Values) (r : Result (Unit {0}))
    → (run_command c rt values []).0 ≡ some r
    → (left_open (run_command c rt values []).1 ≡ dialled (run_command c rt values []).1)
      × ((dialled (run_command c rt values []).1 ≡ [])
          ⊎ (dialled (run_command c rt values []).1 ≡ connections c values))
unfolding run_command AccumulatorCommand.run AccumulatorCommand.starting MatcherCommand.run
    DispenserCommand.run FrontendCommand.run FrontendCommand.listening FrontendCommand.if_listening
    opening_clients
run_command-left_open accumulator rt values r e = ground arith
run_command-left_open matcher rt values r e = ground arith
run_command-left_open dispenser rt values r e = ground arith
run_command-left_open frontend rt values r e = ground arith
