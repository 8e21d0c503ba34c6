-- ===== src/Commands/Tests.antt =====
-- The commands on a command line in memory, with the arguments of the profile "arena", and the client.
use rivalry.Prelude.{pos, arith, ◌≡◌, ◌⊎◌, refl, none, [], ◌∷◌, ◌++◌}
use rivalry.Prelude.Results.{ok}
use rivalry.Operator.Cluster.{Deployment}
use rivalry.Operator.{dispenser_of, accumulator_of, matcher_of, frontend_of}
use rivalry.Commands.Flags.{Values, is_plain}
use rivalry.Commands.Steps.{
  listen, dial, run_accumulator, run_matcher, run_dispenser, serve_frontend, close_store,
  close_stream, close_pubsub,
}
use rivalry.Commands.AccumulatorCommand
use rivalry.Commands.MatcherCommand
use rivalry.Commands.DispenserCommand
use rivalry.Commands.FrontendCommand
use rivalry.Commands.Closes.{matcher, run_command, left_open, dialled, run_command-left_open}
use rivalry.Commands.Configured.{IsStarted, opened, matcher_of-IsStarted, dispenser_of-IsStarted}
use rivalry.Commands.Configured.Accumulator.{accumulator_of-IsStarted}
use rivalry.Commands.Configured.Frontend.{frontend_of-IsStarted}
use rivalry.Sample.Cluster.{profile, queue}
use rivalry.Sample.CommandLine.{
  command_line, command_line-IsCobra, runtime, runtime-IsUp, frontend_client,
}
use rivalry.Commands.Flags.{spelled}
use rivalry.Commands.ClientCommand
use rivalry.Commands.ClientCommand.Requests.{Prints, asked, given, run_requests}

abbrev template : Deployment
template = record {
  name = "rivalry";
  namespace = "";
  app = "rivalry";
  image = "latest";
  args = [];
  owner = none;
}

matcher_of-IsStarted_example :
    IsStarted command_line runtime MatcherCommand.flags MatcherCommand.run
      (matcher_of profile (queue "duel") template).args
      (opened profile ++ dial "pairs:50051" ∷ run_matcher "duel" ∷ [])
      (close_store ∷ close_stream ∷ close_pubsub ∷ close_store ∷ close_stream ∷ [])
matcher_of-IsStarted_example =
    matcher_of-IsStarted command_line command_line-IsCobra runtime runtime-IsUp profile
      (queue "duel") template refl

dispenser_of-IsStarted_example :
    IsStarted command_line runtime DispenserCommand.flags DispenserCommand.run
      (dispenser_of profile template).args
      ((dial "servers:50051" ∷ opened profile) ++ run_dispenser ∷ [])
      (close_store ∷ close_stream ∷ close_pubsub ∷ close_store ∷ close_stream ∷ [])
dispenser_of-IsStarted_example =
    dispenser_of-IsStarted command_line command_line-IsCobra runtime runtime-IsUp profile template
      refl

-- Four tickets, and a second, as the queue sets no delay.
accumulator_of-IsStarted_example :
    IsStarted command_line runtime AccumulatorCommand.flags AccumulatorCommand.run
      (accumulator_of profile (queue "duel") template).args
      (opened profile
        ++ run_accumulator "duel" (record { max_tickets = pos 4; max_delay = pos 1000000000 }) ∷ [])
      (close_store ∷ close_stream ∷ close_pubsub ∷ [])
accumulator_of-IsStarted_example =
    accumulator_of-IsStarted command_line command_line-IsCobra runtime runtime-IsUp profile
      (queue "duel") template refl (omega arith) (omega arith)

frontend_of-IsStarted_example :
    IsStarted command_line runtime FrontendCommand.flags FrontendCommand.run
      (frontend_of profile template).args
      ((listen ":50051" ∷ opened profile) ++ serve_frontend ("duel" ∷ "team" ∷ []) ∷ [])
      (close_store ∷ close_stream ∷ close_pubsub ∷ [])
unfolding is_plain
frontend_of-IsStarted_example =
    frontend_of-IsStarted command_line command_line-IsCobra runtime runtime-IsUp profile template
      refl (refl, (refl, tt))

abbrev no_values : Values
no_values n = none

run_command-left_open_example :
    (left_open (run_command matcher runtime no_values []).1 ≡ dial "" ∷ [])
    × ((dialled (run_command matcher runtime no_values []).1 ≡ [])
        ⊎ (dialled (run_command matcher runtime no_values []).1 ≡ dial "" ∷ []))
unfolding run_command MatcherCommand.run
run_command-left_open_example = run_command-left_open matcher runtime no_values (ok tt) refl

run_requests_example :
    (values : Values) × (command_line.execute ClientCommand.flags
        (spelled (given "frontend:50051" "ann" "duel"))
      ≡ ok values)
    × Prints
        (frontend_client.match_call (asked "ann" "duel"))
        (ClientCommand.run frontend_client values)
run_requests_example =
    run_requests command_line command_line-IsCobra frontend_client "frontend:50051" "ann" "duel"
      refl refl refl
