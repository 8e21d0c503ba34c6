-- ===== src/Commands/DispenserCommand.antt =====
-- cmd/dispenser/cmd/root.go
use rivalry.Prelude.{true, false, List, [], ◌∷◌, ◌++◌}
use rivalry.Commands.Flags.{Flag, Values, bool_value, string_value, get_string}
use rivalry.Commands.Steps.{
  Runtime, Steps, opening_clients, deferring, close_tickets_manager, close_matches_manager,
  dialling, running, run_dispenser,
}

abbrev pub flags : List Flag
flags =
    record { name = "config"; default_value = string_value ""; is_required = false }
    ∷ record { name = "redis_unix"; default_value = bool_value false; is_required = false }
    ∷ record { name = "redis_addr"; default_value = string_value ""; is_required = true }
    ∷ record { name = "nats_addr"; default_value = string_value ""; is_required = true }
    ∷ record { name = "assignment_target"; default_value = string_value ""; is_required = true }
    ∷ []

unfoldable pub run : Runtime → Values → Steps
unfolding opening_clients
run rt values = dialling rt (get_string values "assignment_target") (
    opening_clients rt values
      (deferring (close_tickets_manager ++ close_matches_manager) (running rt run_dispenser)))
