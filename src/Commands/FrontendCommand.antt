-- ===== src/Commands/FrontendCommand.antt =====
-- cmd/frontend/cmd/root.go
use rivalry.Prelude.{String, true, false, none, List, [], ◌∷◌, ◌++◌}
use rivalry.Prelude.Results.{Result, ok, err}
use rivalry.Commands.Flags.{
  Flag, Values, bool_value, string_value, strings_value, get_string, get_string_slice,
}
use rivalry.Commands.Steps.{
  Runtime, Steps, opening_clients, deferring, close_tickets_manager, running, listen,
  serve_frontend,
}

abbrev pub flags : List Flag
flags =
    record { name = "address"; default_value = string_value ":50051"; is_required = false }
    ∷ record { name = "config"; default_value = string_value ""; is_required = false }
    ∷ record { name = "redis_unix"; default_value = bool_value false; is_required = false }
    ∷ record { name = "redis_addr"; default_value = string_value ""; is_required = true }
    ∷ record { name = "nats_addr"; default_value = string_value ""; is_required = true }
    ∷ record {
      name = "queues";
      default_value = strings_value ("default" ∷ []);
      is_required = false;
    }
    ∷ []

-- `log.Fatal` where the address cannot be listened on.
unfoldable pub if_listening : Result (Unit {0}) → String → Steps → Steps
if_listening (ok _) address rest t = rest (t ++ listen address ∷ [])
if_listening (err _) address rest t = (none, t)

unfoldable pub listening : Runtime → String → Steps → Steps
unfolding if_listening
listening rt address rest t = if_listening (rt.listen t address) address rest t

-- `Close` of the service closes its manager.
unfoldable pub run : Runtime → Values → Steps
unfolding opening_clients listening
run rt values = listening rt (get_string values "address") (
    opening_clients rt values (
      deferring close_tickets_manager
        (running rt (serve_frontend (get_string_slice values "queues")))))
