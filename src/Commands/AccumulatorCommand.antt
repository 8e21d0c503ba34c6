-- ===== src/Commands/AccumulatorCommand.antt =====
-- cmd/accumulator/cmd/root.go
use rivalry.Prelude.{
  String, ℤ, pos, negsuc, suc, ◌*◌, ◌-◌, leb_ℤ, to_int64, true, false, none, List, [], ◌∷◌,
  if◌then◌else◌,
}
use rivalry.Accumulator.{AccumulatorConfig}
use rivalry.Commands.Flags.{
  Flag, Values, bool_value, string_value, int64_value, get_string, get_int64,
}
use rivalry.Commands.Steps.{
  Runtime, Steps, opening_clients, deferring, close_tickets_manager, running, run_accumulator,
}

abbrev pub flags : List Flag
flags =
    record { name = "config"; default_value = string_value ""; is_required = false }
    ∷ record { name = "redis_unix"; default_value = bool_value false; is_required = false }
    ∷ record { name = "redis_addr"; default_value = string_value ""; is_required = true }
    ∷ record { name = "nats_addr"; default_value = string_value ""; is_required = true }
    ∷ record { name = "queue"; default_value = string_value "default"; is_required = false }
    ∷ record { name = "max_tickets"; default_value = int64_value (pos 1000); is_required = false }
    ∷ record { name = "max_delay"; default_value = int64_value (pos 1000); is_required = false }
    ∷ []

-- `time.Duration(maxDelay) * time.Millisecond`, an int64 of nanoseconds.
unfoldable pub milliseconds : ℤ → ℤ
unfolding to_int64
milliseconds (pos n) = to_int64 (pos (n * 1000000))
milliseconds (negsuc n) = to_int64 (negsuc (suc n * 1000000 - 1))

-- `NewAccumulator` starts a ticker, which panics on a delay that is not positive.
unfoldable pub starting : Runtime → String → AccumulatorConfig → Steps
starting rt queue config t =
    if leb_ℤ (pos 1) config.max_delay
    then running rt (run_accumulator queue config) t
    else (none, t)

unfoldable pub run : Runtime → Values → Steps
unfolding milliseconds opening_clients starting
run rt values = opening_clients rt values (
    deferring close_tickets_manager (
      starting rt (get_string values "queue") (record {
        max_tickets = get_int64 values "max_tickets";
        max_delay = milliseconds (get_int64 values "max_delay");
      })))
