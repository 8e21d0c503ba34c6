-- ===== src/Commands/Steps.antt =====
-- What the commands do once their flags are read, as a list of steps, and how they end.
use rivalry.Prelude.{String, Option, none, some, List, [], ◌∷◌, ◌++◌, if◌then◌else◌}
use rivalry.Prelude.Results.{Result, ok, err, wrapped}
use rivalry.Accumulator.{AccumulatorConfig}
use rivalry.Commands.Flags.{Values, get_string, get_bool}

-- `redis.Options`, as far as the commands set it.
pub record RedisOptions : Type 0 where
  pub network : String
  pub addr : String

pub data Step : Type 0 where
  open_store : String → RedisOptions → Step
  open_stream : String → String → Step
  open_pubsub : String → Step
  close_store close_stream close_pubsub : Step
  listen : String → Step
  dial : String → Step
  run_accumulator : String → AccumulatorConfig → Step
  run_matcher : String → Step
  run_dispenser : Step
  serve_frontend : List String → Step

-- `none` is the end of the process: a panic, or `log.Fatal`.
abbrev pub Outcome : Type 0
Outcome = Option (Result (Unit {0})) × List Step

abbrev pub Steps : Type 0
Steps = List Step → Outcome

-- What the outside answers: to `nats.Connect`, `grpc.Dial` and `net.Listen`, and how the service
-- that was started ends, after the steps so far.
pub record Runtime : Type 0 where
  pub connect : List Step → String → Result (Unit {0})
  pub dial : List Step → String → Result (Unit {0})
  pub listen : List Step → String → Result (Unit {0})
  pub run : List Step → Result (Unit {0})

unfoldable pub redis_options : Values → RedisOptions
redis_options values = record {
  network = if get_bool values "redis_unix" then "unix" else "tcp";
  addr = get_string values "redis_addr";
}

-- `NewNATS` panics where it cannot connect.
abbrev if_connected : Result (Unit {0}) → Step → Steps → Steps
if_connected (ok _) s rest t = rest (t ++ s ∷ [])
if_connected (err _) s rest t = (none, t)

-- Deferred calls are run at the end, after a panic too.
abbrev pub deferring : List Step → Steps → Steps
deferring close rest t = let r = rest t in (r.0, r.1 ++ close)

-- `Close` of the managers, which close the clients that they were given.
abbrev pub close_tickets_manager : List Step
close_tickets_manager = close_store ∷ close_stream ∷ close_pubsub ∷ []

abbrev pub close_matches_manager : List Step
close_matches_manager = close_store ∷ close_stream ∷ []

module _ (rt : Runtime) where
  unfoldable pub opening_clients : Values → Steps → Steps
  unfolding redis_options
  opening_clients values rest t =
      let nats_addr = get_string values "nats_addr" in
      let t1 = t ++ open_store "om" (redis_options values) ∷ [] in
      if_connected (rt.connect t1 nats_addr) (open_stream nats_addr "om")
        (λ t2. if_connected (rt.connect t2 nats_addr) (open_pubsub nats_addr) rest t2) t1

  -- `grpc.Dial`, whose error is wrapped.
  abbrev if_dialled : Result (Unit {0}) → Step → Steps → Steps
  if_dialled (ok _) s rest t = rest (t ++ s ∷ [])
  if_dialled (err e) s rest t =
      (some (err (wrapped "failed to connect to assignment service" e)), t)

  abbrev pub dialling : String → Steps → Steps
  dialling target rest t = if_dialled (rt.dial t target) (dial target) rest t

  abbrev pub running : Step → Steps
  running s t = let t' = t ++ s ∷ [] in (some (rt.run t'), t')
