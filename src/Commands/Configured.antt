-- ===== src/Commands/Configured.antt =====
-- The commands, started with the arguments that the operator writes into their deployments.
mod Limits
pub mod Accumulator
pub mod Frontend
use Prim.Native.String.{◌++◌ as ◌<>◌}
use rivalry.Prelude.{
  String, ℕ, ℤ, pos, negsuc, suc, ◌*◌, ◌≤◌, ◌<◌, ◌^◌, leb_ℤ, ◌≡◌, ◌≢◌, refl, sym, ap, ◌∙◌, Bool,
  true, false, Option, none, some, List, [], ◌∷◌, ◌++◌, All, map, arith, if◌then◌else◌,
}
use rivalry.Prelude.Results.{Result, ok, err}
use rivalry.Decimal.{sprint}
use rivalry.Operator.Profiles.{Profile, MatchmakingQueue}
use rivalry.Operator.Cluster.{Deployment}
use rivalry.Operator.{dispenser_of, accumulator_of, matcher_of, frontend_of, limit_args, queue_args}
use rivalry.Commands.Flags.{
  Flag, Values, Cobra, IsCobra, IsAccepted, Given, spelled, texts_of, final_value, bool_value,
  string_value, int64_value, strings_value, is_plain,
}
use rivalry.Commands.Steps.{
  Step, Steps, Runtime, RedisOptions, open_store, open_stream, open_pubsub, close_store,
  close_stream, close_pubsub, dial, listen, run_matcher, run_dispenser, run_accumulator,
  serve_frontend, opening_clients, redis_options,
}
use rivalry.Commands.MatcherCommand
use rivalry.Commands.DispenserCommand

-- Everything that the command asks of the outside is granted.
pub record IsUp (rt : Runtime) : Type 0 where
  pub connect_up : (t : List Step) (addr : String) → rt.connect t addr ≡ ok tt
  pub dial_up : (t : List Step) (target : String) → rt.dial t target ≡ ok tt
  pub listen_up : (t : List Step) (addr : String) → rt.listen t addr ≡ ok tt

-- The clients that a profile's commands open.
abbrev pub opened : Profile → List Step
opened i =
    open_store "om" (record { network = "tcp"; addr = i.spec.redis_address })
    ∷ open_stream i.spec.nats_address "om"
    ∷ open_pubsub i.spec.nats_address
    ∷ []

-- The flags of a profile's clients, as they were parsed.
pub record HasClients (i : Profile) (values : Values) : Type 0 where
  pub redis_unix_set : values "redis_unix" ≡ some (bool_value false)
  pub redis_addr_set : values "redis_addr" ≡ some (string_value i.spec.redis_address)
  pub nats_addr_set : values "nats_addr" ≡ some (string_value i.spec.nats_address)

pub opening_up :
    (rt : Runtime) (i : Profile) (values : Values) (rest : Steps) (t : List Step)
    → IsUp rt
    → HasClients i values
    → opening_clients rt values rest t
      ≡ rest (
          ((t ++ open_store "om" (record { network = "tcp"; addr = i.spec.redis_address }) ∷ [])
            ++ open_stream i.spec.nats_address "om" ∷ [])
          ++ open_pubsub i.spec.nats_address ∷ [])
unfolding opening_clients redis_options
opening_up rt i values rest t up h =
    rw
      (
        opening_clients,
        redis_options,
        h.redis_unix_set,
        h.redis_addr_set,
        h.nats_addr_set,
        up.connect_up _ _,
        up.connect_up _ _,
      )
      refl

matcher_given : Profile → MatchmakingQueue → Given
matcher_given i mp =
    ("nats_addr", i.spec.nats_address)
    ∷ ("redis_addr", i.spec.redis_address)
    ∷ ("queue", mp.name)
    ∷ ("matchmaker_target", mp.matchmaker_target)
    ∷ []

-- The command line is accepted, and the command takes these steps, runs, and closes what it opened.
abbrev pub IsStarted :
    Cobra
    → Runtime
    → List Flag
    → (Runtime → Values → Steps)
    → List String
    → List Step
    → List Step
    → Type 0
IsStarted c rt flags run args t close =
    (values : Values) × (c.execute flags args ≡ ok values)
    × (run rt values [] ≡ (some (rt.run t), t ++ close))

-- The arguments that the operator gives to a matcher make it open the profile's clients, connect to
-- the matchmaker of the queue and run for the queue, where everything that it asks for is granted.
pub matcher_of-IsStarted :
    (c : Cobra)
    → IsCobra c
    → (rt : Runtime) → IsUp rt
    → (i : Profile) (mp : MatchmakingQueue) (s : Deployment) → s.args ≡ []
    → IsStarted c rt MatcherCommand.flags MatcherCommand.run
        (matcher_of i mp s).args
        (opened i ++ dial mp.matchmaker_target ∷ run_matcher mp.name ∷ [])
        (close_store ∷ close_stream ∷ close_pubsub ∷ close_store ∷ close_stream ∷ [])
unfolding matcher_of MatcherCommand.run matcher_given
matcher_of-IsStarted c cobra rt up i mp s e =
    let (values, parsed, (_, (v_unix, (v_redis, (v_nats, (v_queue, (v_target, _))))))) =
      cobra.execute_lem MatcherCommand.flags (matcher_given i mp)
        (refl, (refl, (refl, (refl, (refl, (refl, tt)))))) (refl, (refl, (refl, (refl, tt))))
        (
          (cc, λ r. cc),
          ((cc, λ r. cc), ((cc, λ _. cc), ((cc, λ _. cc), ((cc, λ r. cc), ((cc, λ _. cc), tt))))),
        ) in
    let clients : HasClients i values = record {
      redis_unix_set = v_unix;
      redis_addr_set = v_redis;
      nats_addr_set = v_nats;
    } in
    (
      values,
      rw e parsed,
      opening_up rt i values _ [] up clients ∙ rw (v_queue, v_target, up.dial_up _ _) refl,
    )

dispenser_given : Profile → Given
dispenser_given i =
    ("nats_addr", i.spec.nats_address)
    ∷ ("redis_addr", i.spec.redis_address)
    ∷ ("assignment_target", i.spec.dispenser_service.assignment_target)
    ∷ []

-- The arguments that the operator gives to the dispenser make it connect to the assignment service
-- of the profile, open the profile's clients and run, where everything that it asks for is granted.
pub dispenser_of-IsStarted :
    (c : Cobra)
    → IsCobra c
    → (rt : Runtime) → IsUp rt
    → (i : Profile) (s : Deployment) → s.args ≡ []
    → IsStarted c rt DispenserCommand.flags DispenserCommand.run
        (dispenser_of i s).args
        ((dial i.spec.dispenser_service.assignment_target ∷ opened i) ++ run_dispenser ∷ [])
        (close_store ∷ close_stream ∷ close_pubsub ∷ close_store ∷ close_stream ∷ [])
unfolding dispenser_of DispenserCommand.run dispenser_given
dispenser_of-IsStarted c cobra rt up i s e =
    let (values, parsed, (_, (v_unix, (v_redis, (v_nats, (v_target, _)))))) =
      cobra.execute_lem DispenserCommand.flags (dispenser_given i)
        (refl, (refl, (refl, (refl, (refl, tt))))) (refl, (refl, (refl, tt)))
        ((cc, λ r. cc), ((cc, λ r. cc), ((cc, λ _. cc), ((cc, λ _. cc), ((cc, λ _. cc), tt))))) in
    let clients : HasClients i values = record {
      redis_unix_set = v_unix;
      redis_addr_set = v_redis;
      nats_addr_set = v_nats;
    } in
    (
      values,
      rw e parsed,
      rw (v_target, up.dial_up _ _)
          (opening_up rt i values _ (dial i.spec.dispenser_service.assignment_target ∷ []) up
            clients),
    )
