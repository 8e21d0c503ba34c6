-- ===== src/Operator.antt =====
-- cmd/operator/controllers/profile_controller.go: the operator makes the deployments and the service
-- that a profile asks for, those that are not there yet.
pub mod Profiles
pub mod Cluster
pub mod Grows
pub mod Runs
pub mod Makes
pub mod Deploys
pub mod Answers
pub mod Again
pub mod Names
pub mod Reconciles
mod Tests
use rivalry.Prelude.{
  String, ℤ, pos, negsuc, leb_ℤ, Bool, true, false, not, some, List, [], ◌∷◌, ◌++◌, if◌then◌else◌,
}
use Prim.Native.String.{◌++◌ as ◌<>◌}
use rivalry.Prelude.Results.{Action, Result, ok, err, Error, pure, lift, and_then, ◌>>=◌, ◌>>◌}
use rivalry.Decimal.{sprint}
use Profiles.{Profile, ProfileSpec, MatchmakingQueue}
use Cluster.{
  Kubernetes, Deployment, Service, Template, frontend_service, frontend_deployment,
  accumulator_deployment, matcher_deployment, dispenser_deployment,
}

abbrev pub frontend_name : String
frontend_name = "rivalry-frontend"

abbrev pub accumulator_prefix : String
accumulator_prefix = "rivalry-accumulator"

abbrev pub matcher_prefix : String
matcher_prefix = "rivalry-matcher"

abbrev pub dispenser_name : String
dispenser_name = "rivalry-dispenser"

unfoldable pub accumulator_name : MatchmakingQueue → String
accumulator_name mp = accumulator_prefix <> ("-" <> mp.name)

unfoldable pub matcher_name : MatchmakingQueue → String
matcher_name mp = matcher_prefix <> ("-" <> mp.name)

-- `append(args, …)` for a limit that is set.
unfoldable pub limit_args : String → ℤ → List String
limit_args flag limit = if leb_ℤ (pos 1) limit then flag ∷ sprint limit ∷ [] else []

unfoldable pub queue_args : List MatchmakingQueue → List String
queue_args [] = []
queue_args (q ∷ qs) = "--queues" ∷ q.name ∷ queue_args qs

-- What each deployment is configured with, on top of its template.
unfoldable pub dispenser_of : Profile → Deployment → Deployment
dispenser_of i s = record s {
  namespace = i.namespace;
  image = i.spec.dispenser_service.image;
  args =
      s.args
      ++ "--nats_addr" ∷ i.spec.nats_address ∷ "--redis_addr" ∷ i.spec.redis_address
        ∷ "--assignment_target" ∷ i.spec.dispenser_service.assignment_target ∷ [];
}

unfoldable pub accumulator_of : Profile → MatchmakingQueue → Deployment → Deployment
unfolding limit_args
accumulator_of i mp s = record s {
  name = accumulator_name mp;
  namespace = i.namespace;
  image = i.spec.accumulator_service.image;
  args =
      s.args
      ++ (("--nats_addr" ∷ i.spec.nats_address ∷ "--redis_addr" ∷ i.spec.redis_address ∷ "--queue"
            ∷ mp.name ∷ [])
          ++ (limit_args "--max_tickets" mp.max_tickets ++ limit_args "--max_delay" mp.max_delay));
}

unfoldable pub matcher_of : Profile → MatchmakingQueue → Deployment → Deployment
matcher_of i mp s = record s {
  name = matcher_name mp;
  namespace = i.namespace;
  image = i.spec.matcher_service.image;
  args =
      s.args
      ++ "--nats_addr" ∷ i.spec.nats_address ∷ "--redis_addr" ∷ i.spec.redis_address ∷ "--queue"
        ∷ mp.name ∷ "--matchmaker_target" ∷ mp.matchmaker_target ∷ [];
}

unfoldable pub frontend_of : Profile → Deployment → Deployment
unfolding queue_args
frontend_of i s = record s {
  namespace = i.namespace;
  image = i.spec.frontend_service.image;
  args =
      s.args
      ++ (("--nats_addr" ∷ i.spec.nats_address ∷ "--redis_addr" ∷ i.spec.redis_address ∷ [])
          ++ queue_args i.spec.matchmaking_queues);
}

unfoldable pub frontend_service_of : Profile → Service → Service
frontend_service_of i s = record s { namespace = i.namespace }

module _ {W : Type 0} (k : Kubernetes W) where
  open k use {
    get_profile, get_deployment, get_service, create_deployment, create_service, is_not_found,
    unmarshal_deployment, unmarshal_service, own_deployment, own_service,
  }

  -- `if errors.IsNotFound(err) { return false, nil }`
  found_or_not : {A : Type 0} → Result A × W → Result Bool × W
  found_or_not (ok a, w) = (ok true, w)
  found_or_not (err e, w) = if is_not_found e then (ok false, w) else (err e, w)

  pub deployment_is_configured : String → String → Action W Bool
  unfolding found_or_not
  deployment_is_configured namespace name w = found_or_not (get_deployment namespace name w)

  abbrev pub dispenser_deployment_is_configured : Profile → Action W Bool
  dispenser_deployment_is_configured i = deployment_is_configured i.namespace dispenser_name

  abbrev pub accumulator_is_configured : Profile → MatchmakingQueue → Action W Bool
  accumulator_is_configured i mp = deployment_is_configured i.namespace (accumulator_name mp)

  abbrev pub matcher_is_configured : Profile → MatchmakingQueue → Action W Bool
  matcher_is_configured i mp = deployment_is_configured i.namespace (matcher_name mp)

  abbrev pub frontend_deployment_is_configured : Profile → Action W Bool
  frontend_deployment_is_configured i = deployment_is_configured i.namespace frontend_name

  -- The end of each `configure…Deployment`.
  pub make_deployment : Profile → Template → (Deployment → Deployment) → Action W (Unit {0})
  make_deployment i t configured = do
    s ← lift (unmarshal_deployment t)
    s' ← lift (own_deployment i (configured s))
    create_deployment s'

  when_missing : Bool → Action W (Unit {0}) → Action W (Unit {0})
  when_missing true configure = pure tt
  when_missing false configure = configure

  -- `if err { return err } else if !configured { return configure() }`
  pub unless_configured : Action W Bool → Action W (Unit {0}) → Action W (Unit {0})
  unfolding when_missing
  unless_configured check configure = do configured ← check; when_missing configured configure

  pub configure_dispenser_deployment : Profile → Action W (Unit {0})
  unfolding make_deployment
  configure_dispenser_deployment i = make_deployment i dispenser_deployment (dispenser_of i)

  pub configure_accumulator_deployment : Profile → MatchmakingQueue → Action W (Unit {0})
  unfolding make_deployment
  configure_accumulator_deployment i mp =
      make_deployment i accumulator_deployment (accumulator_of i mp)

  pub configure_matcher_deployment : Profile → MatchmakingQueue → Action W (Unit {0})
  unfolding make_deployment
  configure_matcher_deployment i mp = make_deployment i matcher_deployment (matcher_of i mp)

  pub configure_frontend_deployment : Profile → Action W (Unit {0})
  unfolding make_deployment
  configure_frontend_deployment i = make_deployment i frontend_deployment (frontend_of i)

  pub configure_frontend_service : Profile → Action W (Unit {0})
  configure_frontend_service i = do
    s ← lift (unmarshal_service frontend_service)
    s' ← lift (own_service i (frontend_service_of i s))
    create_service s'

  pub frontend_service_is_configured : Profile → Action W Bool
  unfolding found_or_not
  frontend_service_is_configured i w = found_or_not (get_service i.namespace frontend_name w)

  pub reconcile_dispenser : Profile → Action W (Unit {0})
  unfolding unless_configured deployment_is_configured configure_dispenser_deployment
  reconcile_dispenser i =
      unless_configured (dispenser_deployment_is_configured i) (configure_dispenser_deployment i)

  pub reconcile_accumulators : Profile → List MatchmakingQueue → Action W (Unit {0})
  unfolding unless_configured deployment_is_configured configure_accumulator_deployment
  reconcile_accumulators i [] = pure tt
  reconcile_accumulators i (mp ∷ mps) =
      unless_configured (accumulator_is_configured i mp) (configure_accumulator_deployment i mp)
      >> reconcile_accumulators i mps

  pub reconcile_matchers : Profile → List MatchmakingQueue → Action W (Unit {0})
  unfolding unless_configured deployment_is_configured configure_matcher_deployment
  reconcile_matchers i [] = pure tt
  reconcile_matchers i (mp ∷ mps) =
      unless_configured (matcher_is_configured i mp) (configure_matcher_deployment i mp)
      >> reconcile_matchers i mps

  pub reconcile_frontend : Profile → Action W (Unit {0})
  unfolding unless_configured deployment_is_configured configure_frontend_service
      configure_frontend_deployment frontend_service_is_configured
  reconcile_frontend i =
      unless_configured (frontend_service_is_configured i) (configure_frontend_service i)
      >> unless_configured (frontend_deployment_is_configured i) (configure_frontend_deployment i)

  -- `Reconcile` once the profile was read.
  pub reconcile_profile : Profile → Action W (Unit {0})
  unfolding reconcile_frontend reconcile_accumulators reconcile_matchers reconcile_dispenser
  reconcile_profile i =
      reconcile_frontend i
      >> reconcile_accumulators i i.spec.matchmaking_queues
      >> reconcile_matchers i i.spec.matchmaking_queues
      >> reconcile_dispenser i

  if_there : Result Profile × W → Result (Unit {0}) × W
  unfolding reconcile_profile
  if_there (ok i, w) = reconcile_profile i w
  if_there (err e, w) = if is_not_found e then (ok tt, w) else (err e, w)

  -- A profile that is gone is no error.
  unfoldable pub reconcile : String → String → Action W (Unit {0})
  unfolding if_there
  reconcile namespace name w = if_there (get_profile namespace name w)
