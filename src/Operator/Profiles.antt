-- ===== src/Operator/Profiles.antt =====
-- cmd/operator/api/v1alpha1/profile_types.go: what a user asks the operator for.
use rivalry.Prelude.{String, ℤ, List}

pub record FrontendService : Type 0 where
  pub image : String

pub record AccumulatorService : Type 0 where
  pub image : String

pub record MatcherService : Type 0 where
  pub image : String

pub record DispenserService : Type 0 where
  pub image : String
  pub assignment_target : String

-- The queues are pointers, none of which is nil, since the resource's schema wants objects. The
-- limits are int64; a limit that is not positive is not set.
pub record MatchmakingQueue : Type 0 where
  pub name : String
  pub matchmaker_target : String
  pub max_tickets : ℤ
  pub max_delay : ℤ

pub record ProfileSpec : Type 0 where
  pub nats_address : String
  pub redis_address : String
  pub frontend_service : FrontendService
  pub accumulator_service : AccumulatorService
  pub matcher_service : MatcherService
  pub dispenser_service : DispenserService
  pub matchmaking_queues : List MatchmakingQueue

-- The metadata that the operator reads, and the specification.
pub record Profile : Type 0 where
  pub name : String
  pub namespace : String
  pub spec : ProfileSpec
