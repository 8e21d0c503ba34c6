-- ===== src/Operator/Tests.antt =====
-- The operator on a cluster in memory, for a profile with the queues "duel" and "team", where
-- somebody else made the dispenser.
use rivalry.Prelude.{◌≡◌, refl, false, String, Option, none, some, List, [], ◌∷◌}
use rivalry.Prelude.Results.{ok}
use rivalry.Operator.Cluster.{IsSame, Deployment}
use rivalry.Operator.Grows.{Grows, here}
use rivalry.Operator.Deploys.{IsDeployed}
use rivalry.Operator.Runs.{OnlyReadFails}
use rivalry.Operator.Names.{IsAccumulatorOf, IsMatcherOf}
use rivalry.Operator.{
  reconcile, accumulator_name, matcher_name, frontend_of, accumulator_of, matcher_of,
  frontend_service_of,
}
use rivalry.Decimal.{sprint}
use rivalry.Operator.Reconciles.{
  reconcile-Grows, reconcile-IsDeployed, reconcile-IsSame, reconcile-IsServed,
}
use rivalry.Sample.Cluster.{
  ClusterMemory, kubernetes, view, kubernetes-IsKubernetes, kubernetes-IsWorking,
  profile-IsAdmitted, is_name, profile, start, queue, other_dispenser,
}

abbrev after : ClusterMemory
after = (reconcile kubernetes "games" "arena" start).1

reconcile-Grows_example : Grows view kubernetes profile start after
reconcile-Grows_example =
    reconcile-Grows kubernetes-IsKubernetes "games" "arena" profile start start refl

reconcile-IsDeployed_example :
    ((reconcile kubernetes "games" "arena" start).0 ≡ ok tt) × IsDeployed view profile after
reconcile-IsDeployed_example =
    reconcile-IsDeployed kubernetes-IsKubernetes kubernetes-IsWorking "games" "arena" profile start
      start profile-IsAdmitted refl

reconcile-IsSame_example :
    IsSame view kubernetes.is_not_found after (reconcile kubernetes "games" "arena" after).1
    × OnlyReadFails kubernetes (reconcile kubernetes "games" "arena" after)
reconcile-IsSame_example =
    reconcile-IsSame kubernetes-IsKubernetes "games" "arena" profile after after refl
      (reconcile-IsDeployed kubernetes-IsKubernetes kubernetes-IsWorking "games" "arena" profile
        start start profile-IsAdmitted refl).1

reconcile-IsServed_example :
    ((d : Deployment) × (after.deployments "games" (accumulator_name (queue "duel")) ≡ some d)
      × IsAccumulatorOf kubernetes-IsKubernetes profile "duel" d)
    × ((d : Deployment) × (after.deployments "games" (matcher_name (queue "duel")) ≡ some d)
        × IsMatcherOf kubernetes-IsKubernetes profile "duel" d)
unfolding accumulator_name matcher_name
reconcile-IsServed_example =
    reconcile-IsServed kubernetes-IsKubernetes "games" "arena" profile start start refl
      (reconcile-IsDeployed kubernetes-IsKubernetes kubernetes-IsWorking "games" "arena" profile
        start start profile-IsAdmitted refl).0
      (queue "duel") here refl refl

abbrev args_of : Option Deployment → List String
args_of none = []
args_of (some d) = d.args

-- The arguments of the accumulator that was made; a delay of 0 is not passed on.
accumulator_args : args_of (after.deployments "games" "rivalry-accumulator-duel") ≡ (
    "--nats_addr" ∷ "nats:4222" ∷ "--redis_addr" ∷ "redis:6379" ∷ "--queue" ∷ "duel"
    ∷ "--max_tickets" ∷ "4" ∷ [])
unfolding reconcile frontend_of accumulator_name accumulator_of matcher_name matcher_of sprint
    is_name frontend_service_of
accumulator_args = refl

-- The dispenser that was there stays.
dispenser_stays : after.deployments "games" "rivalry-dispenser" ≡ some other_dispenser
unfolding reconcile frontend_of accumulator_name accumulator_of matcher_name matcher_of is_name
    frontend_service_of
dispenser_stays = refl

-- Kubernetes refuses what is built for some names of queues.
no_name : is_name (accumulator_name (queue "Duel_1")) ≡ false
unfolding is_name accumulator_name
no_name = refl
