-- ===== src/Operator/Again.antt =====
-- A reconciliation of what is deployed already.
use rivalry.Prelude.{refl, ◌∙◌, List, [], ◌∷◌}
use rivalry.Prelude.Results.{Action, Result, ok, err, and_then, ◌>>◌}
use rivalry.Operator.Profiles.{Profile, MatchmakingQueue}
use rivalry.Operator.Cluster.{Kubernetes, ClusterView, IsKubernetes, IsSame}
use rivalry.Operator.Grows.{Grows, Grows-same}
use rivalry.Operator.Runs.{
  LeavesAlone, deployment_is_configured-OnlyReadFails, frontend_service_is_configured-OnlyReadFails,
  IsThere, IsThere-stays, unless_configured-LeavesAlone, deployment_is_configured-Checks,
  frontend_service_is_configured-Checks,
}
use rivalry.Operator.Deploys.{IsDeployed, AreThere, HasFrontend, AreThere-stays, HasFrontend-stays}
use rivalry.Operator.{
  configure_frontend_service, configure_frontend_deployment, unless_configured,
  frontend_deployment_is_configured, reconcile_profile, reconcile_frontend, reconcile_accumulators,
  reconcile_matchers, reconcile_dispenser, frontend_name, dispenser_name, accumulator_name,
  matcher_name,
}

module _ {W : Type 0} (v : ClusterView W) (k : Kubernetes W) where
  -- Where `P` holds, the call leaves the cluster alone.
  abbrev Leaves : (W → Type 0) → Action W (Unit {0}) → Type 0
  Leaves P f = (w : W) → P w → LeavesAlone v k w (f w)

  Leaves-then :
      (P : W → Type 0)
      → ((w w' : W) → IsSame v k.is_not_found w w' → P w → P w')
      → (w : W) (o : Result (Unit {0}) × W) (g : Action W (Unit {0})) → P w
      → LeavesAlone v k w o
      → Leaves P g
      → LeavesAlone v k w (and_then (λ _. g) o)
  Leaves-then P stable w (ok _, w1) g p (q, _) second =
      let (r, reads) = second w1 (stable w w1 q p) in ((r.0 ∙ q.0, r.1 ∙ q.1), reads)
  Leaves-then P stable w (err _, w1) g p q second = q

module _ {W : Type 0} {v : ClusterView W} {k : Kubernetes W} (sound : IsKubernetes v k)
    (i : Profile) where
  reconcile_accumulators-Leaves :
      (mps : List MatchmakingQueue)
      → Leaves v k (AreThere v i accumulator_name mps) (reconcile_accumulators k i mps)
  unfolding reconcile_accumulators
  reconcile_accumulators-Leaves [] w p = ((refl, refl), tt)
  reconcile_accumulators-Leaves (mp ∷ mps) w p =
      Leaves-then v k (AreThere v i accumulator_name (mp ∷ mps))
        (λ a b q. AreThere-stays sound i accumulator_name (mp ∷ mps) a b (Grows-same v k i a b q)) w
        _ _ p
        (unless_configured-LeavesAlone sound i v.deployments i.namespace (accumulator_name mp) _ _
          (deployment_is_configured-Checks sound i i.namespace (accumulator_name mp))
          (deployment_is_configured-OnlyReadFails k i.namespace (accumulator_name mp)) w p.0)
        (λ w p. reconcile_accumulators-Leaves mps w p.1)

  reconcile_matchers-Leaves :
      (mps : List MatchmakingQueue)
      → Leaves v k (AreThere v i matcher_name mps) (reconcile_matchers k i mps)
  unfolding reconcile_matchers
  reconcile_matchers-Leaves [] w p = ((refl, refl), tt)
  reconcile_matchers-Leaves (mp ∷ mps) w p =
      Leaves-then v k (AreThere v i matcher_name (mp ∷ mps))
        (λ a b q. AreThere-stays sound i matcher_name (mp ∷ mps) a b (Grows-same v k i a b q)) w _ _
        p
        (unless_configured-LeavesAlone sound i v.deployments i.namespace (matcher_name mp) _ _
          (deployment_is_configured-Checks sound i i.namespace (matcher_name mp))
          (deployment_is_configured-OnlyReadFails k i.namespace (matcher_name mp)) w p.0)
        (λ w p. reconcile_matchers-Leaves mps w p.1)

  reconcile_frontend-Leaves : Leaves v k (HasFrontend v i) (reconcile_frontend k i)
  unfolding reconcile_frontend
  reconcile_frontend-Leaves w p =
      Leaves-then v k (HasFrontend v i)
        (λ a b q. HasFrontend-stays sound i a b (Grows-same v k i a b q)) w _
        (unless_configured k (frontend_deployment_is_configured k i)
          (configure_frontend_deployment k i))
        p
        (unless_configured-LeavesAlone sound i v.services i.namespace frontend_name _
          (configure_frontend_service k i) (frontend_service_is_configured-Checks sound i)
          (frontend_service_is_configured-OnlyReadFails k i) w p.0)
        (λ w p.
          unless_configured-LeavesAlone sound i v.deployments i.namespace frontend_name _
            (configure_frontend_deployment k i)
            (deployment_is_configured-Checks sound i i.namespace frontend_name)
            (deployment_is_configured-OnlyReadFails k i.namespace frontend_name) w p.1)

  reconcile_dispenser-Leaves :
      Leaves v k
        (λ w. IsThere (v.deployments w) i.namespace dispenser_name)
        (reconcile_dispenser k i)
  unfolding reconcile_dispenser
  reconcile_dispenser-Leaves w p =
      unless_configured-LeavesAlone sound i v.deployments i.namespace dispenser_name _ _
        (deployment_is_configured-Checks sound i i.namespace dispenser_name)
        (deployment_is_configured-OnlyReadFails k i.namespace dispenser_name) w p

  pub IsDeployed-stays : (w w' : W) → Grows v k i w w' → IsDeployed v i w → IsDeployed v i w'
  IsDeployed-stays w w' g p = record {
    has_frontend = HasFrontend-stays sound i w w' g p.has_frontend;
    has_accumulators = AreThere-stays sound i accumulator_name _ w w' g p.has_accumulators;
    has_matchers = AreThere-stays sound i matcher_name _ w w' g p.has_matchers;
    has_dispenser = IsThere-stays v k i i.namespace dispenser_name w w' g p.has_dispenser;
  }

  pub reconcile_profile-Leaves :
      (w : W) → IsDeployed v i w → LeavesAlone v k w (reconcile_profile k i w)
  unfolding reconcile_profile
  reconcile_profile-Leaves w p =
      Leaves-then v k (IsDeployed v i) stable w
        ((reconcile_frontend k i
            >> reconcile_accumulators k i i.spec.matchmaking_queues
            >> reconcile_matchers k i i.spec.matchmaking_queues)
          w)
        (reconcile_dispenser k i) p
        (Leaves-then v k (IsDeployed v i) stable w
          ((reconcile_frontend k i >> reconcile_accumulators k i i.spec.matchmaking_queues) w)
          (reconcile_matchers k i i.spec.matchmaking_queues) p
          (Leaves-then v k (IsDeployed v i) stable w (reconcile_frontend k i w)
            (reconcile_accumulators k i i.spec.matchmaking_queues) p
            (reconcile_frontend-Leaves w p.has_frontend)
            (λ a q. reconcile_accumulators-Leaves _ a q.has_accumulators))
          (λ a q. reconcile_matchers-Leaves _ a q.has_matchers))
        (λ a q. reconcile_dispenser-Leaves a q.has_dispenser)
    where
      stable : (w w' : W) → IsSame v k.is_not_found w w' → IsDeployed v i w → IsDeployed v i w'
      stable w w' q = IsDeployed-stays w w' (Grows-same v k i w w' q)
