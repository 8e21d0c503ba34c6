-- ===== src/Operator/Deploys.antt =====
-- A whole reconciliation.
use rivalry.Prelude.{String, refl, List, [], ◌∷◌, All, All-map}
use rivalry.Prelude.Results.{Result, ok, err}
use rivalry.Operator.Profiles.{Profile, MatchmakingQueue}
use rivalry.Operator.Cluster.{
  Kubernetes, ClusterView, IsKubernetes, frontend_deployment, accumulator_deployment,
  matcher_deployment, dispenser_deployment,
}
use rivalry.Operator.Grows.{
  IsAmong, here, there, dispenser, accumulator, matcher, frontend, Grows, Grows-same,
}
use rivalry.Operator.Makes.{make_deployment-Runs, configure_frontend_service-Runs}
use rivalry.Operator.Runs.{
  IsThere, Runs, Runs-then, IsThere-stays, service_stays, deployment_is_configured-Checks,
  frontend_service_is_configured-Checks, unless_configured-Runs,
}
use rivalry.Operator.{
  frontend_name, dispenser_name, accumulator_name, matcher_name, dispenser_of, accumulator_of,
  matcher_of, frontend_of, configure_frontend_deployment, configure_accumulator_deployment,
  configure_matcher_deployment, configure_dispenser_deployment, reconcile_frontend,
  reconcile_accumulators, reconcile_matchers, reconcile_dispenser, reconcile_profile,
}

module _ {W : Type 0} (v : ClusterView W) (i : Profile) where
  abbrev pub AreThere : (MatchmakingQueue → String) → List MatchmakingQueue → W → Type 0
  AreThere name_of mps w = All (λ mp. IsThere (v.deployments w) i.namespace (name_of mp)) mps

  abbrev pub HasFrontend : W → Type 0
  HasFrontend w =
      IsThere (v.services w) i.namespace frontend_name
      × IsThere (v.deployments w) i.namespace frontend_name

  -- All that the profile asks for is in the cluster.
  pub record IsDeployed (w : W) : Type 0 where
    pub has_frontend : HasFrontend w
    pub has_accumulators : AreThere accumulator_name i.spec.matchmaking_queues w
    pub has_matchers : AreThere matcher_name i.spec.matchmaking_queues w
    pub has_dispenser : IsThere (v.deployments w) i.namespace dispenser_name

module _ {W : Type 0} {v : ClusterView W} {k : Kubernetes W} (sound : IsKubernetes v k)
    (i : Profile) where
  pub AreThere-stays :
      (name_of : MatchmakingQueue → String) (mps : List MatchmakingQueue) (w w' : W)
      → Grows v k i w w'
      → AreThere v i name_of mps w
      → AreThere v i name_of mps w'
  AreThere-stays name_of mps w w' g h =
      All-map mps (λ mp. IsThere-stays v k i i.namespace (name_of mp) w w' g) h

  pub HasFrontend-stays : (w w' : W) → Grows v k i w w' → HasFrontend v i w → HasFrontend v i w'
  HasFrontend-stays w w' g (s, d) = (
    service_stays v k i i.namespace frontend_name w w' g s,
    IsThere-stays v k i i.namespace frontend_name w w' g d,
  )

  reconcile_frontend-Runs : (w : W) → Runs v k i (HasFrontend v i) w (reconcile_frontend k i w)
  unfolding reconcile_frontend configure_frontend_deployment frontend_of
  reconcile_frontend-Runs w =
      Runs-then v k i _ _ (service_stays v k i i.namespace frontend_name) w _ _
        (unless_configured-Runs sound i v.services i.namespace frontend_name _ _
          (frontend_service_is_configured-Checks sound i) (configure_frontend_service-Runs sound i)
          w)
        (unless_configured-Runs sound i v.deployments i.namespace frontend_name _ _
          (deployment_is_configured-Checks sound i i.namespace frontend_name)
          (make_deployment-Runs sound i frontend_deployment (frontend_of i) frontend_name
            (λ s e. (e, refl)) (λ s m. frontend s m refl)))

  reconcile_dispenser-Runs :
      (w : W)
      → Runs v k i
          (λ w'. IsThere (v.deployments w') i.namespace dispenser_name)
          w
          (reconcile_dispenser k i w)
  unfolding reconcile_dispenser configure_dispenser_deployment dispenser_of
  reconcile_dispenser-Runs w =
      unless_configured-Runs sound i v.deployments i.namespace dispenser_name _ _
        (deployment_is_configured-Checks sound i i.namespace dispenser_name)
        (make_deployment-Runs sound i dispenser_deployment (dispenser_of i) dispenser_name
          (λ s e. (e, refl)) (λ s m. dispenser s m refl))
        w

  reconcile_accumulators-Runs :
      (mps : List MatchmakingQueue)
      → ((mp : MatchmakingQueue) → IsAmong mp mps → IsAmong mp i.spec.matchmaking_queues)
      → (w : W)
      → Runs v k i (AreThere v i accumulator_name mps) w (reconcile_accumulators k i mps w)
  unfolding reconcile_accumulators configure_accumulator_deployment accumulator_of
  reconcile_accumulators-Runs [] among w = (Grows-same v k i w w (refl, refl), tt)
  reconcile_accumulators-Runs (mp ∷ mps) among w =
      Runs-then v k i _ _ (IsThere-stays v k i i.namespace (accumulator_name mp)) w _ _
        (unless_configured-Runs sound i v.deployments i.namespace (accumulator_name mp) _ _
          (deployment_is_configured-Checks sound i i.namespace (accumulator_name mp))
          (make_deployment-Runs sound i accumulator_deployment (accumulator_of i mp)
            (accumulator_name mp) (λ s e. (refl, refl))
            (λ s m. accumulator mp s (among mp here) m refl))
          w)
        (reconcile_accumulators-Runs mps (λ other h. among other (there h)))

  reconcile_matchers-Runs :
      (mps : List MatchmakingQueue)
      → ((mp : MatchmakingQueue) → IsAmong mp mps → IsAmong mp i.spec.matchmaking_queues)
      → (w : W) → Runs v k i (AreThere v i matcher_name mps) w (reconcile_matchers k i mps w)
  unfolding reconcile_matchers configure_matcher_deployment matcher_of
  reconcile_matchers-Runs [] among w = (Grows-same v k i w w (refl, refl), tt)
  reconcile_matchers-Runs (mp ∷ mps) among w =
      Runs-then v k i _ _ (IsThere-stays v k i i.namespace (matcher_name mp)) w _ _
        (unless_configured-Runs sound i v.deployments i.namespace (matcher_name mp) _ _
          (deployment_is_configured-Checks sound i i.namespace (matcher_name mp))
          (make_deployment-Runs sound i matcher_deployment (matcher_of i mp) (matcher_name mp)
            (λ s e. (refl, refl)) (λ s m. matcher mp s (among mp here) m refl))
          w)
        (reconcile_matchers-Runs mps (λ other h. among other (there h)))

  pub reconcile_profile-Runs : (w : W) → Runs v k i (IsDeployed v i) w (reconcile_profile k i w)
  unfolding reconcile_profile
  reconcile_profile-Runs w = deployed _ all
    where
      all :
          Runs v k i
            (λ w'.
              ((HasFrontend v i w' × AreThere v i accumulator_name i.spec.matchmaking_queues w')
                × AreThere v i matcher_name i.spec.matchmaking_queues w')
              × IsThere (v.deployments w') i.namespace dispenser_name)
            w
            (reconcile_profile k i w)
      all =
          Runs-then v k i _ _
            (λ a b g ((f, m), n). (
              (HasFrontend-stays a b g f, AreThere-stays accumulator_name _ a b g m),
              AreThere-stays matcher_name _ a b g n,
            ))
            w _ _
            (Runs-then v k i _ _
              (λ a b g (f, m).
                (HasFrontend-stays a b g f, AreThere-stays accumulator_name _ a b g m))
              w _ _
              (Runs-then v k i _ _ HasFrontend-stays w _ _ (reconcile_frontend-Runs w)
                (reconcile_accumulators-Runs _ (λ mp h. h)))
              (reconcile_matchers-Runs _ (λ mp h. h)))
            reconcile_dispenser-Runs

      deployed :
          (o : Result (Unit {0}) × W)
          → Runs v k i
              (λ w'.
                ((HasFrontend v i w' × AreThere v i accumulator_name i.spec.matchmaking_queues w')
                  × AreThere v i matcher_name i.spec.matchmaking_queues w')
                × IsThere (v.deployments w') i.namespace dispenser_name)
              w
              o
          → Runs v k i (IsDeployed v i) w o
      deployed (ok _, w') (g, (((f, a), m), d)) = (
        g,
        record { has_frontend = f; has_accumulators = a; has_matchers = m; has_dispenser = d },
      )
      deployed (err _, w') g = g
