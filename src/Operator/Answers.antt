-- ===== src/Operator/Answers.antt =====
-- In a cluster that answers and admits what is built, a reconciliation ends without an error.
use rivalry.Prelude.{String, ◌≡◌, ◌≢◌, refl, ap, ◌∙◌, Bool, true, false, none, some, List, [], ◌∷◌}
use rivalry.Prelude.Results.{Action, Result, ok, err, Error, and_then}
use rivalry.Operator.Profiles.{Profile, MatchmakingQueue}
use rivalry.Operator.Cluster.{
  Kubernetes, ClusterView, IsKubernetes, IsWorking, Admission, Objects, Deployment, Service,
  Template, frontend_service, frontend_deployment, accumulator_deployment, matcher_deployment,
  dispenser_deployment, template_name,
}
use rivalry.Operator.Grows.{
  IsAmong, here, there, IsBuilt, IsAdmitted, dispenser, accumulator, matcher, frontend,
}
use rivalry.Operator.Runs.{
  Checks, deployment_is_configured-Checks, frontend_service_is_configured-Checks,
}
use rivalry.Operator.{
  found_or_not, deployment_is_configured, frontend_service_is_configured, make_deployment,
  unless_configured, when_missing, configure_frontend_service, configure_frontend_deployment,
  configure_accumulator_deployment, configure_matcher_deployment, configure_dispenser_deployment,
  frontend_name, dispenser_name, accumulator_name, matcher_name, dispenser_of, accumulator_of,
  matcher_of, frontend_of, frontend_service_of, reconcile_frontend, reconcile_accumulators,
  reconcile_matchers, reconcile_dispenser, reconcile_profile,
}

module _ {W : Type 0} where
  -- The call returned no error.
  abbrev pub Succeeds : {A : Type 0} → Result A × W → Type 0
  Succeeds {A} o = (a : A) × (o.0 ≡ ok a)

  Succeeds-then :
      (o : Result (Unit {0}) × W) (f : Action W (Unit {0}))
      → Succeeds o
      → ((w1 : W) → Succeeds (f w1))
      → Succeeds (and_then (λ _. f) o)
  Succeeds-then (ok a, w1) f h next = next w1
  Succeeds-then (err e, w1) f (a, q) next = cc

module _ {W : Type 0} {v : ClusterView W} {k : Kubernetes W} (sound : IsKubernetes v k)
    {admits : Admission} (working : IsWorking v k admits) (i : Profile)
    (admitted : IsAdmitted k i admits) where
  found_or_not-Succeeds :
      {A : Type 0} (o : Result A × W)
      → ((e : Error) (w' : W) → o ≡ (err e, w') → k.is_not_found e ≡ true)
      → Succeeds (found_or_not k o)
  unfolding found_or_not
  found_or_not-Succeeds (ok a, w) answers = (true, refl)
  found_or_not-Succeeds (err e, w) answers = rw (answers e w refl) (false, refl)

  make_deployment-Succeeds :
      (t : Template) (configured : Deployment → Deployment) (j : String)
      → t ≢ frontend_service
      → ((s : Deployment)
          → s.name ≡ template_name t
          → ((configured s).name ≡ j)
            × ((configured s).namespace ≡ i.namespace)
            × ((configured s).owner ≡ s.owner))
      → ((s : Deployment)
          → k.unmarshal_deployment t ≡ ok s
          → IsBuilt k i (record (configured s) { owner = some i.name }))
      → (w : W) → v.deployments w i.namespace j ≡ none
      → Succeeds (make_deployment k i t configured w)
  unfolding make_deployment
  make_deployment-Succeeds t configured j is_deployment named built w free =
      after_template (working.unmarshal_deployment_answers t is_deployment)
    where
      after_owner :
          (s d : Deployment)
          → k.unmarshal_deployment t ≡ ok s
          → k.own_deployment i (configured s) ≡ ok d
          → (k.create_deployment d w).0 ≡ ok tt
      after_owner s d m o =
          let is_d = sound.own_deployment_lem i (configured s) d o in
          let says = named s (sound.unmarshal_deployment_lem t s m).0 in
          let n : d.namespace ≡ i.namespace = ap (λ x. x.namespace) is_d ∙ says.1 in
          let e : d.name ≡ j = ap (λ x. x.name) is_d ∙ says.0 in
          working.create_deployment_answers d w
            (admitted.admits_deployments d (rw is_d (built s m)))
            (ap (λ x. v.deployments w x d.name) n ∙ ap (v.deployments w i.namespace) e ∙ free)

      after_template :
          (s : Deployment) × (k.unmarshal_deployment t ≡ ok s)
          → Succeeds (
              and_then
                (λ s w1. and_then k.create_deployment (k.own_deployment i (configured s), w1))
                (k.unmarshal_deployment t, w))
      after_template (s, m) =
          let laws = sound.unmarshal_deployment_lem t s m in
          let says = named s laws.0 in
          let owned = working.own_deployment_answers i (configured s) (says.2 ∙ laws.1) says.1 in
          rw (m, owned.1) (tt, after_owner s owned.0 m owned.1)

  configure_frontend_service-Succeeds :
      (w : W)
      → v.services w i.namespace frontend_name ≡ none
      → Succeeds (configure_frontend_service k i w)
  unfolding configure_frontend_service frontend_service_of
  configure_frontend_service-Succeeds w free = after_template working.unmarshal_service_answers
    where
      after_owner :
          (s d : Service)
          → k.unmarshal_service frontend_service ≡ ok s
          → k.own_service i (frontend_service_of i s) ≡ ok d
          → (k.create_service d w).0 ≡ ok tt
      after_owner s d m o =
          let is_d = sound.own_service_lem i (frontend_service_of i s) d o in
          let n : d.namespace ≡ i.namespace = ap (λ x. x.namespace) is_d in
          let e : d.name ≡ frontend_name =
            ap (λ x. x.name) is_d ∙ (sound.unmarshal_service_lem frontend_service s m).0 in
          working.create_service_answers d w (admitted.admits_service d (s, m, is_d))
            (ap (λ x. v.services w x d.name) n ∙ ap (v.services w i.namespace) e ∙ free)

      after_template :
          (s : Service) × (k.unmarshal_service frontend_service ≡ ok s)
          → Succeeds (
              and_then
                (λ s w1. and_then k.create_service (k.own_service i (frontend_service_of i s), w1))
                (k.unmarshal_service frontend_service, w))
      after_template (s, m) =
          let laws = sound.unmarshal_service_lem frontend_service s m in
          let owned = working.own_service_answers i (frontend_service_of i s) laws.1 refl in
          rw (m, owned.1) (tt, after_owner s owned.0 m owned.1)

  unless_configured-Succeeds :
      {A : Type 0} (objects : W → Objects A) (n j : String) (check : Action W Bool)
      (configure : Action W (Unit {0})) (w : W)
      → Checks sound i objects n j w (check w)
      → Succeeds (check w)
      → ((w1 : W) → objects w1 n j ≡ none → Succeeds (configure w1))
      → Succeeds (unless_configured k check configure w)
  unfolding unless_configured when_missing
  unless_configured-Succeeds objects n j check configure w checks answers makes =
      after_check (check w) checks answers
    where
      after_check :
          (o : Result Bool × W)
          → Checks sound i objects n j w o
          → Succeeds o
          → Succeeds (and_then (λ configured. when_missing k configured configure) o)
      after_check (ok true, w1) h a = (tt, refl)
      after_check (ok false, w1) (_, free, _) a = makes w1 free
      after_check (err e, w1) h (a, q) = cc

  -- A deployment of the profile, whether it is there already or not.
  deployment-Succeeds :
      (t : Template) (configured : Deployment → Deployment) (j : String)
      → t ≢ frontend_service
      → ((s : Deployment)
          → s.name ≡ template_name t
          → ((configured s).name ≡ j)
            × ((configured s).namespace ≡ i.namespace)
            × ((configured s).owner ≡ s.owner))
      → ((s : Deployment)
          → k.unmarshal_deployment t ≡ ok s
          → IsBuilt k i (record (configured s) { owner = some i.name }))
      → (w : W)
      → Succeeds (
          unless_configured k
            (deployment_is_configured k i.namespace j)
            (make_deployment k i t configured)
            w)
  unfolding deployment_is_configured
  deployment-Succeeds t configured j is_deployment named built w =
      unless_configured-Succeeds v.deployments i.namespace j _ _ w
        (deployment_is_configured-Checks sound i i.namespace j w)
        (found_or_not-Succeeds _ (λ e w'. working.get_deployment_answers i.namespace j w w' e))
        (make_deployment-Succeeds t configured j is_deployment named built)

  service-Succeeds :
      (w : W)
      → Succeeds (
          unless_configured k
            (frontend_service_is_configured k i)
            (configure_frontend_service k i)
            w)
  unfolding frontend_service_is_configured
  service-Succeeds w =
      unless_configured-Succeeds v.services i.namespace frontend_name _ _ w
        (frontend_service_is_configured-Checks sound i w)
        (found_or_not-Succeeds _
          (λ e w'. working.get_service_answers i.namespace frontend_name w w' e))
        configure_frontend_service-Succeeds

  reconcile_accumulators-Succeeds :
      (mps : List MatchmakingQueue)
      → ((mp : MatchmakingQueue) → IsAmong mp mps → IsAmong mp i.spec.matchmaking_queues)
      → (w : W) → Succeeds (reconcile_accumulators k i mps w)
  unfolding reconcile_accumulators configure_accumulator_deployment accumulator_of
  reconcile_accumulators-Succeeds [] among w = (tt, refl)
  reconcile_accumulators-Succeeds (mp ∷ mps) among w =
      Succeeds-then _ _
        (deployment-Succeeds accumulator_deployment (accumulator_of i mp) (accumulator_name mp) (cc)
          (λ s e. (refl, refl, refl)) (λ s m. accumulator mp s (among mp here) m refl) w)
        (reconcile_accumulators-Succeeds mps (λ other h. among other (there h)))

  reconcile_matchers-Succeeds :
      (mps : List MatchmakingQueue)
      → ((mp : MatchmakingQueue) → IsAmong mp mps → IsAmong mp i.spec.matchmaking_queues)
      → (w : W) → Succeeds (reconcile_matchers k i mps w)
  unfolding reconcile_matchers configure_matcher_deployment matcher_of
  reconcile_matchers-Succeeds [] among w = (tt, refl)
  reconcile_matchers-Succeeds (mp ∷ mps) among w =
      Succeeds-then _ _
        (deployment-Succeeds matcher_deployment (matcher_of i mp) (matcher_name mp) (cc)
          (λ s e. (refl, refl, refl)) (λ s m. matcher mp s (among mp here) m refl) w)
        (reconcile_matchers-Succeeds mps (λ other h. among other (there h)))

  reconcile_frontend-Succeeds : (w : W) → Succeeds (reconcile_frontend k i w)
  unfolding reconcile_frontend configure_frontend_deployment frontend_of
  reconcile_frontend-Succeeds w = Succeeds-then _ _ (service-Succeeds w) (λ w1.
      deployment-Succeeds frontend_deployment (frontend_of i) frontend_name (cc)
        (λ s e. (e, refl, refl)) (λ s m. frontend s m refl) w1)

  pub reconcile_profile-Succeeds : (w : W) → Succeeds (reconcile_profile k i w)
  unfolding reconcile_profile reconcile_dispenser configure_dispenser_deployment dispenser_of
  reconcile_profile-Succeeds w =
      Succeeds-then _ _
        (Succeeds-then _ _
          (Succeeds-then _ _ (reconcile_frontend-Succeeds w)
            (reconcile_accumulators-Succeeds _ (λ mp h. h)))
          (reconcile_matchers-Succeeds _ (λ mp h. h)))
        (λ w1.
          deployment-Succeeds dispenser_deployment (dispenser_of i) dispenser_name (cc)
            (λ s e. (e, refl, refl)) (λ s m. dispenser s m refl) w1)
