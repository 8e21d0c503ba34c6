-- ===== src/Operator/Makes.antt =====
-- The ends of a reconciliation's steps: making a deployment or the service.
use rivalry.Prelude.{String, ◌≡◌, refl, sym, ap, ◌∙◌, inl, inr, some, eq_refl}
use rivalry.Prelude.Results.{Result, ok, err, and_then}
use rivalry.Operator.Profiles.{Profile}
use rivalry.Operator.Cluster.{
  Kubernetes, ClusterView, IsKubernetes, CreatesDeployment, CreatesService, Deployment, Service,
  Template, template_name, frontend_service,
}
use rivalry.Operator.Grows.{IsBuilt, IsBuiltService, Grows-same, Grows-deployment, Grows-service}
use rivalry.Operator.{
  make_deployment, configure_frontend_service, frontend_service_of, frontend_name,
}
use rivalry.Operator.Runs.{IsThere, Runs}

module _ {W : Type 0} {v : ClusterView W} {k : Kubernetes W} (sound : IsKubernetes v k)
    (i : Profile) where
  -- A deployment that is built for the profile, under the name that the check looks for.
  pub make_deployment-Runs :
      (t : Template) (configured : Deployment → Deployment) (j : String)
      → ((s : Deployment)
          → s.name ≡ template_name t
          → ((configured s).name ≡ j) × ((configured s).namespace ≡ i.namespace))
      → ((s : Deployment)
          → k.unmarshal_deployment t ≡ ok s
          → IsBuilt k i (record (configured s) { owner = some i.name }))
      → (w : W)
      → Runs v k i
          (λ w'. IsThere (v.deployments w') i.namespace j)
          w
          (make_deployment k i t configured w)
  unfolding make_deployment
  make_deployment-Runs t configured j named built w = after_template (k.unmarshal_deployment t) refl
    where
      created :
          (d : Deployment)
          → IsBuilt k i d
          → d.name ≡ j
          → d.namespace ≡ i.namespace
          → (o : Result (Unit {0}) × W) → CreatesDeployment v k.is_not_found d w o
          → Runs v k i (λ w'. IsThere (v.deployments w') i.namespace j) w o
      created d b e n (ok _, w') (free, made, same) = (
        Grows-deployment v k i d w w' b free made same,
        (d, ap (λ f. f i.namespace j) made ∙ rw (← e, ← n, eq_refl d.namespace, eq_refl d.name)),
      )
      created d b e n (err _, w') (inl same) = Grows-same v k i w w' same
      created d b e n (err _, w') (inr (free, made, same)) =
          Grows-deployment v k i d w w' b free made same

      after_owner :
          (s : Deployment)
          → k.unmarshal_deployment t ≡ ok s
          → (r : Result Deployment) → k.own_deployment i (configured s) ≡ r
          → Runs v k i
              (λ w'. IsThere (v.deployments w') i.namespace j)
              w
              (and_then k.create_deployment (r, w))
      after_owner s m (ok d) o =
          let is_d : d ≡ record (configured s) { owner = some i.name } =
            sound.own_deployment_lem i (configured s) d o in
          let named_s = named s (sound.unmarshal_deployment_lem t s m).0 in
          created d (subst_built (sym is_d) (built s m)) (ap (λ x. x.name) is_d ∙ named_s.0)
            (ap (λ x. x.namespace) is_d ∙ named_s.1) _ (sound.create_deployment_lem d w)
        where
          subst_built : {a b : Deployment} → a ≡ b → IsBuilt k i a → IsBuilt k i b
          subst_built e x = rw (← e) x
      after_owner s m (err _) o = Grows-same v k i w w (refl, refl)

      after_template :
          (r : Result Deployment)
          → k.unmarshal_deployment t ≡ r
          → Runs v k i
              (λ w'. IsThere (v.deployments w') i.namespace j)
              w
              (and_then
                (λ s w1. and_then k.create_deployment (k.own_deployment i (configured s), w1))
                (r, w))
      after_template (ok s) m = after_owner s m (k.own_deployment i (configured s)) refl
      after_template (err _) m = Grows-same v k i w w (refl, refl)

  pub configure_frontend_service-Runs :
      (w : W)
      → Runs v k i
          (λ w'. IsThere (v.services w') i.namespace frontend_name)
          w
          (configure_frontend_service k i w)
  unfolding configure_frontend_service frontend_service_of
  configure_frontend_service-Runs w = after_template (k.unmarshal_service frontend_service) refl
    where
      created :
          (d : Service)
          → IsBuiltService k i d
          → d.name ≡ frontend_name
          → d.namespace ≡ i.namespace
          → (o : Result (Unit {0}) × W) → CreatesService v k.is_not_found d w o
          → Runs v k i (λ w'. IsThere (v.services w') i.namespace frontend_name) w o
      created d b e n (ok _, w') (free, made, same) = (
        Grows-service v k i d w w' b free made same,
        (
          d,
          ap (λ f. f i.namespace frontend_name) made
              ∙ rw (← e, ← n, eq_refl d.namespace, eq_refl d.name),
        ),
      )
      created d b e n (err _, w') (inl same) = Grows-same v k i w w' same
      created d b e n (err _, w') (inr (free, made, same)) =
          Grows-service v k i d w w' b free made same

      after_owner :
          (s : Service)
          → k.unmarshal_service frontend_service ≡ ok s
          → (r : Result Service) → k.own_service i (frontend_service_of i s) ≡ r
          → Runs v k i
              (λ w'. IsThere (v.services w') i.namespace frontend_name)
              w
              (and_then k.create_service (r, w))
      after_owner s m (ok d) o =
          let is_d = sound.own_service_lem i (frontend_service_of i s) d o in
          created d (s, m, is_d)
            (ap (λ x. x.name) is_d ∙ (sound.unmarshal_service_lem frontend_service s m).0)
            (ap (λ x. x.namespace) is_d) _ (sound.create_service_lem d w)
      after_owner s m (err _) o = Grows-same v k i w w (refl, refl)

      after_template :
          (r : Result Service)
          → k.unmarshal_service frontend_service ≡ r
          → Runs v k i
              (λ w'. IsThere (v.services w') i.namespace frontend_name)
              w
              (and_then
                (λ s w1. and_then k.create_service (k.own_service i (frontend_service_of i s), w1))
                (r, w))
      after_template (ok s) m = after_owner s m (k.own_service i (frontend_service_of i s)) refl
      after_template (err _) m = Grows-same v k i w w (refl, refl)
