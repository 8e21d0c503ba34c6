-- ===== src/Operator/Grows.antt =====
-- What a run of the operator can do to a cluster: nothing but to add objects that it builds.
use rivalry.Prelude.{
  String, ◌≡◌, refl, sym, ap, ◌∙◌, subst, ◌⊎◌, inl, inr, true, ◌&&◌, some, none, List, ◌∷◌, ◌==◌,
  eq_iff, Bool-cases, arith,
}
use rivalry.Prelude.Results.{ok}
use rivalry.Operator.Profiles.{Profile, MatchmakingQueue}
use rivalry.Operator.Cluster.{
  Kubernetes, ClusterView, Admission, IsSame, Objects, with_object, Deployment, Service,
  frontend_service, frontend_deployment, accumulator_deployment, matcher_deployment,
  dispenser_deployment,
}
use rivalry.Operator.{dispenser_of, accumulator_of, matcher_of, frontend_of, frontend_service_of}

-- The queue is one of the list.
pub data IsAmong (mp : MatchmakingQueue) : List MatchmakingQueue → Type 0 where
  here : {mps : List MatchmakingQueue} → IsAmong mp (mp ∷ mps)
  there :
      {other : MatchmakingQueue} {mps : List MatchmakingQueue}
      → IsAmong mp mps
      → IsAmong mp (other ∷ mps)

module _ {W : Type 0} (k : Kubernetes W) (i : Profile) where
  -- The deployments that the operator builds for a profile: a template, configured and owned.
  pub data IsBuilt (d : Deployment) : Type 0 where
    dispenser :
        (s : Deployment)
        → k.unmarshal_deployment dispenser_deployment ≡ ok s
        → d ≡ record (dispenser_of i s) { owner = some i.name }
        → IsBuilt d
    accumulator :
        (mp : MatchmakingQueue) (s : Deployment)
        → IsAmong mp i.spec.matchmaking_queues
        → k.unmarshal_deployment accumulator_deployment ≡ ok s
        → d ≡ record (accumulator_of i mp s) { owner = some i.name }
        → IsBuilt d
    matcher :
        (mp : MatchmakingQueue) (s : Deployment)
        → IsAmong mp i.spec.matchmaking_queues
        → k.unmarshal_deployment matcher_deployment ≡ ok s
        → d ≡ record (matcher_of i mp s) { owner = some i.name }
        → IsBuilt d
    frontend :
        (s : Deployment)
        → k.unmarshal_deployment frontend_deployment ≡ ok s
        → d ≡ record (frontend_of i s) { owner = some i.name }
        → IsBuilt d

  -- Such a deployment, where it belongs in the cluster.
  abbrev pub IsBuiltAt : String → String → Deployment → Type 0
  IsBuiltAt n j d = IsBuilt d × (d.namespace ≡ n) × (d.name ≡ j)

  abbrev pub IsBuiltService : Service → Type 0
  IsBuiltService s =
      (t : Service) × (k.unmarshal_service frontend_service ≡ ok t)
      × (s ≡ record (frontend_service_of i t) { owner = some i.name })

  abbrev pub IsBuiltServiceAt : String → String → Service → Type 0
  IsBuiltServiceAt n j s = IsBuiltService s × (s.namespace ≡ n) × (s.name ≡ j)

  -- All that the operator builds for the profile is admitted.
  pub record IsAdmitted (admits : Admission) : Type 0 where
    pub admits_deployments : (d : Deployment) → IsBuilt d → admits.deployment d ≡ true
    pub admits_service : (s : Service) → IsBuiltService s → admits.service s ≡ true

module _ {A : Type 0} where
  abbrev pub Keeps : Objects A → Objects A → Type 0
  Keeps f g = (n k : String) (a : A) → f n k ≡ some a → g n k ≡ some a

  abbrev pub AddsOnly : (String → String → A → Type 0) → Objects A → Objects A → Type 0
  AddsOnly P f g = (n k : String) (a : A) → g n k ≡ some a → (f n k ≡ some a) ⊎ P n k a

  Keeps-with_object :
      (n k : String) (a : A) (f : Objects A) → f n k ≡ none → Keeps f (with_object n k a f)
  Keeps-with_object n k a f free m j b e = elim (Bool-cases (n == m && k == j)) [
    | inl same ↦
        let same_n : n ≡ m = (eq_iff n m).0 (ground arith) in
        let same_k : k ≡ j = (eq_iff k j).0 (ground arith) in absurd (cc (e, free, same_n, same_k))
    | inr other ↦ rw other e
  ]

  AddsOnly-with_object :
      (P : String → String → A → Type 0) (n k : String) (a : A) (f : Objects A)
      → P n k a
      → AddsOnly P f (with_object n k a f)
  AddsOnly-with_object P n k a f built m j b e = elim (Bool-cases (n == m && k == j)) [
    | inl same ↦
        let same_n : n ≡ m = (eq_iff n m).0 (ground arith) in
        let same_k : k ≡ j = (eq_iff k j).0 (ground arith) in
        let is_a : a ≡ b = ground arith in
        inr (subst (λ x. P x j b) same_n (subst (λ x. P n x b) same_k (subst (P n k) is_a built)))
    | inr other ↦ inl (ground arith)
  ]

module _ {W : Type 0} (v : ClusterView W) (k : Kubernetes W) (i : Profile) where
  pub record Grows (w w' : W) : Type 0 where
    pub keeps_deployments : Keeps (v.deployments w) (v.deployments w')
    pub adds_deployments : AddsOnly (IsBuiltAt k i) (v.deployments w) (v.deployments w')
    pub keeps_services : Keeps (v.services w) (v.services w')
    pub adds_services : AddsOnly (IsBuiltServiceAt k i) (v.services w) (v.services w')

  pub Grows-same : (w w' : W) → IsSame v k.is_not_found w w' → Grows w w'
  Grows-same w w' (d, s) = record {
    keeps_deployments = λ n j a e. ap (λ f. f n j) d ∙ e;
    adds_deployments = λ n j a e. inl (sym (ap (λ f. f n j) d) ∙ e);
    keeps_services = λ n j a e. ap (λ f. f n j) s ∙ e;
    adds_services = λ n j a e. inl (sym (ap (λ f. f n j) s) ∙ e);
  }

  then_adds :
      {A : Type 0} {P : String → String → A → Type 0} (f g h : Objects A)
      → AddsOnly P f g
      → AddsOnly P g h
      → AddsOnly P f h
  then_adds f g h p q n j a e = elim (q n j a e) [ inl old ↦ p n j a old | inr new ↦ inr new ]

  pub Grows-trans : (a b c : W) → Grows a b → Grows b c → Grows a c
  Grows-trans a b c p q = record {
    keeps_deployments = λ n j d e. q.keeps_deployments n j d (p.keeps_deployments n j d e);
    adds_deployments = then_adds _ _ _ p.adds_deployments q.adds_deployments;
    keeps_services = λ n j d e. q.keeps_services n j d (p.keeps_services n j d e);
    adds_services = then_adds _ _ _ p.adds_services q.adds_services;
  }

  pub Grows-deployment :
      (d : Deployment) (w w' : W)
      → IsBuilt k i d
      → v.deployments w d.namespace d.name ≡ none
      → v.deployments w' ≡ with_object d.namespace d.name d (v.deployments w)
      → v.services w' ≡ v.services w
      → Grows w w'
  Grows-deployment d w w' built free e s = record {
    keeps_deployments = rw e (Keeps-with_object d.namespace d.name d (v.deployments w) free);
    adds_deployments = rw e (
        AddsOnly-with_object (IsBuiltAt k i) d.namespace d.name d (v.deployments w)
          (built, refl, refl));
    keeps_services = λ n j a q. ap (λ f. f n j) s ∙ q;
    adds_services = λ n j a q. inl (sym (ap (λ f. f n j) s) ∙ q);
  }

  pub Grows-service :
      (d : Service) (w w' : W)
      → IsBuiltService k i d
      → v.services w d.namespace d.name ≡ none
      → v.services w' ≡ with_object d.namespace d.name d (v.services w)
      → v.deployments w' ≡ v.deployments w
      → Grows w w'
  Grows-service d w w' built free e s = record {
    keeps_services = rw e (Keeps-with_object d.namespace d.name d (v.services w) free);
    adds_services = rw e (
        AddsOnly-with_object (IsBuiltServiceAt k i) d.namespace d.name d (v.services w)
          (built, refl, refl));
    keeps_deployments = λ n j a q. ap (λ f. f n j) s ∙ q;
    adds_deployments = λ n j a q. inl (sym (ap (λ f. f n j) s) ∙ q);
  }
