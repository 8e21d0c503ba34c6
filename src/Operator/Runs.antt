-- ===== src/Operator/Runs.antt =====
-- The steps of a reconciliation: each adds what is missing, and what it is for is there at the end.
use rivalry.Prelude.{
  String, ◌≡◌, refl, ap, ◌∙◌, ◌⊎◌, inl, inr, Bool, true, false, some, none, Bool-cases,
}
use rivalry.Prelude.Results.{Action, Result, ok, err, Error, and_then}
use rivalry.Operator.Profiles.{Profile}
use rivalry.Operator.Cluster.{
  Kubernetes, ClusterView, IsKubernetes, IsSame, Finds, Objects, Deployment, Service,
}
use rivalry.Operator.Grows.{Grows, Grows-same, Grows-trans}
use rivalry.Operator.{
  found_or_not, deployment_is_configured, frontend_service_is_configured, unless_configured,
  when_missing, frontend_name,
}

abbrev pub IsThere : {A : Type 0} → Objects A → String → String → Type 0
IsThere {A} f n k = (a : A) × (f n k ≡ some a)

module _ {W : Type 0} (k : Kubernetes W) where
  -- The cluster answered the error when it was asked for a deployment or a service.
  abbrev pub IsOfRead : Error → Type 0
  IsOfRead e =
      ((n : String) × (j : String) × (w : W) × ((k.get_deployment n j w).0 ≡ err e))
      ⊎ ((n : String) × (j : String) × (w : W) × ((k.get_service n j w).0 ≡ err e))

  -- There was no error but that of a read.
  abbrev pub OnlyReadFails : {A : Type 0} → Result A × W → Type 0
  OnlyReadFails (ok a, w) = Unit
  OnlyReadFails (err e, w) = IsOfRead e

  found_or_not-OnlyReadFails :
      {A : Type 0} (o : Result A × W) → OnlyReadFails o → OnlyReadFails (found_or_not k o)
  unfolding found_or_not
  found_or_not-OnlyReadFails (ok a, w) h = tt
  found_or_not-OnlyReadFails (err e, w) h = elim (Bool-cases (k.is_not_found e)) [
    | inl gone ↦ rw gone tt
    | inr other ↦ rw other h
  ]

  pub deployment_is_configured-OnlyReadFails :
      (n j : String) (w : W) → OnlyReadFails (deployment_is_configured k n j w)
  unfolding deployment_is_configured
  deployment_is_configured-OnlyReadFails n j w =
      found_or_not-OnlyReadFails _ (read (k.get_deployment n j w) refl)
    where
      read : (o : Result Deployment × W) → k.get_deployment n j w ≡ o → OnlyReadFails o
      read (ok d, w') e = tt
      read (err x, w') e = inl (n, j, w, ap (λ o. o.0) e)

  pub frontend_service_is_configured-OnlyReadFails :
      (i : Profile) (w : W) → OnlyReadFails (frontend_service_is_configured k i w)
  unfolding frontend_service_is_configured
  frontend_service_is_configured-OnlyReadFails i w =
      found_or_not-OnlyReadFails _ (read (k.get_service i.namespace frontend_name w) refl)
    where
      read :
          (o : Result Service × W) → k.get_service i.namespace frontend_name w ≡ o → OnlyReadFails o
      read (ok d, w') e = tt
      read (err x, w') e = inr (i.namespace, frontend_name, w, ap (λ o. o.0) e)

module _ {W : Type 0} (v : ClusterView W) (k : Kubernetes W) where
  -- The call changed nothing, and had no error but that of a read.
  abbrev pub LeavesAlone : W → Result (Unit {0}) × W → Type 0
  LeavesAlone w o = IsSame v k.is_not_found w o.1 × OnlyReadFails k o

module _ {W : Type 0} (v : ClusterView W) (k : Kubernetes W) (i : Profile) where
  -- The cluster grew; and `P` holds at the end, unless there was an error.
  abbrev pub Runs : (W → Type 0) → W → Result (Unit {0}) × W → Type 0
  Runs P w (ok _, w') = Grows v k i w w' × P w'
  Runs P w (err _, w') = Grows v k i w w'

  pub Runs-then :
      (P Q : W → Type 0)
      → ((w w' : W) → Grows v k i w w' → P w → P w')
      → (w : W) (o : Result (Unit {0}) × W) (f : Action W (Unit {0})) → Runs P w o
      → ((w1 : W) → Runs Q w1 (f w1))
      → Runs (λ w'. P w' × Q w') w (and_then (λ _. f) o)
  Runs-then P Q stable w (ok _, w1) f (g, p) next = both (f w1) (next w1)
    where
      both : (o : Result (Unit {0}) × W) → Runs Q w1 o → Runs (λ w'. P w' × Q w') w o
      both (ok _, w2) (g', q) = (Grows-trans v k i w w1 w2 g g', (stable w1 w2 g' p, q))
      both (err _, w2) g' = Grows-trans v k i w w1 w2 g g'
  Runs-then P Q stable w (err _, w1) f g next = g

  pub IsThere-stays :
      (n j : String) (w w' : W)
      → Grows v k i w w'
      → IsThere (v.deployments w) n j
      → IsThere (v.deployments w') n j
  IsThere-stays n j w w' g (d, e) = (d, g.keeps_deployments n j d e)

  pub service_stays :
      (n j : String) (w w' : W)
      → Grows v k i w w'
      → IsThere (v.services w) n j
      → IsThere (v.services w') n j
  service_stays n j w w' g (s, e) = (s, g.keeps_services n j s e)

module _ {W : Type 0} {v : ClusterView W} {k : Kubernetes W} (sound : IsKubernetes v k)
    (i : Profile) where
  -- How a check ends.
  abbrev pub Checks :
      {A : Type 0} → (W → Objects A) → String → String → W → Result Bool × W → Type 0
  Checks objects n j w (ok true, w') = IsThere (objects w') n j × IsSame v k.is_not_found w w'
  Checks objects n j w (ok false, w') =
      (objects w n j ≡ none) × (objects w' n j ≡ none) × IsSame v k.is_not_found w w'
  Checks objects n j w (err _, w') = IsSame v k.is_not_found w w'

  found_or_not-Checks :
      {A : Type 0} (objects : W → Objects A) (n j : String) (w : W) (o : Result A × W)
      → (objects o.1 ≡ objects w)
      → Finds v k.is_not_found objects n j w o
      → Checks objects n j w (found_or_not k o)
  unfolding found_or_not
  found_or_not-Checks objects n j w (ok a, w') same (e, q) = ((a, ap (λ f. f n j) same ∙ e), q)
  found_or_not-Checks objects n j w (err x, w') same (e, q) = elim (Bool-cases (k.is_not_found x)) [
    | inl gone ↦ rw gone (e gone, ap (λ f. f n j) same ∙ e gone, q)
    | inr other ↦ rw other q
  ]

  pub deployment_is_configured-Checks :
      (n j : String) (w : W) → Checks v.deployments n j w (deployment_is_configured k n j w)
  unfolding deployment_is_configured
  deployment_is_configured-Checks n j w =
      found_or_not-Checks v.deployments n j w _ (same _ (sound.get_deployment_lem n j w))
        (sound.get_deployment_lem n j w)
    where
      same :
          (o : Result Deployment × W)
          → Finds v k.is_not_found v.deployments n j w o
          → v.deployments o.1 ≡ v.deployments w
      same (ok _, w') (e, q) = q.0
      same (err _, w') (e, q) = q.0

  pub frontend_service_is_configured-Checks :
      (w : W) → Checks v.services i.namespace frontend_name w (frontend_service_is_configured k i w)
  unfolding frontend_service_is_configured
  frontend_service_is_configured-Checks w =
      found_or_not-Checks v.services i.namespace frontend_name w _
        (same _ (sound.get_service_lem i.namespace frontend_name w))
        (sound.get_service_lem i.namespace frontend_name w)
    where
      same :
          (o : Result Service × W)
          → Finds v k.is_not_found v.services i.namespace frontend_name w o
          → v.services o.1 ≡ v.services w
      same (ok _, w') (e, q) = q.1
      same (err _, w') (e, q) = q.1

  module _ {A : Type 0} (objects : W → Objects A) (n j : String) (check : Action W Bool)
      (configure : Action W (Unit {0})) (checks : (w : W) → Checks objects n j w (check w)) where
    -- What is missing is made, if it can be made.
    pub unless_configured-Runs :
        ((w : W) → Runs v k i (λ w'. IsThere (objects w') n j) w (configure w))
        → (w : W)
        → Runs v k i (λ w'. IsThere (objects w') n j) w (unless_configured k check configure w)
    unfolding unless_configured when_missing
    unless_configured-Runs makes w = after_check (check w) (checks w)
      where
        made :
            (w1 : W) (o : Result (Unit {0}) × W)
            → IsSame v k.is_not_found w w1
            → Runs v k i (λ w'. IsThere (objects w') n j) w1 o
            → Runs v k i (λ w'. IsThere (objects w') n j) w o
        made w1 (ok _, w2) q (g, p) = (Grows-trans v k i w w1 w2 (Grows-same v k i w w1 q) g, p)
        made w1 (err _, w2) q g = Grows-trans v k i w w1 w2 (Grows-same v k i w w1 q) g

        after_check :
            (o : Result Bool × W)
            → Checks objects n j w o
            → Runs v k i
                (λ w'. IsThere (objects w') n j)
                w
                (and_then (λ configured. when_missing k configured configure) o)
        after_check (ok true, w1) (p, q) = (Grows-same v k i w w1 q, p)
        after_check (ok false, w1) (_, _, q) = made w1 _ q (makes w1)
        after_check (err _, w1) q = Grows-same v k i w w1 q

    -- What is there is left alone.
    pub unless_configured-LeavesAlone :
        ((w : W) → OnlyReadFails k (check w))
        → (w : W) → IsThere (objects w) n j
        → LeavesAlone v k w (unless_configured k check configure w)
    unfolding unless_configured when_missing
    unless_configured-LeavesAlone reads w (a, e) = after_check (check w) (checks w) (reads w)
      where
        after_check :
            (o : Result Bool × W)
            → Checks objects n j w o
            → OnlyReadFails k o
            → LeavesAlone v k w (and_then (λ configured. when_missing k configured configure) o)
        after_check (ok true, w1) (p, q) r = (q, tt)
        after_check (ok false, w1) (gone, _, q) r = cc (gone, e)
        after_check (err _, w1) q r = (q, r)
