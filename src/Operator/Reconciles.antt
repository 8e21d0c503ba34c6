-- ===== src/Operator/Reconciles.antt =====
-- What `Reconcile` comes to: the profile is deployed, and nothing else in the cluster changes.
use rivalry.Prelude.{String, ◌≡◌, refl, ap, ◌∙◌, none, some, List, All, inl, inr}
use rivalry.Prelude.Results.{Result, ok, err}
use rivalry.Operator.Profiles.{Profile, MatchmakingQueue}
use rivalry.Operator.Cluster.{
  Kubernetes, ClusterView, Admission, IsKubernetes, IsWorking, IsSame, Deployment,
}
use rivalry.Operator.Grows.{
  IsAdmitted, Grows, Grows-same, Grows-trans, IsAmong, here, there, IsBuiltAt,
}
use rivalry.Operator.Again.{reconcile_profile-Leaves, IsDeployed-stays}
use rivalry.Operator.Names.{IsAccumulatorOf, IsMatcherOf, built-IsAccumulatorOf, built-IsMatcherOf}
use rivalry.Operator.Runs.{Runs, IsThere, OnlyReadFails}
use rivalry.Operator.Deploys.{IsDeployed, reconcile_profile-Runs}
use rivalry.Operator.Answers.{Succeeds, reconcile_profile-Succeeds}
use rivalry.Operator.{reconcile, if_there, accumulator_name, matcher_name}

All-IsAmong :
    (P : MatchmakingQueue → Type 0) {mp : MatchmakingQueue} {mps : List MatchmakingQueue}
    → IsAmong mp mps
    → All P mps
    → P mp
All-IsAmong P here h = h.0
All-IsAmong P (there a) h = All-IsAmong P a h.1

module _ {W : Type 0} {v : ClusterView W} {k : Kubernetes W} (sound : IsKubernetes v k) where
  Runs-Grows :
      (i : Profile) (P : W → Type 0) (w : W) (o : Result (Unit {0}) × W)
      → Runs v k i P w o
      → Grows v k i w o.1
  Runs-Grows i P w (ok _, w') (g, p) = g
  Runs-Grows i P w (err _, w') g = g

  profile_read :
      (namespace name : String) (w w1 : W) (r : Result Profile)
      → k.get_profile namespace name w ≡ (r, w1)
      → IsSame v k.is_not_found w w1
  profile_read namespace name w w1 r e = rw e at (sound.get_profile_lem namespace name w)

  -- Whatever fails, a reconciliation of a profile keeps each object of the cluster as it is, and
  -- each object that it adds is one that it builds for the profile.
  pub reconcile-Grows :
      (namespace name : String) (i : Profile) (w w1 : W)
      → k.get_profile namespace name w ≡ (ok i, w1)
      → Grows v k i w (reconcile k namespace name w).1
  unfolding reconcile if_there
  reconcile-Grows namespace name i w w1 e = rw e (
      Grows-trans v k i w w1 _ (Grows-same v k i w w1 (profile_read namespace name w w1 (ok i) e))
        (Runs-Grows i _ w1 _ (reconcile_profile-Runs sound i w1)))

  -- In a cluster that answers and admits the objects that are built for the profile, the reconciliation
  -- of the profile ends without an error, and the frontend, its service, an accumulator and a matcher for
  -- each queue and the dispenser are there.
  pub reconcile-IsDeployed :
      {admits : Admission}
      → IsWorking v k admits
      → (namespace name : String) (i : Profile) (w w1 : W) → IsAdmitted k i admits
      → k.get_profile namespace name w ≡ (ok i, w1)
      → ((reconcile k namespace name w).0 ≡ ok tt) × IsDeployed v i (reconcile k namespace name w).1
  unfolding reconcile if_there
  reconcile-IsDeployed working namespace name i w w1 admitted e = rw e (
      both _ (reconcile_profile-Succeeds sound working i admitted w1)
        (reconcile_profile-Runs sound i w1))
    where
      both :
          (o : Result (Unit {0}) × W)
          → Succeeds o
          → Runs v k i (IsDeployed v i) w1 o
          → (o.0 ≡ ok tt) × IsDeployed v i o.1
      both (ok _, w2) s (g, p) = (refl, p)
      both (err x, w2) (a, q) g = cc

  -- A reconciliation of a profile that is deployed changes nothing in the cluster, and ends without an
  -- error, or with one that the cluster answered when it was asked for a deployment or a service.
  pub reconcile-IsSame :
      (namespace name : String) (i : Profile) (w w1 : W)
      → k.get_profile namespace name w ≡ (ok i, w1)
      → IsDeployed v i w
      → IsSame v k.is_not_found w (reconcile k namespace name w).1
        × OnlyReadFails k (reconcile k namespace name w)
  unfolding reconcile if_there
  reconcile-IsSame namespace name i w w1 e p =
      let read = profile_read namespace name w w1 (ok i) e in
      let again =
        reconcile_profile-Leaves sound i w1
          (IsDeployed-stays sound i w w1 (Grows-same v k i w w1 read) p) in
      rw e ((again.0.0 ∙ read.0, again.0.1 ∙ read.1), again.1)

  -- Where a queue of the profile had neither accumulator nor matcher and the reconciliation ended
  -- without an error, there are both, each built from its template for a queue of that name.
  pub reconcile-IsServed :
      (namespace name : String) (i : Profile) (w w1 : W)
      → k.get_profile namespace name w ≡ (ok i, w1)
      → (reconcile k namespace name w).0 ≡ ok tt
      → (mp : MatchmakingQueue) → IsAmong mp i.spec.matchmaking_queues
      → v.deployments w i.namespace (accumulator_name mp) ≡ none
      → v.deployments w i.namespace (matcher_name mp) ≡ none
      → ((d : Deployment) × (v.deployments
              (reconcile k namespace name w).1
              i.namespace
              (accumulator_name mp)
            ≡ some d)
          × IsAccumulatorOf sound i mp.name d)
        × ((d : Deployment) × (v.deployments
                (reconcile k namespace name w).1
                i.namespace
                (matcher_name mp)
              ≡ some d)
            × IsMatcherOf sound i mp.name d)
  unfolding reconcile if_there
  reconcile-IsServed namespace name i w w1 e done mp among no_accumulator no_matcher =
      rw e (served _ (rw e at done) (reconcile_profile-Runs sound i w1))
    where
      same : IsSame v k.is_not_found w w1
      same = profile_read namespace name w w1 (ok i) e

      new :
          {P : Deployment → Type 0} (j : String) (w2 : W)
          → Grows v k i w1 w2
          → v.deployments w i.namespace j ≡ none
          → IsThere (v.deployments w2) i.namespace j
          → ((d : Deployment) → IsBuiltAt k i i.namespace j d → P d)
          → (d : Deployment) × (v.deployments w2 i.namespace j ≡ some d) × P d
      new j w2 g free (d, is_there) use_built = elim (g.adds_deployments i.namespace j d is_there) [
        | inl old ↦ absurd (cc (old, free, ap (λ f. f i.namespace j) same.0))
        | inr built ↦ (d, is_there, use_built d built)
      ]

      served :
          (o : Result (Unit {0}) × W)
          → o.0 ≡ ok tt
          → Runs v k i (IsDeployed v i) w1 o
          → ((d : Deployment) × (v.deployments o.1 i.namespace (accumulator_name mp) ≡ some d)
              × IsAccumulatorOf sound i mp.name d)
            × ((d : Deployment) × (v.deployments o.1 i.namespace (matcher_name mp) ≡ some d)
                × IsMatcherOf sound i mp.name d)
      served (ok _, w2) q (g, p) = (
        new (accumulator_name mp) w2 g no_accumulator (All-IsAmong _ among p.has_accumulators)
            (built-IsAccumulatorOf sound i mp),
        new (matcher_name mp) w2 g no_matcher (All-IsAmong _ among p.has_matchers)
            (built-IsMatcherOf sound i mp),
      )
      served (err x, w2) q g = cc
