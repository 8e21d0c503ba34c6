-- ===== src/Operator/Names.antt =====
-- The names of the deployments keep the queues apart.
use Prim.Native.String.{◌++◌ as ◌<>◌}
use text.Mathlib.TextLemmas.{append_cancel_left, append_assoc}
use rivalry.Prelude.{String, ◌≡◌, ◌≢◌, refl, some, sym, ap, ◌∙◌, eq_iff, heads_eq}
use rivalry.Prelude.Results.{ok}
use rivalry.Operator.Profiles.{Profile, MatchmakingQueue}
use rivalry.Operator.Cluster.{
  Kubernetes, ClusterView, IsKubernetes, Deployment, accumulator_deployment, matcher_deployment,
}
use rivalry.Operator.Grows.{IsAmong, IsBuiltAt, dispenser, accumulator, matcher, frontend}
use rivalry.Operator.{
  accumulator_name, matcher_name, accumulator_prefix, matcher_prefix, accumulator_of, matcher_of,
  dispenser_of, frontend_of,
}

accumulator_name_inj :
    (mp mq : MatchmakingQueue) → accumulator_name mp ≡ accumulator_name mq → mp.name ≡ mq.name
unfolding accumulator_name
accumulator_name_inj mp mq e =
    append_cancel_left "-" _ _ (append_cancel_left accumulator_prefix _ _ e)

matcher_name_inj :
    (mp mq : MatchmakingQueue) → matcher_name mp ≡ matcher_name mq → mp.name ≡ mq.name
unfolding matcher_name
matcher_name_inj mp mq e = append_cancel_left "-" _ _ (append_cancel_left matcher_prefix _ _ e)

matcher_accumulator : (mp mq : MatchmakingQueue) → matcher_name mp ≢ accumulator_name mq
unfolding matcher_name accumulator_name
matcher_accumulator mp mq e = cc (
    (eq_iff "rivalry-m" "rivalry-a").1 (
      heads_eq "rivalry-m" "rivalry-a" ("atcher" <> ("-" <> mp.name))
        ("ccumulator" <> ("-" <> mq.name))
        (sym (append_assoc "rivalry-m" "atcher" _) ∙ e ∙ append_assoc "rivalry-a" "ccumulator" _)
        refl))

accumulator_dispenser : (mq : MatchmakingQueue) → "rivalry-dispenser" ≢ accumulator_name mq
unfolding accumulator_name
accumulator_dispenser mq e = cc (
    (eq_iff "rivalry-d" "rivalry-a").1 (
      heads_eq "rivalry-d" "rivalry-a" "ispenser" ("ccumulator" <> ("-" <> mq.name))
        (e ∙ append_assoc "rivalry-a" "ccumulator" _) refl))

matcher_frontend : (mq : MatchmakingQueue) → "rivalry-frontend" ≢ matcher_name mq
unfolding matcher_name
matcher_frontend mq e = cc (
    (eq_iff "rivalry-f" "rivalry-m").1 (
      heads_eq "rivalry-f" "rivalry-m" "rontend" ("atcher" <> ("-" <> mq.name))
        (e ∙ append_assoc "rivalry-m" "atcher" _) refl))

matcher_dispenser : (mq : MatchmakingQueue) → "rivalry-dispenser" ≢ matcher_name mq
unfolding matcher_name
matcher_dispenser mq e = cc (
    (eq_iff "rivalry-d" "rivalry-m").1 (
      heads_eq "rivalry-d" "rivalry-m" "ispenser" ("atcher" <> ("-" <> mq.name))
        (e ∙ append_assoc "rivalry-m" "atcher" _) refl))

accumulator_frontend : (mq : MatchmakingQueue) → "rivalry-frontend" ≢ accumulator_name mq
unfolding accumulator_name
accumulator_frontend mq e = cc (
    (eq_iff "rivalry-f" "rivalry-a").1 (
      heads_eq "rivalry-f" "rivalry-a" "rontend" ("ccumulator" <> ("-" <> mq.name))
        (e ∙ append_assoc "rivalry-a" "ccumulator" _) refl))

module _ {W : Type 0} {v : ClusterView W} {k : Kubernetes W} (sound : IsKubernetes v k)
    (i : Profile) where
  -- The accumulator of a queue of the profile that has this name.
  abbrev pub IsAccumulatorOf : String → Deployment → Type 0
  IsAccumulatorOf queue d =
      (mp : MatchmakingQueue) × (s : Deployment) × IsAmong mp i.spec.matchmaking_queues
      × (mp.name ≡ queue)
      × (k.unmarshal_deployment accumulator_deployment ≡ ok s)
      × (d ≡ record (accumulator_of i mp s) { owner = some i.name })

  -- The matcher of a queue of the profile that has this name.
  abbrev pub IsMatcherOf : String → Deployment → Type 0
  IsMatcherOf queue d =
      (mp : MatchmakingQueue) × (s : Deployment) × IsAmong mp i.spec.matchmaking_queues
      × (mp.name ≡ queue)
      × (k.unmarshal_deployment matcher_deployment ≡ ok s)
      × (d ≡ record (matcher_of i mp s) { owner = some i.name })

  pub built-IsAccumulatorOf :
      (mq : MatchmakingQueue) (d : Deployment)
      → IsBuiltAt k i i.namespace (accumulator_name mq) d
      → IsAccumulatorOf mq.name d
  unfolding accumulator_of matcher_of frontend_of dispenser_of
  built-IsAccumulatorOf mq d (dispenser s m e, n, j) = absurd (
      accumulator_dispenser mq
        (sym (sound.unmarshal_deployment_lem _ s m).0 ∙ sym (ap (λ x. x.name) e) ∙ j))
  built-IsAccumulatorOf mq d (accumulator mp s a m e, n, j) =
      (mp, s, a, accumulator_name_inj mp mq (sym (ap (λ x. x.name) e) ∙ j), m, e)
  built-IsAccumulatorOf mq d (matcher mp s a m e, n, j) =
      absurd (matcher_accumulator mp mq (sym (ap (λ x. x.name) e) ∙ j))
  built-IsAccumulatorOf mq d (frontend s m e, n, j) = absurd (
      accumulator_frontend mq
        (sym (sound.unmarshal_deployment_lem _ s m).0 ∙ sym (ap (λ x. x.name) e) ∙ j))

  pub built-IsMatcherOf :
      (mq : MatchmakingQueue) (d : Deployment)
      → IsBuiltAt k i i.namespace (matcher_name mq) d
      → IsMatcherOf mq.name d
  unfolding accumulator_of matcher_of frontend_of dispenser_of
  built-IsMatcherOf mq d (dispenser s m e, n, j) = absurd (
      matcher_dispenser mq
        (sym (sound.unmarshal_deployment_lem _ s m).0 ∙ sym (ap (λ x. x.name) e) ∙ j))
  built-IsMatcherOf mq d (accumulator mp s a m e, n, j) =
      absurd (matcher_accumulator mq mp (sym j ∙ ap (λ x. x.name) e))
  built-IsMatcherOf mq d (matcher mp s a m e, n, j) =
      (mp, s, a, matcher_name_inj mp mq (sym (ap (λ x. x.name) e) ∙ j), m, e)
  built-IsMatcherOf mq d (frontend s m e, n, j) = absurd (
      matcher_frontend mq
        (sym (sound.unmarshal_deployment_lem _ s m).0 ∙ sym (ap (λ x. x.name) e) ∙ j))
