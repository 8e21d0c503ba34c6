-- ===== src/Dispenser/Requeued.antt =====
-- What the dispenser leaves behind where no game server can be had.
use rivalry.Prelude.{String, ◌≡◌, refl, ap, ◌⊎◌, inl, inr, some, [], ◌∷◌, ◌++◌}
use rivalry.Prelude.Results.{Result, ok, err, Error}
use rivalry.Wire.Api.{Match}
use rivalry.Platform.View.{View}
use rivalry.Platform.Broker.{Sends}
use rivalry.Platform.Backoff.{retry, exponential}
use rivalry.Platform.Retried.{retry_once, Sends-IsOnce}
use rivalry.Platform.Env.{Env, IsSound}
use rivalry.Matches.{requeue, unassigned_matches_topic}
use rivalry.CustomLogic.{AssignmentServiceClient}
use rivalry.Dispenser.{on_match, make_assignment, requeue_match, dispense}

module _ {W S : Type 0} {v : View W} {env : Env W S} (sound : IsSound v env)
    (client : AssignmentServiceClient W) where
  -- The match was announced once more, or all attempts to do so failed and announced nothing; nothing
  -- else changed.
  abbrev pub Requeues : String → W → W → Type 0
  Requeues match_id w w' =
      (v.entry w' ≡ v.entry w)
      × (v.published w' ≡ v.published w)
      × (((v.sent w' ≡ v.sent w)
            × ((e : Error) × (retry env.backoff
                    (λ u. env.stream_client.send_message unassigned_matches_topic match_id u)
                    (exponential env.backoff ∷ []) w
                  ≡ (err e, w'))))
          ⊎ (v.sent w' ≡ v.sent w ++ (unassigned_matches_topic, match_id) ∷ []))

  retry-Sends :
      (match_id : String) (w : W)
      → Sends v unassigned_matches_topic match_id w
          (retry env.backoff (requeue env match_id) (exponential env.backoff ∷ []) w)
  unfolding requeue
  retry-Sends match_id w =
      retry_once sound.backoff_lem (Sends v unassigned_matches_topic match_id)
        (Sends-IsOnce v unassigned_matches_topic match_id) (requeue env match_id)
        (exponential env.backoff ∷ []) w
        (sound.stream_lem.send_message_lem unassigned_matches_topic match_id)

  requeue_match-Requeues :
      (m : Match) (w : W) → Requeues m.match_id w (requeue_match env client m w)
  unfolding requeue_match requeue
  requeue_match-Requeues m w = after _ refl (retry-Sends m.match_id w)
    where
      after :
          (o : Result (Unit {0}) × W)
          → retry env.backoff
              (λ u. env.stream_client.send_message unassigned_matches_topic m.match_id u)
              (exponential env.backoff ∷ [])
              w
            ≡ o
          → Sends v unassigned_matches_topic m.match_id w o
          → Requeues m.match_id w o.1
      after (ok _, w1) r (e, s, p) = (e, p, inr s)
      after (err x, w1) r (e, s, p) = (e, p, inl (s, (x, r)))

  -- Where no game server can be had, the dispenser goes on, and the match was announced once more,
  -- or all attempts to announce it failed and announced nothing; nothing else was changed by that.
  pub on_match-Requeues :
      (m : Match) (w w1 : W) (e : Error)
      → make_assignment env client (some m) w ≡ (err e, w1)
      → (w2 : W) × (on_match env client (some m) w ≡ some w2) × Requeues m.match_id w1 w2
  unfolding on_match dispense
  on_match-Requeues m w w1 e h =
      (requeue_match env client m w1, ap (dispense env client m) h, requeue_match-Requeues m w1)
