-- ===== src/Tickets/Matching/Telling.antt =====
-- Telling the clients of a match that a game server is there.
use rivalry.Prelude.{String, ◌≡◌, refl, sym, ap, ◌∙◌, List, [], ◌∷◌, ◌++◌, append-nil, append_assoc}
use rivalry.Prelude.Results.{Result, ok, err, Error}
use rivalry.Platform.View.{View}
use rivalry.Platform.Broker.{Publishes}
use rivalry.Platform.Backoff.{exponential}
use rivalry.Platform.Retried.{retry_once, Publishes-IsOnce}
use rivalry.Platform.Env.{Env, IsSound}
use rivalry.Tickets.{get_match_request_subject}
use rivalry.Tickets.Matching.{publish_assigned, publish_all}

module _ {W S : Type 0} (env : Env W S) where
  -- The messages to the clients of a list of tickets: one for each, but for those whose
  -- publication failed.
  pub data AreTold : List String → List (String × String) → Type 0 where
    done : AreTold [] []
    told_one :
        {t : String} {ts : List String} {ms : List (String × String)}
        → AreTold ts ms
        → AreTold (t ∷ ts) ((get_match_request_subject t, "assigned") ∷ ms)
    failed_one :
        {t : String} {ts : List String} {ms : List (String × String)} (w w' : W) (e : Error)
        → publish_assigned env t w ≡ (err e, w')
        → AreTold ts ms
        → AreTold (t ∷ ts) ms

module _ {W S : Type 0} (v : View W) (env : Env W S) where
  -- A stretch that tells the clients of the tickets and changes nothing else.
  abbrev pub Tells : List String → W → W → Type 0
  Tells ts w w' =
      (v.entry w' ≡ v.entry w)
      × (v.sent w' ≡ v.sent w)
      × ((ms : List (String × String)) × (v.published w' ≡ v.published w ++ ms) × AreTold env ts ms)

module _ {W S : Type 0} {v : View W} {env : Env W S} (sound : IsSound v env) where
  -- However often it is retried, the client is told once, or not at all where the call fails.
  publish_assigned-Publishes :
      (t : String) (w : W)
      → Publishes v (get_match_request_subject t) "assigned" w (publish_assigned env t w)
  unfolding publish_assigned
  publish_assigned-Publishes t w =
      retry_once sound.backoff_lem (Publishes v (get_match_request_subject t) "assigned")
        (Publishes-IsOnce v (get_match_request_subject t) "assigned")
        (env.pubsub_client.publish (get_match_request_subject t) "assigned")
        (exponential env.backoff ∷ []) w
        (sound.pubsub_lem.publish_lem (get_match_request_subject t) "assigned")

  after_telling :
      (t : String) (ts : List String) (w : W) (o : Result (Unit {0}) × W) (w2 : W)
      → publish_assigned env t w ≡ o
      → Publishes v (get_match_request_subject t) "assigned" w o
      → Tells v env ts o.1 w2
      → Tells v env (t ∷ ts) w w2
  after_telling t ts w (ok _, w1) w2 h (e, s, p) (e', s', (ms, p', told)) = (
    e' ∙ e,
    s' ∙ s,
    (
      (get_match_request_subject t, "assigned") ∷ ms,
      p' ∙ ap (λ l. l ++ ms) p ∙ append_assoc (v.published w) _ ms,
      AreTold.told_one told,
    ),
  )
  after_telling t ts w (err x, w1) w2 h (e, s, p) (e', s', (ms, p', told)) =
      (e' ∙ e, s' ∙ s, (ms, p' ∙ ap (λ l. l ++ ms) p, AreTold.failed_one w w1 x h told))

  pub publish_all-Tells : (ts : List String) (w : W) → Tells v env ts w (publish_all env ts w)
  unfolding publish_all
  publish_all-Tells [] w = (refl, refl, ([], sym (append-nil (v.published w)), AreTold.done))
  publish_all-Tells (t ∷ ts) w =
      after_telling t ts w (publish_assigned env t w) _ refl (publish_assigned-Publishes t w)
        (publish_all-Tells ts (publish_assigned env t w).1)
