-- ===== src/Frontend/Refusals.antt =====
-- The requests that the frontend turns away.
use rivalry.Prelude.{
  String, ◌≡◌, ◌≢◌, refl, Bool, true, false, some, List, contains, ◌==◌, if◌then◌else◌, arith,
  eq_iff, Bool-cases, inl, inr,
}
use rivalry.Prelude.Results.{Action, Result, ok, err, Error, status, invalid_argument}
use rivalry.Wire.Api
use rivalry.Platform.View.{View, IsSame, tickets}
use rivalry.Platform.Sets.{has-add_all}
use rivalry.Platform.Env.{Env, IsSound}
use rivalry.Tickets.{create_match_request}
use rivalry.Tickets.Create.{create_match_request_taken}
use rivalry.Frontend.{new_service, match_player, match_identified, identify_request, after_creation}

-- How a request is refused, whether its queue is known or not.
abbrev pub Refuses : {W : Type 0} → View W → Bool → W → Result (Unit {0}) × W → Type 0
Refuses v true w (r, w') = (r ≢ ok tt) × IsSame v w w'
Refuses v false w (r, w') =
    (r ≡ err (status invalid_argument "invalid matchmaking queue")) × IsSame v w w'

module _ {W S : Type 0} {v : View W} {env : Env W S} (sound : IsSound v env)
    (send : Api.MatchResponse → Action W (Unit {0})) (error_text : Error → String) where
  named :
      (req : Api.MatchRequest) (w : W)
      → req.id ≢ ""
      → identify_request env send error_text req w ≡ (req, w)
  unfolding identify_request
  named req w h = elim (Bool-cases (req.id == "")) [
    | inl e ↦ absurd (h ((eq_iff req.id "").0 e))
    | inr e ↦ rw e refl
  ]

  has-new_service :
      (queues : List String) (k : String)
      → env.sets.has k (new_service env.sets queues).queues ≡ contains k queues
  unfolding new_service
  has-new_service queues k = ground (
    arith,
    has-add_all env.sets sound.sets_lem queues env.sets.new_set k,
    sound.sets_lem.has-new_set k,
  )

  not_created :
      (k : String) (w : W) (o : Result (Unit {0}) × W)
      → (o.0 ≢ ok tt) × IsSame v w o.1
      → Refuses v true w (after_creation env send error_text k o)
  unfolding after_creation
  not_created k w (ok _, w') (n, q) = absurd (n refl)
  not_created k w (err e, w') (n, q) = ((λ r. cc), q)

  -- A request with an identifier that is stored already is refused, and nothing is stored, sent or
  -- published. For a queue that the frontend was not set up with, the error is that of an invalid
  -- argument.
  pub match_player-Refuses :
      (queues : List String) (req : Api.MatchRequest) (w : W) (x : String)
      → req.id ≢ ""
      → v.entry w tickets req.id ≡ some x
      → Refuses v
          (contains req.matchmaking_queue queues)
          w
          (match_player env send error_text (new_service env.sets queues) req w)
  unfolding match_player match_identified
  match_player-Refuses queues req w x h taken =
      rw (named req w h, has-new_service queues req.matchmaking_queue)
        (by_queue (contains req.matchmaking_queue queues))
    where
      by_queue :
          (known : Bool)
          → Refuses v known w (
              if known
              then after_creation env send error_text req.id (create_match_request env req w)
              else (err (status invalid_argument "invalid matchmaking queue"), w))
      by_queue true =
          not_created req.id w (create_match_request env req w)
            (create_match_request_taken sound req w h taken)
      by_queue false = (refl, (refl, refl, refl))
