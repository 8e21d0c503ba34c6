-- ===== src/Dispenser/Panics.antt =====
-- What happens to an announced match that cannot be read.
use rivalry.Prelude.{String, ◌≡◌, refl, ap, ◌∙◌, none, [], ◌∷◌}
use rivalry.Prelude.Results.{Result, err, Error, ok, and_then, lift}
use rivalry.Wire.Api.{Match}
use rivalry.Platform.View.{View, matches}
use rivalry.Platform.Store.{Reads}
use rivalry.Platform.Backoff.{retry, retry-Attempts, Attempts-cases, exponential}
use rivalry.Platform.Env.{Env, IsSound}
use rivalry.Matches.{get_match, hand_over, match_received}
use rivalry.CustomLogic.{AssignmentServiceClient}
use rivalry.Dispenser.{on_match, on_message}

module _ {W S : Type 0} {v : View W} {env : Env W S} (sound : IsSound v env)
    (client : AssignmentServiceClient W) where
  -- How reading a match that is not stored ends.
  Misses : W → Result Match × W → Type 0
  Misses w (ok m, w') = ⊥
  Misses w (err e, w') = v.entry w' ≡ v.entry w

  read_missing :
      (match_id : String) (w : W)
      → v.entry w matches match_id ≡ none
      → Misses w (get_match env match_id w)
  unfolding get_match Misses
  read_missing match_id w gone = after_get _ (sound.store_lem.get_lem matches match_id w)
    where
      after_get :
          (o : Result String × W)
          → Reads v matches match_id w o
          → Misses w (and_then (λ x. lift (env.matches.unmarshal x)) o)
      after_get (ok x, w1) (e, q) = cc
      after_get (err e, w1) (_, q) = q.0

  retry_missing :
      (match_id : String) (w : W)
      → v.entry w matches match_id ≡ none
      → Misses w (retry env.backoff (get_match env match_id) (exponential env.backoff ∷ []) w)
  unfolding Misses
  retry_missing match_id w gone =
      Attempts-cases (λ w1. v.entry w1 ≡ v.entry w) (Misses w) found missed refl
        (retry-Attempts env.backoff sound.backoff_lem (get_match env match_id)
          (exponential env.backoff ∷ []) w)
    where
      misses_at : (w1 : W) → v.entry w1 ≡ v.entry w → Misses w1 (get_match env match_id w1)
      misses_at w1 e = read_missing match_id w1 (ap (λ f. f matches match_id) e ∙ gone)

      found :
          (w1 : W)
          → v.entry w1 ≡ v.entry w
          → (m : Match) (w' : W) → get_match env match_id w1 ≡ (ok m, w')
          → Misses w (ok m, w')
      found w1 e m w' q = rw q at (misses_at w1 e)

      missed :
          (w1 : W)
          → v.entry w1 ≡ v.entry w
          → (x : Error) (w' : W) → get_match env match_id w1 ≡ (err x, w')
          → (v.entry w' ≡ v.entry w) × ((y : Error) → Misses w (err y, w'))
      missed w1 e x w' q =
          let same : v.entry w' ≡ v.entry w1 = rw q at (misses_at w1 e) in (same ∙ e, λ _. same ∙ e)

  -- A message that names a match which is not stored is a panic: `StreamMatches` hands on a nil
  -- match, whose identifier the dispenser reads.
  pub missing_match_panics :
      (match_id : String) (w : W)
      → v.entry w matches match_id ≡ none
      → on_message env client match_id w ≡ none
  unfolding on_message match_received hand_over on_match Misses
  missing_match_panics match_id w gone = handed_over _ (retry_missing match_id w gone)
    where
      handed_over :
          (o : Result Match × W) → Misses w o → hand_over env (on_match env client) o ≡ none
      handed_over (ok m, w1) h = absurd h
      handed_over (err e, w1) h = refl
