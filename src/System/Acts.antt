-- ===== src/System/Acts.antt =====
-- What the handlers do to owners and matches: matches are created, and all else leaves both alone.
use rivalry.Prelude.{◌≡◌, ap, Bool, Option, none, some, List, subst}
use rivalry.Prelude.Results.{Action, Result, unless_panic}
use rivalry.Wire.Api.{Match}
use rivalry.Platform.View.{View, ticket_assignments, matches}
use rivalry.Platform.Backoff.{Config, retry, retry-Attempts, Attempts, succeeds, gives_up, again}
use rivalry.Platform.Env.{Env, IsSound}
use rivalry.Matches.{create_match}

module _ {W S : Type 0} (v : View W) (env : Env W S) where
  abbrev pub IsElsewhere : W → W → Type 0
  IsElsewhere w w' =
      (v.entry w' ticket_assignments ≡ v.entry w ticket_assignments)
      × (v.entry w' matches ≡ v.entry w matches)

  pub data Acts : W → W → Type 0 where
    creates : {w w' : W} (m : Match) (r : Result Bool) → create_match env m w ≡ (r, w') → Acts w w'
    elsewhere : {w w' : W} → IsElsewhere w w' → Acts w w'

  pub data Runs : W → W → Type 0 where
    stays : {w : W} → Runs w w
    acts : {w w1 w2 : W} → Acts w w1 → Runs w1 w2 → Runs w w2

  pub Runs-trans : (w w1 w2 : W) → Runs w w1 → Runs w1 w2 → Runs w w2
  Runs-trans w w1 w2 stays q = q
  Runs-trans w w1 w2 (acts a p) q = acts a (Runs-trans _ w1 w2 p q)

  pub Runs-leaves : (w w' : W) → v.entry w' ≡ v.entry w → Runs w w'
  Runs-leaves w w' e =
      acts (elsewhere (ap (λ f. f ticket_assignments) e, ap (λ f. f matches) e)) stays

  -- Where it did not panic, it was a run; `state` is the world in what is returned.
  abbrev pub Goes : {X : Type 0} → (X → W) → W → Option X → Type 0
  Goes state w none = Unit
  Goes state w (some x) = Runs w (state x)

  pub Goes-after :
      {X : Type 0} (state : X → W) (w w' : W) (o : Option X)
      → Runs w w'
      → Goes state w' o
      → Goes state w o
  Goes-after state w w' none r g = tt
  Goes-after state w w' (some x) r g = Runs-trans w w' (state x) r g

  pub Goes-unless_panic :
      {X Y : Type 0} (state : X → W) (state' : Y → W) (f : X → Option Y) (w : W) (o : Option X)
      → Goes state w o
      → ((x : X) → Goes state' (state x) (f x))
      → Goes state' w (unless_panic f o)
  Goes-unless_panic state state' f w none g h = tt
  Goes-unless_panic state state' f w (some x) g h = Goes-after state' w (state x) (f x) g (h x)

module _ {W S : Type 0} {v : View W} {env : Env W S} (sound : IsSound v env) where
  -- A retried call is a run if each attempt is.
  pub retry-Runs :
      {A : Type 0} (f : Action W A) (configs : List (Config env.backoff)) (w : W)
      → ((w : W) → Runs v env w (f w).1)
      → Runs v env w (retry env.backoff f configs w).1
  retry-Runs {A} f configs w h =
      attempted w _ (retry-Attempts env.backoff sound.backoff_lem f configs w)
    where
      same : (w : W) (o : Result A × W) → f w ≡ o → Runs v env w o.1
      same w o e = subst (λ o. Runs v env w o.1) e (h w)

      attempted : (w : W) (o : Result A × W) → Attempts f w o → Runs v env w o.1
      attempted w _ (succeeds e) = same w _ e
      attempted w _ (gives_up e) = same w _ e
      attempted w _ (again e more) = Runs-trans v env w _ _ (same w _ e) (attempted _ _ more)
