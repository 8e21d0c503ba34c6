-- ===== src/Platform/Retried.antt =====
-- Calls that change nothing where they fail, retried: they act once, or not at all.
use rivalry.Prelude.{String, ◌≡◌, refl, ap, ◌∙◌, subst, [], ◌∷◌, ◌++◌, List}
use rivalry.Prelude.Results.{Action, Result, ok, err, Error}
use rivalry.Platform.View.{View, IsSame, IsSame-trans}
use rivalry.Platform.Broker.{Sends, Publishes}
use rivalry.Platform.Backoff.{
  BackoffLib, IsBackoff, Config, retry, retry-Attempts, Attempts, succeeds, gives_up, again,
}

-- The specification of such a call: an error means that all is as before, and what is done after
-- nothing was changed is done from the start.
pub record IsOnce {W : Type 0} (v : View W) {A : Type 0} (Spec : W → Result A × W → Type 0)
    : Type 0 where
  pub unchanged : (w w' : W) (e : Error) → Spec w (err e, w') → IsSame v w w'
  pub failed : (w w' : W) (e : Error) → IsSame v w w' → Spec w (err e, w')
  pub from_start : (w w1 w' : W) (a : A) → IsSame v w w1 → Spec w1 (ok a, w') → Spec w (ok a, w')

module _ {W : Type 0} {v : View W} {b : BackoffLib W} (h : IsBackoff b) where
  pub retry_once :
      {A : Type 0} (Spec : W → Result A × W → Type 0)
      → IsOnce v Spec
      → (f : Action W A) (configs : List (Config b)) (w : W) → ((w : W) → Spec w (f w))
      → Spec w (retry b f configs w)
  retry_once {A} Spec once f configs w at =
      attempted w w _ (refl, refl, refl) (retry-Attempts b h f configs w)
    where
      at_result : (w1 : W) (o : Result A × W) → f w1 ≡ o → Spec w1 o
      at_result w1 o e = subst (Spec w1) e (at w1)

      attempted : (w w1 : W) (o : Result A × W) → IsSame v w w1 → Attempts f w1 o → Spec w o
      attempted w w1 _ q (succeeds {w' = w'} {a = a} e) =
          once.from_start w w1 w' a q (at_result w1 _ e)
      attempted w w1 _ q (gives_up {w' = w'} {e = x} {e' = y} e) =
          once.failed w w' y (IsSame-trans v q (once.unchanged w1 w' x (at_result w1 _ e)))
      attempted w w1 o q (again {w' = w'} {e = x} e more) =
          attempted w w' o (IsSame-trans v q (once.unchanged w1 w' x (at_result w1 _ e))) more

module _ {W : Type 0} (v : View W) where
  pub Sends-IsOnce : (topic b : String) → IsOnce v (Sends v topic b)
  Sends-IsOnce topic b = record {
    unchanged = λ w w' e same. same;
    failed = λ w w' e same. same;
    from_start =
        λ w w1 w' a (e, s, p) (e', s', p'). (e' ∙ e, s' ∙ ap (λ l. l ++ (topic, b) ∷ []) s, p' ∙ p);
  }

  pub Publishes-IsOnce : (subject b : String) → IsOnce v (Publishes v subject b)
  Publishes-IsOnce subject b = record {
    unchanged = λ w w' e same. same;
    failed = λ w w' e same. same;
    from_start = λ w w1 w' a (e, s, p) (e', s', p').
        (e' ∙ e, s' ∙ s, p' ∙ ap (λ l. l ++ (subject, b) ∷ []) p);
  }
