-- ===== src/Platform/Backoff.antt =====
-- internal/backoff/backoff.go. The policies and the retry loop are those of cenkalti/backoff, a
-- parameter; what the code relies on is that `Retry` calls the operation until it succeeds or the
-- policy gives up. The context is left out: its end shows as the policy giving up.
use rivalry.Prelude.{ℕ, ◌≡◌, List, [], ◌∷◌}
use rivalry.Prelude.Results.{Action, Result, ok, err, Error}

pub record BackoffLib (W : Type 0) : Type 1 where
  pub BackOff : Type 0
  pub nil_backoff : BackOff
  pub new_exponential : BackOff
  pub new_constant : ℕ → BackOff
  pub with_max_retries : BackOff → ℕ → BackOff
  pub with_context : BackOff → BackOff
  pub retry : (A : Type 0) → Action W A → BackOff → Action W A

-- How a retried operation can have run: each attempt but the last one failed.
pub data Attempts {W A : Type 0} (f : Action W A) : W → Result A × W → Type 0 where
  succeeds : {w w' : W} {a : A} → f w ≡ (ok a, w') → Attempts f w (ok a, w')
  gives_up : {w w' : W} {e e' : Error} → f w ≡ (err e, w') → Attempts f w (err e', w')
  again :
      {w w' : W} {e : Error} {r : Result A × W}
      → f w ≡ (err e, w')
      → Attempts f w' r
      → Attempts f w r

pub record IsBackoff {W : Type 0} (b : BackoffLib W) : Type 1 where
  pub retry_lem :
      (A : Type 0) (f : Action W A) (p : b.BackOff) (w : W) → Attempts f w (b.retry A f p w)

-- An invariant of the failed attempts holds at the last one.
pub Attempts-cases {κ η} :
    {W A : Type 0} {f : Action W A} (P : W → Type κ) (Q : Result A × W → Type η)
    → ((w : W) → P w → (a : A) (w' : W) → f w ≡ (ok a, w') → Q (ok a, w'))
    → ((w : W)
        → P w
        → (e : Error) (w' : W) → f w ≡ (err e, w')
        → P w' × ((e' : Error) → Q (err e', w')))
    → {w : W} {r : Result A × W} → P w
    → Attempts f w r
    → Q r
Attempts-cases P Q good bad p (succeeds e) = good _ p _ _ e
Attempts-cases P Q good bad p (gives_up e) = (bad _ p _ _ e).1 _
Attempts-cases P Q good bad p (again e more) = Attempts-cases P Q good bad (bad _ p _ _ e).0 more

module _ {W : Type 0} (b : BackoffLib W) where
  open b use {BackOff, nil_backoff, new_exponential, new_constant, with_max_retries, with_context}

  abbrev pub Config : Type 0
  Config = BackOff → BackOff

  abbrev pub exponential : Config
  exponential _ = new_exponential

  abbrev pub constant : ℕ → Config
  constant d _ = new_constant d

  abbrev pub max_retry : ℕ → Config
  max_retry n p = with_max_retries p n

  configure : List Config → BackOff → BackOff
  configure [] p = p
  configure (conf ∷ configs) p = configure configs (conf p)

  policy : List Config → BackOff
  policy [] = exponential nil_backoff
  policy (conf ∷ configs) = configure (conf ∷ configs) nil_backoff

  unfoldable pub retry : {A : Type 0} → Action W A → List Config → Action W A
  unfolding policy configure
  retry {A} f configs = b.retry A f (with_context (policy configs))

  pub retry-Attempts :
      IsBackoff b
      → {A : Type 0} (f : Action W A) (configs : List Config) (w : W)
      → Attempts f w (retry f configs w)
  unfolding retry
  retry-Attempts h {A} f configs w = h.retry_lem A f _ w
