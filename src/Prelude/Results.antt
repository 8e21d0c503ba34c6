-- ===== src/Prelude/Results.antt =====
-- What a Go function returns beside an error, and calls that read and change the outside world.
use mathlib.Core.Path.{◌≡◌, refl}
use mathlib.Core.Option.{Option, none, some}
use Prim.Native.String.{String}

pub data Code : Type 0 where
  invalid_argument already_exists : Code

-- The errors that the code makes itself, those of `errors.Wrap`, and those of the libraries.
pub data Error : Type 0 where
  not_found duplicate_ticket_id missing_id redis_nil : Error
  status : Code → String → Error
  wrapped : String → Error → Error
  external : String → Error

-- `(A, error)`: the value counts only where the error is nil.
pub data Result (A : Type 0) : Type 0 where
  ok : A → Result A
  err : Error → Result A

-- A call in the world `W`: what the databases, the brokers and the clock hold.
abbrev pub Action : Type 0 → Type 0 → Type 0
Action W A = W → Result A × W

-- What follows a call that may panic, where `none` is the panic, which ends the caller.
abbrev pub unless_panic : {A B : Type 0} → (A → Option B) → Option A → Option B
unless_panic f none = none
unless_panic f (some a) = f a

-- The call returned, without a panic.
abbrev pub Returns : {A : Type 0} → Option A → Type 0
Returns {A} o = (a : A) × (o ≡ some a)

pub Returns-unless_panic :
    {A B : Type 0} (f : A → Option B) (o : Option A)
    → Returns o
    → ((a : A) → Returns (f a))
    → Returns (unless_panic f o)
Returns-unless_panic f none (a, e) h = cc
Returns-unless_panic f (some a) r h = h a

module _ {W : Type 0} where
  abbrev pub pure : {A : Type 0} → A → Action W A
  pure a w = (ok a, w)

  abbrev pub fail : {A : Type 0} → Error → Action W A
  fail e w = (err e, w)

  abbrev pub lift : {A : Type 0} → Result A → Action W A
  lift r w = (r, w)

  abbrev pub and_then : {A B : Type 0} → (A → Action W B) → Result A × W → Result B × W
  and_then f (ok a, w) = f a w
  and_then f (err e, w) = (err e, w)

  -- `if err != nil { return err }` after a call.
  infixl 5 ◌>>=◌ ◌>>◌
  abbrev pub ◌>>=◌ : {A B : Type 0} → Action W A → (A → Action W B) → Action W B
  ◌>>=◌ m f w = and_then f (m w)

  abbrev pub ◌>>◌ : {B : Type 0} → Action W (Unit {0}) → Action W B → Action W B
  m >> k = m >>= λ _. k

  abbrev pub wrap_error : {A : Type 0} → String → Result A × W → Result A × W
  wrap_error message (ok a, w) = (ok a, w)
  wrap_error message (err e, w) = (err (wrapped message e), w)

  -- `errors.Wrap` around what a call returns.
  abbrev pub wrapping : {A : Type 0} → String → Action W A → Action W A
  wrapping message m w = wrap_error message (m w)

  abbrev pub if_failed : {A : Type 0} → Action W (Unit {0}) → Result A × W → Result A × W
  if_failed cleanup (ok a, w) = (ok a, w)
  if_failed cleanup (err e, w) = (err e, (cleanup w).1)

  -- A deferred function that acts only if the error is set at the end; its own result is dropped.
  abbrev pub deferred : {A : Type 0} → Action W (Unit {0}) → Action W A → Action W A
  deferred cleanup m w = if_failed cleanup (m w)

  -- To reason about what follows a call that stays shut: how it can have ended.
  pub call_cases {κ} :
      {A : Type 0} (Q : Result A × W → Type κ) (r : Result A × W)
      → ((a : A) (w' : W) → r ≡ (ok a, w') → Q (ok a, w'))
      → ((e : Error) (w' : W) → r ≡ (err e, w') → Q (err e, w'))
      → Q r
  call_cases Q (ok a, w) good bad = good a w refl
  call_cases Q (err e, w) good bad = bad e w refl
