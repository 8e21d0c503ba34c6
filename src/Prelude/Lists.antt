-- ===== src/Prelude/Lists.antt =====
-- Lists measured by native numbers, and lists of identifiers searched by text.
use Prim.Native.Nat.{ℕ, suc, ◌+◌}
use Prim.Native.String.{String}
use text.Mathlib.Text.{◌==◌}
use mathlib.Core.Path.{◌≡◌, refl, sym, ap, subst}
use mathlib.Core.Logic.{◌⊎◌, inl, inr}
use mathlib.Core.Bool.{Bool, false, ◌||◌}
use mathlib.Core.List.{List, [], ◌∷◌, ◌++◌, map}
use native.Mathlib.Omega.{arith}
use rivalry.Prelude.Tests.{==_comm}

module _ {ℓ} {A : Type ℓ} where
  abbrev pub length : List A → ℕ
  length [] = 0
  length (x ∷ xs) = suc (length xs)

  pub length-append : (xs ys : List A) → length (xs ++ ys) ≡ length xs + length ys
  length-append [] ys = omega arith
  length-append (x ∷ xs) ys = omega (arith, length-append xs ys)

  -- Every member satisfies the predicate.
  abbrev pub All {κ} : (A → Type κ) → List A → Type κ
  All P [] = Unit
  All P (x ∷ xs) = P x × All P xs

  pub All-map {κ η} :
      {P : A → Type κ} {Q : A → Type η} (xs : List A) → ((x : A) → P x → Q x) → All P xs → All Q xs
  All-map [] f h = tt
  All-map (x ∷ xs) f h = (f x h.0, All-map xs f h.1)

  pub All-append {κ} : (P : A → Type κ) (xs ys : List A) → All P xs → All P ys → All P (xs ++ ys)
  All-append P [] ys hx hy = hy
  All-append P (x ∷ xs) ys hx hy = (hx.0, All-append P xs ys hx.1 hy)

module _ {ℓ} {A : Type ℓ} where
  pub length-map {κ} : {B : Type κ} (f : A → B) (xs : List A) → length (map f xs) ≡ length xs
  length-map f [] = refl
  length-map f (x ∷ xs) = ap suc (length-map f xs)

module _ {A : Type 0} where
  -- The value is an element of the list.
  abbrev pub IsIn : A → List A → Type 0
  IsIn a [] = ⊥
  IsIn a (b ∷ l) = (a ≡ b) ⊎ IsIn a l

  pub All-IsIn {κ} : (P : A → Type κ) (a : A) (l : List A) → All P l → IsIn a l → P a
  All-IsIn P a [] h i = absurd i
  All-IsIn P a (b ∷ l) h (inl e) = subst P (sym e) h.0
  All-IsIn P a (b ∷ l) h (inr i) = All-IsIn P a l h.1 i

  pub IsIn-append_left : (a : A) (xs ys : List A) → IsIn a ys → IsIn a (xs ++ ys)
  IsIn-append_left a [] ys i = i
  IsIn-append_left a (x ∷ xs) ys i = inr (IsIn-append_left a xs ys i)

  pub IsIn-append_right : (a : A) (xs ys : List A) → IsIn a xs → IsIn a (xs ++ ys)
  IsIn-append_right a [] ys i = absurd i
  IsIn-append_right a (x ∷ xs) ys (inl e) = inl e
  IsIn-append_right a (x ∷ xs) ys (inr i) = inr (IsIn-append_right a xs ys i)

abbrev pub contains : String → List String → Bool
contains k [] = false
contains k (x ∷ xs) = k == x || contains k xs

pub contains-append :
    (k : String) (xs ys : List String) → contains k (xs ++ ys) ≡ (contains k xs || contains k ys)
contains-append k [] ys = refl
contains-append k (x ∷ xs) ys = ground (arith, contains-append k xs ys)

-- No text is listed twice.
abbrev pub IsDistinct : List String → Type 0
IsDistinct [] = Unit
IsDistinct (x ∷ xs) = (contains x xs ≡ false) × IsDistinct xs

-- An identifier that is not yet listed may be added at the end.
pub IsDistinct-append_one :
    (xs : List String) (k : String)
    → IsDistinct xs
    → contains k xs ≡ false
    → IsDistinct (xs ++ k ∷ [])
IsDistinct-append_one [] k d h = (refl, tt)
IsDistinct-append_one (x ∷ xs) k d h =
    ground (arith, IsDistinct-append_one xs k d.1, contains-append x xs (k ∷ []), ==_comm k x)
