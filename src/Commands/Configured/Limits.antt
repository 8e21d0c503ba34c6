-- ===== src/Commands/Configured/Limits.antt =====
-- Flags that are given once for each of some texts, after others.
use rivalry.Prelude.{
  String, ℕ, ℤ, pos, negsuc, zero, suc, ◌<◌, ◌^◌, ◌==◌, ◌≡◌, refl, ap, true, false, Option, none,
  some, List, [], ◌∷◌, ◌++◌, All, arith, eq_refl, contains,
}
use rivalry.Decimal.{sprint}
use rivalry.Commands.Flags.{
  Cobra, IsCobra, Given, Value, spelled, texts_of, final_value, int64_value, set_all,
}

abbrev pub each : String → List String → Given
each n [] = []
each n (t ∷ ts) = (n, t) ∷ each n ts

pub spelled-append : (g h : Given) → spelled (g ++ h) ≡ spelled g ++ spelled h
spelled-append [] h = refl
spelled-append ((n, t) ∷ g) h = rw (spelled-append g h) refl

pub texts_of-append :
    (n : String) (g h : Given) → texts_of n (g ++ h) ≡ texts_of n g ++ texts_of n h
texts_of-append n [] h = refl
texts_of-append n ((m, t) ∷ g) h = ground (arith, texts_of-append n g h)

pub texts_of-each : (n : String) (ts : List String) → texts_of n (each n ts) ≡ ts
texts_of-each n [] = refl
texts_of-each n (t ∷ ts) = rw (eq_refl n, texts_of-each n ts) refl

pub texts_of_other :
    (n m : String) (ts : List String) → (m == n) ≡ false → texts_of n (each m ts) ≡ []
texts_of_other n m [] h = refl
texts_of_other n m (t ∷ ts) h = rw h (texts_of_other n m ts h)

pub each-declared :
    (n : String) (ts : List String) (ns : List String)
    → contains n ns ≡ true
    → All (λ g. contains g.0 ns ≡ true) (each n ts)
each-declared n [] ns h = tt
each-declared n (t ∷ ts) ns h = (h, each-declared n ts ns h)

-- What a limit of a queue comes to: it is not given if it is not positive, and then it is 1000.
abbrev pub limit_texts : ℤ → List String
limit_texts (pos zero) = []
limit_texts (pos (suc n)) = sprint (pos (suc n)) ∷ []
limit_texts (negsuc n) = []

abbrev pub limit_or_default : ℤ → ℕ
limit_or_default (pos zero) = 1000
limit_or_default (pos (suc n)) = suc n
limit_or_default (negsuc n) = 1000

pub final_value-limit :
    (c : Cobra)
    → IsCobra c
    → (limit : ℤ) → limit_or_default limit < 2 ^ 63
    → final_value c.parsers (int64_value (pos 1000)) (limit_texts limit)
      ≡ some (int64_value (pos (limit_or_default limit)))
final_value-limit c cobra (pos zero) h = refl
final_value-limit c cobra (pos (suc n)) h = ap read (cobra.parse_int64_lem (suc n) (omega arith) h)
  where
    read : Option ℤ → Option Value
    read o = elim o [ none ↦ none | some m ↦ set_all c.parsers (int64_value m) [] ]
final_value-limit c cobra (negsuc n) h = refl
