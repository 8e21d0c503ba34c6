-- ===== src/Decimal/Read.antt =====
-- A reader for what `sprint` writes.
use Prim.Native.Char.{code}
use rivalry.Prelude.{
  String, ℕ, zero, suc, ◌+◌, ◌-◌, ◌*◌, ◌/◌, ◌%◌, ◌<◌, ◌≡◌, refl, ◌∙◌, ◌||◌, ltb, Option, some, none,
  if◌then◌else◌, arith, pos,
}
use rivalry.Decimal.{digit, digits, sprint}

pub read : String → ℕ → Option ℕ
read String.[] n = some n
read (String.◌∷◌ c s) n =
    let rest = read s (n * 10 + (code c - b'0')) in
    if ltb (code c) b'0' || ltb b'9' (code c) then none else rest

code-digit : (d : ℕ) → d < 10 → code (digit d) ≡ b'0' + d
unfolding digit
code-digit zero h = refl
code-digit (suc zero) h = refl
code-digit (suc (suc zero)) h = refl
code-digit (suc (suc (suc zero))) h = refl
code-digit (suc (suc (suc (suc zero)))) h = refl
code-digit (suc (suc (suc (suc (suc zero))))) h = refl
code-digit (suc (suc (suc (suc (suc (suc zero)))))) h = refl
code-digit (suc (suc (suc (suc (suc (suc (suc zero))))))) h = refl
code-digit (suc (suc (suc (suc (suc (suc (suc (suc zero)))))))) h = refl
code-digit (suc (suc (suc (suc (suc (suc (suc (suc (suc d))))))))) h = omega arith

read_last : (n : ℕ) (out : String) → read (String.◌∷◌ (digit (n % 10)) out) (n / 10) ≡ read out n
unfolding read
read_last n out = ground (arith, code-digit (n % 10))

read-digits : (fuel n : ℕ) (out : String) → n < fuel → read (digits fuel n out) 0 ≡ read out n
unfolding digits
read-digits zero n out h = elim h [ ]
read-digits (suc fuel) n out h =
    by_tens (n / 10) refl (λ m lt. read-digits fuel (suc m) (String.◌∷◌ (digit (n % 10)) out) lt)
  where
    by_tens :
        (t : ℕ)
        → n / 10 ≡ t
        → ((m : ℕ)
            → suc m < fuel
            → read (digits fuel (suc m) (String.◌∷◌ (digit (n % 10)) out)) 0
              ≡ read (String.◌∷◌ (digit (n % 10)) out) (suc m))
        → read
            (elim t [
              | zero ↦ String.◌∷◌ (digit (n % 10)) out
              | suc m ↦ digits fuel (suc m) (String.◌∷◌ (digit (n % 10)) out)
            ])
            0
          ≡ read out n
    by_tens zero e rest = rw e at (read_last n out)
    by_tens (suc m) e rest = rest m (omega arith) ∙ (rw e at (read_last n out))

-- What is written is read back, for every number that is not negative.
pub read-sprint : (n : ℕ) → read (sprint (pos n)) 0 ≡ some n
unfolding sprint read
read-sprint n = read-digits (suc n) n "" (omega arith)
