-- ===== src/Prelude/Texts.antt =====
-- Texts and how they begin.
use Prim.Native.Nat.{zero}
use Prim.Native.String.{String, ◌++◌, len, slice}
use text.Mathlib.TextPositions.{slice-append_left}
use mathlib.Core.Path.{◌≡◌, sym, ap, ◌∙◌}

-- Texts that agree begin alike.
pub heads_eq : (s t x y : String) → s ++ x ≡ t ++ y → len s ≡ len t → s ≡ t
heads_eq s t x y e l =
    sym (slice-append_left s x)
    ∙ ap (λ z. slice z zero (len s)) e
    ∙ ap (slice (t ++ y) zero) l
    ∙ slice-append_left t y
