-- ===== src/Prelude/Maps.antt =====
-- A Go map with text keys, as an association list.
use Prim.Native.String.{String}
use text.Mathlib.Text.{◌==◌}
use text.Mathlib.TextEquality.{eq_iff}
use mathlib.Core.Path.{◌≡◌, refl}
use mathlib.Core.Option.{Option, none, some}
use mathlib.Core.List.{List, [], ◌∷◌}
use native.Mathlib.Omega.{arith}
use rivalry.Prelude.Tests.{if◌then◌else◌, ==_comm, Bool-cases}
use rivalry.Prelude.Lists.{contains, IsDistinct, IsIn}
use mathlib.Core.Logic.{inl, inr}
use mathlib.Core.Bool.{false, ◌||◌}

abbrev pub Map {ℓ} : Type ℓ → Type ℓ
Map V = List (String × V)

module _ {ℓ} {V : Type ℓ} where
  abbrev pub lookup : String → Map V → Option V
  lookup k [] = none
  lookup k ((j, v) ∷ m) = if j == k then some v else lookup k m

  -- `m[k] = v`
  abbrev pub insert : String → V → Map V → Map V
  insert k v [] = (k, v) ∷ []
  insert k v ((j, w) ∷ m) = if j == k then (k, v) ∷ m else (j, w) ∷ insert k v m

  -- `delete(m, k)`
  abbrev pub erase : String → Map V → Map V
  erase k [] = []
  erase k ((j, w) ∷ m) = let rest = erase k m in if j == k then rest else (j, w) ∷ rest

  abbrev pub keys : Map V → List String
  keys [] = []
  keys ((j, w) ∷ m) = j ∷ keys m

  abbrev pub values : Map V → List V
  values [] = []
  values ((j, w) ∷ m) = w ∷ values m

  pub lookup-insert :
      (k j : String) (v : V) (m : Map V)
      → lookup j (insert k v m) ≡ (if k == j then some v else lookup j m)
  lookup-insert k j v [] = refl
  lookup-insert k j v ((i, w) ∷ m) =
      ground (arith, eq_iff k j, eq_iff i k, eq_iff i j, lookup-insert k j v m)

  pub lookup-erase :
      (k j : String) (m : Map V) → lookup j (erase k m) ≡ (if k == j then none else lookup j m)
  lookup-erase k j [] = ground arith
  lookup-erase k j ((i, w) ∷ m) =
      ground (arith, eq_iff k j, eq_iff i k, eq_iff i j, lookup-erase k j m)

  pub keys-insert :
      (k j : String) (v : V) (m : Map V)
      → contains j (keys (insert k v m)) ≡ (j == k || contains j (keys m))
  keys-insert k j v [] = refl
  keys-insert k j v ((i, w) ∷ m) =
      ground (arith, eq_iff i k, eq_iff j k, eq_iff j i, keys-insert k j v m)

  -- A map that is filled by assignments holds each key once.
  pub insert-IsDistinct :
      (k : String) (v : V) (m : Map V) → IsDistinct (keys m) → IsDistinct (keys (insert k v m))
  insert-IsDistinct k v [] d = (refl, tt)
  insert-IsDistinct k v ((i, w) ∷ m) d =
      ground (arith, eq_iff i k, insert-IsDistinct k v m d.1, keys-insert k i v m)

  -- A key of the map has a value.
  pub not_key_of_lookup : (k : String) (m : Map V) → lookup k m ≡ none → contains k (keys m) ≡ false
  not_key_of_lookup k [] h = refl
  not_key_of_lookup k ((i, w) ∷ m) h = ground (arith, ==_comm k i, not_key_of_lookup k m)

-- A value of the map is listed.
pub value-IsIn :
    {V : Type 0} (k : String) (x : V) (m : Map V) → lookup k m ≡ some x → IsIn x (values m)
value-IsIn k x [] h = cc
value-IsIn k x ((j, v) ∷ m) h = elim (Bool-cases (j == k)) [
  | inl same ↦ inl (ground arith)
  | inr other ↦ inr (value-IsIn k x m (ground arith))
]
