-- ===== src/Platform/Sets.antt =====
-- The sets of texts of deckarep/golang-set, a library: its operations as parameters, and what the
-- code relies on. `add` changes the set in place, so it returns the changed set.
use rivalry.Prelude.{
  String, ℕ, suc, ◌≡◌, Bool, false, not, ◌||◌, List, [], ◌∷◌, ◌==◌, contains, length, IsDistinct,
  if◌then◌else◌, arith,
}

pub record SetLib (S : Type 0) : Type 0 where
  pub new_set : S
  pub add : String → S → Bool × S
  pub has : String → S → Bool
  pub cardinality : S → ℕ
  pub to_slice : S → List String

-- `add` says whether the text is new; `to_slice` lists the members in an order of its own.
pub record AreSets {S : Type 0} (l : SetLib S) : Type 0 where
  pub has-new_set : (k : String) → l.has k l.new_set ≡ false
  pub add-new : (k : String) (s : S) → (l.add k s).0 ≡ not (l.has k s)
  pub has-add : (k j : String) (s : S) → l.has j (l.add k s).1 ≡ (j == k || l.has j s)
  pub cardinality-new_set : l.cardinality l.new_set ≡ 0
  pub cardinality-add :
      (k : String) (s : S)
      → l.cardinality (l.add k s).1 ≡ (if l.has k s then l.cardinality s else suc (l.cardinality s))
  pub contains-to_slice : (k : String) (s : S) → contains k (l.to_slice s) ≡ l.has k s
  pub to_slice-IsDistinct : (s : S) → IsDistinct (l.to_slice s)
  pub length-to_slice : (s : S) → length (l.to_slice s) ≡ l.cardinality s

module _ {S : Type 0} (l : SetLib S) where
  -- `for _, k := range ks { s.Add(k) }`
  unfoldable pub add_all : List String → S → S
  add_all [] s = s
  add_all (k ∷ ks) s = add_all ks (l.add k s).1

  pub has-add_all :
      AreSets l
      → (ks : List String) (s : S) (j : String)
      → l.has j (add_all ks s) ≡ (contains j ks || l.has j s)
  unfolding add_all
  has-add_all h [] s j = ground arith
  has-add_all h (k ∷ ks) s j = ground (arith, has-add_all h ks (l.add k s).1 j, h.has-add k j s)
