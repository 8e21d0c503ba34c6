-- ===== src/Sample/ListSets.antt =====
-- Sets of texts as lists, newest first; what stands there twice counts once.
use rivalry.Prelude.{
  String, ◌≡◌, refl, not, List, [], ◌∷◌, eq_iff, contains, length, IsDistinct, if◌then◌else◌, arith,
}
use rivalry.Platform.Sets.{SetLib, AreSets}

abbrev pub distinct : List String → List String
distinct [] = []
distinct (k ∷ ks) = let rest = distinct ks in if contains k ks then rest else k ∷ rest

abbrev pub list_sets : SetLib (List String)
list_sets = record {
  new_set = [];
  add = λ k s. (not (contains k s), k ∷ s);
  has = contains;
  cardinality = λ s. length (distinct s);
  to_slice = distinct;
}

contains-distinct : (k : String) (s : List String) → contains k (distinct s) ≡ contains k s
contains-distinct k [] = refl
contains-distinct k (j ∷ s) =
    ground (arith, contains-distinct k s, contains-distinct j s, eq_iff k j)

distinct-IsDistinct : (s : List String) → IsDistinct (distinct s)
distinct-IsDistinct [] = tt
distinct-IsDistinct (k ∷ s) = ground (arith, distinct-IsDistinct s, contains-distinct k s)

pub list_sets-AreSets : AreSets list_sets
list_sets-AreSets = record {
  has-new_set = λ k. refl;
  add-new = λ k s. refl;
  has-add = λ k j s. refl;
  cardinality-new_set = refl;
  cardinality-add = λ k s. ground arith;
  contains-to_slice = contains-distinct;
  to_slice-IsDistinct = distinct-IsDistinct;
  length-to_slice = λ s. refl;
}
