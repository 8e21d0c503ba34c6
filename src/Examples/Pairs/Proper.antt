-- ===== src/Examples/Pairs/Proper.antt =====
-- The answers of the pairing.
use rivalry.Prelude.{
  String, ◌≡◌, refl, ap, Bool, true, ◌&&◌, not, Option, none, some, List, [], ◌∷◌, All, contains,
  IsDistinct, arith, eq_iff,
}
use rivalry.Wire.Api.{Submission, Match}
use rivalry.CustomLogic.{Answers, next, closed, broken}
use rivalry.Matcher.Unmatched.{submitted_ids}
use rivalry.Matcher.Returns.{IsProper}
use rivalry.Examples.Pairs.{first_member, pair_up, make_matches}

abbrev pub HasMembers : Submission → Type 0
HasMembers s = (player : String) × (first_member s.members ≡ some player)

-- The identifiers two by two, in their order; one that is left over is in no pair.
abbrev pub pairs : List String → List (List String)
pairs [] = []
pairs (a ∷ []) = []
pairs (a ∷ b ∷ ids) = (a ∷ b ∷ []) ∷ pairs ids

abbrev ids_of : Option Match → List String
ids_of none = []
ids_of (some m) = m.match_request_ids

-- The tickets of each match, in the order of the answers.
abbrev pub matched : Answers → List (List String)
matched closed = []
matched (broken _) = []
matched (next a rest) = ids_of a.found ∷ matched rest

module _ {W : Type 0} (new_id : W → String × W) where
  pair_up-IsProper :
      (subs : List Submission) (w : W) (available : String → Bool)
      → IsDistinct (submitted_ids subs)
      → All HasMembers subs
      → ((k : String) → contains k (submitted_ids subs) ≡ true → available k ≡ true)
      → (answers : Answers) × (w' : W) × (pair_up new_id subs none [] w ≡ some (answers, w'))
        × (matched answers ≡ pairs (submitted_ids subs))
        × IsProper available answers
  unfolding pair_up
  pair_up-IsProper [] w available d h a = (closed, w, refl, refl, tt)
  pair_up-IsProper (s ∷ []) w available d ((player, e), _) a = rw e (closed, w, refl, refl, tt)
  pair_up-IsProper (s ∷ t ∷ subs) w available (d, (d', ds)) ((player, e), ((other, e'), h)) a =
      let (rest, w', r, two, proper) =
        pair_up-IsProper subs (new_id w).1 (λ k. available k && not (contains k (s.id ∷ t.id ∷ [])))
          ds h (λ k c. ground (arith, a k, eq_iff k s.id, eq_iff k t.id)) in
      rw (e, e', r)
        (
          _,
          w',
          refl,
          ap (λ l. (s.id ∷ t.id ∷ []) ∷ l) two,
          (_, refl, (λ k c. a k (ground arith)), proper),
        )

  -- Submissions with different identifiers, each with a member, are matched two by two in their order
  -- without a panic: the first with the second, the third with the fourth, and so on, and one that is
  -- left over is in no match. The answers are proper: each match is there, and its tickets were
  -- submitted and are in no match before it.
  pub make_matches-IsProper :
      (subs : List Submission) (w : W)
      → IsDistinct (submitted_ids subs)
      → All HasMembers subs
      → (answers : Answers) × (w' : W) × (make_matches new_id subs w ≡ some (answers, w'))
        × (matched answers ≡ pairs (submitted_ids subs))
        × IsProper (λ k. contains k (submitted_ids subs)) answers
  unfolding make_matches
  make_matches-IsProper subs w d h =
      pair_up-IsProper subs w (λ k. contains k (submitted_ids subs)) d h (λ k c. c)
