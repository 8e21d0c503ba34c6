-- ===== src/Sample/Pairing.antt =====
-- A matchmaker that pairs the first two tickets.
use rivalry.Prelude.{◌≡◌, refl, subst, some, List, [], ◌∷◌, contains, arith}
use rivalry.Prelude.Results.{Result, ok}
use rivalry.Wire.Api.{Submission}
use rivalry.CustomLogic.{Answers, next, closed, MatchMakerServiceClient}
use rivalry.Matcher.Unmatched.{submitted_ids}
use rivalry.Matcher.Returns.{IsProper, IsWellBehaved}
use rivalry.Sample.Memory.{Memory}
use rivalry.Sample.World.{duel}

abbrev pub answers : List Submission → Answers
answers (a ∷ b ∷ rest) = next (record { found = some (duel "m1" (a.id ∷ b.id ∷ [])) }) closed
answers _ = closed

abbrev pub pairing : MatchMakerServiceClient Memory
pairing = record { make_matches = λ req w. (ok (answers req.submissions), w) }

answers-IsProper :
    (ss : List Submission) → IsProper (λ k. contains k (submitted_ids ss)) (answers ss)
answers-IsProper [] = tt
answers-IsProper (a ∷ []) = tt
answers-IsProper (a ∷ b ∷ rest) = (duel "m1" (a.id ∷ b.id ∷ []), refl, (λ k c. ground arith), tt)

pub pairing-IsWellBehaved : IsWellBehaved pairing
pairing-IsWellBehaved ss w w' given e =
    subst (IsProper (λ k. contains k (submitted_ids ss))) (the_answers e) (answers-IsProper ss)
  where
    the_answers :
        {a b : Answers} {x y : Memory}
        → ◌≡◌ {A = Result Answers × Memory} (ok a, x) (ok b, y)
        → a ≡ b
    the_answers q = cc
