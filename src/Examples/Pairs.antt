-- ===== src/Examples/Pairs.antt =====
-- examples/matchmaker/service/pairs.go: submissions are matched two by two, in their order.
pub mod Proper
use rivalry.Prelude.{String, ℤ, Option, none, some, List, [], ◌∷◌, Map, lookup, insert}
use rivalry.Prelude.Results.{unless_panic}
use rivalry.Wire.Api
use rivalry.Wire.Api.{Submission, Match}
use rivalry.CustomLogic.{Answers, next, closed}
use rivalry.Examples.Integers.{average}

-- `sub.Members[0]`, a panic where there is none.
unfoldable pub first_member : List String → Option String
first_member [] = none
first_member (player ∷ members) = some player

merged : Option ℤ → ℤ → ℤ
merged none milliseconds = milliseconds
merged (some before) milliseconds = average before milliseconds

-- The loop over `sub.Rtts`.
add_rtts : List Api.Rtt → Map ℤ → Map ℤ
unfolding merged
add_rtts [] rtts = rtts
add_rtts (r ∷ rs) rtts =
    add_rtts rs (insert r.host (merged (lookup r.host rtts) r.milliseconds) rtts)

-- The list that the match carries; Go's order of a map is any.
list_rtts : Map ℤ → List Api.Rtt
list_rtts [] = []
list_rtts ((host, milliseconds) ∷ rtts) =
    record { host = host; milliseconds = milliseconds } ∷ list_rtts rtts

-- `xid.New()` is a parameter.
module _ {W : Type 0} (new_id : W → String × W) where
  pair_of : String → Submission → String → String → String → Map ℤ → Match
  unfolding list_rtts
  pair_of match_id sub player other_id other_player rtts = record {
    match_id = match_id;
    matchmaking_queue = "";
    match_request_ids = other_id ∷ sub.id ∷ [];
    player_ids = other_player ∷ player ∷ [];
    rtts = list_rtts rtts;
  }

  -- The loop of `MakeMatches`: the submission that waits for a partner, with its first member, and
  -- the round trip times so far. `none` is a panic.
  unfoldable pub pair_up :
      List Submission → Option (String × String) → Map ℤ → W → Option (Answers × W)
  unfolding pair_of add_rtts
  pair_up [] waiting rtts w = some (closed, w)
  pair_up (sub ∷ subs) none rtts w =
      unless_panic (λ player. pair_up subs (some (sub.id, player)) (add_rtts sub.rtts rtts) w)
        (first_member sub.members)
  pair_up (sub ∷ subs) (some (other_id, other_player)) rtts w =
      unless_panic
        (λ player.
          let (match_id, w') = new_id w in
          let m = pair_of match_id sub player other_id other_player (add_rtts sub.rtts rtts) in
          unless_panic (λ rest. some (next (record { found = some m }) rest.0, rest.1))
            (pair_up subs none [] w'))
        (first_member sub.members)

  unfoldable pub make_matches : List Submission → W → Option (Answers × W)
  make_matches submissions w = pair_up submissions none [] w
