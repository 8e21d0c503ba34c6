-- ===== src/Examples/Tests.antt =====
-- Three players, of whom two are paired, and a server.
use rivalry.Prelude.{
  arith, String, ℕ, suc, ◌≡◌, refl, some, none, List, [], ◌∷◌, pos, contains, ◌≤◌, ◌<◌,
}
use rivalry.Prelude.Results.{ok}
use rivalry.Wire.Api.{Submission}
use rivalry.CustomLogic.{Answers}
use rivalry.Matcher.Unmatched.{submitted_ids}
use rivalry.Matcher.Returns.{IsProper}
use rivalry.Examples.Pairs.{first_member, make_matches}
use rivalry.Examples.Pairs.Proper.{matched, make_matches-IsProper}
use rivalry.Examples.Assignment.{make_assignment, make_assignment_in_range}

abbrev submission : String → String → Submission
submission k player = record {
  id = k;
  members = player ∷ [];
  match_request_data = none;
  matchmaking_queue = "duel";
  rtts = record { host = "eu"; milliseconds = pos 30 } ∷ [];
  create_time = pos 100;
}

abbrev three : List Submission
three = submission "a" "ann" ∷ submission "b" "bob" ∷ submission "c" "cid" ∷ []

abbrev name_next : ℕ → String × ℕ
name_next n = ("m", suc n)

make_matches-IsProper_example :
    (answers : Answers) × (w' : ℕ) × (make_matches name_next three 0 ≡ some (answers, w'))
    × (matched answers ≡ ("a" ∷ "b" ∷ []) ∷ [])
    × IsProper (λ k. contains k (submitted_ids three)) answers
unfolding first_member
make_matches-IsProper_example =
    make_matches-IsProper name_next three 0 (refl, (refl, (refl, tt)))
      (("ann", refl), (("bob", refl), (("cid", refl), tt)))

abbrev seventh : ℕ → ℕ → ℕ × ℕ
seventh n w = (7, w)

make_assignment_in_range_example :
    (port : ℕ) × (1024 ≤ port)
    × (port < 65535)
    × ((make_assignment seventh (record { found = none }) 0).0
        ≡ ok (record {
          game_server = some (record {
            game_server_ip = "127.0.0.1";
            game_server_ports = record { name = "game"; port = pos port } ∷ [];
          });
        }))
make_assignment_in_range_example =
    make_assignment_in_range seventh (record { found = none }) 0 (omega arith)
