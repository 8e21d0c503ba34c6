-- ===== src/Commands/ClientCommand/Requests.antt =====
-- What `match request` asks for, and how it ends.
use rivalry.Prelude.{String, ◌≡◌, refl, sym, ap, subst, none, some, List, [], ◌∷◌}
use rivalry.Prelude.Results.{Result, ok, err, Error}
use rivalry.Wire.Api
use rivalry.Commands.Flags.{Cobra, IsCobra, Values, Given, spelled}
use rivalry.Commands.ClientCommand.{
  Client, Responses, Printed, next, ended, flags, run, connected, with_doubles, with_strings,
  answered, receive, request_of,
}

-- What the command prints, and how it ends, by what the frontend answers: each answer in its order,
-- and the error that comes last.
pub data Prints : Result Responses → Printed → Type 0 where
  refused : {e : Error} → Prints (err e) (err e, [])
  ends : {e : Error} → Prints (ok (ended e)) (err e, [])
  prints :
      {resp : Api.MatchResponse} {rest : Responses} {e : Error} {resps : List Api.MatchResponse}
      → Prints (ok rest) (err e, resps)
      → Prints (ok (next resp rest)) (err e, resp ∷ resps)

receive_prints :
    (rs : Responses)
    → (e : Error) × (resps : List Api.MatchResponse) × (receive rs ≡ (err e, resps))
      × Prints (ok rs) (err e, resps)
unfolding receive
receive_prints (ended e) = (e, [], refl, ends)
receive_prints (next resp rest) =
    let (e, resps, same, p) = receive_prints rest in
    (e, resp ∷ resps, ap (λ o. (o.0, resp ∷ o.1)) same, prints p)

answered_prints : (o : Result Responses) → Prints o (answered o)
unfolding answered
answered_prints (err e) = refused
answered_prints (ok rs) =
    let (e, resps, same, p) = receive_prints rs in subst (Prints (ok rs)) (sym same) p

abbrev pub given : String → String → String → Given
given target player queue = ("target", target) ∷ ("player_id", player) ∷ ("match_queue", queue) ∷ []

-- What the command asks for.
abbrev pub asked : String → String → Api.MatchRequest
asked player queue = record {
  id = "";
  player_id = player;
  party_data = none;
  match_request_data =
      some (record { doubles = []; strings = []; tags = "1v1" ∷ []; extra_data = "" });
  matchmaking_queue = queue;
  rtts = [];
}

-- With a target, a player and a queue on the command line, the command asks the frontend for a match
-- of the player on the queue, with the tag 1v1 and no identifier, where it can connect to that target
-- and the JSON library reads an empty object as an empty map. It prints all answers in their order and
-- ends with the error that follows them, or with the error of the call.
pub run_requests :
    (c : Cobra)
    → IsCobra c
    → (client : Client) (target player queue : String) → client.dial target ≡ ok tt
    → client.unmarshal_doubles "{}" ≡ ok []
    → client.unmarshal_strings "{}" ≡ ok []
    → (values : Values) × (c.execute flags (spelled (given target player queue)) ≡ ok values)
      × Prints (client.match_call (asked player queue)) (run client values)
unfolding run connected with_doubles with_strings request_of
run_requests c cobra client target player queue connects no_doubles no_strings =
    let (values, parsed, (v_target, (v_player, (v_queue, (v_doubles, (v_strings, (v_tags, _))))))) =
      cobra.execute_lem flags (given target player queue)
        (refl, (refl, (refl, (refl, (refl, (refl, tt)))))) (refl, (refl, (refl, tt)))
        (
          (cc, λ _. cc),
          ((cc, λ _. cc), ((cc, λ r. cc), ((cc, λ r. cc), ((cc, λ r. cc), ((cc, λ r. cc), tt))))),
        ) in
    (
      values,
      parsed,
      rw
          (
            v_target, connects, v_doubles, no_doubles, v_strings, no_strings, v_player, v_queue,
            v_tags,
          )
          (answered_prints (client.match_call (asked player queue))),
    )
