-- ===== src/Commands/ClientCommand.antt =====
-- cmd/frontend-cli/cmd/match.go: the command `match request`, which asks the frontend for a match and
-- prints what it answers. The gRPC client and the JSON library are parameters.
pub mod Requests
use rivalry.Prelude.{String, ℕ, true, false, none, some, List, [], ◌∷◌, Map}
use rivalry.Prelude.Results.{Result, ok, err, Error, wrapped}
use rivalry.Wire.Api
use rivalry.Commands.Flags.{Flag, Values, string_value, strings_value, get_string, get_string_slice}

-- What `Recv` returns, call after call: it ends with an error, which may be `io.EOF`.
pub data Responses : Type 0 where
  next : Api.MatchResponse → Responses → Responses
  ended : Error → Responses

pub record Client : Type 0 where
  pub dial : String → Result (Unit {0})
  pub unmarshal_doubles : String → Result (Map ℕ)
  pub unmarshal_strings : String → Result (Map String)
  pub match_call : Api.MatchRequest → Result Responses

abbrev pub flags : List Flag
flags =
    record { name = "target"; default_value = string_value ""; is_required = true }
    ∷ record { name = "player_id"; default_value = string_value ""; is_required = true }
    ∷ record { name = "match_queue"; default_value = string_value "default"; is_required = false }
    ∷ record { name = "doubles"; default_value = string_value "{}"; is_required = false }
    ∷ record { name = "strings"; default_value = string_value "{}"; is_required = false }
    ∷ record { name = "tags"; default_value = strings_value ("1v1" ∷ []); is_required = false }
    ∷ []

-- How the command ends, and what it printed.
abbrev pub Printed : Type 0
Printed = Result (Unit {0}) × List Api.MatchResponse

-- The loop over the answers.
pub receive : Responses → Printed
receive (next resp rest) = let (r, printed) = receive rest in (r, resp ∷ printed)
receive (ended e) = (err e, [])

pub answered : Result Responses → Printed
unfolding receive
answered (ok stream) = receive stream
answered (err e) = (err e, [])

unfoldable pub request_of : Values → Map ℕ → Map String → Api.MatchRequest
request_of values doubles strings = record {
  id = "";
  player_id = get_string values "player_id";
  party_data = none;
  match_request_data = some (record {
    doubles = doubles;
    strings = strings;
    tags = get_string_slice values "tags";
    extra_data = "";
  });
  matchmaking_queue = get_string values "match_queue";
  rtts = [];
}

module _ (client : Client) where
  with_strings : Values → Map ℕ → Result (Map String) → Printed
  unfolding answered request_of
  with_strings values doubles (ok strings) =
      answered (client.match_call (request_of values doubles strings))
  with_strings values doubles (err e) = (err e, [])

  with_doubles : Values → Result (Map ℕ) → Printed
  unfolding with_strings
  with_doubles values (ok doubles) =
      with_strings values doubles (client.unmarshal_strings (get_string values "strings"))
  with_doubles values (err e) = (err e, [])

  connected : Values → Result (Unit {0}) → Printed
  unfolding with_doubles
  connected values (ok _) =
      with_doubles values (client.unmarshal_doubles (get_string values "doubles"))
  connected values (err e) = (err (wrapped "failed to connect to gRPC" e), [])

  pub run : Values → Printed
  unfolding connected
  run values = connected values (client.dial (get_string values "target"))
