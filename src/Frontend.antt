-- ===== src/Frontend.antt =====
-- internal/app/frontend/frontend.go: `Match` creates a match request and watches it until a game
-- server is there, which it sends to the client. The stream to the client is generated code, so
-- sending on it is a parameter, and so is the text of an error.
pub mod Refusals
pub mod Assigned
mod Tests
use rivalry.Prelude.{
  String, Bool, true, false, Option, none, some, List, [], ◌∷◌, ◌==◌, if◌then◌else◌,
}
use rivalry.Prelude.Results.{
  Action, Result, ok, err, Error, Code, status, duplicate_ticket_id, wrapped, invalid_argument,
  already_exists,
}
use rivalry.Wire.Api
use rivalry.Wire.Documents
use rivalry.Platform.Backoff.{retry, constant}
use rivalry.Platform.Sets.{SetLib, add_all}
use rivalry.Platform.Env.{Env}
use rivalry.Tickets.{create_match_request, get_match_request}
use rivalry.Tickets.Queue.{watch_match_request, match_request_updated}

pub record Service (S : Type 0) : Type 0 where
  pub queues : S

unfoldable pub new_service : {S : Type 0} → SetLib S → List String → Service S
new_service sets queues = record { queues = add_all sets queues sets.new_set }

-- `errors.Is(err, tickets.ErrDuplicateTicketID)`
unfoldable pub is_duplicate : Error → Bool
is_duplicate duplicate_ticket_id = true
is_duplicate (wrapped message e) = is_duplicate e
is_duplicate _ = false

api_ports : List Documents.GameServerPort → List Api.GameServerPort
api_ports [] = []
api_ports (p ∷ ps) = record { name = p.name; port = p.port } ∷ api_ports ps

unfoldable pub response : Documents.GameServer → Api.MatchResponse
unfolding api_ports
response gs = record {
  game_server = some (record {
    game_server_ip = gs.game_server_ip;
    game_server_ports = api_ports gs.game_server_ports;
  });
}

module _ {W S : Type 0} (env : Env W S) (send : Api.MatchResponse → Action W (Unit {0}))
    (error_text : Error → String) where
  open env use {backoff, sets}

  -- `processTicket`: whether it is done. What sending returns is dropped; the delay is a tenth of
  -- a second, in nanoseconds.
  unfoldable pub process_server : Option Documents.GameServer → W → Bool × W
  process_server none w = (false, w)
  process_server (some gs) w =
      (true, (retry backoff (send (response gs)) (constant backoff 100000000 ∷ []) w).1)

  unfoldable pub process_ticket : Documents.MatchRequest → W → Bool × W
  unfolding process_server
  process_ticket t w = process_server t.game_server w

  -- The first look at the request; `Match` watches it unless it is done.
  unfoldable pub watch_unless : String → Bool × W → Result (Unit {0}) × W
  watch_unless k (true, w) = (ok tt, w)
  watch_unless k (false, w) = watch_match_request env k w

  unfoldable pub look : String → Result Documents.MatchRequest × W → Result (Unit {0}) × W
  unfolding watch_unless
  look k (ok t, w) = watch_unless k (process_ticket t w)
  look k (err e, w) = (err e, w)

  -- `Match` after the call of `CreateMatchRequest`.
  unfoldable pub after_creation : String → Result (Unit {0}) × W → Result (Unit {0}) × W
  unfolding look
  after_creation k (ok _, w) = look k (get_match_request env k w)
  after_creation k (err e, w) =
      (err (if is_duplicate e then status already_exists (error_text e) else e), w)

  -- `Match` for a request that has an identifier.
  unfoldable pub match_identified : Service S → Api.MatchRequest → Action W (Unit {0})
  match_identified service req w =
      if sets.has req.matchmaking_queue service.queues
      then after_creation req.id (create_match_request env req w)
      else (err (status invalid_argument "invalid matchmaking queue"), w)

  -- `if len(req.Id) == 0 { req.Id = xid.New().String() }`
  unfoldable pub identify_request : Api.MatchRequest → W → Api.MatchRequest × W
  identify_request req w =
      let (fresh, w') = env.new_id w in
      if req.id == "" then (record req { id = fresh }, w') else (req, w)

  -- `Match` up to the moment that the watch of the request begins or ends.
  unfoldable pub match_player : Service S → Api.MatchRequest → Action W (Unit {0})
  match_player service req w =
      let (req', w') = identify_request req w in match_identified service req' w'

  -- What is done with a message while the request is watched; the flag is no longer read.
  unfoldable pub on_update : String → W → W
  on_update k = match_request_updated env k (λ t w. (process_ticket t w).1)
