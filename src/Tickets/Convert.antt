-- ===== src/Tickets/Convert.antt =====
-- A match request as the client sends it, as the store keeps it, as it travels on the stream and
-- as the matchmaker is shown it.
use rivalry.Prelude.{String, ℤ, to_int32, Option, none, some, List, [], ◌∷◌, length}
use rivalry.Wire.Api
use rivalry.Wire.Documents
use rivalry.Wire.Streams.{StreamTicket}
use rivalry.Platform.Sets.{SetLib, add_all}

unfoldable pub stream_ticket_from_db_request : Documents.MatchRequest → StreamTicket
stream_ticket_from_db_request request = record {
  matchmaking_queue = request.matchmaking_queue;
  match_request_id = request.id;
  number_of_players = to_int32 (length request.members);
}

api_rtts : List Documents.Rtt → List Api.Rtt
api_rtts [] = []
api_rtts (r ∷ rs) = record { host = r.host; milliseconds = r.milliseconds } ∷ api_rtts rs

db_rtts : List Api.Rtt → List Documents.Rtt
db_rtts [] = []
db_rtts (r ∷ rs) = record { host = r.host; milliseconds = r.milliseconds } ∷ db_rtts rs

-- No data is shown as empty data.
api_data : Option Documents.MatchRequestData → Api.MatchRequestData
api_data none = record { doubles = []; strings = []; tags = []; extra_data = "" }
api_data (some d) = record {
  doubles = d.doubles;
  strings = d.strings;
  tags = d.tags;
  extra_data = d.extra_data;
}

unfoldable pub submission_from_db_request : Documents.MatchRequest → Api.Submission
unfolding api_rtts api_data
submission_from_db_request request = record {
  id = request.id;
  members = request.members;
  match_request_data = some (api_data request.match_request_data);
  matchmaking_queue = request.matchmaking_queue;
  rtts = api_rtts request.rtts;
  create_time = request.create_time;
}

-- No data is stored as empty data.
db_data : Option Api.MatchRequestData → Documents.MatchRequestData
db_data none = record { doubles = []; strings = []; tags = []; extra_data = "" }
db_data (some d) = record {
  doubles = d.doubles;
  strings = d.strings;
  tags = d.tags;
  extra_data = d.extra_data;
}

party_members : Option Api.PartyData → List String
party_members none = []
party_members (some party) = party.party_members

module _ {S : Type 0} (sets : SetLib S) where
  -- The party and the player, each once.
  members : Api.MatchRequest → S
  unfolding party_members
  members req =
      (sets.add req.player_id (add_all sets (party_members req.party_data) sets.new_set)).1

  -- The document that `CreateMatchRequest` stores for a request, at a time.
  unfoldable pub document_of : Api.MatchRequest → ℤ → Documents.MatchRequest
  unfolding members db_data db_rtts
  document_of req created = record {
    id = req.id;
    members = sets.to_slice (members req);
    match_request_data = some (db_data req.match_request_data);
    matchmaking_queue = req.matchmaking_queue;
    rtts = db_rtts req.rtts;
    create_time = created;
    game_server = none;
  }

unfoldable pub db_ports : List Api.GameServerPort → List Documents.GameServerPort
db_ports [] = []
db_ports (p ∷ ps) = record { name = p.name; port = p.port } ∷ db_ports ps

-- The game server of an assignment as it is stored.
unfoldable pub db_game_server : Api.GameServer → Documents.GameServer
unfolding db_ports
db_game_server assignment = record {
  game_server_ip = assignment.game_server_ip;
  game_server_ports = db_ports assignment.game_server_ports;
}
