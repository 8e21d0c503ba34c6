-- ===== src/Sample/Documents.antt =====
-- Boolean equality of the stored documents.
use rivalry.Prelude.{◌≡◌, Bool, true, ◌&&◌, List, Option, ◌==◌, eq_iff, arith}
use rivalry.Wire.Documents
use rivalry.Sample.Equality.{Test, int_test, int_test_sound, strings, nats, lists, options, entries}

abbrev rtt_test : Documents.Rtt → Documents.Rtt → Bool
rtt_test a b = a.host == b.host && int_test a.milliseconds b.milliseconds

pub rtt_sound : (a b : Documents.Rtt) → rtt_test a b ≡ true → a ≡ b
rtt_sound a b h = ground (arith, eq_iff a.host b.host, int_test_sound a.milliseconds b.milliseconds)

abbrev rtts : Test (List Documents.Rtt)
rtts = lists (record { test = rtt_test; sound = rtt_sound })

abbrev data_test : Documents.MatchRequestData → Documents.MatchRequestData → Bool
data_test a b =
    ((lists (entries nats)).test a.doubles b.doubles
      && (lists (entries strings)).test a.strings b.strings)
    && ((lists strings).test a.tags b.tags && a.extra_data == b.extra_data)

pub data_sound : (a b : Documents.MatchRequestData) → data_test a b ≡ true → a ≡ b
data_sound a b h = ground (
  arith,
  (lists (entries nats)).sound a.doubles b.doubles,
  (lists (entries strings)).sound a.strings b.strings,
  (lists strings).sound a.tags b.tags,
  eq_iff a.extra_data b.extra_data,
)

abbrev match_data : Test (Option Documents.MatchRequestData)
match_data = options (record { test = data_test; sound = data_sound })

abbrev port_test : Documents.GameServerPort → Documents.GameServerPort → Bool
port_test a b = a.name == b.name && int_test a.port b.port

pub port_sound : (a b : Documents.GameServerPort) → port_test a b ≡ true → a ≡ b
port_sound a b h = ground (arith, eq_iff a.name b.name, int_test_sound a.port b.port)

abbrev ports : Test (List Documents.GameServerPort)
ports = lists (record { test = port_test; sound = port_sound })

abbrev server_test : Documents.GameServer → Documents.GameServer → Bool
server_test a b =
    a.game_server_ip == b.game_server_ip && ports.test a.game_server_ports b.game_server_ports

pub server_sound : (a b : Documents.GameServer) → server_test a b ≡ true → a ≡ b
server_sound a b h = ground (
  arith,
  eq_iff a.game_server_ip b.game_server_ip,
  ports.sound a.game_server_ports b.game_server_ports,
)

abbrev servers : Test (Option Documents.GameServer)
servers = options (record { test = server_test; sound = server_sound })

abbrev request_test : Documents.MatchRequest → Documents.MatchRequest → Bool
request_test a b =
    ((a.id == b.id && (lists strings).test a.members b.members)
      && (match_data.test a.match_request_data b.match_request_data
          && a.matchmaking_queue == b.matchmaking_queue))
    && (rtts.test a.rtts b.rtts
        && (int_test a.create_time b.create_time && servers.test a.game_server b.game_server))

pub request_sound : (a b : Documents.MatchRequest) → request_test a b ≡ true → a ≡ b
request_sound a b h = ground (
  arith,
  eq_iff a.id b.id,
  (lists strings).sound a.members b.members,
  match_data.sound a.match_request_data b.match_request_data,
  eq_iff a.matchmaking_queue b.matchmaking_queue,
  rtts.sound a.rtts b.rtts,
  int_test_sound a.create_time b.create_time,
  servers.sound a.game_server b.game_server,
)

abbrev pub match_requests : Test Documents.MatchRequest
match_requests = record { test = request_test; sound = request_sound }
