-- ===== src/Sample/World.antt =====
-- An environment over the memory, with the messages of two players "ann" and "bob" in queue
-- "duel", and the worlds that the tests start from.
use rivalry.Prelude.{
  String, suc, pos, refl, Bool, Option, none, some, List, [], ◌∷◌, Map, if◌then◌else◌, ◌==◌,
}
use rivalry.Wire.Api
use rivalry.Wire.Documents
use rivalry.Wire.Streams.{StreamTicket, AccumulatedStreamTicket}
use rivalry.Platform.Env.{Env, IsSound}
use rivalry.Redis.{redis_store}
use rivalry.Redis.Laws.{redis_store-IsStore}
use rivalry.Sample.ListSets.{list_sets, list_sets-AreSets}
use rivalry.Sample.Equality
use rivalry.Sample.Documents as SampleDocuments
use rivalry.Sample.Codecs.{table_codec, table_codec-IsFaithful}
use rivalry.Sample.Memory.{
  Memory, database, client-IsRedis, redis, memory_view, stream, pubsub, once, stream-IsStream,
  pubsub-IsPubsub, once-IsBackoff,
}

abbrev pub ticket : String → StreamTicket
ticket k = record { matchmaking_queue = "duel"; match_request_id = k; number_of_players = pos 1 }

abbrev pub request : String → String → Api.MatchRequest
request k player = record {
  id = k;
  player_id = player;
  party_data = none;
  match_request_data = none;
  matchmaking_queue = "duel";
  rtts = [];
}

abbrev pub no_data : Documents.MatchRequestData
no_data = record { doubles = []; strings = []; tags = []; extra_data = "" }

abbrev pub document : String → String → Documents.MatchRequest
document k player = record {
  id = k;
  members = player ∷ [];
  match_request_data = some no_data;
  matchmaking_queue = "duel";
  rtts = [];
  create_time = pos 100;
  game_server = none;
}

abbrev pub server : Api.GameServer
server = record {
  game_server_ip = "10.0.0.1";
  game_server_ports = record { name = "game"; port = pos 7777 } ∷ [];
}

abbrev pub db_server : Documents.GameServer
db_server = record {
  game_server_ip = "10.0.0.1";
  game_server_ports = record { name = "game"; port = pos 7777 } ∷ [];
}

abbrev pub served : String → String → Documents.MatchRequest
served k player = record (document k player) { game_server = some db_server }

abbrev pub duel : String → List String → Api.Match
duel k ids = record {
  match_id = k;
  matchmaking_queue = "duel";
  match_request_ids = ids;
  player_ids = [];
  rtts = [];
}

abbrev pub documents : Map Documents.MatchRequest
documents =
    ("doc a", document "a" "ann")
    ∷ ("doc b", document "b" "bob")
    ∷ ("served a", served "a" "ann")
    ∷ ("served b", served "b" "bob")
    ∷ []

abbrev pub tickets : Map StreamTicket
tickets = ("ticket a", ticket "a") ∷ ("ticket b", ticket "b") ∷ []

abbrev pub batches : Map AccumulatedStreamTicket
batches = ("batch ab", record { stream_tickets = ticket "a" ∷ ticket "b" ∷ [] }) ∷ []

abbrev pub duels : Map Api.Match
duels = ("duel m1", duel "m1" ("a" ∷ "b" ∷ [])) ∷ ("duel m2", duel "m2" ("b" ∷ "c" ∷ [])) ∷ []

abbrev pub env : Env Memory (List String)
env = record {
  kv_store = redis_store redis;
  stream_client = stream;
  pubsub_client = pubsub;
  backoff = once;
  sets = list_sets;
  match_requests = table_codec SampleDocuments.match_requests documents;
  stream_tickets = table_codec Equality.stream_tickets tickets;
  accumulated = table_codec Equality.batches batches;
  matches = table_codec Equality.matches duels;
  now = λ w. (pos 100, w);
  new_id = λ w. ("m1", record w { fresh = suc w.fresh });
}

pub env-IsSound : IsSound memory_view env
env-IsSound = record {
  store_lem = redis_store-IsStore database redis client-IsRedis;
  stream_lem = stream-IsStream;
  pubsub_lem = pubsub-IsPubsub;
  backoff_lem = once-IsBackoff;
  sets_lem = list_sets-AreSets;
  match_requests_lem = table_codec-IsFaithful SampleDocuments.match_requests documents;
  stream_tickets_lem = table_codec-IsFaithful Equality.stream_tickets tickets;
  accumulated_lem = table_codec-IsFaithful Equality.batches batches;
  matches_lem = table_codec-IsFaithful Equality.matches duels;
  now-IsSame = λ w. (refl, refl, refl);
  new_id-IsSame = λ w. (refl, refl, refl);
}

-- A world that holds the given Redis keys, with the stream up or down.
abbrev pub world : Map String → Bool → Memory
world entries down = record {
  stored = find entries;
  sent = [];
  published = [];
  fresh = 0;
  down = down;
}
  where
    find : Map String → String → Option String
    find [] k = none
    find ((j, x) ∷ m) k = if j == k then some x else find m k
