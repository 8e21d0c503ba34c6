-- ===== src/Wire/Documents.antt =====
-- pkg/pb/db/v1: the documents that the key value store holds.
use rivalry.Prelude.{String, ℕ, ℤ, List, Map, Option}

pub record Rtt : Type 0 where
  pub host : String
  pub milliseconds : ℤ

pub record GameServerPort : Type 0 where
  pub name : String
  pub port : ℤ

pub record GameServer : Type 0 where
  pub game_server_ip : String
  pub game_server_ports : List GameServerPort

pub record MatchRequestData : Type 0 where
  pub doubles : Map ℕ
  pub strings : Map String
  pub tags : List String
  pub extra_data : String

pub record MatchRequest : Type 0 where
  pub id : String
  pub members : List String
  pub match_request_data : Option MatchRequestData
  pub matchmaking_queue : String
  pub rtts : List Rtt
  pub create_time : ℤ
  pub game_server : Option GameServer
