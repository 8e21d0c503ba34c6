-- ===== src/Wire/Api.antt =====
-- pkg/pb/api/v1: what clients, the matchmaker and the assignment service exchange.
use rivalry.Prelude.{String, ℕ, ℤ, List, Map, Option}

pub record Rtt : Type 0 where
  pub host : String
  pub milliseconds : ℤ

pub record GameServerPort : Type 0 where
  pub name : String
  pub port : ℤ

pub record GameServer : Type 0 where
  pub game_server_ip : String
  pub game_server_ports : List GameServerPort

pub record MatchRequestData : Type 0 where
  pub doubles : Map ℕ
  pub strings : Map String
  pub tags : List String
  pub extra_data : String

pub record PartyData : Type 0 where
  pub party_members : List String

pub record MatchRequest : Type 0 where
  pub id : String
  pub player_id : String
  pub party_data : Option PartyData
  pub match_request_data : Option MatchRequestData
  pub matchmaking_queue : String
  pub rtts : List Rtt

pub record MatchResponse : Type 0 where
  pub game_server : Option GameServer

pub record Submission : Type 0 where
  pub id : String
  pub members : List String
  pub match_request_data : Option MatchRequestData
  pub matchmaking_queue : String
  pub rtts : List Rtt
  pub create_time : ℤ

pub record MakeMatchesRequest : Type 0 where
  pub submissions : List Submission

pub record Match : Type 0 where
  pub match_id : String
  pub matchmaking_queue : String
  pub match_request_ids : List String
  pub player_ids : List String
  pub rtts : List Rtt

pub record MakeMatchesResponse : Type 0 where
  pub found : Option Match

pub record MakeAssignmentRequest : Type 0 where
  pub found : Option Match

pub record MakeAssignmentResponse : Type 0 where
  pub game_server : Option GameServer
