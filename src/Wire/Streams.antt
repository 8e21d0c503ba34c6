-- ===== src/Wire/Streams.antt =====
-- pkg/pb/stream/v1: what travels on the queue topics.
use rivalry.Prelude.{String, ℤ, List}

pub record StreamTicket : Type 0 where
  pub matchmaking_queue : String
  pub match_request_id : String
  pub number_of_players : ℤ

pub record AccumulatedStreamTicket : Type 0 where
  pub stream_tickets : List StreamTicket
