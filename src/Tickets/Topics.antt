-- ===== src/Tickets/Topics.antt =====
-- The names of the topics and subjects.
use Prim.Native.String.{◌++◌}
use rivalry.Prelude.{String}

-- The topic of the tickets that are submitted to a queue.
unfoldable pub get_match_request_topic : String → String
get_match_request_topic queue_name = "match_request_" ++ queue_name

-- The topic of the batches that a queue's accumulator makes.
unfoldable pub get_accumulated_match_request_topic : String → String
get_accumulated_match_request_topic queue_name = "accumulated_match_request_" ++ queue_name

-- The pub-sub subject of one ticket.
unfoldable pub get_match_request_subject : String → String
get_match_request_subject ticket_id = "ticket_updates_" ++ ticket_id
