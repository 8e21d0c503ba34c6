-- ===== src/Tickets.antt =====
-- internal/managers/tickets/tickets.go: match requests ("tickets"), the documents and assignments
-- that the store keeps of them, and the messages that are sent about them.
mod Topics
pub mod Convert
pub mod Apart
pub mod Publish
pub mod Create
pub mod Read
pub mod Stored
pub mod Matching
pub mod Queue
mod Tests
unfoldable pub use Topics.{
  get_match_request_topic, get_accumulated_match_request_topic, get_match_request_subject,
}
unfoldable pub use Convert.{
  stream_ticket_from_db_request, submission_from_db_request, document_of, db_game_server,
}
use rivalry.Prelude.{
  String, ℕ, ℤ, ◌≡◌, Bool, true, false, not, Option, none, some, List, [], ◌∷◌, Map, lookup, insert,
  keys, values, ◌==◌, if◌then◌else◌, leb,
}
use rivalry.Prelude.Results.{
  Action, Result, ok, err, Error, missing_id, duplicate_ticket_id, wrapped, pure, fail, lift,
  and_then, ◌>>=◌, ◌>>◌, wrap_error, wrapping, if_failed, deferred,
}
use rivalry.Wire.Api
use rivalry.Wire.Documents
use rivalry.Wire.Streams.{StreamTicket, AccumulatedStreamTicket}
use rivalry.Platform.Backoff.{retry, exponential}
use rivalry.Platform.Env.{Env}

module _ {W S : Type 0} (env : Env W S) where
  open env use {kv_store, stream_client, pubsub_client, backoff, sets}

  -- The function that `publishStreamTicket` retries.
  send_stream_ticket : StreamTicket → Action W (Unit {0})
  send_stream_ticket st = do
    stream_ticket_bytes ←
        wrapping "failed to marshal stream ticket" (lift (env.stream_tickets.marshal st))
    wrapping "failed to add ticket to stream" (
        stream_client.send_message (get_match_request_topic st.matchmaking_queue)
          stream_ticket_bytes)

  unfoldable pub publish_stream_ticket : StreamTicket → Action W (Unit {0})
  unfolding send_stream_ticket
  publish_stream_ticket st = retry backoff (send_stream_ticket st) (exponential backoff ∷ [])

  -- `CreateMatchRequest` after the document was stored, or was not.
  stream_if_set : Documents.MatchRequest → Bool → Action W (Unit {0})
  stream_if_set kv_req false = fail duplicate_ticket_id
  stream_if_set kv_req true =
      deferred (kv_store.del "tickets" (kv_req.id ∷ []))
        (publish_stream_ticket (stream_ticket_from_db_request kv_req))

  -- `CreateMatchRequest` from the marshalling on.
  submit : Documents.MatchRequest → Action W (Unit {0})
  submit kv_req = do
    req_bytes ← wrapping "failed to marshal req" (lift (env.match_requests.marshal kv_req))
    set ← wrapping "failed to persist req" (kv_store.setnx "tickets" kv_req.id req_bytes 0)
    stream_if_set kv_req set

  unfoldable pub create_match_request : Api.MatchRequest → Action W (Unit {0})
  unfolding submit stream_if_set
  create_match_request req w =
      let (created, w') = env.now w in
      if req.id == "" then (err missing_id, w) else submit (document_of sets req created) w'

  pub delete_match_request : String → Action W (Unit {0})
  delete_match_request ticket_id = kv_store.del "tickets" (ticket_id ∷ [])

  unfoldable pub get_match_request : String → Action W Documents.MatchRequest
  get_match_request ticket_id = do
    ticket_bytes ← kv_store.get "tickets" ticket_id
    lift (env.match_requests.unmarshal ticket_bytes)

  -- The loop of `GetMatchRequests`, which stops at the first document that cannot be read.
  unfoldable pub unmarshal_all : List String → Result (List Documents.MatchRequest)
  unmarshal_all [] = ok []
  unmarshal_all (v ∷ vs) = elim (env.match_requests.unmarshal v) [
    | ok t ↦ elim (unmarshal_all vs) [ ok ts ↦ ok (t ∷ ts) | err e ↦ err e ]
    | err e ↦ err e
  ]

  unfoldable pub get_match_requests : List String → Action W (List Documents.MatchRequest)
  get_match_requests ticket_ids = do
    found ← kv_store.mget "tickets" ticket_ids
    lift (unmarshal_all (values found))
