-- ===== src/Tickets/Queue.antt =====
-- internal/managers/tickets/tickets.go: the operations on the streams of tickets, and what their
-- subscribers are handed.
pub mod Owners
pub mod Requeue
pub mod Resent
pub mod Forwarded
use rivalry.Prelude.{String, Option, none, some, List, [], ◌∷◌, Map, lookup, leb, if◌then◌else◌}
use rivalry.Prelude.Results.{unless_panic, Action, ok, err, lift, ◌>>=◌, wrapping}
use rivalry.Wire.Documents
use rivalry.Wire.Streams.{StreamTicket}
use rivalry.Platform.Backoff.{retry, exponential}
use rivalry.Platform.Env.{Env}
use rivalry.Tickets.{
  get_match_request_topic, get_accumulated_match_request_topic, get_match_request_subject,
  publish_stream_ticket, get_match_request,
}

abbrev pub ids_of : List StreamTicket → List String
ids_of [] = []
ids_of (t ∷ ts) = t.match_request_id ∷ ids_of ts

-- A slice of pointers with no nil in it; to read a field of a nil pointer is a panic.
unfoldable pub non_nil {ℓ} : {A : Type ℓ} → List (Option A) → Option (List A)
non_nil [] = some []
non_nil (none ∷ ts) = none
non_nil (some t ∷ ts) = elim (non_nil ts) [ none ↦ none | some rest ↦ some (t ∷ rest) ]

module _ {W S : Type 0} (env : Env W S) where
  open env use {kv_store, stream_client, pubsub_client, backoff, sets}

  -- The function that `PublishAccumulatedMatchRequests` retries.
  unfoldable pub send_accumulated : String → List StreamTicket → Action W (Unit {0})
  send_accumulated queue sts = do
    stream_ticket_bytes ←
        wrapping "failed to marshal stream ticket"
          (lift (env.accumulated.marshal (record { stream_tickets = sts })))
    wrapping "failed to add ticket to stream"
        (stream_client.send_message (get_accumulated_match_request_topic queue) stream_ticket_bytes)

  unfoldable pub publish_accumulated_match_requests :
      String → List StreamTicket → Action W (Unit {0})
  unfolding send_accumulated
  publish_accumulated_match_requests queue sts =
      retry backoff (send_accumulated queue sts) (exponential backoff ∷ [])

  pub stream_match_requests : String → Action W (Unit {0})
  stream_match_requests queue = stream_client.subscribe (get_match_request_topic queue)

  -- The callback of `StreamMatchRequests`: what cannot be read is logged and dropped.
  pub match_request_received : (StreamTicket → W → W) → String → W → W
  match_request_received f b w = elim (env.stream_tickets.unmarshal b) [
    | ok st ↦ f st w
    | err e ↦ w
  ]

  pub stream_accumulated_match_requests : String → Action W (Unit {0})
  stream_accumulated_match_requests queue =
      stream_client.subscribe (get_accumulated_match_request_topic queue)

  -- The callback of `StreamAccumulatedMatchRequests`, whose own callback may panic.
  unfoldable pub accumulated_received : (List StreamTicket → W → Option W) → String → W → Option W
  accumulated_received f b w = elim (env.accumulated.unmarshal b) [
    | ok st ↦ f st.stream_tickets w
    | err e ↦ some w
  ]

  unfoldable pub watch_match_request : String → Action W (Unit {0})
  watch_match_request ticket_id = pubsub_client.subscribe (get_match_request_subject ticket_id)

  -- The callback of `WatchMatchRequest`: any message makes it read the ticket again.
  unfoldable pub match_request_updated : String → (Documents.MatchRequest → W → W) → W → W
  match_request_updated ticket_id f w =
      let (r, w') = get_match_request env ticket_id w in elim r [ ok t ↦ f t w' | err e ↦ w' ]

  -- `requeueIDs`: the identifiers that no match owns.
  pub unallocated : Map String → List String → S → S
  unallocated found [] requeue_ids = requeue_ids
  unallocated found (k ∷ ks) requeue_ids = elim (lookup k found) [
    | none ↦ unallocated found ks (sets.add k requeue_ids).1
    | some v ↦ unallocated found ks requeue_ids
  ]

  -- A ticket that cannot be published is logged and passed over.
  republish : S → List StreamTicket → W → W
  republish requeue_ids [] w = w
  republish requeue_ids (t ∷ ts) w =
      let published = (publish_stream_ticket env t w).1 in
      republish requeue_ids ts (if sets.has t.match_request_id requeue_ids then published else w)

  -- `RequeueMatchRequests` once no ticket is nil.
  requeue : List StreamTicket → W → W
  unfolding unallocated republish
  requeue tickets w =
      let (r, w') =
        retry backoff (kv_store.mget "ticket_assignments" (ids_of tickets))
          (exponential backoff ∷ []) w in
      elim r [
        | err e ↦ w'
        | ok found ↦
            let requeue_ids = unallocated found (ids_of tickets) sets.new_set in
            if leb (sets.cardinality requeue_ids) 0 then w' else republish requeue_ids tickets w'
      ]

  -- `none` is a panic.
  unfoldable pub requeue_match_requests : List (Option StreamTicket) → W → Option W
  unfolding requeue non_nil
  requeue_match_requests tickets w = unless_panic (λ ts. some (requeue ts w)) (non_nil tickets)
