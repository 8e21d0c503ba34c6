-- ===== src/Tickets/Queue/Forwarded.antt =====
-- A batch that an accumulator forwards is the batch that a matcher is handed.
use rivalry.Prelude.{String, ◌≡◌, refl, ◌∙◌, Option, List, [], ◌∷◌, ◌++◌}
use rivalry.Prelude.Results.{Result, ok, err, and_then, wrap_error}
use rivalry.Wire.Streams.{StreamTicket}
use rivalry.Platform.View.{View, IsSame}
use rivalry.Platform.Broker.{Sends}
use rivalry.Platform.Backoff.{exponential}
use rivalry.Platform.Retried.{IsOnce, retry_once}
use rivalry.Platform.Env.{Env, IsSound}
use rivalry.Tickets.{get_accumulated_match_request_topic}
use rivalry.Tickets.Queue.{
  send_accumulated, publish_accumulated_match_requests, accumulated_received,
}

module _ {W S : Type 0} (v : View W) (env : Env W S) where
  -- One message more on the topic of the queue's batches, of which a subscriber is handed the
  -- tickets; or nothing was sent.
  abbrev pub Forwards : String → List StreamTicket → W → Result (Unit {0}) × W → Type 0
  Forwards queue sts w (ok _, w') =
      (b : String) × ((f : List StreamTicket → W → Option W) (w1 : W)
        → accumulated_received env f b w1 ≡ f sts w1)
      × (v.entry w' ≡ v.entry w)
      × (v.sent w' ≡ v.sent w ++ (get_accumulated_match_request_topic queue, b) ∷ [])
      × (v.published w' ≡ v.published w)
  Forwards queue sts w (err _, w') = IsSame v w w'

module _ {W S : Type 0} {v : View W} {env : Env W S} (sound : IsSound v env) (queue : String)
    (sts : List StreamTicket) where
  Forwards-IsOnce : IsOnce v (Forwards v env queue sts)
  Forwards-IsOnce = record {
    unchanged = λ w w' e same. same;
    failed = λ w w' e same. same;
    from_start = λ w w1 w' a same (b, m, e, s, p). (b, m, e ∙ same.0, rw (← same.1) s, p ∙ same.2);
  }

  sent-Forwards :
      (b : String) (w : W) (o : Result (Unit {0}) × W)
      → env.accumulated.marshal (record { stream_tickets = sts }) ≡ ok b
      → Sends v (get_accumulated_match_request_topic queue) b w o
      → Forwards v env queue sts w (wrap_error "failed to add ticket to stream" o)
  unfolding accumulated_received
  sent-Forwards b w (ok _, w') m (e, s, p) =
      let read : env.accumulated.unmarshal b ≡ ok (record { stream_tickets = sts }) =
        sound.accumulated_lem.unmarshal-marshal (record { stream_tickets = sts }) b m in
      (b, (λ f w1. rw (read, accumulated_received) refl), e, s, p)
  sent-Forwards b w (err _, w') m same = same

  send_accumulated-Forwards :
      (w : W) → Forwards v env queue sts w (send_accumulated env queue sts w)
  unfolding send_accumulated
  send_accumulated-Forwards w =
      after_marshal (env.accumulated.marshal (record { stream_tickets = sts })) refl
    where
      after_marshal :
          (r : Result String)
          → env.accumulated.marshal (record { stream_tickets = sts }) ≡ r
          → Forwards v env queue sts w (
              and_then
                (λ b w'.
                  wrap_error "failed to add ticket to stream" (
                    env.stream_client.send_message
                      (get_accumulated_match_request_topic queue)
                      b
                      w'))
                (wrap_error "failed to marshal stream ticket" (r, w)))
      after_marshal (ok b) m = sent-Forwards b w _ m (sound.stream_lem.send_message_lem _ b w)
      after_marshal (err e) m = (refl, refl, refl)

  -- However often it is retried, a batch is sent once, on the topic of the batches of its queue, and
  -- who receives the message is handed exactly its tickets, in their order; or nothing was sent where
  -- the call fails.
  pub publish_accumulated-received :
      (w : W) → Forwards v env queue sts w (publish_accumulated_match_requests env queue sts w)
  unfolding publish_accumulated_match_requests
  publish_accumulated-received w =
      retry_once sound.backoff_lem (Forwards v env queue sts) Forwards-IsOnce
        (send_accumulated env queue sts) (exponential env.backoff ∷ []) w send_accumulated-Forwards
