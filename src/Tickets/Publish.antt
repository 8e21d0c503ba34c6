-- ===== src/Tickets/Publish.antt =====
-- What `publishStreamTicket` leaves on the stream.
use rivalry.Prelude.{String, ◌≡◌, refl, ◌∙◌, [], ◌∷◌, ◌++◌}
use rivalry.Prelude.Results.{Result, ok, err, and_then, wrap_error}
use rivalry.Wire.Streams.{StreamTicket}
use rivalry.Platform.View.{View, IsSame}
use rivalry.Platform.Broker.{Sends}
use rivalry.Platform.Backoff.{exponential}
use rivalry.Platform.Retried.{IsOnce, retry_once}
use rivalry.Platform.Env.{Env, IsSound}
use rivalry.Tickets.{get_match_request_topic, send_stream_ticket, publish_stream_ticket}

-- One message more, which reads as the ticket, on the topic of its queue; or nothing was sent.
abbrev pub SendsTicket :
    {W S : Type 0} → View W → Env W S → StreamTicket → W → Result (Unit {0}) × W → Type 0
SendsTicket v env st w (ok _, w') =
    (b : String) × (env.stream_tickets.unmarshal b ≡ ok st)
    × (v.entry w' ≡ v.entry w)
    × (v.sent w' ≡ v.sent w ++ (get_match_request_topic st.matchmaking_queue, b) ∷ [])
    × (v.published w' ≡ v.published w)
SendsTicket v env st w (err _, w') = IsSame v w w'

module _ {W S : Type 0} {v : View W} {env : Env W S} (sound : IsSound v env) where
  sent_SendsTicket :
      (st : StreamTicket) (b : String) (w : W) (o : Result (Unit {0}) × W)
      → env.stream_tickets.marshal st ≡ ok b
      → Sends v (get_match_request_topic st.matchmaking_queue) b w o
      → SendsTicket v env st w (wrap_error "failed to add ticket to stream" o)
  sent_SendsTicket st b w (ok _, w') m (e, s, p) =
      (b, sound.stream_tickets_lem.unmarshal-marshal st b m, e, s, p)
  sent_SendsTicket st b w (err _, w') m same = same

  send_stream_ticket_lem :
      (st : StreamTicket) (w : W) → SendsTicket v env st w (send_stream_ticket env st w)
  unfolding send_stream_ticket
  send_stream_ticket_lem st w = after_marshal (env.stream_tickets.marshal st) refl
    where
      after_marshal :
          (r : Result String)
          → env.stream_tickets.marshal st ≡ r
          → SendsTicket v env st w (
              and_then
                (λ b w'. wrap_error "failed to add ticket to stream" (
                  env.stream_client.send_message
                    (get_match_request_topic st.matchmaking_queue)
                    b
                    w'))
                (wrap_error "failed to marshal stream ticket" (r, w)))
      after_marshal (ok b) m = sent_SendsTicket st b w _ m (sound.stream_lem.send_message_lem _ b w)
      after_marshal (err e) m = (refl, refl, refl)

  SendsTicket-IsOnce : (st : StreamTicket) → IsOnce v (SendsTicket v env st)
  SendsTicket-IsOnce st = record {
    unchanged = λ w w' e same. same;
    failed = λ w w' e same. same;
    from_start = λ w w1 w' a same (b, m, e, s, p). (b, m, e ∙ same.0, rw (← same.1) s, p ∙ same.2);
  }

  -- However often it is retried, the ticket is sent once, or not at all where the call fails.
  pub publish_stream_ticket_lem :
      (st : StreamTicket) (w : W) → SendsTicket v env st w (publish_stream_ticket env st w)
  unfolding publish_stream_ticket
  publish_stream_ticket_lem st w =
      retry_once sound.backoff_lem (SendsTicket v env st) (SendsTicket-IsOnce st)
        (send_stream_ticket env st) (exponential env.backoff ∷ []) w (send_stream_ticket_lem st)
