-- ===== src/System/Handlers.antt =====
-- Each handler, where it does not panic, is a run of creations of matches and of calls that leave the
-- owners and the matches alone.
use rivalry.Prelude.{
  String, ◌≡◌, Bool, true, false, Option, none, some, List, [], ◌∷◌, ◌==◌, inl, inr, Bool-cases,
}
use rivalry.Prelude.Results.{Result, ok, err, and_then, wrap_error}
use rivalry.Wire.Api
use rivalry.Wire.Api.{Match, Submission, MakeMatchesRequest, MakeAssignmentRequest, GameServer}
use rivalry.Wire.Documents
use rivalry.Wire.Streams.{StreamTicket}
use rivalry.Platform.View.{View}
use rivalry.Platform.Backoff.{constant, exponential}
use rivalry.Platform.Env.{Env, IsSound}
use rivalry.Tickets.{
  get_match_request_subject, get_accumulated_match_request_topic, create_match_request,
  get_match_request,
}
use rivalry.Tickets.Queue.{
  send_accumulated, publish_accumulated_match_requests, watch_match_request, match_request_updated,
}
use rivalry.Frontend.{
  Service, match_player, match_identified, after_creation, identify_request, process_ticket,
  process_server, watch_unless, look, response, on_update,
}
use rivalry.System.{Outside}
use rivalry.System.Acts.{Runs, stays, Runs-trans, Runs-leaves, retry-Runs}
use rivalry.System.Calls.{create_match_request-Runs, get_match_request-Runs, send_message-Runs}

-- What the services outside and the subscriptions do leaves the store alone.
pub record IsQuiet {W S : Type 0} (v : View W) (env : Env W S) (outside : Outside W) : Type 0 where
  pub make_matches_quiet :
      (req : MakeMatchesRequest) (w : W)
      → v.entry (outside.matchmaker.make_matches req w).1 ≡ v.entry w
  pub make_assignment_quiet :
      (req : MakeAssignmentRequest) (w : W)
      → v.entry (outside.assignment.make_assignment req w).1 ≡ v.entry w
  pub send_quiet : (resp : Api.MatchResponse) (w : W) → v.entry (outside.send resp w).1 ≡ v.entry w
  pub subscribe_quiet :
      (subject : String) (w : W) → v.entry (env.pubsub_client.subscribe subject w).1 ≡ v.entry w

module _ {W S : Type 0} {v : View W} {env : Env W S} (sound : IsSound v env) (outside : Outside W)
    (quiet : IsQuiet v env outside) where
  process_server-Runs :
      (o : Option Documents.GameServer) (w : W)
      → Runs v env w (process_server env outside.send outside.error_text o w).1
  unfolding process_ticket
  process_server-Runs none w = stays
  process_server-Runs (some gs) w =
      retry-Runs sound (outside.send (response gs)) (constant env.backoff 100000000 ∷ []) w
        (λ w'. Runs-leaves v env w' _ (quiet.send_quiet (response gs) w'))

  process_ticket-Runs :
      (t : Documents.MatchRequest) (w : W)
      → Runs v env w (process_ticket env outside.send outside.error_text t w).1
  unfolding process_ticket
  process_ticket-Runs t w = process_server-Runs t.game_server w

  -- A frontend that watches a request.
  pub on_update-Runs :
      (k : String) (w : W) → Runs v env w (on_update env outside.send outside.error_text k w)
  unfolding on_update match_request_updated
  on_update-Runs k w = read _ (get_match_request-Runs sound k w)
    where
      read :
          (o : Result Documents.MatchRequest × W)
          → Runs v env w o.1
          → Runs v env w (elim o.0 [
            | ok t ↦ (process_ticket env outside.send outside.error_text t o.1).1
            | err e ↦ o.1
          ])
      read (ok t, w') r = Runs-trans v env w w' _ r (process_ticket-Runs t w')
      read (err e, w') r = r

  watch_unless-Runs :
      (k : String) (w : W) (o : Bool × W)
      → Runs v env w o.1
      → Runs v env w (watch_unless env outside.send outside.error_text k o).1
  unfolding look watch_match_request
  watch_unless-Runs k w (true, w') r = r
  watch_unless-Runs k w (false, w') r =
      Runs-trans v env w w' _ r
        (Runs-leaves v env w' _ (quiet.subscribe_quiet (get_match_request_subject k) w'))

  look-Runs :
      (k : String) (w : W) (o : Result Documents.MatchRequest × W)
      → Runs v env w o.1
      → Runs v env w (look env outside.send outside.error_text k o).1
  unfolding look
  look-Runs k w (ok t, w') r =
      watch_unless-Runs k w (process_ticket env outside.send outside.error_text t w')
        (Runs-trans v env w w' _ r (process_ticket-Runs t w'))
  look-Runs k w (err e, w') r = r

  after_creation-Runs :
      (k : String) (w : W) (o : Result (Unit {0}) × W)
      → Runs v env w o.1
      → Runs v env w (after_creation env outside.send outside.error_text k o).1
  unfolding after_creation
  after_creation-Runs k w (ok _, w') r =
      look-Runs k w (get_match_request env k w')
        (Runs-trans v env w w' _ r (get_match_request-Runs sound k w'))
  after_creation-Runs k w (err e, w') r = r

  match_identified-Runs :
      (service : Service S) (req : Api.MatchRequest) (w : W)
      → Runs v env w (match_identified env outside.send outside.error_text service req w).1
  unfolding match_identified
  match_identified-Runs service req w =
      elim (Bool-cases (env.sets.has req.matchmaking_queue service.queues)) [
        | inl known ↦ rw known (
            after_creation-Runs req.id w (create_match_request env req w)
              (create_match_request-Runs sound req w))
        | inr unknown ↦ rw unknown stays
      ]

  -- A game client that asks for a match.
  pub match_player-Runs :
      (service : Service S) (req : Api.MatchRequest) (w : W)
      → Runs v env w (match_player env outside.send outside.error_text service req w).1
  unfolding match_player identify_request
  match_player-Runs service req w = elim (Bool-cases (req.id == "")) [
    | inl missing ↦ rw missing (
        Runs-trans v env w _ _ (Runs-leaves v env w _ (sound.new_id-IsSame w).0)
          (match_identified-Runs service (record req { id = (env.new_id w).0 }) (env.new_id w).1))
    | inr named ↦ rw named (match_identified-Runs service req w)
  ]

  -- An accumulator that forwards a batch.
  pub publish_accumulated-Runs :
      (queue : String) (sts : List StreamTicket) (w : W)
      → Runs v env w (publish_accumulated_match_requests env queue sts w).1
  unfolding publish_accumulated_match_requests send_accumulated
  publish_accumulated-Runs queue sts w =
      retry-Runs sound (send_accumulated env queue sts) (exponential env.backoff ∷ []) w send_once
    where
      wrap_error-Runs :
          {w : W} (o : Result (Unit {0}) × W)
          → Runs v env w o.1
          → Runs v env w (wrap_error "failed to add ticket to stream" o).1
      wrap_error-Runs (ok _, w') r = r
      wrap_error-Runs (err e, w') r = r

      after_marshal :
          (r : Result String) (w : W)
          → Runs v env w
              (and_then
                (λ b w'.
                  wrap_error "failed to add ticket to stream" (
                    env.stream_client.send_message
                      (get_accumulated_match_request_topic queue)
                      b
                      w'))
                (wrap_error "failed to marshal stream ticket" (r, w))).1
      after_marshal (ok b) w =
          wrap_error-Runs _
            (send_message-Runs sound (get_accumulated_match_request_topic queue) b w)
      after_marshal (err e) w = stays

      send_once : (w : W) → Runs v env w (send_accumulated env queue sts w).1
      send_once w = after_marshal (env.accumulated.marshal (record { stream_tickets = sts })) w
