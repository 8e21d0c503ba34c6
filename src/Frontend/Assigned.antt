-- ===== src/Frontend/Assigned.antt =====
-- What the frontend sends to a client whose request has a game server.
use rivalry.Prelude.{String, ◌≡◌, refl, ap, ◌∙◌, true, some, List, [], ◌∷◌, contains}
use rivalry.Prelude.Results.{Action, Result, ok, err, Error}
use rivalry.Wire.Api
use rivalry.Wire.Documents
use rivalry.Platform.View.{View}
use rivalry.Platform.Backoff.{retry, constant}
use rivalry.Platform.Env.{Env, IsSound}
use rivalry.Tickets.{get_match_request, db_game_server}
use rivalry.Tickets.Convert.{db_ports}
use rivalry.Tickets.Read.{ReadsTicket, get_match_request_lem}
use rivalry.Tickets.Queue.{match_request_updated}
use rivalry.Tickets.Matching.{add_assignment_to_match_requests}
use rivalry.Tickets.Stored.{IsStored}
use rivalry.Tickets.Matching.Reached.{IsServed, add_assignment_to_match_requests-IsServed}
use rivalry.Frontend.{on_update, process_ticket, process_server, response, api_ports}

api_ports-db_ports : (ps : List Api.GameServerPort) → api_ports (db_ports ps) ≡ ps
unfolding api_ports db_ports
api_ports-db_ports [] = refl
api_ports-db_ports (p ∷ ps) = ap (λ qs. p ∷ qs) (api_ports-db_ports ps)

-- The stored game server is shown to the client as it was assigned.
response-db_game_server :
    (gs : Api.GameServer) → response (db_game_server gs) ≡ record { game_server = some gs }
unfolding response db_game_server
response-db_game_server gs = rw (api_ports-db_ports gs.game_server_ports) refl

module _ {W S : Type 0} {v : View W} {env : Env W S} (sound : IsSound v env)
    (send : Api.MatchResponse → Action W (Unit {0})) (error_text : Error → String) where
  process_served :
      (gs : Api.GameServer) (t : Documents.MatchRequest) (w : W)
      → t.game_server ≡ some (db_game_server gs)
      → process_ticket env send error_text t w ≡ (
        true,
        (retry env.backoff
            (send (record { game_server = some gs }))
            (constant env.backoff 100000000 ∷ [])
            w).1,
      )
  unfolding process_ticket process_server
  process_served gs t w e = rw (e, response-db_game_server gs) refl

  -- Once AddAssignmentToMatchRequests returned without an error, the frontend that watches a request
  -- of the match, which was stored under its own identifier, and reads it on a message, sends the
  -- assigned game server to the client, as often as the policy of a tenth of a second retries it.
  pub on_update-add_assignment_to_match_requests :
      (gs : Api.GameServer) (m : Api.Match) (w w1 w2 : W) (k : String) (t : Documents.MatchRequest)
      → contains k m.match_request_ids ≡ true
      → IsStored v env k w
      → add_assignment_to_match_requests env gs m w ≡ (ok tt, w1)
      → get_match_request env k w1 ≡ (ok t, w2)
      → on_update env send error_text k w1
        ≡ (retry env.backoff
            (send (record { game_server = some gs }))
            (constant env.backoff 100000000 ∷ [])
            w2).1
  unfolding on_update match_request_updated
  on_update-add_assignment_to_match_requests gs m w w1 w2 k t among stored assigned read =
      let served =
        add_assignment_to_match_requests-IsServed sound gs m w w1 k among stored assigned in
      let found : ReadsTicket v env k w1 (ok t, w2) =
        rw read at (get_match_request_lem sound k w1) in
      ap after read ∙ ap (λ r. r.1) (process_served gs t w2 (has_server served found))
    where
      after : Result Documents.MatchRequest × W → W
      after r = elim r.0 [ ok u ↦ (process_ticket env send error_text u r.1).1 | err e ↦ r.1 ]

      has_server :
          IsServed v env (db_game_server gs) k w1
          → ReadsTicket v env k w1 (ok t, w2)
          → t.game_server ≡ some (db_game_server gs)
      has_server (x, u, e, n, g) (y, e', n', _) =
          let same : t ≡ u = cc (e, e', n, n') in ap (λ d. d.game_server) same ∙ g
