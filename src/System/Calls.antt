-- ===== src/System/Calls.antt =====
-- The calls of the managers as runs: all but the creation of a match leave owners and matches alone.
use rivalry.Prelude.{String, refl, ap, inl, inr, ◌==◌, Bool-cases, eq_iff, arith}
use rivalry.Prelude.Results.{Result, ok, err, and_then, lift}
use rivalry.Wire.Api
use rivalry.Wire.Api.{Match, MakeMatchesRequest, MakeAssignmentRequest}
use rivalry.Wire.Documents
use rivalry.Platform.View.{View, ticket_assignments, matches}
use rivalry.Platform.Broker.{Sends}
use rivalry.Platform.Store.{Reads}
use rivalry.Platform.Env.{Env, IsSound}
use rivalry.Tickets.{create_match_request, get_match_request}
use rivalry.Tickets.Create.{Stores, Submits, create_match_request_lem}
use rivalry.Tickets.Read.{ReadsTicket, get_match_request_lem}
use rivalry.Tickets.Matching.{add_assignment_to_match_requests}
use rivalry.Tickets.Matching.Update.{Updates, add_assignment_to_match_requests_lem}
use rivalry.Matches
use rivalry.System.Acts.{creates, elsewhere, Runs, stays, acts, Runs-leaves}

module _ {W S : Type 0} {v : View W} {env : Env W S} (sound : IsSound v env) where
  pub create_match_request-Runs :
      (req : Api.MatchRequest) (w : W) → Runs v env w (create_match_request env req w).1
  unfolding create_match_request
  create_match_request-Runs req w = elim (Bool-cases (req.id == "")) [
    | inl missing ↦ rw (create_match_request, missing) stays
    | inr named ↦
        submitted _ _
          (create_match_request_lem sound req w λ e. absurd (ground (arith, eq_iff req.id "")))
  ]
    where
      stored : (t : Documents.MatchRequest) (w' : W) → Stores v env t w w' → Runs v env w w'
      stored t w' (x, _, _, e) =
          acts (elsewhere (ap (λ f. f ticket_assignments) e, ap (λ f. f matches) e)) stays

      submitted :
          (t : Documents.MatchRequest) (o : Result (Unit {0}) × W)
          → Submits v env t w o
          → Runs v env w o.1
      submitted t (ok _, w') (s, _) = stored t w' s
      submitted t (err _, w') (inl e, _) = Runs-leaves v env w w' e
      submitted t (err _, w') (inr s, _) = stored t w' s

  pub add_assignment-Runs :
      (server : Api.GameServer) (m : Match) (w : W)
      → Runs v env w (add_assignment_to_match_requests env server m w).1
  add_assignment-Runs server m w =
      updated _ _ (add_assignment_to_match_requests_lem sound server m w)
    where
      updated :
          (gs : Documents.GameServer) (o : Result (Unit {0}) × W)
          → Updates v env gs m.match_request_ids w o
          → Runs v env w o.1
      updated gs (ok _, w') ((found, served, e), _, _) =
          acts (elsewhere (ap (λ f. f ticket_assignments) e, ap (λ f. f matches) e)) stays
      updated gs (err _, w') (inl e, _, _) = Runs-leaves v env w w' e
      updated gs (err _, w') (inr (found, served, e), _, _) =
          acts (elsewhere (ap (λ f. f ticket_assignments) e, ap (λ f. f matches) e)) stays

  pub get_match_request-Runs : (k : String) (w : W) → Runs v env w (get_match_request env k w).1
  get_match_request-Runs k w = read _ (get_match_request_lem sound k w)
    where
      read : (o : Result Documents.MatchRequest × W) → ReadsTicket v env k w o → Runs v env w o.1
      read (ok t, w') (x, e, m, same) = Runs-leaves v env w w' same.0
      read (err _, w') same = Runs-leaves v env w w' same.0

  pub send_message-Runs :
      (topic b : String) (w : W) → Runs v env w (env.stream_client.send_message topic b w).1
  send_message-Runs topic b w = sent _ (sound.stream_lem.send_message_lem topic b w)
    where
      sent : (o : Result (Unit {0}) × W) → Sends v topic b w o → Runs v env w o.1
      sent (ok _, w') (e, _, _) = Runs-leaves v env w w' e
      sent (err _, w') (e, _, _) = Runs-leaves v env w w' e

  pub create_match-Runs : (m : Match) (w : W) → Runs v env w (Matches.create_match env m w).1
  create_match-Runs m w = acts (creates m (Matches.create_match env m w).0 refl) stays

  pub get_match-Runs :
      (match_id : String) (w : W) → Runs v env w (Matches.get_match env match_id w).1
  unfolding Matches.get_match
  get_match-Runs match_id w = after_get _ (sound.store_lem.get_lem matches match_id w)
    where
      after_get :
          (o : Result String × W)
          → Reads v matches match_id w o
          → Runs v env w (and_then (λ found. lift (env.matches.unmarshal found)) o).1
      after_get (ok found, w') (_, same) = Runs-leaves v env w w' same.0
      after_get (err _, w') (_, same) = Runs-leaves v env w w' same.0
