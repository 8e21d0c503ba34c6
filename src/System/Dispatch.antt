-- ===== src/System/Dispatch.antt =====
-- The handler of the dispenser as a run.
use rivalry.Prelude.{Bool, true, false, Option, none, some, List, [], ◌∷◌, String}
use rivalry.Prelude.Results.{Result, ok, err, and_then, pure}
use rivalry.Wire.Api.{Match, GameServer, MakeAssignmentResponse}
use rivalry.Platform.View.{View}
use rivalry.Platform.Backoff.{exponential}
use rivalry.Platform.Env.{Env, IsSound}
use rivalry.Tickets.{get_match_requests}
use rivalry.Tickets.Matching.{add_assignment_to_match_requests}
use rivalry.Tickets.Matching.Update.{get_match_requests-IsSame}
use rivalry.Matches
use rivalry.CustomLogic
use rivalry.Dispenser as Dispensing
use rivalry.System.{Outside}
use rivalry.System.Acts.{Runs, stays, Runs-trans, Runs-leaves, Goes, Goes-after, retry-Runs}
use rivalry.System.Calls.{add_assignment-Runs, send_message-Runs, get_match-Runs}
use rivalry.System.Handlers.{IsQuiet}

module _ {W S : Type 0} {v : View W} {env : Env W S} (sound : IsSound v env) (outside : Outside W)
    (quiet : IsQuiet v env outside) where
  and_then-pure :
      {A B : Type 0} (b : B) (w : W) (o : Result A × W)
      → Runs v env w o.1
      → Runs v env w (and_then (λ _. pure b) o).1
  and_then-pure b w (ok a, w') r = r
  and_then-pure b w (err e, w') r = r

  give_server-Runs :
      (o : Option GameServer) (m : Match) (w : W)
      → Runs v env w (Dispensing.add_assignment env outside.assignment o m w).1
  unfolding Dispensing.add_assignment
  give_server-Runs (some server) m w =
      and_then-pure true w (add_assignment_to_match_requests env server m w)
        (add_assignment-Runs sound server m w)
  give_server-Runs none m w = to_nil m.match_request_ids
    where
      to_nil :
          (ids : List String) → Runs v env w (Dispensing.add_nil env outside.assignment ids w).1
      to_nil [] = stays
      to_nil (t ∷ ts) =
          and_then-pure false w (get_match_requests env (t ∷ ts) w)
            (Runs-leaves v env w _ (get_match_requests-IsSame sound (t ∷ ts) w).0)

  make_assignment-Runs :
      (m : Match) (w : W)
      → Runs v env w (Dispensing.make_assignment env outside.assignment (some m) w).1
  unfolding Dispensing.make_assignment CustomLogic.make_assignment
  make_assignment-Runs m w =
      retry-Runs sound (CustomLogic.make_assignment outside.assignment (some m))
        (exponential env.backoff ∷ []) w
        (λ w'.
          asked w' _
            (Runs-leaves v env w' _ (quiet.make_assignment_quiet (record { found = some m }) w')))
    where
      asked :
          (w : W) (o : Result MakeAssignmentResponse × W)
          → Runs v env w o.1
          → Runs v env w (and_then (λ resp. pure resp.game_server) o).1
      asked w (ok resp, w') r = r
      asked w (err e, w') r = r

  added-Goes :
      (w : W) (o : Result Bool × W)
      → Runs v env w o.1
      → Goes v env
          (λ w'. w')
          w
          (elim o.0 [
            | err e ↦ some o.1
            | ok finished ↦ elim finished [ true ↦ some o.1 | false ↦ none ]
          ])
  added-Goes w (ok true, w') r = r
  added-Goes w (ok false, w') r = tt
  added-Goes w (err e, w') r = r

  dispense-Goes :
      (m : Match) (w : W) (o : Result (Option GameServer) × W)
      → Runs v env w o.1
      → Goes v env (λ w'. w') w (Dispensing.dispense env outside.assignment m o)
  unfolding Dispensing.dispense Matches.requeue
  dispense-Goes m w (ok assignment, w') r =
      Goes-after v env (λ w'. w') w w' _ r
        (added-Goes w' _ (
          retry-Runs sound (Dispensing.add_assignment env outside.assignment assignment m)
            (exponential env.backoff ∷ []) w' (give_server-Runs assignment m)))
  dispense-Goes m w (err e, w') r = Runs-trans v env w w' _ r (
      retry-Runs sound (Matches.requeue env m.match_id) (exponential env.backoff ∷ []) w'
        (send_message-Runs sound Matches.unassigned_matches_topic m.match_id))

  on_match-Goes :
      (o : Option Match) (w : W)
      → Goes v env (λ w'. w') w (Dispensing.on_match env outside.assignment o w)
  unfolding Dispensing.on_match
  on_match-Goes none w = tt
  on_match-Goes (some m) w =
      dispense-Goes m w (Dispensing.make_assignment env outside.assignment (some m) w)
        (make_assignment-Runs m w)

  -- A match that reaches the dispenser.
  pub dispenser-Goes :
      (match_id : String) (w : W)
      → Goes v env (λ w'. w') w (Dispensing.on_message env outside.assignment match_id w)
  unfolding Dispensing.on_message Matches.match_received
  dispenser-Goes match_id w = handed _ (
      retry-Runs sound (Matches.get_match env match_id) (exponential env.backoff ∷ []) w
        (get_match-Runs sound match_id))
    where
      handed :
          (o : Result Match × W)
          → Runs v env w o.1
          → Goes v env
              (λ w'. w')
              w
              (Matches.hand_over env (Dispensing.on_match env outside.assignment) o)
      handed (ok m, w') r = Goes-after v env (λ w'. w') w w' _ r (on_match-Goes (some m) w')
      handed (err e, w') r = Goes-after v env (λ w'. w') w w' _ r (on_match-Goes none w')
