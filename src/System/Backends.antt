-- ===== src/System/Backends.antt =====
-- The handlers of the matchers and of the dispenser as runs.
use rivalry.Prelude.{
  String, ◌≡◌, refl, Bool, true, false, Option, none, some, List, [], ◌∷◌, Map, map,
}
use rivalry.Prelude.Results.{Result, ok, err, unless_panic}
use rivalry.Wire.Api.{Match, MakeMatchesRequest}
use rivalry.Wire.Documents
use rivalry.Wire.Streams.{StreamTicket, AccumulatedStreamTicket}
use rivalry.Platform.View.{View}
use rivalry.Platform.Env.{Env, IsSound}
use rivalry.Tickets.{get_match_requests, submission_from_db_request}
use rivalry.Tickets.Matching.Update.{get_match_requests-IsSame}
use rivalry.Tickets.Queue.{ids_of, requeue_match_requests, accumulated_received}
use rivalry.Tickets.Queue.Requeue.{entry-requeue_match_requests}
use rivalry.Matches
use rivalry.CustomLogic.{Answers, next, closed, broken, receive, make_matches}
use rivalry.Matcher as Matching
use rivalry.System.{Outside}
use rivalry.System.Acts.{Runs, stays, Runs-leaves, Goes, Goes-after, Goes-unless_panic}
use rivalry.System.Calls.{create_match-Runs}
use rivalry.System.Handlers.{IsQuiet}

module _ {W S : Type 0} {v : View W} {env : Env W S} (sound : IsSound v env) (outside : Outside W)
    (quiet : IsQuiet v env outside) where
  requeue-Goes :
      (ts : List (Option StreamTicket)) (w : W)
      → Goes v env (λ w. w) w (requeue_match_requests env ts w)
  unfolding requeue_match_requests
  requeue-Goes ts w = returned _ refl
    where
      returned :
          (o : Option W) → requeue_match_requests env ts w ≡ o → Goes v env (λ (w' : W). w') w o
      returned none e = tt
      returned (some w') e = Runs-leaves v env w w' (entry-requeue_match_requests sound ts w w' e)

  -- What the callbacks of the matcher keep beside the world.
  world_of : Map StreamTicket × W → W
  world_of s = s.1

  give_back-Goes :
      (found : Map StreamTicket) (ids : List String) (w : W)
      → Goes v env world_of w (Matching.give_back env outside.matchmaker found ids w)
  unfolding Matching.give_back world_of
  give_back-Goes found ids w =
      Goes-unless_panic v env (λ w'. w') world_of (λ w'. some (found, w')) w _
        (requeue-Goes (Matching.tickets_of found ids) w) (λ w'. stays)

  on_match-Goes :
      (o : Option Match) (s : Map StreamTicket × W)
      → Goes v env world_of s.1 (Matching.on_match env outside.matchmaker o s)
  unfolding Matching.on_match Matching.after_create world_of
  on_match-Goes none s = tt
  on_match-Goes (some m) (found, w) =
      created (Matches.create_match env m w) (create_match-Runs sound m w)
    where
      created :
          (o : Result Bool × W)
          → Runs v env w o.1
          → Goes v env world_of w (Matching.after_create env outside.matchmaker m found o)
      created (ok true, w') r = r
      created (ok false, w') r =
          Goes-after v env world_of w w' _ r (give_back-Goes found m.match_request_ids w')
      created (err e, w') r =
          Goes-after v env world_of w w' _ r (give_back-Goes found m.match_request_ids w')

  result_of : Result (Unit {0}) × (Map StreamTicket × W) → W
  result_of x = x.1.1

  receive-Goes :
      (answers : Answers) (s : Map StreamTicket × W)
      → Goes v env result_of s.1 (receive (Matching.on_match env outside.matchmaker) answers s)
  unfolding receive world_of result_of
  receive-Goes (next resp rest) s =
      Goes-unless_panic v env world_of result_of
        (receive (Matching.on_match env outside.matchmaker) rest) s.1 _ (on_match-Goes resp.found s)
        (receive-Goes rest)
  receive-Goes closed s = stays
  receive-Goes (broken e) s = stays

  requeue_left-Goes :
      (found : Map StreamTicket) (w : W)
      → Goes v env (λ w'. w') w (Matching.requeue_left env outside.matchmaker found w)
  unfolding Matching.requeue_left
  requeue_left-Goes [] w = stays
  requeue_left-Goes (p ∷ found) w = requeue-Goes _ w

  after_matches-Goes :
      (mrs : List Documents.MatchRequest) (x : Result (Unit {0}) × (Map StreamTicket × W))
      → Goes v env (λ w'. w') (result_of x) (Matching.after_matches env outside.matchmaker mrs x)
  unfolding Matching.after_matches Matching.requeue_all result_of
  after_matches-Goes mrs (ok _, (found, w)) = requeue_left-Goes found w
  after_matches-Goes mrs (err e, (found, w)) =
      Goes-unless_panic v env (λ w'. w') (λ w'. w')
        (Matching.requeue_left env outside.matchmaker found) w _ (requeue-Goes _ w)
        (requeue_left-Goes found)

  match_batch-Goes :
      (mrs : List Documents.MatchRequest) (w : W)
      → Goes v env (λ w'. w') w (Matching.match_batch env outside.matchmaker mrs w)
  unfolding Matching.match_batch make_matches result_of
  match_batch-Goes mrs w =
      after_call (outside.matchmaker.make_matches req w)
        (Runs-leaves v env w _ (quiet.make_matches_quiet req w))
    where
      req : MakeMatchesRequest
      req = record { submissions = map submission_from_db_request mrs }

      after_call :
          (o : Result Answers × W)
          → Runs v env w o.1
          → Goes v env
              (λ w'. w')
              w
              (unless_panic (Matching.after_matches env outside.matchmaker mrs) (elim o.0 [
                | err e ↦ some (err e, (Matching.by_id mrs [], o.1))
                | ok answers ↦
                    receive
                      (Matching.on_match env outside.matchmaker)
                      answers
                      (Matching.by_id mrs [], o.1)
              ]))
      after_call (err e, w') r =
          Goes-after v env (λ w'. w') w w' _ r
            (after_matches-Goes mrs (err e, (Matching.by_id mrs [], w')))
      after_call (ok answers, w') r =
          Goes-after v env (λ w'. w') w w' _ r
            (Goes-unless_panic v env result_of (λ w'. w')
              (Matching.after_matches env outside.matchmaker mrs) w' _
              (receive-Goes answers (Matching.by_id mrs [], w')) (after_matches-Goes mrs))

  on_batch-Goes :
      (sts : List StreamTicket) (w : W)
      → Goes v env (λ w'. w') w (Matching.on_batch env outside.matchmaker sts w)
  unfolding Matching.on_batch
  on_batch-Goes sts w =
      after_read (get_match_requests env (ids_of sts) w)
        (Runs-leaves v env w _ (get_match_requests-IsSame sound (ids_of sts) w).0)
    where
      after_read :
          (o : Result (List Documents.MatchRequest) × W)
          → Runs v env w o.1
          → Goes v env
              (λ w'. w')
              w
              (elim o.0 [
                | ok reqs ↦ Matching.match_batch env outside.matchmaker reqs o.1
                | err e ↦
                    unless_panic
                      (Matching.match_batch env outside.matchmaker [])
                      (requeue_match_requests env (Matching.present sts) o.1)
              ])
      after_read (ok reqs, w') r = Goes-after v env (λ w'. w') w w' _ r (match_batch-Goes reqs w')
      after_read (err _, w') r =
          Goes-after v env (λ w'. w') w w' _ r
            (Goes-unless_panic v env (λ w'. w') (λ w'. w')
              (Matching.match_batch env outside.matchmaker []) w' _ (requeue-Goes _ w')
              (match_batch-Goes []))

  -- A batch that reaches a matcher.
  pub matcher-Goes :
      (b : String) (w : W)
      → Goes v env (λ w'. w') w (Matching.on_message env outside.matchmaker b w)
  unfolding Matching.on_message accumulated_received
  matcher-Goes b w = read (env.accumulated.unmarshal b)
    where
      read :
          (r : Result AccumulatedStreamTicket)
          → Goes v env
              (λ w'. w')
              w
              (elim r [
                | ok st ↦ Matching.on_batch env outside.matchmaker st.stream_tickets w
                | err e ↦ some w
              ])
      read (ok st) = on_batch-Goes st.stream_tickets w
      read (err e) = stays
