-- ===== src/Matcher/Returns.antt =====
-- When the matcher gets through a batch, and when it does not. A ticket that is not in
-- `matchRequestMap` is a nil pointer to `RequeueMatchRequests`.
use rivalry.Prelude.{
  String, ◌≡◌, ◌≢◌, refl, ap, ◌∙◌, Bool, true, false, ◌&&◌, not, Option, none, some, List, [], ◌∷◌,
  Map, values, map, contains, arith,
}
use rivalry.Prelude.Results.{Result, ok, err, unless_panic, Returns, Returns-unless_panic}
use rivalry.Wire.Api.{Match, Submission}
use rivalry.Wire.Documents
use rivalry.Wire.Streams.{StreamTicket}
use rivalry.Platform.View.{View}
use rivalry.Platform.Env.{Env, IsSound}
use rivalry.Tickets.{get_match_requests, stream_ticket_from_db_request, submission_from_db_request}
use rivalry.Tickets.Queue.{ids_of, requeue_match_requests}
use rivalry.Tickets.Queue.Requeue.{requeue_match_requests_lem}
use rivalry.Matches.{create_match}
use rivalry.CustomLogic.{
  Answers, next, closed, broken, MatchMakerServiceClient, receive, make_matches,
}
use rivalry.Matcher.{
  by_id, erase_all, present, give_back, after_create, on_match, requeue_all, requeue_left,
  after_matches, match_batch, on_batch,
}
use rivalry.Matcher.Unmatched.{
  submitted_ids, holds, holds-erase_all, tickets_of-present, non_nil-tickets_of, holds-by_id,
}

-- The matches of a well-behaved matchmaker: each is there, and all of its tickets are available,
-- that is, submitted and in no match before it.
abbrev pub IsProper : (String → Bool) → Answers → Type 0
IsProper available (next resp rest) =
    (m : Match) × (resp.found ≡ some m)
    × ((k : String) → contains k m.match_request_ids ≡ true → available k ≡ true)
    × IsProper (λ k. available k && not (contains k m.match_request_ids)) rest
IsProper available closed = Unit
IsProper available (broken e) = Unit

module _ {W S : Type 0} {v : View W} {env : Env W S} (sound : IsSound v env)
    (client : MatchMakerServiceClient W) where
  requeue-Returns :
      (ts : List StreamTicket) (w : W) → Returns (requeue_match_requests env (present ts) w)
  unfolding present
  requeue-Returns ts w = let (w', e, q) = requeue_match_requests_lem sound ts w in (w', e)

  requeue_left-Returns :
      (found : Map StreamTicket) (w : W) → Returns (requeue_left env client found w)
  unfolding requeue_left
  requeue_left-Returns [] w = (w, refl)
  requeue_left-Returns (p ∷ found) w = requeue-Returns (values (p ∷ found)) w

  after_matches-Returns :
      (mrs : List Documents.MatchRequest) (o : Result (Unit {0}) × (Map StreamTicket × W))
      → Returns (after_matches env client mrs o)
  unfolding after_matches requeue_all
  after_matches-Returns mrs (ok _, (found, w)) = requeue_left-Returns found w
  after_matches-Returns mrs (err e, (found, w)) =
      Returns-unless_panic (requeue_left env client found) _
        (requeue-Returns (map stream_ticket_from_db_request mrs) w) (requeue_left-Returns found)

  -- What the callback leaves of a match whose tickets are all in the map.
  Keeps : Match → Map StreamTicket → Option (Map StreamTicket × W) → Type 0
  Keeps m found o =
      (s : Map StreamTicket × W) × (o ≡ some s)
      × ((k : String)
          → (holds found k && not (contains k m.match_request_ids)) ≡ true
          → holds s.0 k ≡ true)

  give_back-Keeps :
      (m : Match) (found : Map StreamTicket) (w : W)
      → ((k : String) → contains k m.match_request_ids ≡ true → holds found k ≡ true)
      → Keeps m found (give_back env client found m.match_request_ids w)
  unfolding give_back Keeps
  give_back-Keeps m found w h =
      let (ts, e, _) = tickets_of-present (λ _. Unit) m.match_request_ids found h (λ _ _ _. tt) in
      unchanged _ (rw e (requeue-Returns ts w))
    where
      unchanged :
          (o : Option W) → Returns o → Keeps m found (unless_panic (λ w'. some (found, w')) o)
      unchanged none (w', r) = cc
      unchanged (some w') r = ((found, w'), refl, λ k c. ground arith)

  on_match-Keeps :
      (m : Match) (found : Map StreamTicket) (w : W)
      → ((k : String) → contains k m.match_request_ids ≡ true → holds found k ≡ true)
      → Keeps m found (on_match env client (some m) (found, w))
  unfolding on_match after_create Keeps
  on_match-Keeps m found w h = created (create_match env m w)
    where
      created : (o : Result Bool × W) → Keeps m found (after_create env client m found o)
      created (ok true, w') = (
        (erase_all m.match_request_ids found, w'),
        refl,
        λ k c. holds-erase_all m.match_request_ids found k ∙ c,
      )
      created (ok false, w') = give_back-Keeps m found w' h
      created (err e, w') = give_back-Keeps m found w' h

  receive-Returns :
      (answers : Answers) (available : String → Bool) (found : Map StreamTicket) (w : W)
      → ((k : String) → available k ≡ true → holds found k ≡ true)
      → IsProper available answers
      → Returns (receive (on_match env client) answers (found, w))
  unfolding receive Keeps
  receive-Returns (next resp rest) available found w held (m, e, fits, proper) =
      after_match resp.found e (λ found' w' kept.
        receive-Returns rest (λ k. available k && not (contains k m.match_request_ids)) found' w'
          kept proper)
    where
      after_kept :
          (o : Option (Map StreamTicket × W))
          → Keeps m found o
          → ((found' : Map StreamTicket) (w' : W)
              → ((k : String)
                  → (available k && not (contains k m.match_request_ids)) ≡ true
                  → holds found' k ≡ true)
              → Returns (receive (on_match env client) rest (found', w')))
          → Returns (unless_panic (receive (on_match env client) rest) o)
      after_kept o ((found', w'), r, kept) more =
          rw r (more found' w' λ k c. kept k (ground (arith, held k)))

      after_match :
          (found_match : Option Match)
          → found_match ≡ some m
          → ((found' : Map StreamTicket) (w' : W)
              → ((k : String)
                  → (available k && not (contains k m.match_request_ids)) ≡ true
                  → holds found' k ≡ true)
              → Returns (receive (on_match env client) rest (found', w')))
          → Returns (
              unless_panic
                (receive (on_match env client) rest)
                (on_match env client found_match (found, w)))
      after_match found_match q more =
          rw q (after_kept _ (on_match-Keeps m found w λ k c. held k (fits k c)) more)
  receive-Returns closed available found w held proper = ((ok tt, (found, w)), refl)
  receive-Returns (broken e) available found w held proper = ((err e, (found, w)), refl)

-- A matchmaker that keeps to the tickets that it is shown, each in one match at most.
abbrev pub IsWellBehaved : {W : Type 0} → MatchMakerServiceClient W → Type 0
IsWellBehaved {W} client =
    (submissions : List Submission) (w w' : W) (answers : Answers)
    → client.make_matches (record { submissions = submissions }) w ≡ (ok answers, w')
    → IsProper (λ k. contains k (submitted_ids submissions)) answers

module _ {W S : Type 0} {v : View W} {env : Env W S} (sound : IsSound v env)
    (client : MatchMakerServiceClient W) (behaves : IsWellBehaved client) where
  match_batch-Returns :
      (mrs : List Documents.MatchRequest) (w : W) → Returns (match_batch env client mrs w)
  unfolding match_batch make_matches
  match_batch-Returns mrs w = after_call _ refl
    where
      after_call :
          (o : Result Answers × W)
          → client.make_matches (record { submissions = map submission_from_db_request mrs }) w ≡ o
          → Returns (
              unless_panic (after_matches env client mrs) (elim o.0 [
                | err e ↦ some (err e, (by_id mrs [], o.1))
                | ok answers ↦ receive (on_match env client) answers (by_id mrs [], o.1)
              ]))
      after_call (err e, w') h = after_matches-Returns sound client mrs (err e, (by_id mrs [], w'))
      after_call (ok answers, w') h =
          Returns-unless_panic (after_matches env client mrs) _
            (receive-Returns sound client answers
              (λ k. contains k (submitted_ids (map submission_from_db_request mrs))) (by_id mrs [])
              w' (λ k c. holds-by_id k mrs [] ∙ ground arith)
              (behaves (map submission_from_db_request mrs) w w' answers h))
            (after_matches-Returns sound client mrs)

  -- With a matchmaker that answers with matches of the tickets that it was shown, each ticket in
  -- one match at most, the matcher gets through every batch without a panic, whatever fails.
  pub on_batch_returns :
      (sts : List StreamTicket) (w : W) → (w' : W) × (on_batch env client sts w ≡ some w')
  unfolding on_batch
  on_batch_returns sts w = after_read (get_match_requests env (ids_of sts) w)
    where
      after_read :
          (o : Result (List Documents.MatchRequest) × W)
          → Returns (elim o.0 [
            | ok reqs ↦ match_batch env client reqs o.1
            | err e ↦
                unless_panic
                  (match_batch env client [])
                  (requeue_match_requests env (present sts) o.1)
          ])
      after_read (ok reqs, w') = match_batch-Returns reqs w'
      after_read (err e, w') =
          Returns-unless_panic (match_batch env client []) _ (requeue-Returns sound client sts w')
            (match_batch-Returns [])

module _ {W S : Type 0} (env : Env W S) (client : MatchMakerServiceClient W) where
  -- A match that names a ticket which is not in the map is a panic where it is not created, for
  -- an error or because one of its tickets has an owner: the missing one is requeued as a nil
  -- pointer.
  pub on_match_panics :
      (m : Match) (found : Map StreamTicket) (w w' : W) (k : String) (r : Result Bool)
      → contains k m.match_request_ids ≡ true
      → holds found k ≡ false
      → r ≢ ok true
      → create_match env m w ≡ (r, w')
      → on_match env client (some m) (found, w) ≡ none
  unfolding on_match after_create give_back requeue_match_requests
  on_match_panics m found w w' k r c h failed e =
      ap (after_create env client m found) e ∙ not_created r failed
    where
      nil_requeued : give_back env client found m.match_request_ids w' ≡ none
      nil_requeued = rw (non_nil-tickets_of k m.match_request_ids found c h) refl

      not_created : (r : Result Bool) → r ≢ ok true → after_create env client m found (r, w') ≡ none
      not_created (ok true) n = absurd (n refl)
      not_created (ok false) n = nil_requeued
      not_created (err e) n = nil_requeued
