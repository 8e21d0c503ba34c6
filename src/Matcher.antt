-- ===== src/Matcher.antt =====
-- internal/app/backend/matcher.go: a batch of tickets is shown to the matchmaker; each match that
-- it answers is created, and the tickets that found none go back to the stream. Go iterates over a
-- map in any order; here the order is that of the list.
pub mod Unmatched
pub mod Returns
pub mod Waiting
pub mod Received
pub mod Kept
pub mod Lossless
mod Tests
use rivalry.Prelude.{
  String, Bool, true, false, Option, none, some, List, [], ◌∷◌, Map, lookup, insert, erase, values,
  map,
}
use rivalry.Prelude.Results.{Action, Result, ok, err, unless_panic}
use rivalry.Wire.Api.{Match, Submission}
use rivalry.Wire.Documents
use rivalry.Wire.Streams.{StreamTicket}
use rivalry.Platform.Env.{Env}
use rivalry.Tickets.{get_match_requests, stream_ticket_from_db_request, submission_from_db_request}
use rivalry.Tickets.Queue.{
  ids_of, requeue_match_requests, stream_accumulated_match_requests, accumulated_received,
}
use rivalry.Matches.{create_match}
use rivalry.CustomLogic.{MatchMakerServiceClient, make_matches}

-- `matchRequestMap`
unfoldable pub by_id : List Documents.MatchRequest → Map StreamTicket → Map StreamTicket
by_id [] found = found
by_id (mr ∷ mrs) found = by_id mrs (insert mr.id (stream_ticket_from_db_request mr) found)

-- `for _, t := range match.MatchRequestIds { delete(matchRequestMap, t) }`
unfoldable pub erase_all : List String → Map StreamTicket → Map StreamTicket
erase_all [] found = found
erase_all (k ∷ ks) found = erase_all ks (erase k found)

-- `matchTickets[i] = matchRequestMap[id]`, which is nil for a missing identifier.
unfoldable pub tickets_of : Map StreamTicket → List String → List (Option StreamTicket)
tickets_of found [] = []
tickets_of found (k ∷ ks) = lookup k found ∷ tickets_of found ks

unfoldable pub present : List StreamTicket → List (Option StreamTicket)
present ts = map some ts

module _ {W S : Type 0} (env : Env W S) (client : MatchMakerServiceClient W) where
  -- `RequeueMatchRequests` in the callback of `makeMatches`, after which the map is as before.
  unfoldable pub give_back : Map StreamTicket → List String → W → Option (Map StreamTicket × W)
  give_back found ids w =
      unless_panic (λ w'. some (found, w')) (requeue_match_requests env (tickets_of found ids) w)

  -- The callback once the match was created, or was not.
  unfoldable pub after_create :
      Match → Map StreamTicket → Result Bool × W → Option (Map StreamTicket × W)
  unfolding give_back
  after_create m found (ok true, w) = some (erase_all m.match_request_ids found, w)
  after_create m found (ok false, w) = give_back found m.match_request_ids w
  after_create m found (err e, w) = give_back found m.match_request_ids w

  -- The callback of `makeMatches`; a nil match is a panic in `CreateMatch`.
  unfoldable pub on_match : Option Match → Map StreamTicket × W → Option (Map StreamTicket × W)
  unfolding after_create
  on_match none s = none
  on_match (some m) (found, w) = after_create m found (create_match env m w)

  unfoldable pub requeue_all : List Documents.MatchRequest → W → Option W
  requeue_all mrs w = requeue_match_requests env (present (map stream_ticket_from_db_request mrs)) w

  -- The end of `makeMatches`: what is left in the map is requeued.
  unfoldable pub requeue_left : Map StreamTicket → W → Option W
  requeue_left [] w = some w
  requeue_left (p ∷ found) w = requeue_match_requests env (present (values (p ∷ found))) w

  -- `makeMatches` after the call of the matchmaker.
  unfoldable pub after_matches :
      List Documents.MatchRequest → Result (Unit {0}) × (Map StreamTicket × W) → Option W
  unfolding requeue_all requeue_left
  after_matches mrs (ok _, (found, w)) = requeue_left found w
  after_matches mrs (err _, (found, w)) = unless_panic (requeue_left found) (requeue_all mrs w)

  unfoldable pub match_batch : List Documents.MatchRequest → W → Option W
  unfolding after_matches
  match_batch mrs w = unless_panic (after_matches mrs) (
      make_matches client (record { submissions = map submission_from_db_request mrs }) on_match
        (by_id mrs [], w))

  -- The callback of `Run`. After a failed read it goes on, with no requests.
  unfoldable pub on_batch : List StreamTicket → W → Option W
  on_batch sts w =
      let (r, w') = get_match_requests env (ids_of sts) w in
      elim r [
        | ok reqs ↦ match_batch reqs w'
        | err e ↦ unless_panic (match_batch []) (requeue_match_requests env (present sts) w')
      ]

  -- `Run`: the subscription, and what is done with a message.
  pub run : String → Action W (Unit {0})
  run queue = stream_accumulated_match_requests env queue

  unfoldable pub on_message : String → W → Option W
  on_message = accumulated_received env on_batch
