-- ===== src/Matcher/Received.antt =====
-- The matcher's loop over the matches that the matchmaker answers.
use rivalry.Prelude.{
  String, ◌≡◌, refl, inl, inr, Bool, ◌&&◌, not, Option, some, List, [], ◌∷◌, Map, lookup, insert,
  values, map, contains, All, lookup-insert, Bool-cases, ◌==◌, eq_iff, arith,
}
use rivalry.Prelude.Results.{Result, ok, err, unless_panic}
use rivalry.Wire.Api.{Match}
use rivalry.Wire.Documents
use rivalry.Wire.Streams.{StreamTicket}
use rivalry.Platform.View.{View}
use rivalry.Platform.Env.{Env, IsSound}
use rivalry.Tickets.{stream_ticket_from_db_request}
use rivalry.Tickets.Queue.Resent.{IsAnswering}
use rivalry.CustomLogic.{Answers, next, closed, broken, MatchMakerServiceClient, receive}
use rivalry.Matcher.{by_id, on_match}
use rivalry.Matcher.Returns.{IsProper}
use rivalry.Matcher.Waiting.{IsWaiting, IsWaiting-Takes, Steps, on_match-Steps}

pub by_id-id :
    (k : String) (t : StreamTicket) (mrs : List Documents.MatchRequest) (found : Map StreamTicket)
    → ((j : String) (u : StreamTicket) → lookup j found ≡ some u → u.match_request_id ≡ j)
    → lookup k (by_id mrs found) ≡ some t
    → t.match_request_id ≡ k
unfolding by_id stream_ticket_from_db_request
by_id-id k t [] found h e = h k t e
by_id-id k t (mr ∷ mrs) found h e =
    by_id-id k t mrs (insert mr.id (stream_ticket_from_db_request mr) found) entries e
  where
    entries :
        (j : String) (u : StreamTicket)
        → lookup j (insert mr.id (stream_ticket_from_db_request mr) found) ≡ some u
        → u.match_request_id ≡ j
    entries j u q = ground (
      arith,
      h j u,
      eq_iff mr.id j,
      lookup-insert mr.id j (stream_ticket_from_db_request mr) found,
    )

All-insert :
    (P : StreamTicket → Type 0) (k : String) (t : StreamTicket) (found : Map StreamTicket)
    → P t
    → All P (values found)
    → All P (values (insert k t found))
All-insert P k t [] p d = (p, tt)
All-insert P k t ((j, u) ∷ found) p d = elim (Bool-cases (j == k)) [
  | inl same ↦ rw same (p, d.1)
  | inr other ↦ rw other (d.0, All-insert P k t found p d.1)
]

pub All-by_id :
    (P : StreamTicket → Type 0) (mrs : List Documents.MatchRequest) (found : Map StreamTicket)
    → All P (map stream_ticket_from_db_request mrs)
    → All P (values found)
    → All P (values (by_id mrs found))
unfolding by_id
All-by_id P [] found h d = d
All-by_id P (mr ∷ mrs) found h d =
    All-by_id P mrs (insert mr.id (stream_ticket_from_db_request mr) found) h.1
      (All-insert P mr.id (stream_ticket_from_db_request mr) found h.0 d)

module _ {W S : Type 0} {v : View W} {env : Env W S} (sound : IsSound v env)
    (answering : IsAnswering env) (client : MatchMakerServiceClient W) where
  module _ (Known : String → Type 0) (w0 : W) where
    -- The state after the loop over the matches.
    abbrev pub Waits : Option (Result (Unit {0}) × (Map StreamTicket × W)) → Type 0
    Waits o =
        (r : Result (Unit {0})) × (s : Map StreamTicket × W) × (o ≡ some (r, s))
        × ((available : String → Bool) × IsWaiting v env Known available w0 s)

    pub receive-Waits :
        (answers : Answers) (available : String → Bool) (found : Map StreamTicket) (w : W)
        → IsWaiting v env Known available w0 (found, w)
        → IsProper available answers
        → Waits (receive (on_match env client) answers (found, w))
    unfolding receive
    receive-Waits (next resp rest) available found w waiting (m, e, fits, proper) =
        after_step resp.found e
          (on_match-Steps sound answering client m available found w waiting.3 fits waiting.2)
          (λ found' w' waits.
            receive-Waits rest (λ k. available k && not (contains k m.match_request_ids)) found' w'
              waits proper)
      where
        after_step :
            (o : Option Match)
            → o ≡ some m
            → Steps sound answering client m available found w waiting.3 fits waiting.2
                (on_match env client (some m) (found, w))
            → ((found' : Map StreamTicket) (w' : W)
                → IsWaiting v env Known
                    (λ k. available k && not (contains k m.match_request_ids))
                    w0
                    (found', w')
                → Waits (receive (on_match env client) rest (found', w')))
            → Waits (
                unless_panic
                  (receive (on_match env client) rest)
                  (on_match env client o (found, w)))
        after_step o q ((found', w'), r, takes) more =
            rw (q, r)
              (more found' w' (
                IsWaiting-Takes v env Known available m.match_request_ids w0 w w' found found'
                  waiting takes))
    receive-Waits closed available found w waiting proper =
        (ok tt, (found, w), refl, (available, waiting))
    receive-Waits (broken e) available found w waiting proper =
        (err e, (found, w), refl, (available, waiting))
