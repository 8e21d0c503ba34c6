-- ===== src/Matcher/Lossless.antt =====
-- No ticket of a batch is lost: where the stream takes each message and owners can be read, each ends
-- with an owner or back on the stream.
use rivalry.Prelude.{
  String, ◌≡◌, ◌≢◌, refl, sym, ap, subst, ◌∙◌, ◌⊎◌, inl, inr, Bool, true, false, Option, none, some,
  List, [], ◌∷◌, ◌++◌, append_assoc, IsIn-append_left, IsIn-append_right, Map, map, contains, All,
  IsIn, Bool-cases, ◌==◌, eq_iff, eq_refl, arith,
}
use rivalry.Prelude.Results.{Result, ok, err, unless_panic}
use rivalry.Wire.Api.{Submission}
use rivalry.Wire.Documents
use rivalry.Wire.Streams.{StreamTicket}
use rivalry.Platform.View.{tickets, View, IsSame, ticket_assignments}
use rivalry.Platform.Env.{Env, IsSound}
use rivalry.Tickets.{get_match_requests, stream_ticket_from_db_request, submission_from_db_request}
use rivalry.Tickets.Stored.{
  IsStored, HasRead, AreRead, get_match_requests-AreRead, get_match_requests-HasRead,
}
use rivalry.Tickets.Matching.Update.{get_match_requests-IsSame}
use rivalry.Tickets.Queue.{ids_of, requeue_match_requests}
use rivalry.Tickets.Queue.Resent.{IsAnswering, CanMarshal, IsAmong, HasOwner, requeue-Resends}
use rivalry.CustomLogic.{Answers, MatchMakerServiceClient, receive, make_matches}
use rivalry.Matcher.{by_id, present, on_match, after_matches, match_batch, on_batch}
use rivalry.Matcher.Unmatched.{submitted_ids, holds-by_id}
use rivalry.Matcher.Returns.{IsWellBehaved}
use rivalry.Matcher.Waiting.{Appends-none, IsWaiting}
use rivalry.Matcher.Received.{Waits, receive-Waits, by_id-id, All-by_id}
use rivalry.Matcher.Kept.{IsKept, Keeps, after_matches-Keeps}

-- The matchmaker is another service: a call of it leaves the store and the stream alone.
abbrev pub IsApart : {W : Type 0} → View W → MatchMakerServiceClient W → Type 0
IsApart {W} v client =
    (submissions : List Submission) (w : W)
    → IsSame v w (client.make_matches (record { submissions = submissions }) w).1

contains-submitted_ids :
    (mr : Documents.MatchRequest) (mrs : List Documents.MatchRequest)
    → IsIn mr mrs
    → contains mr.id (submitted_ids (map submission_from_db_request mrs)) ≡ true
unfolding submission_from_db_request
contains-submitted_ids mr [] i = absurd i
contains-submitted_ids mr (u ∷ mrs) (inl same) = rw (ap (λ d. d.id) same, eq_refl u.id) refl
contains-submitted_ids mr (u ∷ mrs) (inr i) = ground (arith, contains-submitted_ids mr mrs i)

ticket_with_id :
    (k : String) (ts : List StreamTicket)
    → contains k (ids_of ts) ≡ true
    → (t : StreamTicket) × IsIn t ts × (t.match_request_id ≡ k)
ticket_with_id k [] c = cc
ticket_with_id k (t ∷ ts) c = elim (Bool-cases (k == t.match_request_id)) [
  | inl same ↦ (t, inl refl, ground (arith, eq_iff k t.match_request_id))
  | inr other ↦ let (u, i, e) = ticket_with_id k ts (ground arith) in (u, inr i, e)
]

module _ {W S : Type 0} {v : View W} {env : Env W S} (sound : IsSound v env)
    (answering : IsAnswering env) (client : MatchMakerServiceClient W)
    (behaves : IsWellBehaved client) (apart : IsApart v client) where
  -- The tickets that the matcher answers for: those of the batch, and those with an owner.
  IsKnown : List Documents.MatchRequest → W → String → Type 0
  IsKnown mrs w k =
      (contains k (submitted_ids (map submission_from_db_request mrs)) ≡ true) ⊎ HasOwner v k w

  match_batch-Keeps :
      (mrs : List Documents.MatchRequest) (w : W)
      → All (CanMarshal env) (map stream_ticket_from_db_request mrs)
      → Keeps sound answering client (IsKnown mrs w) w (match_batch env client mrs w)
  unfolding match_batch make_matches IsKnown
  match_batch-Keeps mrs w can = after_call _ refl (apart (map submission_from_db_request mrs) w)
    where
      submitted : String → Bool
      submitted k = contains k (submitted_ids (map submission_from_db_request mrs))

      owned_elsewhere :
          (k : String) (w1 : W)
          → v.entry w1 ≡ v.entry w
          → submitted k ≡ false
          → IsKnown mrs w k
          → HasOwner v k w1
      owned_elsewhere k w1 e other (inl among) = cc
      owned_elsewhere k w1 e other (inr owned) =
          subst (λ f. f ticket_assignments k ≢ none) (sym e) owned

      waiting :
          (w1 : W) → IsSame v w w1 → IsWaiting v env (IsKnown mrs w) submitted w (by_id mrs [], w1)
      waiting w1 (e, s, _) = (
        (λ k h. elim (Bool-cases (submitted k)) [
          | inl among ↦ inl (holds-by_id k mrs [] ∙ ground (arith, among))
          | inr other ↦ inr (other, owned_elsewhere k w1 e other h)
        ]),
        (λ k t e. by_id-id k t mrs [] (λ j u q. cc) e),
        All-by_id (CanMarshal env) mrs [] can tt,
        (λ k h. holds-by_id k mrs [] ∙ ground (arith, h)),
        Appends-none v w w1 s,
      )

      answered :
          (o : Option (Result (Unit {0}) × (Map StreamTicket × W)))
          → Waits sound answering client (IsKnown mrs w) w o
          → Keeps sound answering client
              (IsKnown mrs w)
              w
              (unless_panic (after_matches env client mrs) o)
      answered o (r, s, e, (available, waits)) =
          rw e (
            after_matches-Keeps sound answering client (IsKnown mrs w) w mrs r s available can
              waits)

      after_call :
          (o : Result Answers × W)
          → client.make_matches (record { submissions = map submission_from_db_request mrs }) w ≡ o
          → IsSame v w o.1
          → Keeps sound answering client (IsKnown mrs w) w (
              unless_panic (after_matches env client mrs) (elim o.0 [
                | err e ↦ some (err e, (by_id mrs [], o.1))
                | ok answers ↦ receive (on_match env client) answers (by_id mrs [], o.1)
              ]))
      after_call (err e, w1) h same =
          after_matches-Keeps sound answering client (IsKnown mrs w) w mrs (err e)
            (by_id mrs [], w1) submitted can (waiting w1 same)
      after_call (ok answers, w1) h same = answered _ (
          receive-Waits sound answering client (IsKnown mrs w) w answers submitted (by_id mrs []) w1
            (waiting w1 same) (behaves (map submission_from_db_request mrs) w w1 answers h))

  -- With a matchmaker that answers with matches of the tickets that it was shown, each ticket in one
  -- match at most, and that leaves the store and the stream alone; where the stream takes each message,
  -- the owners can be read, and the tickets can be written: the matcher gets through a batch, and each
  -- of its tickets, whose request is stored under its own identifier, ends with an owner, or was sent
  -- again, with that identifier, on the topic of its queue.
  pub on_batch_keeps :
      (sts : List StreamTicket) (w : W)
      → All (CanMarshal env) sts
      → ((x : String) (mr : Documents.MatchRequest)
          → env.match_requests.unmarshal x ≡ ok mr
          → CanMarshal env (stream_ticket_from_db_request mr))
      → (w' : W) × (on_batch env client sts w ≡ some w')
        × ((k : String) → contains k (ids_of sts) ≡ true → IsStored v env k w → IsKept v env k w w')
  unfolding on_batch IsKnown present
  on_batch_keeps sts w can can_read =
      after_read (get_match_requests env (ids_of sts) w)
        (get_match_requests-IsSame sound (ids_of sts) w)
        (get_match_requests-AreRead sound (ids_of sts) w)
        (λ k x t among stored reads.
          get_match_requests-HasRead sound (ids_of sts) k x t w among stored reads)
    where
      Ends : Option W → Type 0
      Ends o =
          (w' : W) × (o ≡ some w')
          × ((k : String)
              → contains k (ids_of sts) ≡ true
              → IsStored v env k w
              → IsKept v env k w w')

      writable :
          (reqs : List Documents.MatchRequest)
          → AreRead env (ok reqs)
          → All (CanMarshal env) (map stream_ticket_from_db_request reqs)
      writable [] h = tt
      writable (mr ∷ reqs) ((x, m), h) = (can_read x mr m, writable reqs h)

      from_start :
          (k : String) (w1 w2 : W)
          → v.sent w1 ≡ v.sent w
          → IsKept v env k w1 w2
          → IsKept v env k w w2
      from_start k w1 w2 s (inl owned) = inl owned
      from_start k w1 w2 s (inr (ms, s', r)) = inr (ms, s' ∙ ap (λ l. l ++ ms) s, r)

      after_all :
          (k : String) (w1 w2 w3 : W)
          → v.entry w2 ≡ v.entry w1
          → (ms : List (String × String)) → v.sent w2 ≡ v.sent w1 ++ ms
          → (ns : List (String × String)) → v.sent w3 ≡ v.sent w2 ++ ns
          → (t : StreamTicket) → t.match_request_id ≡ k
          → HasOwner v t.match_request_id w1 ⊎ IsAmong env t ms
          → (IsKnown [] w2 k → IsKept v env k w2 w3)
          → IsKept v env k w1 w3
      after_all k w1 w2 w3 q ms s ns s' t named (inr (b, r, i)) kept = inr (
        ms ++ ns,
        s' ∙ ap (λ l. l ++ ns) s ∙ append_assoc (v.sent w1) ms ns,
        (t, named, (b, r, IsIn-append_right _ ms ns i)),
      )
      after_all k w1 w2 w3 q ms s ns s' t named (inl owned) kept = later (
          kept (
            inr (
              subst (λ f. f ticket_assignments k ≢ none) (sym q)
                (subst (λ j. HasOwner v j w1) named owned))))
        where
          later : IsKept v env k w2 w3 → IsKept v env k w1 w3
          later (inl o) = inl o
          later (inr (os, s2, (u, n, (b, r, i)))) = inr (
            ms ++ os,
            s2 ∙ ap (λ l. l ++ os) s ∙ append_assoc (v.sent w1) ms os,
            (u, n, (b, r, IsIn-append_left _ ms os i)),
          )

      after_read :
          (o : Result (List Documents.MatchRequest) × W)
          → IsSame v w o.1
          → AreRead env o.0
          → ((k x : String) (t : Documents.MatchRequest)
              → contains k (ids_of sts) ≡ true
              → v.entry w tickets k ≡ some x
              → env.match_requests.unmarshal x ≡ ok t
              → HasRead t o.0)
          → Ends (elim o.0 [
            | ok reqs ↦ match_batch env client reqs o.1
            | err e ↦
                unless_panic
                  (match_batch env client [])
                  (requeue_match_requests env (present sts) o.1)
          ])
      after_read (ok reqs, w1) same are_read has_read =
          let (w2, e, sent, kept) = match_batch-Keeps reqs w1 (writable reqs are_read) in
          (
            w2,
            e,
            λ k among (x, t, at_k, m, named). from_start k w1 w2 same.1 (
                kept k (
                  inl (
                    subst
                      (λ j. contains j (submitted_ids (map submission_from_db_request reqs)) ≡ true)
                      named (contains-submitted_ids t reqs (has_read k x t among at_k m))))),
          )
      after_read (err _, w1) same are_read has_read =
          let (w2, e, (q, (ms, s, resent))) = requeue-Resends sound answering sts w1 can in
          let (w3, e', (ns, s'), kept) = match_batch-Keeps [] w2 tt in
          (
            w3,
            rw e e',
            λ k among _.
                let (t, i, named) = ticket_with_id k sts among in
                from_start k w1 w3 same.1
                  (after_all k w1 w2 w3 q ms s ns s' t named (resent t i) (kept k)),
          )
