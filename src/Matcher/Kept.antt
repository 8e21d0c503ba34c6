-- ===== src/Matcher/Kept.antt =====
-- What becomes of the tickets that are in no match: each is requeued, unless it has an owner.
use rivalry.Prelude.{
  String, ◌≡◌, ◌≢◌, refl, sym, ap, subst, ◌∙◌, ◌⊎◌, inl, inr, Bool, true, false, Option, none, some,
  List, [], ◌∷◌, ◌++◌, append-nil, append_assoc, IsIn-append_left, Map, lookup, values, map, All,
  value-IsIn,
}
use rivalry.Prelude.Results.{Result, ok, err}
use rivalry.Wire.Documents
use rivalry.Wire.Streams.{StreamTicket}
use rivalry.Platform.View.{View, ticket_assignments}
use rivalry.Platform.Env.{Env, IsSound}
use rivalry.Tickets.{stream_ticket_from_db_request}
use rivalry.Tickets.Queue.Resent.{
  IsAnswering, CanMarshal, IsAmong, HasOwner, Resends, requeue-Resends,
}
use rivalry.CustomLogic.{MatchMakerServiceClient}
use rivalry.Matcher.{present, requeue_all, requeue_left, after_matches}
use rivalry.Matcher.Unmatched.{holds}
use rivalry.Matcher.Waiting.{Appends, Appends-trans, IsWaiting}

-- The ticket has an owner, or a message with it was sent on the topic of its queue.
abbrev pub IsKept : {W S : Type 0} → View W → Env W S → String → W → W → Type 0
IsKept v env k w w' =
    HasOwner v k w'
    ⊎ ((ms : List (String × String)) × (v.sent w' ≡ v.sent w ++ ms)
        × ((t : StreamTicket) × (t.match_request_id ≡ k) × IsAmong env t ms))

module _ {W S : Type 0} {v : View W} {env : Env W S} (sound : IsSound v env)
    (answering : IsAnswering env) (client : MatchMakerServiceClient W) where
  module _ (Known : String → Type 0) (w0 : W) where
    -- What is known is kept, and the messages that were sent stand.
    abbrev pub Keeps : Option W → Type 0
    Keeps o =
        (w' : W) × (o ≡ some w') × Appends v w0 w' × ((k : String) → Known k → IsKept v env k w0 w')

    -- What is in the map at the end is requeued; the rest has owners.
    Resends-IsKept :
        (available : String → Bool) (found : Map StreamTicket) (w w1 : W)
        → IsWaiting v env Known available w0 (found, w)
        → Resends v env (values found) w w1
        → (k : String) → Known k
        → IsKept v env k w0 w1
    Resends-IsKept available found w w1 (a, b, _, _, (ms0, s0)) (e, (ms, s, among)) k h =
        at_place (a k h)
      where
        owned : (j : String) → HasOwner v j w → HasOwner v j w1
        owned j = subst (λ f. f ticket_assignments j ≢ none) (sym e)

        resent :
            (t : StreamTicket)
            → t.match_request_id ≡ k
            → HasOwner v t.match_request_id w ⊎ IsAmong env t ms
            → IsKept v env k w0 w1
        resent t named (inl o) = inl (owned k (subst (λ j. HasOwner v j w) named o))
        resent t named (inr (b, r, i)) = inr (
          ms0 ++ ms,
          s ∙ ap (λ l. l ++ ms) s0 ∙ append_assoc (v.sent w0) ms0 ms,
          (t, named, (b, r, IsIn-append_left _ ms0 ms i)),
        )

        in_map :
            (o : Option StreamTicket)
            → lookup k found ≡ o
            → elim o [ none ↦ false | some t ↦ true ] ≡ true
            → IsKept v env k w0 w1
        in_map none q c = cc
        in_map (some t) q c = resent t (b k t q) (among t (value-IsIn k t found q))

        at_place :
            (holds found k ≡ true) ⊎ ((available k ≡ false) × HasOwner v k w) → IsKept v env k w0 w1
        at_place (inl held) = in_map (lookup k found) refl held
        at_place (inr (_, o)) = inl (owned k o)

    requeue_left-Keeps :
        (available : String → Bool) (found : Map StreamTicket) (w : W)
        → IsWaiting v env Known available w0 (found, w)
        → Keeps (requeue_left env client found w)
    unfolding requeue_left present
    requeue_left-Keeps available [] w waiting = (
      w,
      refl,
      waiting.4,
      Resends-IsKept available [] w w waiting
          (refl, ([], sym (append-nil (v.sent w)), λ t i. absurd i)),
    )
    requeue_left-Keeps available (p ∷ found) w (a, b, d, c, s) =
        let (w1, e, q) = requeue-Resends sound answering (values (p ∷ found)) w d in
        (
          w1,
          e,
          Appends-trans v w0 w w1 s (q.1.0, q.1.1),
          Resends-IsKept available (p ∷ found) w w1 (a, b, d, c, s) q,
        )

    -- Where the call of the matchmaker failed, all tickets are requeued before.
    pub after_matches-Keeps :
        (mrs : List Documents.MatchRequest) (r : Result (Unit {0})) (s : Map StreamTicket × W)
        (available : String → Bool)
        → All (CanMarshal env) (map stream_ticket_from_db_request mrs)
        → IsWaiting v env Known available w0 s
        → Keeps (after_matches env client mrs (r, s))
    unfolding after_matches requeue_all present
    after_matches-Keeps mrs (ok _) (found, w) available can waiting =
        requeue_left-Keeps available found w waiting
    after_matches-Keeps mrs (err _) (found, w) available can (a, b, d, c, s) =
        let (w1, e, (q, (ms, t, _))) =
          requeue-Resends sound answering (map stream_ticket_from_db_request mrs) w can in
        rw e (
          requeue_left-Keeps available found w1
            ((λ k h. still w1 q (a k h)), b, d, c, Appends-trans v w0 w w1 s (ms, t)))
      where
        still :
            {k : String} (w1 : W)
            → v.entry w1 ≡ v.entry w
            → (holds found k ≡ true) ⊎ ((available k ≡ false) × HasOwner v k w)
            → (holds found k ≡ true) ⊎ ((available k ≡ false) × HasOwner v k w1)
        still w1 q (inl held) = inl held
        still {k} w1 q (inr (gone, o)) =
            inr (gone, subst (λ f. f ticket_assignments k ≢ none) (sym q) o)
