-- ===== src/Tickets/Create.antt =====
-- What `CreateMatchRequest` does to the store and the stream, on every path.
use mathlib.Core.Path.{fun_ext}
use rivalry.Prelude.{
  String, ◌≡◌, ◌≢◌, refl, sym, ap, ◌∙◌, ◌⊎◌, inl, inr, Bool, true, false, none, some, List, [], ◌∷◌,
  ◌++◌, eq_iff, arith, ==_ne,
}
use rivalry.Prelude.Results.{Result, ok, err, and_then, wrap_error, if_failed}
use rivalry.Wire.Api
use rivalry.Wire.Documents
use rivalry.Platform.View.{
  View, Entries, IsSame, IsSilent, written, removed, Collection, tickets, ticket_assignments,
  matches,
}
use rivalry.Platform.Store.{WritesNew, Removes}
use rivalry.Platform.Env.{Env, IsSound}
use rivalry.Tickets.{
  get_match_request_topic, stream_ticket_from_db_request, document_of, stream_if_set, submit,
  create_match_request,
}
use rivalry.Tickets.Publish.{SendsTicket, publish_stream_ticket_lem}

-- The document is stored under its identifier, which was free; it reads back as it was written.
abbrev pub Stores : {W S : Type 0} → View W → Env W S → Documents.MatchRequest → W → W → Type 0
Stores v env t w w' =
    (x : String) × (v.entry w tickets t.id ≡ none)
    × (env.match_requests.unmarshal x ≡ ok t)
    × (v.entry w' ≡ written tickets ((t.id, x) ∷ []) (v.entry w))

-- On success the document is stored and its ticket sent to the queue. On failure no message was
-- sent, and at most the document was left behind, under an identifier that was free.
abbrev pub Submits :
    {W S : Type 0} → View W → Env W S → Documents.MatchRequest → W → Result (Unit {0}) × W → Type 0
Submits v env t w (ok _, w') =
    Stores v env t w w'
    × ((b : String) × (env.stream_tickets.unmarshal b ≡ ok (stream_ticket_from_db_request t))
        × (v.sent w' ≡ v.sent w ++ (get_match_request_topic t.matchmaking_queue, b) ∷ [])
        × (v.published w' ≡ v.published w))
Submits v env t w (err e, w') = ((v.entry w' ≡ v.entry w) ⊎ Stores v env t w w') × IsSilent v w w'

-- To delete what was written under a free key restores the entries.
removed-written :
    (k x : String) (f : Entries)
    → f tickets k ≡ none
    → removed tickets (k ∷ []) (written tickets ((k, x) ∷ []) f) ≡ f
removed-written k x f free = fun_ext λ c. fun_ext λ j. at c j
  where
    at :
        (c : Collection) (j : String)
        → removed tickets (k ∷ []) (written tickets ((k, x) ∷ []) f) c j ≡ f c j
    at tickets j = ground (arith, eq_iff j k, eq_iff k j)
    at ticket_assignments j = refl
    at matches j = refl

module _ {W S : Type 0} {v : View W} {env : Env W S} (sound : IsSound v env) where
  -- Nothing is left of the document if the stream refused the ticket and the deletion went through.
  rolled_back :
      (t : Documents.MatchRequest) (w w1 : W) (o : Result (Unit {0}) × W)
      → Stores v env t w w1
      → Removes v tickets (t.id ∷ []) w1 o
      → (v.entry o.1 ≡ v.entry w) ⊎ Stores v env t w o.1
  rolled_back t w w1 (ok _, w2) (x, free, m, e) (r, q) =
      inl (r ∙ ap (removed tickets (t.id ∷ [])) e ∙ removed-written t.id x (v.entry w) free)
  rolled_back t w w1 (err _, w2) (x, free, m, e) (inl r, q) = inr (x, free, m, r ∙ e)
  rolled_back t w w1 (err _, w2) (x, free, m, e) (inr r, q) =
      inl (r ∙ ap (removed tickets (t.id ∷ [])) e ∙ removed-written t.id x (v.entry w) free)

  Removes-IsSilent :
      (ks : List String) (w : W) (o : Result (Unit {0}) × W)
      → Removes v tickets ks w o
      → IsSilent v w o.1
  Removes-IsSilent ks w (ok _, w') (e, q) = q
  Removes-IsSilent ks w (err _, w') (e, q) = q

  after_publish :
      (t : Documents.MatchRequest) (w w1 : W)
      → Stores v env t w w1
      → IsSilent v w w1
      → (o : Result (Unit {0}) × W) → SendsTicket v env (stream_ticket_from_db_request t) w1 o
      → Submits v env t w (if_failed (env.kv_store.del "tickets" (t.id ∷ [])) o)
  unfolding stream_ticket_from_db_request
  after_publish t w w1 (x, free, m, e) q (ok _, w2) (b, u, e', s, p) =
      ((x, free, m, e' ∙ e), (b, u, rw (← q.0) s, p ∙ q.1))
  after_publish t w w1 (x, free, m, e) q (err _, w2) kept =
      let deletion = sound.store_lem.del_lem tickets (t.id ∷ []) w2 in
      let silent = Removes-IsSilent (t.id ∷ []) w2 _ deletion in
      (
        rolled_back t w w2 _ (x, free, m, kept.0 ∙ e) deletion,
        (silent.0 ∙ kept.1 ∙ q.0, silent.1 ∙ kept.2 ∙ q.1),
      )

  after_setnx :
      (t : Documents.MatchRequest) (x : String) (w : W)
      → env.match_requests.marshal t ≡ ok x
      → (o : Result Bool × W) → WritesNew v tickets ((t.id, x) ∷ []) w o
      → Submits v env t w (and_then (stream_if_set env t) (wrap_error "failed to persist req" o))
  unfolding stream_if_set
  after_setnx t x w m (ok true, w1) (free, e, q) =
      after_publish t w w1
        (
          x,
          free t.id (ground (arith, eq_iff t.id t.id)),
          sound.match_requests_lem.unmarshal-marshal t x m,
          e,
        )
        q _ (publish_stream_ticket_lem sound (stream_ticket_from_db_request t) w1)
  after_setnx t x w m (ok false, w1) (taken, q) = (inl q.0, (q.1, q.2))
  after_setnx t x w m (err _, w1) (inl e, q) = (inl e, q)
  after_setnx t x w m (err _, w1) (inr (free, e), q) = (
    inr (
      x,
      free t.id (ground (arith, eq_iff t.id t.id)),
      sound.match_requests_lem.unmarshal-marshal t x m,
      e,
    ),
    q,
  )

  submit-Submits : (t : Documents.MatchRequest) (w : W) → Submits v env t w (submit env t w)
  unfolding submit
  submit-Submits t w = after_marshal (env.match_requests.marshal t) refl
    where
      after_marshal :
          (r : Result String)
          → env.match_requests.marshal t ≡ r
          → Submits v env t w (
              and_then
                (λ x w'.
                  and_then
                    (stream_if_set env t)
                    (wrap_error "failed to persist req" (env.kv_store.setnx "tickets" t.id x 0 w')))
                (wrap_error "failed to marshal req" (r, w)))
      after_marshal (ok x) m = after_setnx t x w m _ (sound.store_lem.setnx_lem tickets t.id x w)
      after_marshal (err e) m = (inl refl, (refl, refl))

  -- The clock is read first, and changes nothing.
  Submits-from :
      (t : Documents.MatchRequest) (w w1 : W) (o : Result (Unit {0}) × W)
      → IsSame v w w1
      → Submits v env t w1 o
      → Submits v env t w o
  Submits-from t w w1 (ok _, w2) q ((x, free, m, e), (b, u, s, p)) =
      ((x, rw (← q.0) free, m, rw (← q.0) e), (b, u, rw (← q.1) s, p ∙ q.2))
  Submits-from t w w1 (err _, w2) q (inl e, (s, p)) = (inl (e ∙ q.0), (s ∙ q.1, p ∙ q.2))
  Submits-from t w w1 (err _, w2) q (inr (x, free, m, e), (s, p)) =
      (inr (x, rw (← q.0) free, m, rw (← q.0) e), (s ∙ q.1, p ∙ q.2))

  -- A request with an identifier is stored and queued as a whole; if the call fails, no message was
  -- sent, and the store is as before or holds the new document.
  pub create_match_request_lem :
      (req : Api.MatchRequest) (w : W)
      → req.id ≢ ""
      → Submits v env (document_of env.sets req (env.now w).0) w (create_match_request env req w)
  unfolding create_match_request
  create_match_request_lem req w h =
      let t = document_of env.sets req (env.now w).0 in
      rw (==_ne req.id "" h)
        (Submits-from t w (env.now w).1 _ (sound.now-IsSame w) (submit-Submits t (env.now w).1))

  -- An identifier that is in use is refused: nothing is overwritten and nothing is sent.
  pub create_match_request_taken :
      (req : Api.MatchRequest) (w : W) {x : String}
      → req.id ≢ ""
      → v.entry w tickets req.id ≡ some x
      → let (r, w') = create_match_request env req w in (r ≢ ok tt) × IsSame v w w'
  unfolding document_of
  create_match_request_taken req w {x} h taken =
      refused (create_match_request env req w) (create_match_request_lem req w h)
    where
      refused :
          (o : Result (Unit {0}) × W)
          → Submits v env (document_of env.sets req (env.now w).0) w o
          → (o.0 ≢ ok tt) × IsSame v w o.1
      refused (ok _, w') ((y, free, m, e), sent) = absurd (cc (sym free ∙ taken))
      refused (err z, w') (inl e, (s, p)) = ((λ q. cc), (e, s, p))
      refused (err z, w') (inr (y, free, m, e), q) = absurd (cc (sym free ∙ taken))
