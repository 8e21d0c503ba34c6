-- ===== src/Tickets/Matching/Update.antt =====
-- Writing a game server into the requests of a match, and telling their clients.
use mathlib.Core.Path.{fun_ext}
use rivalry.Prelude.{
  String, ◌≡◌, refl, sym, ap, ◌∙◌, ◌⊎◌, inl, inr, some, List, [], ◌∷◌, ◌++◌, append-nil, Map,
  lookup, insert, values, lookup-insert, ◌==◌, eq_iff, Bool-cases, arith,
}
use rivalry.Prelude.Results.{Result, ok, err, wrapped, and_then, lift}
use rivalry.Wire.Api
use rivalry.Wire.Documents
use rivalry.Platform.View.{
  View, Entries, Collection, tickets, ticket_assignments, matches, IsSame, written,
}
use rivalry.Platform.Store.{Writes, ReadsAll}
use rivalry.Platform.Env.{Env, IsSound}
use rivalry.Tickets.{get_match_requests, unmarshal_all, db_game_server}
use rivalry.Tickets.Matching.{
  with_server, publish_all, add_assignment, add_assignment_to_match_requests,
}
use rivalry.Tickets.Matching.Telling.{AreTold, Tells, publish_all-Tells}

module _ {W S : Type 0} (env : Env W S) where
  -- Documents under their own identifiers, each with the game server.
  abbrev pub AreServed : Documents.GameServer → Map String → Type 0
  AreServed gs found =
      (k x : String)
      → lookup k found ≡ some x
      → (t : Documents.MatchRequest) × (env.match_requests.unmarshal x ≡ ok t)
        × (t.id ≡ k)
        × (t.game_server ≡ some gs)

-- The documents are written before anything is published; a call that fails publishes nothing, and
-- has written all of its documents or none.
abbrev pub Updates :
    {W S : Type 0}
    → View W
    → Env W S
    → Documents.GameServer
    → List String
    → W
    → Result (Unit {0}) × W
    → Type 0
Updates v env gs ids w (ok _, w') =
    ((found : Map String) × AreServed env gs found
      × (v.entry w' ≡ written tickets found (v.entry w)))
    × (v.sent w' ≡ v.sent w)
    × ((ms : List (String × String)) × (v.published w' ≡ v.published w ++ ms) × AreTold env ids ms)
Updates v env gs ids w (err _, w') =
    ((v.entry w' ≡ v.entry w)
      ⊎ ((found : Map String) × AreServed env gs found
          × (v.entry w' ≡ written tickets found (v.entry w))))
    × (v.sent w' ≡ v.sent w)
    × (v.published w' ≡ v.published w)

written-nil : (f : Entries) → f ≡ written tickets [] f
written-nil f = fun_ext λ c. fun_ext λ k. at c k
  where
    at : (c : Collection) (k : String) → f c k ≡ written tickets [] f c k
    at tickets k = refl
    at ticket_assignments k = refl
    at matches k = refl

module _ {W S : Type 0} {v : View W} {env : Env W S} (sound : IsSound v env) where
  insert-AreServed :
      (gs : Documents.GameServer) (mr : Documents.MatchRequest) (b : String) (found : Map String)
      → env.match_requests.marshal (record mr { game_server = some gs }) ≡ ok b
      → AreServed env gs found
      → AreServed env gs (insert mr.id b found)
  insert-AreServed gs mr b found m served k x e = elim (Bool-cases (mr.id == k)) [
    | inl same ↦
        let is_b : b ≡ x = ground (arith, lookup-insert mr.id k b found) in
        (
          record mr { game_server = some gs },
          rw (← is_b) (
              sound.match_requests_lem.unmarshal-marshal (record mr { game_server = some gs }) b m),
          (eq_iff mr.id k).0 same,
          refl,
        )
    | inr other ↦ served k x (ground (arith, lookup-insert mr.id k b found))
  ]

  -- What the loop over the documents returns.
  unfoldable pub Serves : Documents.GameServer → Result (Map String) → Type 0
  Serves gs (ok found) = AreServed env gs found
  Serves gs (err e) = Unit

  pub with_server-Serves :
      (gs : Documents.GameServer) (mrs : List Documents.MatchRequest) (found : Map String)
      → AreServed env gs found
      → Serves gs (with_server env gs mrs found)
  unfolding with_server Serves
  with_server-Serves gs [] found served = served
  with_server-Serves gs (mr ∷ mrs) found served =
      marshalled (env.match_requests.marshal (record mr { game_server = some gs })) refl
        (with_server-Serves gs mrs)
    where
      marshalled :
          (r : Result String)
          → env.match_requests.marshal (record mr { game_server = some gs }) ≡ r
          → ((found' : Map String)
              → AreServed env gs found'
              → Serves gs (with_server env gs mrs found'))
          → Serves gs (elim r [
            | ok req_bytes ↦ with_server env gs mrs (insert mr.id req_bytes found)
            | err e ↦ err (wrapped "failed to marshal match request" e)
          ])
      marshalled (ok b) m rest = rest _ (insert-AreServed gs mr b found m served)
      marshalled (err e) m rest = tt

  -- To read requests changes nothing.
  pub get_match_requests-IsSame :
      (ks : List String) (w : W) → IsSame v w (get_match_requests env ks w).1
  unfolding get_match_requests
  get_match_requests-IsSame ks w = after_mget _ (sound.store_lem.mget_lem tickets ks w)
    where
      after_mget :
          (o : Result (Map String) × W)
          → ReadsAll v tickets ks w o
          → IsSame v w (and_then (λ found. lift (unmarshal_all env (values found))) o).1
      after_mget (ok found, w1) (read, d, q) = q
      after_mget (err e, w1) q = q

  after_mset :
      (gs : Documents.GameServer) (ids : List String) (w w1 : W) (found : Map String)
      (o : Result (Unit {0}) × W)
      → IsSame v w w1
      → AreServed env gs found
      → Writes v tickets found w1 o
      → Updates v env gs ids w (and_then (λ _ w'. (ok tt, publish_all env ids w')) o)
  after_mset gs ids w w1 found (ok _, w2) (e, s, p) served (e', (s', p')) =
      finish (publish_all-Tells sound ids w2)
    where
      finish :
          Tells v env ids w2 (publish_all env ids w2)
          → Updates v env gs ids w (ok tt, publish_all env ids w2)
      finish (e2, s2, (ms, p2, told)) = (
        (found, served, e2 ∙ e' ∙ ap (written tickets found) e),
        s2 ∙ s' ∙ s,
        (ms, p2 ∙ ap (λ l. l ++ ms) (p' ∙ p), told),
      )
  after_mset gs ids w w1 found (err x, w2) (e, s, p) served (inl e', (s', p')) =
      (inl (e' ∙ e), s' ∙ s, p' ∙ p)
  after_mset gs ids w w1 found (err x, w2) (e, s, p) served (inr e', (s', p')) =
      (inr (found, served, e' ∙ ap (written tickets found) e), s' ∙ s, p' ∙ p)

  add_assignment-Updates :
      (assignment : Api.GameServer) (ids : List String) (w : W)
      → Updates v env (db_game_server assignment) ids w (add_assignment env assignment ids w)
  unfolding add_assignment Serves
  add_assignment-Updates assignment [] w = (
    ([], (λ k x e. cc), written-nil (v.entry w)),
    refl,
    ([], sym (append-nil (v.published w)), AreTold.done),
  )
  add_assignment-Updates assignment (t ∷ ts) w =
      after_read (get_match_requests env (t ∷ ts) w) (get_match_requests-IsSame (t ∷ ts) w)
    where
      after_server :
          (w1 : W)
          → IsSame v w w1
          → (r : Result (Map String)) → Serves (db_game_server assignment) r
          → Updates v env (db_game_server assignment) (t ∷ ts) w (
              and_then
                (λ found w'.
                  and_then
                    (λ _ w''. (ok tt, publish_all env (t ∷ ts) w''))
                    (env.kv_store.mset "tickets" found w'))
                (r, w1))
      after_server w1 q (ok found) served =
          after_mset (db_game_server assignment) (t ∷ ts) w w1 found _ q served
            (sound.store_lem.mset_lem tickets found w1)
      after_server w1 q (err e) served = (inl q.0, q.1, q.2)

      after_read :
          (o : Result (List Documents.MatchRequest) × W)
          → IsSame v w o.1
          → Updates v env (db_game_server assignment) (t ∷ ts) w (
              and_then
                (λ mrs w1.
                  and_then
                    (λ found w'.
                      and_then
                        (λ _ w''. (ok tt, publish_all env (t ∷ ts) w''))
                        (env.kv_store.mset "tickets" found w'))
                    (with_server env (db_game_server assignment) mrs [], w1))
                o)
      after_read (ok mrs, w1) q =
          after_server w1 q _ (with_server-Serves (db_game_server assignment) mrs [] (λ k x e. cc))
      after_read (err e, w1) q = (inl q.0, q.1, q.2)

  -- What `AddAssignmentToMatchRequests` writes are documents with the game server, each under its own
  -- identifier; then it tells the client of each ticket once, but for those whose publication failed.
  pub add_assignment_to_match_requests_lem :
      (assignment : Api.GameServer) (m : Api.Match) (w : W)
      → Updates v env
          (db_game_server assignment)
          m.match_request_ids
          w
          (add_assignment_to_match_requests env assignment m w)
  unfolding add_assignment_to_match_requests
  add_assignment_to_match_requests_lem assignment m w =
      add_assignment-Updates assignment m.match_request_ids w
