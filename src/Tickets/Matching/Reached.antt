-- ===== src/Tickets/Matching/Reached.antt =====
-- Every request of a match that can be read has the game server, once it was assigned.
use rivalry.Prelude.{
  String, ◌≡◌, refl, sym, ap, ◌∙◌, ◌⊎◌, inl, inr, true, some, List, [], ◌∷◌, Map, lookup, insert,
  values, contains, lookup-insert, IsIn, value-IsIn, ◌==◌, eq_iff, Bool-cases, arith,
}
use rivalry.Prelude.Results.{Result, ok, err, wrapped, and_then}
use rivalry.Wire.Api
use rivalry.Wire.Documents
use rivalry.Platform.View.{View, tickets, written}
use rivalry.Platform.Store.{Writes, ReadsAll}
use rivalry.Platform.Env.{Env, IsSound}
use rivalry.Tickets.{get_match_requests, unmarshal_all, db_game_server}
use rivalry.Tickets.Stored.{IsStored, HasRead, unmarshal_all-HasRead}
use rivalry.Tickets.Matching.{
  with_server, publish_all, add_assignment, add_assignment_to_match_requests,
}
use rivalry.Tickets.Matching.Telling.{publish_all-Tells}
use rivalry.Tickets.Matching.Update.{
  AreServed, Serves, Updates, with_server-Serves, add_assignment_to_match_requests_lem,
}

module _ {W S : Type 0} (v : View W) (env : Env W S) where
  -- The document that is stored for the request has the game server.
  abbrev pub IsServed : Documents.GameServer → String → W → Type 0
  IsServed gs k w =
      (x : String) × (t : Documents.MatchRequest) × (v.entry w tickets k ≡ some x)
      × (env.match_requests.unmarshal x ≡ ok t)
      × (t.game_server ≡ some gs)

module _ {W S : Type 0} {v : View W} {env : Env W S} (sound : IsSound v env) where
  -- The documents that `with_server` made have an entry for the request.
  HasEntry : String → Result (Map String) → Type 0
  HasEntry k (ok found) = (x : String) × (lookup k found ≡ some x)
  HasEntry k (err e) = Unit

  with_server-HasEntry :
      (gs : Documents.GameServer) (k : String) (ts : List Documents.MatchRequest)
      (found : Map String)
      → ((x : String) × (lookup k found ≡ some x))
        ⊎ ((t : Documents.MatchRequest) × (t.id ≡ k) × IsIn t ts)
      → HasEntry k (with_server env gs ts found)
  unfolding with_server HasEntry
  with_server-HasEntry gs k [] found (inl old) = old
  with_server-HasEntry gs k [] found (inr (t, e, h)) = absurd h
  with_server-HasEntry gs k (u ∷ ts) found h =
      marshalled (env.match_requests.marshal (record u { game_server = some gs }))
        (with_server-HasEntry gs k ts) h
    where
      inserted :
          (b : String)
          → ((x : String) × (lookup k found ≡ some x))
            ⊎ ((t : Documents.MatchRequest) × (t.id ≡ k) × IsIn t (u ∷ ts))
          → ((x : String) × (lookup k (insert u.id b found) ≡ some x))
            ⊎ ((t : Documents.MatchRequest) × (t.id ≡ k) × IsIn t ts)
      inserted b (inl (x, e)) = elim (Bool-cases (u.id == k)) [
        | inl same ↦ inl (b, ground (arith, lookup-insert u.id k b found))
        | inr other ↦ inl (x, ground (arith, lookup-insert u.id k b found))
      ]
      inserted b (inr (t, e, inl is_u)) =
          let named : u.id ≡ k = ap (λ d. d.id) (sym is_u) ∙ e in
          inl (b, ground (arith, lookup-insert u.id k b found, eq_iff u.id k))
      inserted b (inr (t, e, inr h)) = inr (t, e, h)

      marshalled :
          (r : Result String)
          → ((found' : Map String)
              → ((x : String) × (lookup k found' ≡ some x))
                ⊎ ((t : Documents.MatchRequest) × (t.id ≡ k) × IsIn t ts)
              → HasEntry k (with_server env gs ts found'))
          → ((x : String) × (lookup k found ≡ some x))
            ⊎ ((t : Documents.MatchRequest) × (t.id ≡ k) × IsIn t (u ∷ ts))
          → HasEntry k (elim r [
            | ok req_bytes ↦ with_server env gs ts (insert u.id req_bytes found)
            | err e ↦ err (wrapped "failed to marshal match request" e)
          ])
      marshalled (ok b) rest h = rest _ (inserted b h)
      marshalled (err e) rest h = tt

  -- What is there where the call returned no error.
  Reaches : Documents.GameServer → String → Result (Unit {0}) × W → Type 0
  Reaches gs k (ok _, w') = IsServed v env gs k w'
  Reaches gs k (err _, w') = Unit

  add_assignment-Reaches :
      (assignment : Api.GameServer) (ids : List String) (k : String) (w : W)
      → contains k ids ≡ true
      → IsStored v env k w
      → Reaches (db_game_server assignment) k (add_assignment env assignment ids w)
  unfolding add_assignment get_match_requests Reaches HasEntry Serves
  add_assignment-Reaches assignment [] k w c stored = cc
  add_assignment-Reaches assignment (i ∷ is) k w c (x, t, e, m, named) =
      after_mget _ (sound.store_lem.mget_lem tickets (i ∷ is) w)
    where
      told :
          (found : Map String) (y : String) (w1 : W)
          → lookup k found ≡ some y
          → AreServed env (db_game_server assignment) found
          → v.entry w1 ≡ written tickets found (v.entry w)
          → IsServed v env (db_game_server assignment) k (publish_all env (i ∷ is) w1)
      told found y w1 at_k served wrote =
          let (u, n, _, has) = served k y at_k in
          (
            y,
            u,
            ap (λ f. f tickets k) ((publish_all-Tells sound (i ∷ is) w1).0 ∙ wrote) ∙ rw at_k refl,
            n,
            has,
          )

      after_mset :
          (found : Map String) (w1 : W) (o : Result (Unit {0}) × W)
          → HasEntry k (ok found)
          → AreServed env (db_game_server assignment) found
          → v.entry w1 ≡ v.entry w
          → Writes v tickets found w1 o
          → Reaches
              (db_game_server assignment)
              k
              (and_then (λ _ w2. (ok tt, publish_all env (i ∷ is) w2)) o)
      after_mset found w1 (ok _, w2) (y, at_k) served same (wrote, _) =
          told found y w2 at_k served (wrote ∙ ap (written tickets found) same)
      after_mset found w1 (err _, w2) h served same q = tt

      after_server :
          (w1 : W)
          → v.entry w1 ≡ v.entry w
          → (r : Result (Map String)) → HasEntry k r
          → Serves sound (db_game_server assignment) r
          → Reaches (db_game_server assignment) k (
              and_then
                (λ found w2.
                  and_then
                    (λ _ w3. (ok tt, publish_all env (i ∷ is) w3))
                    (env.kv_store.mset "tickets" found w2))
                (r, w1))
      after_server w1 same (ok found) h served =
          after_mset found w1 _ h served same (sound.store_lem.mset_lem tickets found w1)
      after_server w1 same (err _) h served = tt

      after_read :
          (w1 : W)
          → v.entry w1 ≡ v.entry w
          → (r : Result (List Documents.MatchRequest)) → HasRead t r
          → Reaches (db_game_server assignment) k (
              and_then
                (λ ts w2.
                  and_then
                    (λ found w3.
                      and_then
                        (λ _ w4. (ok tt, publish_all env (i ∷ is) w4))
                        (env.kv_store.mset "tickets" found w3))
                    (with_server env (db_game_server assignment) ts [], w2))
                (r, w1))
      after_read w1 same (ok ts) h =
          after_server w1 same _
            (with_server-HasEntry (db_game_server assignment) k ts [] (inr (t, named, h)))
            (with_server-Serves sound (db_game_server assignment) ts [] (λ j y q. cc))
      after_read w1 same (err _) h = tt

      after_mget :
          (o : Result (Map String) × W)
          → ReadsAll v tickets (i ∷ is) w o
          → Reaches (db_game_server assignment) k (
              and_then
                (λ ts w2.
                  and_then
                    (λ found w3.
                      and_then
                        (λ _ w4. (ok tt, publish_all env (i ∷ is) w4))
                        (env.kv_store.mset "tickets" found w3))
                    (with_server env (db_game_server assignment) ts [], w2))
                (and_then (λ found w1. (unmarshal_all env (values found), w1)) o))
      after_mget (ok found, w1) (read, _, same) = after_read w1 same.0 _ (
          unmarshal_all-HasRead sound x t (values found) m (value-IsIn k x found (read k ∙ rw c e)))
      after_mget (err _, w1) q = tt

  -- After AddAssignmentToMatchRequests returned without an error: the document of each request of
  -- the match that was stored under its own identifier has the game server.
  pub add_assignment_to_match_requests-IsServed :
      (assignment : Api.GameServer) (m : Api.Match) (w w' : W) (k : String)
      → contains k m.match_request_ids ≡ true
      → IsStored v env k w
      → add_assignment_to_match_requests env assignment m w ≡ (ok tt, w')
      → IsServed v env (db_game_server assignment) k w'
  unfolding add_assignment_to_match_requests Reaches
  add_assignment_to_match_requests-IsServed assignment m w w' k among stored e =
      rw e at (add_assignment-Reaches assignment m.match_request_ids k w among stored)

  -- What the call comes to: what it wrote and told, and, where it returned no error, each request of
  -- the match that was stored under its own identifier has the game server.
  abbrev pub Assigns : Documents.GameServer → List String → W → Result (Unit {0}) × W → Type 0
  Assigns gs ids w (ok _, w') =
      Updates v env gs ids w (ok tt, w')
      × ((k : String) → contains k ids ≡ true → IsStored v env k w → IsServed v env gs k w')
  Assigns gs ids w (err e, w') = Updates v env gs ids w (err e, w')

  -- `AddAssignmentToMatchRequests` that returns no error has written the game server into the document
  -- of each request of the match that was stored under its own identifier, and has written no document
  -- without the game server or under another identifier; then it told the client of each ticket of the
  -- match once, but for those whose publication failed. Where it fails, nothing was published, and
  -- nothing was written, or only such documents. It sends nothing on the stream and changes no other
  -- entry.
  pub add_assignment_to_match_requests-Assigns :
      (assignment : Api.GameServer) (m : Api.Match) (w : W)
      → Assigns
          (db_game_server assignment)
          m.match_request_ids
          w
          (add_assignment_to_match_requests env assignment m w)
  add_assignment_to_match_requests-Assigns assignment m w =
      after (add_assignment_to_match_requests env assignment m w) refl
        (add_assignment_to_match_requests_lem sound assignment m w)
    where
      after :
          (o : Result (Unit {0}) × W)
          → add_assignment_to_match_requests env assignment m w ≡ o
          → Updates v env (db_game_server assignment) m.match_request_ids w o
          → Assigns (db_game_server assignment) m.match_request_ids w o
      after (ok _, w') e u = (
        u,
        λ k c stored. add_assignment_to_match_requests-IsServed assignment m w w' k c stored e,
      )
      after (err x, w') e u = u
