-- ===== src/Dispenser/Dispenses.antt =====
-- What the dispenser leaves behind where the assignment service gives a game server.
use rivalry.Prelude.{
  String, ◌≡◌, refl, ap, ◌∙◌, ◌⊎◌, inl, inr, Bool, true, false, Option, none, some, List, [], ◌∷◌,
  contains, Option-cases, lookup,
}
use rivalry.Prelude.Results.{Result, ok, err, Error, and_then}
use rivalry.Wire.Api.{Match, GameServer}
use rivalry.Platform.View.{View, tickets, written}
use rivalry.Platform.Backoff.{retry, retry-Attempts, Attempts-cases, exponential}
use rivalry.Platform.Env.{Env, IsSound}
use rivalry.Tickets.{db_game_server}
use rivalry.Tickets.Matching.{add_assignment_to_match_requests}
use rivalry.Tickets.Matching.Update.{Updates, AreServed, add_assignment_to_match_requests_lem}
use rivalry.Tickets.Stored.{IsStored}
use rivalry.Tickets.Matching.Reached.{IsServed, add_assignment_to_match_requests-IsServed}
use rivalry.CustomLogic.{AssignmentServiceClient}
use rivalry.Dispenser.{
  on_match, make_assignment, add_assignment, dispense, add_assignment_to_tickets,
}

module _ {W S : Type 0} {v : View W} {env : Env W S} (sound : IsSound v env)
    (client : AssignmentServiceClient W) where
  -- The requests of the match that can be read in `w` can be read in `w'`, and the stream is as it was.
  KeepsStored : Match → W → W → Type 0
  KeepsStored m w w' =
      ((k : String)
        → contains k m.match_request_ids ≡ true
        → IsStored v env k w
        → IsStored v env k w')
      × (v.sent w' ≡ v.sent w)

  -- The requests of the match that could be read in `w` have the game server.
  abbrev pub AreDispensed : Match → GameServer → W → W → Type 0
  AreDispensed m gs w w' =
      (k : String)
      → contains k m.match_request_ids ≡ true
      → IsStored v env k w
      → IsServed v env (db_game_server gs) k w'

  Adds : Match → GameServer → W → Result Bool × W → Type 0
  Adds m gs w (ok b, w') = (b ≡ true) × AreDispensed m gs w w' × (v.sent w' ≡ v.sent w)
  Adds m gs w (err _, w') = KeepsStored m w w'

  written-IsStored :
      (gs : GameServer) (found : List (String × String)) (w w' : W) (k : String)
      → AreServed env (db_game_server gs) found
      → v.entry w' ≡ written tickets found (v.entry w)
      → IsStored v env k w
      → IsStored v env k w'
  written-IsStored gs found w w' k served wrote (x, t, e, n, named) =
      elim (Option-cases (lookup k found)) [
        | inl absent ↦ (x, t, ap (λ f. f tickets k) wrote ∙ rw absent e, n, named)
        | inr (y, at_k) ↦
            let (u, n', named', _) = served k y at_k in
            (y, u, ap (λ f. f tickets k) wrote ∙ rw at_k refl, n', named')
      ]

  failed-KeepsStored :
      (m : Match) (gs : GameServer) (w w' : W) (x : Error)
      → Updates v env (db_game_server gs) m.match_request_ids w (err x, w')
      → KeepsStored m w w'
  unfolding KeepsStored
  failed-KeepsStored m gs w w' x (inl same, s, _) =
      ((λ k c (y, t, e, n, named). (y, t, ap (λ f. f tickets k) same ∙ e, n, named)), s)
  failed-KeepsStored m gs w w' x (inr (found, served, wrote), s, _) =
      ((λ k c stored. written-IsStored gs found w w' k served wrote stored), s)

  add_assignment-Adds :
      (m : Match) (gs : GameServer) (w : W) → Adds m gs w (add_assignment env client (some gs) m w)
  unfolding add_assignment Adds
  add_assignment-Adds m gs w =
      after (add_assignment_to_match_requests env gs m w) refl
        (add_assignment_to_match_requests_lem sound gs m w)
    where
      after :
          (o : Result (Unit {0}) × W)
          → add_assignment_to_match_requests env gs m w ≡ o
          → Updates v env (db_game_server gs) m.match_request_ids w o
          → Adds m gs w (and_then (λ _ w'. (ok true, w')) o)
      after (ok _, w') e (_, s, _) = (
        refl,
        (λ k c stored. add_assignment_to_match_requests-IsServed sound gs m w w' k c stored e),
        s,
      )
      after (err x, w') e u = failed-KeepsStored m gs w w' x u

  retry-Adds :
      (m : Match) (gs : GameServer) (w : W)
      → Adds m gs w (
          retry env.backoff
            (add_assignment env client (some gs) m)
            (exponential env.backoff ∷ [])
            w)
  unfolding Adds KeepsStored
  retry-Adds m gs w =
      Attempts-cases (KeepsStored m w) (Adds m gs w) good bad ((λ k c stored. stored), refl)
        (retry-Attempts env.backoff sound.backoff_lem (add_assignment env client (some gs) m)
          (exponential env.backoff ∷ []) w)
    where
      good :
          (w1 : W)
          → KeepsStored m w w1
          → (b : Bool) (w' : W) → add_assignment env client (some gs) m w1 ≡ (ok b, w')
          → Adds m gs w (ok b, w')
      good w1 (keeps, s) b w' e =
          let now : Adds m gs w1 (ok b, w') = rw e at (add_assignment-Adds m gs w1) in
          (now.0, (λ k c stored. now.1 k c (keeps k c stored)), now.2 ∙ s)

      bad :
          (w1 : W)
          → KeepsStored m w w1
          → (x : Error) (w' : W) → add_assignment env client (some gs) m w1 ≡ (err x, w')
          → KeepsStored m w w' × ((y : Error) → Adds m gs w (err y, w'))
      bad w1 (keeps, s) x w' e =
          let now : KeepsStored m w1 w' = rw e at (add_assignment-Adds m gs w1) in
          let all : KeepsStored m w w' =
            ((λ k c stored. now.0 k c (keeps k c stored)), now.1 ∙ s) in
          (all, λ _. all)

  -- Where the assignment service gives a game server, the dispenser goes on without a panic and
  -- sends nothing on the stream; each request of the match that could be read has the game server, or
  -- all attempts at writing it failed.
  pub on_match-IsServed :
      (m : Match) (gs : GameServer) (w w1 : W)
      → make_assignment env client (some m) w ≡ (ok (some gs), w1)
      → (w2 : W) × (on_match env client (some m) w ≡ some w2)
        × (v.sent w2 ≡ v.sent w1)
        × (AreDispensed m gs w1 w2
            ⊎ ((e : Error) × (retry env.backoff
                    (add_assignment env client (some gs) m)
                    (exponential env.backoff ∷ [])
                    w1
                  ≡ (err e, w2))))
  unfolding on_match dispense add_assignment_to_tickets Adds KeepsStored
  on_match-IsServed m gs w w1 h = after _ refl (retry-Adds m gs w1)
    where
      ends : Result Bool × W → Option W
      ends o = elim o.0 [
        | err e ↦ some o.1
        | ok finished ↦ elim finished [ true ↦ some o.1 | false ↦ none ]
      ]

      dispensed :
          (o : Result Bool × W)
          → retry env.backoff
              (add_assignment env client (some gs) m)
              (exponential env.backoff ∷ [])
              w1
            ≡ o
          → on_match env client (some m) w ≡ ends o
      dispensed o e = ap (dispense env client m) h ∙ ap ends e

      after :
          (o : Result Bool × W)
          → retry env.backoff
              (add_assignment env client (some gs) m)
              (exponential env.backoff ∷ [])
              w1
            ≡ o
          → Adds m gs w1 o
          → (w2 : W) × (on_match env client (some m) w ≡ some w2)
            × (v.sent w2 ≡ v.sent w1)
            × (AreDispensed m gs w1 w2
                ⊎ ((e : Error) × (retry env.backoff
                        (add_assignment env client (some gs) m)
                        (exponential env.backoff ∷ [])
                        w1
                      ≡ (err e, w2))))
      after (ok true, w2) e (_, all, s) = (w2, dispensed _ e, s, inl all)
      after (ok false, w2) e (bad, _, _) = cc
      after (err x, w2) e (_, s) = (w2, dispensed _ e, s, inr (x, e))
