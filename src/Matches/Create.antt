-- ===== src/Matches/Create.antt =====
-- What `CreateMatch` does to the store and the stream, on every path.
use rivalry.Prelude.{
  String, ◌≡◌, ◌≢◌, refl, ap, ◌∙◌, inl, inr, Bool, true, false, none, [], ◌∷◌, ◌++◌, contains, ◌==◌,
  Bool-cases,
}
use rivalry.Prelude.Results.{Result, ok, err, and_then, if_failed, pure}
use rivalry.Wire.Api.{Match}
use rivalry.Platform.View.{
  View, IsSame, IsSame-trans, IsSilent, written, ticket_assignments, matches,
}
use rivalry.Platform.Store.{Writes}
use rivalry.Platform.Broker.{Sends}
use rivalry.Platform.Env.{Env, IsSound}
use rivalry.Tickets.Matching.{release_match_requests_from_match}
use rivalry.Tickets.Matching.Assign.{
  assigned, AreUnowned, Assigns, assign_match_requests_to_match_lem,
  release_match_requests_from_match_lem,
}
use rivalry.Matches.Touched.{
  IsUntouched, written-touched, assigned-touched, IsQuiet-trans, IsQuiet-by, deletion-IsQuiet,
  release-IsQuiet,
}
use rivalry.Matches.{
  unassigned_matches_topic, announce, store_match, store_if_taken, create_identified, identify,
  create_match,
}

module _ {W : Type 0} (v : View W) where
  -- The match took its tickets, is stored so that it reads back, and was announced once; or one of
  -- its tickets has an owner and nothing happened; or the call failed, no message was sent, and
  -- nothing but the match's own entries can have changed.
  abbrev pub Creates : {S : Type 0} → Env W S → Match → W → Result Bool × W → Type 0
  Creates env m w (ok true, w') =
      AreUnowned v m.match_request_ids w
      × ((x : String) × (env.matches.unmarshal x ≡ ok m)
          × (v.entry w'
              ≡ written matches ((m.match_id, x) ∷ [])
                  (assigned m.match_id m.match_request_ids (v.entry w))))
      × (v.sent w' ≡ v.sent w ++ (unassigned_matches_topic, m.match_id) ∷ [])
      × (v.published w' ≡ v.published w)
  Creates env m w (ok false, w') =
      ((k : String) × (contains k m.match_request_ids ≡ true)
        × (v.entry w ticket_assignments k ≢ none))
      × IsSame v w w'
  Creates env m w (err _, w') = IsUntouched v m w w' × IsSilent v w w'

  -- The part of the creation after the tickets were taken.
  abbrev pub Stores : {S : Type 0} → Env W S → Match → W → Result Bool × W → Type 0
  Stores env m w (ok true, w') =
      ((x : String) × (env.matches.unmarshal x ≡ ok m)
        × (v.entry w' ≡ written matches ((m.match_id, x) ∷ []) (v.entry w)))
      × (v.sent w' ≡ v.sent w ++ (unassigned_matches_topic, m.match_id) ∷ [])
      × (v.published w' ≡ v.published w)
  Stores env m w (ok false, w') = ⊥
  Stores env m w (err _, w') = IsUntouched v m w w' × IsSilent v w w'

module _ {W S : Type 0} {v : View W} {env : Env W S} (sound : IsSound v env) (m : Match) where
  after_send :
      (x : String) (w w1 : W)
      → env.matches.unmarshal x ≡ ok m
      → v.entry w1 ≡ written matches ((m.match_id, x) ∷ []) (v.entry w)
      → IsSilent v w w1
      → (o : Result (Unit {0}) × W) → Sends v unassigned_matches_topic m.match_id w1 o
      → Stores v env m w
          (if_failed (env.kv_store.del "matches" (m.match_id ∷ [])) (and_then (λ _. pure true) o))
  after_send x w w1 u e s (ok _, w2) (e', t, p) = ((x, u, e' ∙ e), rw (← s.0) t, p ∙ s.1)
  after_send x w w1 u e s (err _, w2) (e', t, p) =
      IsQuiet-trans v m
        (IsQuiet-by v m (written matches ((m.match_id, x) ∷ [])) (written-touched m x) {w = w}
          {w' = w2} (inr (e' ∙ e)) (t ∙ s.0, p ∙ s.1))
        (deletion-IsQuiet v m w2 _ (sound.store_lem.del_lem matches (m.match_id ∷ []) w2))

  after_set :
      (x : String) (w : W)
      → env.matches.unmarshal x ≡ ok m
      → (o : Result (Unit {0}) × W) → Writes v matches ((m.match_id, x) ∷ []) w o
      → Stores v env m w (and_then (λ _. announce env m) o)
  unfolding announce
  after_set x w u (ok _, w1) (e, s) =
      after_send x w w1 u e s _
        (sound.stream_lem.send_message_lem unassigned_matches_topic m.match_id w1)
  after_set x w u (err _, w1) (e, s) =
      IsQuiet-by v m (written matches ((m.match_id, x) ∷ [])) (written-touched m x) e s

  store_match-Stores : (w : W) → Stores v env m w (store_match env m w)
  unfolding store_match
  store_match-Stores w = after_marshal (env.matches.marshal m) refl
    where
      after_marshal :
          (r : Result String)
          → env.matches.marshal m ≡ r
          → Stores v env m w (
              and_then
                (λ x w'.
                  and_then (λ _. announce env m) (env.kv_store.set "matches" m.match_id x 0 w'))
                (r, w))
      after_marshal (ok x) e =
          after_set x w (sound.matches_lem.unmarshal-marshal m x e) _
            (sound.store_lem.set_lem matches m.match_id x w)
      after_marshal (err _) e = ((λ c k h. refl), (refl, refl))

  after_store :
      (w w1 : W)
      → AreUnowned v m.match_request_ids w
      → v.entry w1 ≡ assigned m.match_id m.match_request_ids (v.entry w)
      → IsSilent v w w1
      → (o : Result Bool × W) → Stores v env m w1 o
      → Creates v env m w (if_failed (release_match_requests_from_match env m) o)
  after_store w w1 free e s (ok true, w2) ((x, u, e'), t, p) =
      (free, (x, u, e' ∙ ap (written matches ((m.match_id, x) ∷ [])) e), rw (← s.0) t, p ∙ s.1)
  after_store w w1 free e s (ok false, w2) h = absurd h
  after_store w w1 free e s (err _, w2) q =
      IsQuiet-trans v m
        (IsQuiet-trans v m
          (IsQuiet-by v m (assigned m.match_id m.match_request_ids) (assigned-touched m) (inr e) s)
          q)
        (release-IsQuiet v m w2 _ (release_match_requests_from_match_lem sound m w2))

  after_assign :
      (w : W) (o : Result Bool × W)
      → Assigns v m.match_id m.match_request_ids w o
      → Creates v env m w (and_then (store_if_taken env m) o)
  unfolding store_if_taken
  after_assign w (ok true, w1) (free, e, s) = after_store w w1 free e s _ (store_match-Stores w1)
  after_assign w (ok false, w1) h = h
  after_assign w (err _, w1) (inl e, s) =
      IsQuiet-by v m (assigned m.match_id m.match_request_ids) (assigned-touched m) (inl e) s
  after_assign w (err _, w1) (inr (_, e), s) =
      IsQuiet-by v m (assigned m.match_id m.match_request_ids) (assigned-touched m) (inr e) s

  create_identified-Creates : (w : W) → Creates v env m w (create_identified env m w)
  unfolding create_identified
  create_identified-Creates w = after_assign w _ (assign_match_requests_to_match_lem sound m w)

module _ {W S : Type 0} {v : View W} {env : Env W S} (sound : IsSound v env) where
  -- To draw a fresh identifier changes nothing.
  pub identify-IsSame : (m : Match) (w : W) → IsSame v w (identify env m w).1
  unfolding identify
  identify-IsSame m w = elim (Bool-cases (m.match_id == "")) [
    | inl unnamed ↦ rw unnamed (sound.new_id-IsSame w)
    | inr named ↦ rw named (refl, refl, refl)
  ]

  Creates-from :
      (m : Match) (w w1 : W) (o : Result Bool × W)
      → IsSame v w w1
      → Creates v env m w1 o
      → Creates v env m w o
  Creates-from m w w1 (ok true, w2) q (free, (x, u, e), t, p) =
      ((λ k h. rw (← q.0) (free k h)), (x, u, rw (← q.0) e), rw (← q.1) t, p ∙ q.2)
  Creates-from m w w1 (ok false, w2) q ((k, h, n), q') = ((k, h, rw (← q.0) n), IsSame-trans v q q')
  Creates-from m w w1 (err _, w2) q (u, s) =
      ((λ c k h. u c k h ∙ ap (λ g. g c k) q.0), (s.0 ∙ q.1, s.1 ∙ q.2))

  -- A match is created as a whole: it takes all of its tickets, is stored under its identifier and
  -- announced once; or a ticket has an owner already and nothing happens; or the call fails, sends
  -- nothing, and leaves every entry alone that is not the match's own.
  pub create_match_lem :
      (m : Match) (w : W) → Creates v env (identify env m w).0 w (create_match env m w)
  unfolding create_match
  create_match_lem m w =
      let (m', w1) = identify env m w in
      Creates-from m' w w1 _ (identify-IsSame m w) (create_identified-Creates sound m' w1)
