-- ===== src/Matches/Rollback.antt =====
-- What a creation that failed leaves of the match and of the owners of its tickets.
use mathlib.Core.Path.{fun_ext}
use rivalry.Prelude.{
  String, ◌≡◌, refl, sym, ap, ◌∙◌, ◌⊎◌, inl, inr, Bool, true, false, none, [], ◌∷◌, contains,
  eq_refl, Bool-cases,
}
use rivalry.Prelude.Results.{Result, ok, err, Error, and_then, if_failed, pure}
use rivalry.Wire.Api.{Match}
use rivalry.Platform.View.{View, IsSame, written, removed, ticket_assignments, matches}
use rivalry.Platform.Store.{IsReliable, Writes}
use rivalry.Platform.Broker.{Sends}
use rivalry.Platform.Env.{Env, IsSound}
use rivalry.Tickets.Matching.{assign_match_requests_to_match, release_match_requests_from_match}
use rivalry.Tickets.Matching.Assign.{
  assigned, released, AreUnowned, Assigns, assign_match_requests_to_match_lem,
  assign_match_requests_to_match_failed, release_match_requests_from_match_done,
}
use rivalry.Matches.{
  unassigned_matches_topic, announce, store_match, store_if_taken, create_identified, identify,
  create_match,
}
use rivalry.Matches.Create.{identify-IsSame}

-- The tickets are owned as before, and the match is stored as before or not at all.
abbrev pub IsBack : {W : Type 0} → View W → Match → W → W → Type 0
IsBack v m w w' =
    (v.entry w' ticket_assignments ≡ v.entry w ticket_assignments)
    × ((v.entry w' matches m.match_id ≡ v.entry w matches m.match_id)
        ⊎ (v.entry w' matches m.match_id ≡ none))

-- What a failed call leaves; nothing is said of one that returns.
abbrev pub FailsBack : {W A : Type 0} → View W → Match → W → Result A × W → Type 0
FailsBack v m w (ok _, w') = Unit
FailsBack v m w (err _, w') = IsBack v m w w'

module _ {W S : Type 0} {v : View W} {env : Env W S} (sound : IsSound v env)
    (reliable : IsReliable v env.kv_store) (m : Match) where
  announce-FailsBack :
      (x : String) (w w1 : W)
      → v.entry w1 ≡ written matches ((m.match_id, x) ∷ []) (v.entry w)
      → FailsBack v m w (announce env m w1)
  unfolding announce
  announce-FailsBack x w w1 e =
      after_send _ (sound.stream_lem.send_message_lem unassigned_matches_topic m.match_id w1)
    where
      after_send :
          (o : Result (Unit {0}) × W)
          → Sends v unassigned_matches_topic m.match_id w1 o
          → FailsBack v m w (
              if_failed
                (env.kv_store.del "matches" (m.match_id ∷ []))
                (and_then (λ _. pure true) o))
      after_send (ok _, w2) h = tt
      after_send (err _, w2) (e', _, _) =
          let gone : v.entry (env.kv_store.del "matches" (m.match_id ∷ []) w2).1
              ≡ removed matches (m.match_id ∷ [])
                  (written matches ((m.match_id, x) ∷ []) (v.entry w)) =
            reliable.del_done matches (m.match_id ∷ []) w2
            ∙ ap (removed matches (m.match_id ∷ [])) (e' ∙ e) in
          (
            ap (λ f. f ticket_assignments) gone,
            inr (ap (λ f. f matches m.match_id) gone ∙ rw (eq_refl m.match_id)),
          )

  store_match-FailsBack : (w : W) → FailsBack v m w (store_match env m w)
  unfolding store_match
  store_match-FailsBack w = after_marshal (env.matches.marshal m)
    where
      after_set :
          (x : String) (o : Result (Unit {0}) × W)
          → env.kv_store.set "matches" m.match_id x 0 w ≡ o
          → Writes v matches ((m.match_id, x) ∷ []) w o
          → FailsBack v m w (and_then (λ _. announce env m) o)
      after_set x (ok _, w1) _ (e, _) = announce-FailsBack x w w1 e
      after_set x (err z, w1) e _ =
          let kept = reliable.set_failed matches m.match_id x w w1 z e in
          (ap (λ f. f ticket_assignments) kept, inl (ap (λ f. f matches m.match_id) kept))

      after_marshal :
          (r : Result String)
          → FailsBack v m w (
              and_then
                (λ x w'.
                  and_then (λ _. announce env m) (env.kv_store.set "matches" m.match_id x 0 w'))
                (r, w))
      after_marshal (ok x) = after_set x _ refl (sound.store_lem.set_lem matches m.match_id x w)
      after_marshal (err _) = (refl, inl refl)

  -- The tickets that were taken are given back.
  after_store :
      (w w1 : W)
      → AreUnowned v m.match_request_ids w
      → v.entry w1 ≡ assigned m.match_id m.match_request_ids (v.entry w)
      → (o : Result Bool × W) → FailsBack v m w1 o
      → FailsBack v m w (if_failed (release_match_requests_from_match env m) o)
  after_store w w1 free e (ok _, w2) h = tt
  after_store w w1 free e (err _, w2) (same_owners, stored) =
      let given : v.entry (release_match_requests_from_match env m w2).1
          ≡ released m.match_request_ids (v.entry w2) =
        release_match_requests_from_match_done env reliable m w2 in
      (
        ap (λ f. f ticket_assignments) given ∙ fun_ext owner,
        still_stored (ap (λ f. f matches m.match_id) given) stored,
      )
    where
      owner :
          (k : String)
          → released m.match_request_ids (v.entry w2) ticket_assignments k
            ≡ v.entry w ticket_assignments k
      owner k = elim (Bool-cases (contains k m.match_request_ids)) [
        | inl h ↦ rw h (sym (free k h))
        | inr h ↦ rw h (ap (λ f. f k) same_owners ∙ ap (λ f. f ticket_assignments k) e ∙ rw h)
      ]

      still_stored :
          {w3 : W}
          → v.entry w3 matches m.match_id ≡ v.entry w2 matches m.match_id
          → (v.entry w2 matches m.match_id ≡ v.entry w1 matches m.match_id)
            ⊎ (v.entry w2 matches m.match_id ≡ none)
          → (v.entry w3 matches m.match_id ≡ v.entry w matches m.match_id)
            ⊎ (v.entry w3 matches m.match_id ≡ none)
      still_stored g (inl s) = inl (g ∙ s ∙ ap (λ f. f matches m.match_id) e)
      still_stored g (inr s) = inr (g ∙ s)

  create_identified-FailsBack : (w : W) → FailsBack v m w (create_identified env m w)
  unfolding create_identified store_if_taken
  create_identified-FailsBack w = after_assign _ refl (assign_match_requests_to_match_lem sound m w)
    where
      after_assign :
          (o : Result Bool × W)
          → assign_match_requests_to_match env m w ≡ o
          → Assigns v m.match_id m.match_request_ids w o
          → FailsBack v m w (and_then (store_if_taken env m) o)
      after_assign (ok true, w1) _ (free, e, _) =
          after_store w w1 free e _ (store_match-FailsBack w1)
      after_assign (ok false, w1) _ _ = tt
      after_assign (err z, w1) h _ =
          let kept = assign_match_requests_to_match_failed env reliable m w w1 z h in
          (ap (λ f. f ticket_assignments) kept, inl (ap (λ f. f matches m.match_id) kept))

module _ {W S : Type 0} {v : View W} {env : Env W S} (sound : IsSound v env)
    (reliable : IsReliable v env.kv_store) where
  FailsBack-from :
      (m : Match) (w w1 : W) (o : Result Bool × W)
      → IsSame v w w1
      → FailsBack v m w1 o
      → FailsBack v m w o
  FailsBack-from m w w1 (ok _, w2) q h = tt
  FailsBack-from m w w1 (err _, w2) q (owners, inl s) =
      (owners ∙ ap (λ f. f ticket_assignments) q.0, inl (s ∙ ap (λ f. f matches m.match_id) q.0))
  FailsBack-from m w w1 (err _, w2) q (owners, inr s) =
      (owners ∙ ap (λ f. f ticket_assignments) q.0, inr s)

  -- Where the store deletes what it is told to and failed writes did nothing: after a failed
  -- creation every ticket has the owner that it had before, and the match is not stored, unless it
  -- was before.
  pub create_match-IsBack :
      (m : Match) (w w' : W) (e : Error)
      → create_match env m w ≡ (err e, w')
      → IsBack v (identify env m w).0 w w'
  unfolding create_match
  create_match-IsBack m w w' e h =
      let (m', w1) = identify env m w in
      rw h at (
        FailsBack-from m' w w1 _ (identify-IsSame sound m w)
          (create_identified-FailsBack sound reliable m' w1))
