-- ===== src/Matches/Received.antt =====
-- The dispenser is handed the match that was created.
use rivalry.Prelude.{String, ◌≡◌, refl, sym, ap, ◌∙◌, Option, some, true, [], ◌∷◌, ◌++◌}
use rivalry.Prelude.Results.{Result, ok, err, and_then, lift}
use rivalry.Wire.Api.{Match}
use rivalry.Platform.View.{View, IsSame, IsSame-trans, matches, entry_written}
use rivalry.Platform.Store.{Reads}
use rivalry.Platform.Backoff.{retry, exponential}
use rivalry.Platform.Retried.{IsOnce, retry_once}
use rivalry.Platform.Env.{Env, IsSound}
use rivalry.Tickets.Matching.Assign.{assigned}
use rivalry.Matches.{
  unassigned_matches_topic, create_match, identify, get_match, hand_over, match_received,
}
use rivalry.Matches.Create.{Creates, create_match_lem}

module _ {W S : Type 0} (v : View W) (env : Env W S) where
  -- What was read is what is stored, and reading changes nothing.
  abbrev pub ReadsMatch : String → W → Result Match × W → Type 0
  ReadsMatch k w (ok m, w') =
      ((x : String) × (v.entry w matches k ≡ some x) × (env.matches.unmarshal x ≡ ok m))
      × IsSame v w w'
  ReadsMatch k w (err _, w') = IsSame v w w'

module _ {W S : Type 0} {v : View W} {env : Env W S} (sound : IsSound v env) where
  ReadsMatch-IsOnce : (k : String) → IsOnce v (ReadsMatch v env k)
  ReadsMatch-IsOnce k = record {
    unchanged = λ w w' e same. same;
    failed = λ w w' e same. same;
    from_start = λ w w1 w' m same ((x, at, u), q).
        ((x, ap (λ f. f matches k) (sym same.0) ∙ at, u), IsSame-trans v same q);
  }

  get_match_lem : (k : String) (w : W) → ReadsMatch v env k w (get_match env k w)
  unfolding get_match
  get_match_lem k w = after_get _ (sound.store_lem.get_lem matches k w)
    where
      after_unmarshal :
          (x : String) (w1 : W)
          → v.entry w matches k ≡ some x
          → IsSame v w w1
          → (r : Result Match) → env.matches.unmarshal x ≡ r
          → ReadsMatch v env k w (r, w1)
      after_unmarshal x w1 e q (ok m) u = ((x, e, u), q)
      after_unmarshal x w1 e q (err _) u = q

      after_get :
          (o : Result String × W)
          → Reads v matches k w o
          → ReadsMatch v env k w (and_then (λ x. lift (env.matches.unmarshal x)) o)
      after_get (ok x, w1) (e, q) = after_unmarshal x w1 e q (env.matches.unmarshal x) refl
      after_get (err _, w1) (_, q) = q

  -- After a match was created: its identifier is announced, and, as long as the match is stored as
  -- it was, who receives the identifier and could read the match, at some attempt, is handed the
  -- match that was created.
  pub match_received-create_match :
      (m n : Match) (w w1 w2 w3 : W) (f : Option Match → W → Option W)
      → create_match env m w ≡ (ok true, w1)
      → v.entry w2 matches (identify env m w).0.match_id
        ≡ v.entry w1 matches (identify env m w).0.match_id
      → retry env.backoff
          (get_match env (identify env m w).0.match_id)
          (exponential env.backoff ∷ [])
          w2
        ≡ (ok n, w3)
      → (v.sent w1 ≡ v.sent w ++ (unassigned_matches_topic, (identify env m w).0.match_id) ∷ [])
        × (match_received env f (identify env m w).0.match_id w2 ≡ f (some (identify env m w).0) w3)
  unfolding match_received hand_over
  match_received-create_match m n w w1 w2 w3 f e kept r =
      received (rw e at (create_match_lem sound m w)) (
        rw r at (
          retry_once sound.backoff_lem (ReadsMatch v env (identify env m w).0.match_id)
            (ReadsMatch-IsOnce (identify env m w).0.match_id)
            (get_match env (identify env m w).0.match_id) (exponential env.backoff ∷ []) w2
            (get_match_lem (identify env m w).0.match_id)))
    where
      received :
          Creates v env (identify env m w).0 w (ok true, w1)
          → ReadsMatch v env (identify env m w).0.match_id w2 (ok n, w3)
          → (v.sent w1 ≡ v.sent w ++ (unassigned_matches_topic, (identify env m w).0.match_id) ∷ [])
            × (match_received env f (identify env m w).0.match_id w2
                ≡ f (some (identify env m w).0) w3)
      received (_, (x, u, entries), s, _) ((y, at, u'), _) =
          let stored : v.entry w1 matches (identify env m w).0.match_id ≡ some x =
            ap (λ g. g matches (identify env m w).0.match_id) entries
            ∙ entry_written matches (identify env m w).0.match_id x (
                assigned (identify env m w).0.match_id (identify env m w).0.match_request_ids
                  (v.entry w)) in
          let same : n ≡ (identify env m w).0 = cc (sym at ∙ kept ∙ stored, u, u') in
          (s, rw r (ap (λ z. f (some z) w3) same))
