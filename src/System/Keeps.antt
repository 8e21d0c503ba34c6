-- ===== src/System/Keeps.antt =====
-- Creations of matches, and all that leaves owners and matches alone, keep the owner of each ticket and
-- the tickets of each stored match.
use rivalry.Prelude.{
  String, ◌≡◌, sym, ap, subst, ◌∙◌, ◌⊎◌, inl, inr, Bool, true, false, none, some, [], ◌∷◌, contains,
  ◌==◌, eq_iff, Bool-cases, if◌then◌else◌, arith,
}
use rivalry.Prelude.Results.{Result, ok, err}
use rivalry.Wire.Api.{Match}
use rivalry.Platform.View.{View, ticket_assignments, matches, written, or_else}
use rivalry.Platform.Store.{IsReliable}
use rivalry.Platform.Env.{Env, IsSound}
use rivalry.Tickets.Matching.Assign.{assigned, AreUnowned}
use rivalry.Matches.{create_match, identify}
use rivalry.Matches.Create.{Creates, create_match_lem}
use rivalry.Matches.Touched.{IsUntouched}
use rivalry.Matches.Rollback.{IsBack, create_match-IsBack}
use rivalry.System.Acts.{IsElsewhere, creates, elsewhere, Runs, stays, acts}

module _ {W S : Type 0} (v : View W) (env : Env W S) where
  -- The match is stored under the key `i`.
  abbrev pub HasMatch : W → String → Match → Type 0
  HasMatch w i m = (x : String) × (v.entry w matches i ≡ some x) × (env.matches.unmarshal x ≡ ok m)

  -- Each stored match owns all of its tickets.
  abbrev pub AreOwned : W → Type 0
  AreOwned w =
      (i : String) (m : Match)
      → HasMatch w i m
      → (k : String) → contains k m.match_request_ids ≡ true
      → v.entry w ticket_assignments k ≡ some i

  -- Two stored matches that share a ticket are one.
  abbrev pub AreExclusive : W → Type 0
  AreExclusive w =
      (i j : String) (m n : Match) (k : String)
      → HasMatch w i m
      → HasMatch w j n
      → contains k m.match_request_ids ≡ true
      → contains k n.match_request_ids ≡ true
      → i ≡ j

module _ {W S : Type 0} {v : View W} {env : Env W S} (sound : IsSound v env)
    (reliable : IsReliable v env.kv_store) where
  -- What a step keeps: the matches and their tickets, and each owner.
  abbrev pub Keeps : W → W → Type 0
  Keeps w w' =
      (AreOwned v env w → AreOwned v env w')
      × ((k i : String)
          → v.entry w ticket_assignments k ≡ some i
          → v.entry w' ticket_assignments k ≡ some i)

  by_entries :
      (w w' : W)
      → v.entry w' ticket_assignments ≡ v.entry w ticket_assignments
      → ((i x : String) → v.entry w' matches i ≡ some x → v.entry w matches i ≡ some x)
      → Keeps w w'
  by_entries w w' e s = (
    (λ owned i m (x, at, u) k c. ap (λ f. f k) e ∙ owned i m (x, s i x at, u) k c),
    (λ k i at. ap (λ f. f k) e ∙ at),
  )

  created-Keeps :
      (m : Match) (w w' : W) (x : String)
      → AreUnowned v m.match_request_ids w
      → env.matches.unmarshal x ≡ ok m
      → v.entry w'
        ≡ written matches
            ((m.match_id, x) ∷ [])
            (assigned m.match_id m.match_request_ids (v.entry w))
      → Keeps w w'
  created-Keeps m w w' x free u e = (
    (λ owned i n stored k c. of_match owned i n stored k c (Bool-cases (m.match_id == i))),
    stays_owned,
  )
    where
      owner :
          (k : String)
          → v.entry w' ticket_assignments k ≡ (
              if contains k m.match_request_ids
              then some m.match_id
              else v.entry w ticket_assignments k)
      owner k = ap (λ f. f ticket_assignments k) e

      stored_as :
          (i : String)
          → v.entry w' matches i
            ≡ or_else (if m.match_id == i then some x else none) (v.entry w matches i)
      stored_as i = ap (λ f. f matches i) e

      stays_owned :
          (k i : String)
          → v.entry w ticket_assignments k ≡ some i
          → v.entry w' ticket_assignments k ≡ some i
      stays_owned k i at = ground (arith, owner k, free k)

      same_match :
          (y : String) (n : Match) → some x ≡ some y → env.matches.unmarshal y ≡ ok n → n ≡ m
      same_match y n q un = cc

      of_match :
          AreOwned v env w
          → (i : String) (n : Match) → HasMatch v env w' i n
          → (k : String) → contains k n.match_request_ids ≡ true
          → ((m.match_id == i) ≡ true) ⊎ ((m.match_id == i) ≡ false)
          → v.entry w' ticket_assignments k ≡ some i
      of_match owned i n (y, at, un) k c (inl same) =
          let is_m : n ≡ m = same_match y n (ground (arith, stored_as i)) un in
          let among : contains k m.match_request_ids ≡ true =
            subst (λ z. contains k z.match_request_ids ≡ true) is_m c in
          ground (arith, owner k, eq_iff m.match_id i)
      of_match owned i n (y, at, un) k c (inr other) =
          stays_owned k i (owned i n (y, ground (arith, stored_as i), un) k c)

  Keeps-trans : (a b c : W) → Keeps a b → Keeps b c → Keeps a c
  Keeps-trans a b c (f, g) (f', g') = ((λ h. f' (f h)), (λ k i at. g' k i (g k i at)))

  -- A creation that failed.
  rolled_back : (m : Match) (w w' : W) → IsBack v m w w' → IsUntouched v m w w' → Keeps w w'
  rolled_back m w w' (owners, s) untouched =
      by_entries w w' owners λ i x at. stored i x at (Bool-cases (i == m.match_id)) s
    where
      stored :
          (i x : String)
          → v.entry w' matches i ≡ some x
          → ((i == m.match_id) ≡ true) ⊎ ((i == m.match_id) ≡ false)
          → (v.entry w' matches m.match_id ≡ v.entry w matches m.match_id)
            ⊎ (v.entry w' matches m.match_id ≡ none)
          → v.entry w matches i ≡ some x
      stored i x at (inl same) (inl kept) = ground (arith, eq_iff i m.match_id)
      stored i x at (inl same) (inr gone) = ground (arith, eq_iff i m.match_id)
      stored i x at (inr other) s = sym (untouched matches i other) ∙ at

  create_match-Keeps :
      (m : Match) (w w' : W) (r : Result Bool) → create_match env m w ≡ (r, w') → Keeps w w'
  create_match-Keeps m w w' r e = after r e (rw e at (create_match_lem sound m w))
    where
      after :
          (r : Result Bool)
          → create_match env m w ≡ (r, w')
          → Creates v env (identify env m w).0 w (r, w')
          → Keeps w w'
      after (ok true) e (free, (x, u, entries), _, _) =
          created-Keeps (identify env m w).0 w w' x free u entries
      after (ok false) e (_, same) =
          by_entries w w' (ap (λ f. f ticket_assignments) same.0)
            (λ i x at. ap (λ f. f matches i) (sym same.0) ∙ at)
      after (err z) e (untouched, _) =
          rolled_back (identify env m w).0 w w' (create_match-IsBack sound reliable m w w' z e)
            untouched

  elsewhere-Keeps : (w w' : W) → IsElsewhere v env w w' → Keeps w w'
  elsewhere-Keeps w w' (e, s) = by_entries w w' e (λ i x at. ap (λ f. f i) (sym s) ∙ at)

  pub Runs-Keeps : (w w' : W) → Runs v env w w' → Keeps w w'
  Runs-Keeps w _ stays = ((λ owned. owned), (λ k i at. at))
  Runs-Keeps w w' (acts (creates m r e) more) =
      Keeps-trans w _ w' (create_match-Keeps m w _ r e) (Runs-Keeps _ w' more)
  Runs-Keeps w w' (acts (elsewhere q) more) =
      Keeps-trans w _ w' (elsewhere-Keeps w _ q) (Runs-Keeps _ w' more)
