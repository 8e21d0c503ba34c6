-- ===== src/Tickets/Matching/Assign.antt =====
-- Taking the tickets of a match, and giving them back.
use mathlib.Core.Path.{fun_ext}
use rivalry.Prelude.{
  String, ◌≡◌, ◌≢◌, refl, sym, ◌∙◌, ◌⊎◌, inl, inr, Bool, true, false, ◌&&◌, none, some, List, [],
  ◌∷◌, lookup, keys, contains, lookup-insert, keys-insert, if◌then◌else◌, ==_comm, arith,
}
use rivalry.Prelude.Results.{Result, ok, err, Error}
use rivalry.Wire.Api
use rivalry.Platform.View.{
  View, Entries, IsSame, IsSilent, written, removed, Collection, tickets, ticket_assignments,
  matches, same,
}
use rivalry.Platform.Store.{WritesNew, Removes, IsReliable}
use rivalry.Platform.Env.{Env, IsSound}
use rivalry.Tickets.Matching.{
  allocations, assign_ids, release_ids, assign_match_requests_to_match,
  release_match_requests_from_match,
}

pub lookup-allocations :
    (k match_id : String) (ks : List String)
    → lookup k (allocations match_id ks) ≡ (if contains k ks then some match_id else none)
unfolding allocations
lookup-allocations k match_id [] = refl
lookup-allocations k match_id (j ∷ ks) = ground (
  arith,
  lookup-insert j k match_id (allocations match_id ks),
  lookup-allocations k match_id ks,
  ==_comm j k,
)

keys-allocations :
    (k match_id : String) (ks : List String)
    → contains k (keys (allocations match_id ks)) ≡ contains k ks
unfolding allocations
keys-allocations k match_id [] = refl
keys-allocations k match_id (j ∷ ks) =
    ground
      (arith, keys-insert j k match_id (allocations match_id ks), keys-allocations k match_id ks)

-- The entries after the match took the tickets `ks`.
abbrev pub assigned : String → List String → Entries → Entries
assigned match_id ks f c k =
    if same ticket_assignments c && contains k ks then some match_id else f c k

abbrev pub released : List String → Entries → Entries
released ks = removed ticket_assignments ks

module _ {W : Type 0} (v : View W) where
  -- None of the tickets is owned.
  abbrev pub AreUnowned : List String → W → Type 0
  AreUnowned ks w = (k : String) → contains k ks ≡ true → v.entry w ticket_assignments k ≡ none

  -- All tickets are taken, or none is, because one has an owner.
  abbrev pub Assigns : String → List String → W → Result Bool × W → Type 0
  Assigns match_id ks w (ok true, w') =
      AreUnowned ks w × (v.entry w' ≡ assigned match_id ks (v.entry w)) × IsSilent v w w'
  Assigns match_id ks w (ok false, w') =
      ((k : String) × (contains k ks ≡ true) × (v.entry w ticket_assignments k ≢ none))
      × IsSame v w w'
  Assigns match_id ks w (err _, w') =
      ((v.entry w' ≡ v.entry w)
        ⊎ (AreUnowned ks w × (v.entry w' ≡ assigned match_id ks (v.entry w))))
      × IsSilent v w w'

  abbrev pub Releases : List String → W → Result (Unit {0}) × W → Type 0
  Releases ks w (ok _, w') = (v.entry w' ≡ released ks (v.entry w)) × IsSilent v w w'
  Releases ks w (err _, w') =
      ((v.entry w' ≡ v.entry w) ⊎ (v.entry w' ≡ released ks (v.entry w))) × IsSilent v w w'

written-allocations :
    (match_id : String) (ks : List String) (f : Entries)
    → written ticket_assignments (allocations match_id ks) f ≡ assigned match_id ks f
written-allocations match_id ks f = fun_ext λ c. fun_ext λ k. at c k
  where
    at :
        (c : Collection) (k : String)
        → written ticket_assignments (allocations match_id ks) f c k ≡ assigned match_id ks f c k
    at tickets k = refl
    at ticket_assignments k = ground (arith, lookup-allocations k match_id ks)
    at matches k = refl

assigned-nil : (match_id : String) (f : Entries) → f ≡ assigned match_id [] f
assigned-nil match_id f = fun_ext λ c. fun_ext λ k. at c k
  where
    at : (c : Collection) (k : String) → f c k ≡ assigned match_id [] f c k
    at tickets k = refl
    at ticket_assignments k = refl
    at matches k = refl

released-nil : (f : Entries) → f ≡ released [] f
released-nil f = fun_ext λ c. fun_ext λ k. at c k
  where
    at : (c : Collection) (k : String) → f c k ≡ released [] f c k
    at tickets k = refl
    at ticket_assignments k = refl
    at matches k = refl

module _ {W S : Type 0} {v : View W} {env : Env W S} (sound : IsSound v env) where
  new_Assigns :
      (match_id : String) (ks : List String) (w : W) (o : Result Bool × W)
      → WritesNew v ticket_assignments (allocations match_id ks) w o
      → Assigns v match_id ks w o
  new_Assigns match_id ks w (ok true, w') (free, e, q) = (
    (λ k h. free k (keys-allocations k match_id ks ∙ h)),
    e ∙ written-allocations match_id ks (v.entry w),
    q,
  )
  new_Assigns match_id ks w (ok false, w') ((k, h, taken), q) =
      ((k, sym (keys-allocations k match_id ks) ∙ h, taken), q)
  new_Assigns match_id ks w (err _, w') (inl e, q) = (inl e, q)
  new_Assigns match_id ks w (err _, w') (inr (free, e), q) = (
    inr (
      (λ k h. free k (keys-allocations k match_id ks ∙ h)),
      e ∙ written-allocations match_id ks (v.entry w),
    ),
    q,
  )

  assign_ids-Assigns :
      (match_id : String) (ks : List String) (w : W)
      → Assigns v match_id ks w (assign_ids env match_id ks w)
  unfolding assign_ids
  assign_ids-Assigns match_id [] w = ((λ k h. cc), assigned-nil match_id (v.entry w), (refl, refl))
  assign_ids-Assigns match_id (t ∷ ts) w =
      new_Assigns match_id (t ∷ ts) w _
        (sound.store_lem.msetnx_lem ticket_assignments (allocations match_id (t ∷ ts)) w)

  -- A match takes all of its tickets, or none of them because one has an owner.
  pub assign_match_requests_to_match_lem :
      (m : Api.Match) (w : W)
      → Assigns v m.match_id m.match_request_ids w (assign_match_requests_to_match env m w)
  unfolding assign_match_requests_to_match
  assign_match_requests_to_match_lem m w = assign_ids-Assigns m.match_id m.match_request_ids w

  removed_Releases :
      (ks : List String) (w : W) (o : Result (Unit {0}) × W)
      → Removes v ticket_assignments ks w o
      → Releases v ks w o
  removed_Releases ks w (ok _, w') h = h
  removed_Releases ks w (err _, w') h = h

  release_ids-Releases : (ks : List String) (w : W) → Releases v ks w (release_ids env ks w)
  unfolding release_ids
  release_ids-Releases [] w = (released-nil (v.entry w), (refl, refl))
  release_ids-Releases (t ∷ ts) w =
      removed_Releases (t ∷ ts) w _ (sound.store_lem.del_lem ticket_assignments (t ∷ ts) w)

  pub release_match_requests_from_match_lem :
      (m : Api.Match) (w : W)
      → Releases v m.match_request_ids w (release_match_requests_from_match env m w)
  unfolding release_match_requests_from_match
  release_match_requests_from_match_lem m w = release_ids-Releases m.match_request_ids w

module _ {W S : Type 0} {v : View W} (env : Env W S) (reliable : IsReliable v env.kv_store) where
  assign_ids_failed :
      (match_id : String) (ks : List String) (w w' : W) (e : Error)
      → assign_ids env match_id ks w ≡ (err e, w')
      → v.entry w' ≡ v.entry w
  unfolding assign_ids
  assign_ids_failed match_id [] w w' e h = ground arith
  assign_ids_failed match_id (t ∷ ts) w w' e h =
      reliable.msetnx_failed ticket_assignments (allocations match_id (t ∷ ts)) w w' e h

  pub assign_match_requests_to_match_failed :
      (m : Api.Match) (w w' : W) (e : Error)
      → assign_match_requests_to_match env m w ≡ (err e, w')
      → v.entry w' ≡ v.entry w
  unfolding assign_match_requests_to_match
  assign_match_requests_to_match_failed m w w' e h =
      assign_ids_failed m.match_id m.match_request_ids w w' e h

  release_ids_done :
      (ks : List String) (w : W) → v.entry (release_ids env ks w).1 ≡ released ks (v.entry w)
  unfolding release_ids
  release_ids_done [] w = released-nil (v.entry w)
  release_ids_done (t ∷ ts) w = reliable.del_done ticket_assignments (t ∷ ts) w

  pub release_match_requests_from_match_done :
      (m : Api.Match) (w : W)
      → v.entry (release_match_requests_from_match env m w).1
        ≡ released m.match_request_ids (v.entry w)
  unfolding release_match_requests_from_match
  release_match_requests_from_match_done m w = release_ids_done m.match_request_ids w
