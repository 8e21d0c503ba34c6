-- ===== src/Tickets/Stored.antt =====
-- Documents that are stored under their own identifiers are among those that are read.
use rivalry.Prelude.{
  All, String, ◌≡◌, refl, ◌∙◌, ◌⊎◌, inl, inr, true, some, List, [], ◌∷◌, Map, values, contains,
  IsIn, value-IsIn,
}
use rivalry.Prelude.Results.{Result, ok, err, and_then, lift}
use rivalry.Wire.Documents
use rivalry.Platform.View.{View, tickets}
use rivalry.Platform.Store.{ReadsAll}
use rivalry.Platform.Env.{Env, IsSound}
use rivalry.Tickets.{get_match_requests, unmarshal_all}

module _ {W S : Type 0} (v : View W) (env : Env W S) where
  -- The document of a request, under its own identifier.
  abbrev pub IsStored : String → W → Type 0
  IsStored k w =
      (x : String) × (t : Documents.MatchRequest) × (v.entry w tickets k ≡ some x)
      × (env.match_requests.unmarshal x ≡ ok t)
      × (t.id ≡ k)

module _ {W S : Type 0} (env : Env W S) where
  -- The documents were read from texts.
  abbrev pub AreRead : Result (List Documents.MatchRequest) → Type 0
  AreRead (ok ts) = All (λ t. (x : String) × (env.match_requests.unmarshal x ≡ ok t)) ts
  AreRead (err e) = Unit

-- The document was read, if anything was.
abbrev pub HasRead : Documents.MatchRequest → Result (List Documents.MatchRequest) → Type 0
HasRead t (ok ts) = IsIn t ts
HasRead t (err e) = Unit

module _ {W S : Type 0} {v : View W} {env : Env W S} (sound : IsSound v env) where
  pub unmarshal_all-HasRead :
      (x : String) (t : Documents.MatchRequest) (xs : List String)
      → env.match_requests.unmarshal x ≡ ok t
      → IsIn x xs
      → HasRead t (unmarshal_all env xs)
  unfolding unmarshal_all
  unmarshal_all-HasRead x t [] e h = absurd h
  unmarshal_all-HasRead x t (y ∷ xs) e h =
      at_head (env.match_requests.unmarshal y) refl h (unmarshal_all env xs)
        (λ g. unmarshal_all-HasRead x t xs e g)
    where
      at_tail :
          (u : Documents.MatchRequest) (r : Result (List Documents.MatchRequest))
          → (t ≡ u) ⊎ HasRead t r
          → HasRead t (elim r [ ok ts ↦ ok (u ∷ ts) | err e ↦ err e ])
      at_tail u (ok ts) g = g
      at_tail u (err _) g = tt

      at_head :
          (o : Result Documents.MatchRequest)
          → env.match_requests.unmarshal y ≡ o
          → (x ≡ y) ⊎ IsIn x xs
          → (r : Result (List Documents.MatchRequest)) → (IsIn x xs → HasRead t r)
          → HasRead t
              (elim o [ ok u ↦ elim r [ ok ts ↦ ok (u ∷ ts) | err e ↦ err e ] | err e ↦ err e ])
      at_head (ok u) m (inl same) r rest =
          let is_u : t ≡ u = cc (same, m, e) in at_tail u r (inl is_u)
      at_head (ok u) m (inr g) r rest = at_tail u r (inr (rest g))
      at_head (err _) m g r rest = tt

  -- What `GetMatchRequests` read has the document of each request that was asked for and stored.
  pub get_match_requests-HasRead :
      (ks : List String) (k x : String) (t : Documents.MatchRequest) (w : W)
      → contains k ks ≡ true
      → v.entry w tickets k ≡ some x
      → env.match_requests.unmarshal x ≡ ok t
      → HasRead t (get_match_requests env ks w).0
  unfolding get_match_requests
  get_match_requests-HasRead ks k x t w c e m = after_mget _ (sound.store_lem.mget_lem tickets ks w)
    where
      after_mget :
          (o : Result (Map String) × W)
          → ReadsAll v tickets ks w o
          → HasRead t (and_then (λ found. lift (unmarshal_all env (values found))) o).0
      after_mget (ok found, w1) (read, _, _) =
          unmarshal_all-HasRead x t (values found) m (value-IsIn k x found (read k ∙ rw c e))
      after_mget (err _, w1) q = tt

  unmarshal_all-AreRead : (xs : List String) → AreRead env (unmarshal_all env xs)
  unfolding unmarshal_all
  unmarshal_all-AreRead [] = tt
  unmarshal_all-AreRead (x ∷ xs) =
      at_head (env.match_requests.unmarshal x) refl (unmarshal_all env xs)
        (unmarshal_all-AreRead xs)
    where
      at_head :
          (o : Result Documents.MatchRequest)
          → env.match_requests.unmarshal x ≡ o
          → (r : Result (List Documents.MatchRequest)) → AreRead env r
          → AreRead env
              (elim o [ ok u ↦ elim r [ ok ts ↦ ok (u ∷ ts) | err e ↦ err e ] | err e ↦ err e ])
      at_head (ok u) m (ok ts) h = ((x, m), h)
      at_head (ok u) m (err _) h = tt
      at_head (err _) m r h = tt

  pub get_match_requests-AreRead :
      (ks : List String) (w : W) → AreRead env (get_match_requests env ks w).0
  unfolding get_match_requests
  get_match_requests-AreRead ks w = after_mget (env.kv_store.mget "tickets" ks w)
    where
      after_mget :
          (o : Result (Map String) × W)
          → AreRead env (and_then (λ found. lift (unmarshal_all env (values found))) o).0
      after_mget (ok found, w1) = unmarshal_all-AreRead (values found)
      after_mget (err _, w1) = tt
