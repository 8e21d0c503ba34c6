-- ===== src/Tickets/Read.antt =====
-- What the tickets read back as.
use rivalry.Prelude.{String, ◌≡◌, ◌≢◌, refl, sym, ap, ◌∙◌, some}
use rivalry.Prelude.Results.{Result, ok, err, and_then, lift}
use rivalry.Wire.Api
use rivalry.Wire.Documents
use rivalry.Platform.View.{View, IsSame, tickets, entry_written}
use rivalry.Platform.Store.{Reads}
use rivalry.Platform.Env.{Env, IsSound}
use rivalry.Tickets.{document_of, create_match_request, get_match_request}
use rivalry.Tickets.Create.{Submits, create_match_request_lem}

-- A document that was read is the one that the store holds; reading changes nothing.
abbrev pub ReadsTicket :
    {W S : Type 0} → View W → Env W S → String → W → Result Documents.MatchRequest × W → Type 0
ReadsTicket v env k w (ok t, w') =
    (x : String) × (v.entry w tickets k ≡ some x)
    × (env.match_requests.unmarshal x ≡ ok t)
    × IsSame v w w'
ReadsTicket v env k w (err _, w') = IsSame v w w'

module _ {W S : Type 0} {v : View W} {env : Env W S} (sound : IsSound v env) where
  pub get_match_request_lem :
      (k : String) (w : W) → ReadsTicket v env k w (get_match_request env k w)
  unfolding get_match_request
  get_match_request_lem k w = after_get _ (sound.store_lem.get_lem tickets k w)
    where
      after_unmarshal :
          (x : String) (w1 : W)
          → v.entry w tickets k ≡ some x
          → IsSame v w w1
          → (r : Result Documents.MatchRequest) → env.match_requests.unmarshal x ≡ r
          → ReadsTicket v env k w (r, w1)
      after_unmarshal x w1 e q (ok t) m = (x, e, m, q)
      after_unmarshal x w1 e q (err _) m = q

      after_get :
          (o : Result String × W)
          → Reads v tickets k w o
          → ReadsTicket v env k w (and_then (λ x. lift (env.match_requests.unmarshal x)) o)
      after_get (ok x, w1) (e, q) = after_unmarshal x w1 e q (env.match_requests.unmarshal x) refl
      after_get (err _, w1) (_, q) = q

  -- What is read after a successful creation is the document of the request.
  pub get-create_match_request :
      (req : Api.MatchRequest) (w w1 w2 : W) (t : Documents.MatchRequest)
      → req.id ≢ ""
      → create_match_request env req w ≡ (ok tt, w1)
      → get_match_request env req.id w1 ≡ (ok t, w2)
      → t ≡ document_of env.sets req (env.now w).0
  unfolding document_of
  get-create_match_request req w w1 w2 t h created found =
      let c : Submits v env (document_of env.sets req (env.now w).0) w (ok tt, w1) =
        rw created at (create_match_request_lem sound req w h) in
      let r : ReadsTicket v env req.id w1 (ok t, w2) =
        rw found at (get_match_request_lem req.id w1) in
      same_document c r
    where
      same_document :
          Submits v env (document_of env.sets req (env.now w).0) w (ok tt, w1)
          → ReadsTicket v env req.id w1 (ok t, w2)
          → t ≡ document_of env.sets req (env.now w).0
      same_document ((x, free, m, e), sent) (y, held, m', q) =
          let stored : v.entry w1 tickets req.id ≡ some x =
            ap (λ f. f tickets req.id) e ∙ entry_written tickets req.id x (v.entry w) in
          cc (sym held ∙ stored, m, m')
