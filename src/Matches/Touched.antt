-- ===== src/Matches/Touched.antt =====
-- The entries that the creation of a match may change, and the operations that keep to them.
use rivalry.Prelude.{
  String, ◌≡◌, refl, ap, ◌∙◌, ◌⊎◌, inl, inr, Bool, false, [], ◌∷◌, contains, ◌==◌, ==_comm, arith,
}
use rivalry.Prelude.Results.{Result, ok, err}
use rivalry.Wire.Api.{Match}
use rivalry.Platform.View.{
  View, Entries, IsSilent, written, removed, Collection, tickets, ticket_assignments, matches,
}
use rivalry.Platform.Store.{Removes}
use rivalry.Tickets.Matching.Assign.{assigned, released, Releases}

-- The entries that the creation of a match may change.
abbrev pub touched : Match → Collection → String → Bool
touched m tickets k = false
touched m ticket_assignments k = contains k m.match_request_ids
touched m matches k = k == m.match_id

module _ {W : Type 0} (v : View W) where
  abbrev pub IsUntouched : Match → W → W → Type 0
  IsUntouched m w w' =
      (c : Collection) (k : String) → touched m c k ≡ false → v.entry w' c k ≡ v.entry w c k

pub written-touched :
    (m : Match) (x : String) (f : Entries) (c : Collection) (k : String)
    → touched m c k ≡ false
    → written matches ((m.match_id, x) ∷ []) f c k ≡ f c k
written-touched m x f tickets k h = refl
written-touched m x f ticket_assignments k h = refl
written-touched m x f matches k h = ground (arith, ==_comm k m.match_id)

pub removed-touched :
    (m : Match) (f : Entries) (c : Collection) (k : String)
    → touched m c k ≡ false
    → removed matches (m.match_id ∷ []) f c k ≡ f c k
removed-touched m f tickets k h = refl
removed-touched m f ticket_assignments k h = refl
removed-touched m f matches k h = ground arith

pub assigned-touched :
    (m : Match) (f : Entries) (c : Collection) (k : String)
    → touched m c k ≡ false
    → assigned m.match_id m.match_request_ids f c k ≡ f c k
assigned-touched m f tickets k h = refl
assigned-touched m f ticket_assignments k h = ground arith
assigned-touched m f matches k h = refl

pub released-touched :
    (m : Match) (f : Entries) (c : Collection) (k : String)
    → touched m c k ≡ false
    → released m.match_request_ids f c k ≡ f c k
released-touched m f tickets k h = refl
released-touched m f ticket_assignments k h = ground arith
released-touched m f matches k h = refl

module _ {W : Type 0} (v : View W) (m : Match) where
  -- Two stretches that leave the other entries alone and send nothing, one after the other.
  abbrev pub IsQuiet : W → W → Type 0
  IsQuiet w w' = IsUntouched v m w w' × IsSilent v w w'

  pub IsQuiet-trans : {a b c : W} → IsQuiet a b → IsQuiet b c → IsQuiet a c
  IsQuiet-trans (u, s) (u', s') = ((λ c k h. u' c k h ∙ u c k h), (s'.0 ∙ s.0, s'.1 ∙ s.1))

  -- An operation that has changed the entries by `f`, or has failed before it did.
  pub IsQuiet-by :
      (f : Entries → Entries)
      → ((g : Entries) (c : Collection) (k : String) → touched m c k ≡ false → f g c k ≡ g c k)
      → {w w' : W} → (v.entry w' ≡ v.entry w) ⊎ (v.entry w' ≡ f (v.entry w))
      → IsSilent v w w'
      → IsQuiet w w'
  IsQuiet-by f keeps (inl e) s = ((λ c k h. ap (λ g. g c k) e), s)
  IsQuiet-by f keeps {w} (inr e) s = ((λ c k h. ap (λ g. g c k) e ∙ keeps (v.entry w) c k h), s)

  pub deletion-IsQuiet :
      (w : W) (o : Result (Unit {0}) × W) → Removes v matches (m.match_id ∷ []) w o → IsQuiet w o.1
  deletion-IsQuiet w (ok _, w') (e, s) =
      IsQuiet-by (removed matches (m.match_id ∷ [])) (removed-touched m) (inr e) s
  deletion-IsQuiet w (err _, w') (e, s) =
      IsQuiet-by (removed matches (m.match_id ∷ [])) (removed-touched m) e s

  pub release-IsQuiet :
      (w : W) (o : Result (Unit {0}) × W) → Releases v m.match_request_ids w o → IsQuiet w o.1
  release-IsQuiet w (ok _, w') (e, s) =
      IsQuiet-by (released m.match_request_ids) (released-touched m) (inr e) s
  release-IsQuiet w (err _, w') (e, s) =
      IsQuiet-by (released m.match_request_ids) (released-touched m) e s
