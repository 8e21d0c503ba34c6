-- ===== src/Platform/View.antt =====
-- The outside world as the theorems see it: the entries of the key value store, the messages
-- accepted by the stream and those published on the pub-sub channel, oldest first.
use rivalry.Prelude.{
  String, ◌≡◌, refl, [], ◌∷◌, eq_refl, Bool, true, false, Option, none, some, List, Map, lookup,
  contains, if◌then◌else◌, ◌∙◌,
}

-- The collections that the code uses, with the names that it gives them.
pub data Collection : Type 0 where
  tickets ticket_assignments matches : Collection

abbrev pub collection_name : Collection → String
collection_name tickets = "tickets"
collection_name ticket_assignments = "ticket_assignments"
collection_name matches = "matches"

abbrev pub same : Collection → Collection → Bool
same tickets tickets = true
same ticket_assignments ticket_assignments = true
same matches matches = true
same _ _ = false

pub same_refl : (c : Collection) → same c c ≡ true
same_refl tickets = refl
same_refl ticket_assignments = refl
same_refl matches = refl

abbrev pub Entries : Type 0
Entries = Collection → String → Option String

abbrev pub or_else {ℓ} : {A : Type ℓ} → Option A → Option A → Option A
or_else (some a) o = some a
or_else none o = o

-- The entries after the pairs of `m` were written to the collection `c`.
abbrev pub written : Collection → Map String → Entries → Entries
written c m f d k = if same c d then or_else (lookup k m) (f d k) else f d k

-- The entries after the keys were deleted from the collection `c`.
abbrev pub removed : Collection → List String → Entries → Entries
removed c ks f d k = if same c d then (if contains k ks then none else f d k) else f d k

-- What was written is there.
pub entry_written :
    (c : Collection) (k x : String) (f : Entries) → written c ((k, x) ∷ []) f c k ≡ some x
entry_written c k x f = rw (same_refl c, eq_refl k)

pub record View (W : Type 0) : Type 0 where
  pub entry : W → Entries
  pub sent : W → List (String × String)
  pub published : W → List (String × String)

module _ {W : Type 0} (v : View W) where
  -- No message was sent between the two.
  abbrev pub IsSilent : W → W → Type 0
  IsSilent w w' = (v.sent w' ≡ v.sent w) × (v.published w' ≡ v.published w)

  -- Nothing that the theorems speak of has changed.
  abbrev pub IsSame : W → W → Type 0
  IsSame w w' = (v.entry w' ≡ v.entry w) × (v.sent w' ≡ v.sent w) × (v.published w' ≡ v.published w)

  pub IsSame-trans : {a b c : W} → IsSame a b → IsSame b c → IsSame a c
  IsSame-trans p q = (q.0 ∙ p.0, q.1 ∙ p.1, q.2 ∙ p.2)
