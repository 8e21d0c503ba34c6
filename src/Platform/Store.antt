-- ===== src/Platform/Store.antt =====
-- The `Store` of internal/db/kv/interface.go, and what its callers rely on. A command that fails
-- may or may not have been carried out.
use rivalry.Prelude.{
  String, ℕ, ◌≡◌, ◌≢◌, ◌⊎◌, Bool, true, false, none, some, List, [], ◌∷◌, Map, lookup, keys,
  contains, IsDistinct, if◌then◌else◌,
}
use rivalry.Prelude.Results.{Action, Result, ok, err, Error, not_found}
use rivalry.Platform.View.{View, Collection, collection_name, written, removed, IsSilent, IsSame}

-- Arguments: the collection, the key or keys, the value, and the expiration (0 for none).
pub record Store (W : Type 0) : Type 0 where
  pub list_keys : String → Action W (List String)
  pub set : String → String → String → ℕ → Action W (Unit {0})
  pub mset : String → Map String → Action W (Unit {0})
  pub setnx : String → String → String → ℕ → Action W Bool
  pub msetnx : String → Map String → Action W Bool
  pub get : String → String → Action W String
  pub mget : String → List String → Action W (Map String)
  pub del : String → List String → Action W (Unit {0})

module _ {W : Type 0} (v : View W) (c : Collection) where
  -- A write of the pairs `m`.
  abbrev pub Writes : Map String → W → Result (Unit {0}) × W → Type 0
  Writes m w (ok _, w') = (v.entry w' ≡ written c m (v.entry w)) × IsSilent v w w'
  Writes m w (err _, w') =
      ((v.entry w' ≡ v.entry w) ⊎ (v.entry w' ≡ written c m (v.entry w))) × IsSilent v w w'

  abbrev pub AreFree : Map String → W → Type 0
  AreFree m w = (k : String) → contains k (keys m) ≡ true → v.entry w c k ≡ none

  -- A write that is refused as a whole if one of the keys is taken.
  abbrev pub WritesNew : Map String → W → Result Bool × W → Type 0
  WritesNew m w (ok true, w') =
      AreFree m w × (v.entry w' ≡ written c m (v.entry w)) × IsSilent v w w'
  WritesNew m w (ok false, w') =
      ((k : String) × (contains k (keys m) ≡ true) × (v.entry w c k ≢ none)) × IsSame v w w'
  WritesNew m w (err _, w') =
      ((v.entry w' ≡ v.entry w) ⊎ (AreFree m w × (v.entry w' ≡ written c m (v.entry w))))
      × IsSilent v w w'

  abbrev pub Reads : String → W → Result String × W → Type 0
  Reads k w (ok x, w') = (v.entry w c k ≡ some x) × IsSame v w w'
  Reads k w (err e, w') = (e ≡ not_found → v.entry w c k ≡ none) × IsSame v w w'

  abbrev pub ReadsAll : List String → W → Result (Map String) × W → Type 0
  ReadsAll ks w (ok m, w') =
      ((k : String) → lookup k m ≡ (if contains k ks then v.entry w c k else none))
      × IsDistinct (keys m)
      × IsSame v w w'
  ReadsAll ks w (err _, w') = IsSame v w w'

  abbrev pub Removes : List String → W → Result (Unit {0}) × W → Type 0
  Removes ks w (ok _, w') = (v.entry w' ≡ removed c ks (v.entry w)) × IsSilent v w w'
  Removes ks w (err _, w') =
      ((v.entry w' ≡ v.entry w) ⊎ (v.entry w' ≡ removed c ks (v.entry w))) × IsSilent v w w'

-- What a store promises about the collections that the code uses.
pub record IsStore {W : Type 0} (v : View W) (s : Store W) : Type 0 where
  pub set_lem :
      (c : Collection) (k x : String) (w : W)
      → Writes v c ((k, x) ∷ []) w (s.set (collection_name c) k x 0 w)
  pub mset_lem :
      (c : Collection) (m : Map String) (w : W) → Writes v c m w (s.mset (collection_name c) m w)
  pub setnx_lem :
      (c : Collection) (k x : String) (w : W)
      → WritesNew v c ((k, x) ∷ []) w (s.setnx (collection_name c) k x 0 w)
  pub msetnx_lem :
      (c : Collection) (m : Map String) (w : W)
      → WritesNew v c m w (s.msetnx (collection_name c) m w)
  pub get_lem :
      (c : Collection) (k : String) (w : W) → Reads v c k w (s.get (collection_name c) k w)
  pub mget_lem :
      (c : Collection) (ks : List String) (w : W)
      → ReadsAll v c ks w (s.mget (collection_name c) ks w)
  pub del_lem :
      (c : Collection) (ks : List String) (w : W)
      → Removes v c ks w (s.del (collection_name c) ks w)

-- A store whose deletions go through, and whose failed writes did nothing.
pub record IsReliable {W : Type 0} (v : View W) (s : Store W) : Type 0 where
  pub del_done :
      (c : Collection) (ks : List String) (w : W)
      → v.entry (s.del (collection_name c) ks w).1 ≡ removed c ks (v.entry w)
  pub set_failed :
      (c : Collection) (k x : String) (w w' : W) (e : Error)
      → s.set (collection_name c) k x 0 w ≡ (err e, w')
      → v.entry w' ≡ v.entry w
  pub setnx_failed :
      (c : Collection) (k x : String) (w w' : W) (e : Error)
      → s.setnx (collection_name c) k x 0 w ≡ (err e, w')
      → v.entry w' ≡ v.entry w
  pub msetnx_failed :
      (c : Collection) (m : Map String) (w w' : W) (e : Error)
      → s.msetnx (collection_name c) m w ≡ (err e, w')
      → v.entry w' ≡ v.entry w
