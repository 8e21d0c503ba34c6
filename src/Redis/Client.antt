-- ===== src/Redis/Client.antt =====
-- The commands of go-redis that the store calls, and what Redis documents of them. A command that
-- fails may or may not have been carried out; `redis_nil` is the reply for a missing key.
use rivalry.Prelude.{
  String, ℕ, ◌≡◌, ◌≢◌, ◌⊎◌, Bool, true, false, Option, none, List, [], ◌∷◌, Map, lookup, keys,
  contains, if◌then◌else◌, map,
}
use rivalry.Prelude.Results.{Action, Result, ok, err, redis_nil, external}
use rivalry.Platform.View.{or_else}

pub record RedisClient (W : Type 0) : Type 0 where
  pub set : String → String → ℕ → Action W (Unit {0})
  pub mset : Map String → Action W (Unit {0})
  pub setnx : String → String → ℕ → Action W Bool
  pub msetnx : Map String → Action W Bool
  pub keys : String → Action W (List String)
  pub get : String → Action W String
  pub mget : List String → Action W (List (Option String))
  pub del : List String → Action W (Unit {0})

-- The database, and the messages of the brokers, which a command leaves alone.
pub record Database (W : Type 0) : Type 0 where
  pub stored : W → String → Option String
  pub sent : W → List (String × String)
  pub published : W → List (String × String)

abbrev pub stored_after : Map String → (String → Option String) → String → Option String
stored_after m f k = or_else (lookup k m) (f k)

abbrev pub deleted : List String → (String → Option String) → String → Option String
deleted ks f k = if contains k ks then none else f k

module _ {W : Type 0} (d : Database W) where
  abbrev pub IsSilent : W → W → Type 0
  IsSilent w w' = (d.sent w' ≡ d.sent w) × (d.published w' ≡ d.published w)

  abbrev pub IsSame : W → W → Type 0
  IsSame w w' =
      (d.stored w' ≡ d.stored w) × (d.sent w' ≡ d.sent w) × (d.published w' ≡ d.published w)

  abbrev pub Changes :
      ((String → Option String) → String → Option String) → W → Result (Unit {0}) × W → Type 0
  Changes f w (ok _, w') = (d.stored w' ≡ f (d.stored w)) × IsSilent w w'
  Changes f w (err _, w') =
      ((d.stored w' ≡ d.stored w) ⊎ (d.stored w' ≡ f (d.stored w))) × IsSilent w w'

  abbrev pub AreFree : Map String → W → Type 0
  AreFree m w = (k : String) → contains k (keys m) ≡ true → d.stored w k ≡ none

  abbrev pub ChangesNew : Map String → W → Result Bool × W → Type 0
  ChangesNew m w (ok true, w') =
      AreFree m w × (d.stored w' ≡ stored_after m (d.stored w)) × IsSilent w w'
  ChangesNew m w (ok false, w') =
      ((k : String) × (contains k (keys m) ≡ true) × (d.stored w k ≢ none)) × IsSame w w'
  ChangesNew m w (err _, w') =
      ((d.stored w' ≡ d.stored w) ⊎ (AreFree m w × (d.stored w' ≡ stored_after m (d.stored w))))
      × IsSilent w w'

  abbrev pub Reads : String → W → Result String × W → Type 0
  Reads k w (ok x, w') = (d.stored w k ≡ Option.some x) × IsSame w w'
  Reads k w (err e, w') =
      (((e ≡ redis_nil) × (d.stored w k ≡ none)) ⊎ ((text : String) × (e ≡ external text)))
      × IsSame w w'

  abbrev pub ReadsAll : List String → W → Result (List (Option String)) × W → Type 0
  ReadsAll ks w (ok replies, w') = (replies ≡ map (d.stored w) ks) × IsSame w w'
  ReadsAll ks w (err _, w') = IsSame w w'

pub record IsRedis {W : Type 0} (d : Database W) (c : RedisClient W) : Type 0 where
  pub set_lem : (k x : String) (w : W) → Changes d (stored_after ((k, x) ∷ [])) w (c.set k x 0 w)
  pub mset_lem : (m : Map String) (w : W) → Changes d (stored_after m) w (c.mset m w)
  pub setnx_lem : (k x : String) (w : W) → ChangesNew d ((k, x) ∷ []) w (c.setnx k x 0 w)
  pub msetnx_lem : (m : Map String) (w : W) → ChangesNew d m w (c.msetnx m w)
  pub get_lem : (k : String) (w : W) → Reads d k w (c.get k w)
  pub mget_lem : (ks : List String) (w : W) → ReadsAll d ks w (c.mget ks w)
  pub del_lem : (ks : List String) (w : W) → Changes d (deleted ks) w (c.del ks w)
