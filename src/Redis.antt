-- ===== src/Redis.antt =====
-- internal/db/kv/redis.go: the key value store over a Redis client. The client is the go-redis
-- library's with the server behind it, so it is a parameter, one operation for each command.
mod Keys
pub mod Client
pub mod Prefixes
pub mod Laws
mod Tests
unfoldable pub use Keys.{redis_key}
use rivalry.Prelude.{String, ℕ, Bool, Option, none, some, List, [], ◌∷◌, Map, insert, map, arith}
use rivalry.Prelude.Results.{
  Action, Result, ok, err, Error, not_found, redis_nil, pure, and_then, ◌>>=◌,
}
use Prim.Native.String.{slice, len}
use rivalry.Platform.Store.{Store}
use Client.{RedisClient}

pub record Redis (W : Type 0) : Type 0 where
  pub redis_cli : RedisClient W
  pub prefix : String

-- The loop of `MSet` and `MSetNX` that fills `setValues`.
unfoldable pub prefix_values : String → String → Map String → Map String
prefix_values prefix collection [] = []
prefix_values prefix collection ((k, v) ∷ values) =
    insert (redis_key prefix collection k) v (prefix_values prefix collection values)

-- `keys[i][totalPrefixLen:]`
strip : ℕ → List String → List String
strip n [] = []
strip n (k ∷ ks) = slice k n (len k) ∷ strip n ks

-- The loop of `MGet` over the keys and the replies; a reply that is nil is passed over. Redis
-- replies once for each key; the index out of range on a shorter list is not modelled.
unfoldable pub collect : List String → List (Option String) → Map String → Map String
collect [] replies resp = resp
collect (k ∷ ks) [] resp = resp
collect (k ∷ ks) (none ∷ replies) resp = collect ks replies resp
collect (k ∷ ks) (some v ∷ replies) resp = collect ks replies (insert k v resp)

unfoldable pub prefix_keys : String → String → List String → List String
prefix_keys prefix collection [] = []
prefix_keys prefix collection (k ∷ ks) =
    redis_key prefix collection k ∷ prefix_keys prefix collection ks

-- `if err == redis.Nil { return …, ErrNotFound }`
abbrev pub nil_to_not_found : Error → Error
nil_to_not_found redis_nil = not_found
nil_to_not_found e = e

module _ {W : Type 0} where
  abbrev pub or_not_found : {A : Type 0} → Result A × W → Result A × W
  or_not_found (ok a, w) = (ok a, w)
  or_not_found (err e, w) = (err (nil_to_not_found e), w)

module _ {W : Type 0} (r : Redis W) where
  open r use {redis_cli, prefix}

  unfoldable pub set : String → String → String → ℕ → Action W (Unit {0})
  set collection key value expiration =
      redis_cli.set (redis_key prefix collection key) value expiration

  unfoldable pub mset : String → Map String → Action W (Unit {0})
  mset collection values = redis_cli.mset (prefix_values prefix collection values)

  unfoldable pub msetnx : String → Map String → Action W Bool
  msetnx collection values = redis_cli.msetnx (prefix_values prefix collection values)

  unfoldable pub setnx : String → String → String → ℕ → Action W Bool
  setnx collection key value expiration =
      redis_cli.setnx (redis_key prefix collection key) value expiration

  unfoldable pub list_keys : String → Action W (List String)
  unfolding strip
  list_keys collection = do
    keys ← redis_cli.keys (redis_key prefix collection "*")
    pure (strip (len (redis_key prefix collection "")) keys)

  unfoldable pub get : String → String → Action W String
  get collection key w = or_not_found (redis_cli.get (redis_key prefix collection key) w)

  unfoldable pub mget : String → List String → Action W (Map String)
  mget collection [] = pure []
  mget collection (k ∷ ks) = do
    result ← λ w. or_not_found (redis_cli.mget (prefix_keys prefix collection (k ∷ ks)) w)
    pure (collect (k ∷ ks) result [])

  unfoldable pub del : String → List String → Action W (Unit {0})
  del collection keys = redis_cli.del (prefix_keys prefix collection keys)

  abbrev pub redis_store : Store W
  redis_store = record {
    list_keys = list_keys;
    set = set;
    mset = mset;
    setnx = setnx;
    msetnx = msetnx;
    get = get;
    mget = mget;
    del = del;
  }
