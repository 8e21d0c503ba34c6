-- ===== src/Redis/Tests.antt =====
-- The store "om" over a database in memory.
use rivalry.Prelude.{◌≡◌, refl, [], ◌∷◌, false}
use rivalry.Prelude.Results.{ok}
use rivalry.Redis.{mget, redis_key, prefix_keys, collect}
use rivalry.Redis.Laws.{KeepsPromises, redis_store-KeepsPromises}
use rivalry.Sample.Memory.{client-IsRedis, database, redis}
use rivalry.Sample.World.{world}

redis_store-KeepsPromises_example : KeepsPromises database redis
redis_store-KeepsPromises_example = redis_store-KeepsPromises database redis client-IsRedis

-- A key of another collection is not found.
mget_example :
    (mget redis "tickets"
      ("a" ∷ "b" ∷ [])
      (world (("om:matches:b", "x") ∷ ("om:tickets:a", "y") ∷ []) false)).0
    ≡ ok (("a", "y") ∷ [])
unfolding mget redis_key prefix_keys collect
mget_example = refl
