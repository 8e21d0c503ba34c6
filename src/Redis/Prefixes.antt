-- ===== src/Redis/Prefixes.antt =====
-- The loops over keys and values, against the collection that they stand for.
use rivalry.Prelude.{
  String, ◌≡◌, refl, true, ◌&&◌, ◌||◌, Option, none, some, List, [], ◌∷◌, Map, map, lookup, insert,
  keys, contains, IsDistinct, lookup-insert, keys-insert, insert-IsDistinct, if◌then◌else◌, ◌==◌,
  eq_iff, ==_comm, arith, Bool-cases, Option-cases, inl, inr,
}
use rivalry.Platform.View.{Collection, collection_name, same, or_else}
use rivalry.Redis.{redis_key, prefix_values, collect, prefix_keys}
use rivalry.Redis.Keys.{redis_key-==}

module _ (p : String) where
  pub lookup-prefix_values :
      (c d : Collection) (k : String) (m : Map String)
      → lookup (redis_key p (collection_name d) k) (prefix_values p (collection_name c) m)
        ≡ (if same c d then lookup k m else none)
  unfolding prefix_values
  lookup-prefix_values c d k [] = ground arith
  lookup-prefix_values c d k ((j, v) ∷ m) =
      rw
        (lookup-insert (redis_key p (collection_name c) j) (redis_key p (collection_name d) k) v
          (prefix_values p (collection_name c) m))
        (rw (redis_key-== p c d j k) (ground (arith, lookup-prefix_values c d k m)))

  pub keys-prefix_values :
      (c d : Collection) (k : String) (m : Map String)
      → contains (redis_key p (collection_name d) k) (keys (prefix_values p (collection_name c) m))
        ≡ (same c d && contains k (keys m))
  unfolding prefix_values
  keys-prefix_values c d k [] = ground arith
  keys-prefix_values c d k ((j, v) ∷ m) =
      rw
        (keys-insert (redis_key p (collection_name c) j) (redis_key p (collection_name d) k) v
          (prefix_values p (collection_name c) m))
        (rw (==_comm (redis_key p (collection_name d) k) (redis_key p (collection_name c) j))
          (rw (redis_key-== p c d j k) (ground (arith, keys-prefix_values c d k m, ==_comm j k))))

  pub contains-prefix_keys :
      (c d : Collection) (k : String) (ks : List String)
      → contains (redis_key p (collection_name d) k) (prefix_keys p (collection_name c) ks)
        ≡ (same c d && contains k ks)
  unfolding prefix_keys
  contains-prefix_keys c d k [] = ground arith
  contains-prefix_keys c d k (j ∷ ks) =
      (rw (==_comm (redis_key p (collection_name d) k) (redis_key p (collection_name c) j))
        (rw (redis_key-== p c d j k) (ground (arith, contains-prefix_keys c d k ks, ==_comm j k))))

  -- A Redis key among the prefixed ones stands for a key of the map.
  pub key_of_prefixed :
      (c : String) (m : Map String) (x : String)
      → contains x (keys (prefix_values p c m)) ≡ true
      → (k : String) × (contains k (keys m) ≡ true) × (x ≡ redis_key p c k)
  unfolding prefix_values
  key_of_prefixed c [] x h = ground arith
  key_of_prefixed c ((j, v) ∷ m) x h = elim (Bool-cases (x == redis_key p c j)) [
    | inl e ↦ (j, ground (arith, eq_iff j j), (eq_iff x _).0 e)
    | inr e ↦ further (
        key_of_prefixed c m x
          (ground (arith, keys-insert (redis_key p c j) x v (prefix_values p c m))))
  ]
    where
      further :
          (k : String) × (contains k (keys m) ≡ true) × (x ≡ redis_key p c k)
          → (k : String) × ((k == j || contains k (keys m)) ≡ true) × (x ≡ redis_key p c k)
      further (k, h', e) = (k, ground arith, e)

-- A key that was asked for has its reply, if it is there, and no other key has an entry.
pub lookup-collect :
    (f : String → Option String) (g : String → String) (k : String) (ks : List String)
    (resp : Map String)
    → lookup k (collect ks (map (λ j. f (g j)) ks) resp)
      ≡ (if contains k ks then or_else (f (g k)) (lookup k resp) else lookup k resp)
unfolding collect
lookup-collect f g k [] resp = refl
lookup-collect f g k (j ∷ ks) resp = elim (Option-cases (f (g j))) [
  | inl e ↦ rw (e, collect) (ground (arith, lookup-collect f g k ks resp, eq_iff k j))
  | inr (v, e) ↦
      rw (e, collect)
        (ground (
          arith,
          lookup-collect f g k ks (insert j v resp),
          lookup-insert j k v resp,
          eq_iff k j,
          ==_comm k j,
        ))
]

pub collect-IsDistinct :
    (ks : List String) (replies : List (Option String)) (resp : Map String)
    → IsDistinct (keys resp)
    → IsDistinct (keys (collect ks replies resp))
unfolding collect
collect-IsDistinct [] replies resp d = d
collect-IsDistinct (k ∷ ks) [] resp d = d
collect-IsDistinct (k ∷ ks) (none ∷ replies) resp d = collect-IsDistinct ks replies resp d
collect-IsDistinct (k ∷ ks) (some v ∷ replies) resp d =
    collect-IsDistinct ks replies (insert k v resp) (insert-IsDistinct k v resp d)
