-- ===== src/Redis/Laws.antt =====
-- The Redis store keeps what a `Store` promises, whatever the prefix.
use mathlib.Core.Path.{fun_ext}
use rivalry.Prelude.{
  String, ◌≡◌, ◌≢◌, refl, ap, ◌∙◌, ◌⊎◌, subst, inl, inr, Bool, true, false, Option, none, some,
  List, [], ◌∷◌, Map, map, lookup, keys, contains, if◌then◌else◌, arith,
}
use rivalry.Prelude.Results.{Result, ok, err, Error, not_found, external, and_then, pure}
use rivalry.Platform.View.{
  View, Collection, collection_name, Entries, same_refl, written, removed, or_else,
}
use rivalry.Platform.Store.{IsStore, Writes, WritesNew, Reads, ReadsAll, Removes}
use rivalry.Redis.Client.{
  RedisClient, Database, IsRedis, Changes, ChangesNew, stored_after, deleted,
}
use rivalry.Redis.Client as Client
use rivalry.Redis.{
  Redis, redis_key, prefix_values, prefix_keys, collect, redis_store, or_not_found,
  nil_to_not_found, set, mset, setnx, msetnx, get, mget, del,
}
use rivalry.Redis.Prefixes.{
  lookup-prefix_values, keys-prefix_values, contains-prefix_keys, key_of_prefixed, lookup-collect,
  collect-IsDistinct,
}

or_else-none :
    (b : Bool) (o : Option String) → (if b then or_else o none else none) ≡ (if b then o else none)
or_else-none b none = refl
or_else-none b (some x) = refl

module _ {W : Type 0} (d : Database W) (r : Redis W) where
  abbrev pub entries_of : (String → Option String) → Entries
  entries_of f c k = f (redis_key r.prefix (collection_name c) k)

  -- What the database holds under the store's prefix.
  abbrev pub redis_view : View W
  redis_view = record {
    entry = λ w. entries_of (d.stored w);
    sent = d.sent;
    published = d.published;
  }

  entries_of_stored :
      (c : Collection) (m : Map String) (f : String → Option String)
      → entries_of (stored_after (prefix_values r.prefix (collection_name c) m) f)
        ≡ written c m (entries_of f)
  entries_of_stored c m f =
      fun_ext λ b. fun_ext λ k. ground (arith, lookup-prefix_values r.prefix c b k m)

  pub entries_of-deleted :
      (c : Collection) (ks : List String) (f : String → Option String)
      → entries_of (deleted (prefix_keys r.prefix (collection_name c) ks) f)
        ≡ removed c ks (entries_of f)
  entries_of-deleted c ks f =
      fun_ext λ b. fun_ext λ k. ground (arith, contains-prefix_keys r.prefix c b k ks)

  Changes-write :
      (c : Collection) (m : Map String) (w : W) (o : Result (Unit {0}) × W)
      → Changes d (stored_after (prefix_values r.prefix (collection_name c) m)) w o
      → Writes redis_view c m w o
  Changes-write c m w (ok _, w') (e, q) = (ap entries_of e ∙ entries_of_stored c m (d.stored w), q)
  Changes-write c m w (err _, w') (inl e, q) = (inl (ap entries_of e), q)
  Changes-write c m w (err _, w') (inr e, q) =
      (inr (ap entries_of e ∙ entries_of_stored c m (d.stored w)), q)

  Changes-remove :
      (c : Collection) (ks : List String) (w : W) (o : Result (Unit {0}) × W)
      → Changes d (deleted (prefix_keys r.prefix (collection_name c) ks)) w o
      → Removes redis_view c ks w o
  Changes-remove c ks w (ok _, w') (e, q) =
      (ap entries_of e ∙ entries_of-deleted c ks (d.stored w), q)
  Changes-remove c ks w (err _, w') (inl e, q) = (inl (ap entries_of e), q)
  Changes-remove c ks w (err _, w') (inr e, q) =
      (inr (ap entries_of e ∙ entries_of-deleted c ks (d.stored w)), q)

  free_entries :
      (c : Collection) (m : Map String) (w : W)
      → Client.AreFree d (prefix_values r.prefix (collection_name c) m) w
      → (k : String) → contains k (keys m) ≡ true
      → entries_of (d.stored w) c k ≡ none
  free_entries c m w free k h =
      free (redis_key r.prefix (collection_name c) k)
        (ground (arith, keys-prefix_values r.prefix c c k m, same_refl c))

  changes_write_new :
      (c : Collection) (m : Map String) (w : W) (o : Result Bool × W)
      → ChangesNew d (prefix_values r.prefix (collection_name c) m) w o
      → WritesNew redis_view c m w o
  changes_write_new c m w (ok true, w') (free, e, q) =
      (free_entries c m w free, ap entries_of e ∙ entries_of_stored c m (d.stored w), q)
  changes_write_new c m w (ok false, w') ((x, held, taken), q) =
      let (k, h, p) = key_of_prefixed r.prefix (collection_name c) m x held in
      ((k, h, subst (λ y. d.stored w y ≢ none) p taken), (ap entries_of q.0, q.1, q.2))
  changes_write_new c m w (err _, w') (inl e, q) = (inl (ap entries_of e), q)
  changes_write_new c m w (err _, w') (inr (free, e), q) =
      (inr (free_entries c m w free, ap entries_of e ∙ entries_of_stored c m (d.stored w)), q)

  get-Reads :
      (c : Collection) (k : String) (w : W) (o : Result String × W)
      → Client.Reads d (redis_key r.prefix (collection_name c) k) w o
      → Reads redis_view c k w (or_not_found o)
  get-Reads c k w (ok x, w') (e, q) = (e, (ap entries_of q.0, q.1, q.2))
  get-Reads c k w (err e, w') (inl (_, missing), q) =
      ((λ _. missing), (ap entries_of q.0, q.1, q.2))
  get-Reads c k w (err e, w') (inr (text, other), q) =
      ((λ found. other_error e text other found), (ap entries_of q.0, q.1, q.2))
    where
      other_error :
          (e : Error) (text : String)
          → e ≡ external text
          → nil_to_not_found e ≡ not_found
          → entries_of (d.stored w) c k ≡ none
      other_error e text p found = ground arith

  prefixed_replies :
      (c : Collection) (ks : List String) (f : String → Option String)
      → map f (prefix_keys r.prefix (collection_name c) ks) ≡ map (λ k. entries_of f c k) ks
  unfolding prefix_keys
  prefixed_replies c [] f = refl
  prefixed_replies c (k ∷ ks) f = ap (λ l. entries_of f c k ∷ l) (prefixed_replies c ks f)

  mget_reads :
      (c : Collection) (ks : List String) (w : W) (o : Result (List (Option String)) × W)
      → Client.ReadsAll d (prefix_keys r.prefix (collection_name c) ks) w o
      → ReadsAll redis_view c ks w
          (and_then (λ result. pure (collect ks result [])) (or_not_found o))
  mget_reads c ks w (ok replies, w') (e, q) =
      ((λ k. mget_entry k), collect-IsDistinct ks replies [] tt, (ap entries_of q.0, q.1, q.2))
    where
      mget_entry :
          (k : String)
          → lookup k (collect ks replies [])
            ≡ (if contains k ks then entries_of (d.stored w) c k else none)
      mget_entry k = rw (e ∙ prefixed_replies c ks (d.stored w)) (
          lookup-collect (d.stored w) (redis_key r.prefix (collection_name c)) k ks []
          ∙ or_else-none (contains k ks) (entries_of (d.stored w) c k))
  mget_reads c ks w (err _, w') q = (ap entries_of q.0, q.1, q.2)

  -- Each operation acts on its collection and leaves the others alone.
  pub redis_store-IsStore : IsRedis d r.redis_cli → IsStore redis_view (redis_store r)
  unfolding set mset setnx msetnx get mget del
  redis_store-IsStore laws = record {
    set_lem = λ c k x w.
        Changes-write c ((k, x) ∷ []) w _
          (unfold prefix_values in laws.set_lem (redis_key r.prefix (collection_name c) k) x w);
    mset_lem = λ c m w. Changes-write c m w _ (laws.mset_lem _ w);
    setnx_lem = λ c k x w.
        changes_write_new c ((k, x) ∷ []) w _
          (unfold prefix_values in laws.setnx_lem (redis_key r.prefix (collection_name c) k) x w);
    msetnx_lem = λ c m w. changes_write_new c m w _ (laws.msetnx_lem _ w);
    get_lem = λ c k w. get-Reads c k w _ (laws.get_lem _ w);
    mget_lem = mget_all;
    del_lem = λ c ks w. Changes-remove c ks w _ (laws.del_lem _ w);
  }
    where
      mget_all :
          (c : Collection) (ks : List String) (w : W)
          → ReadsAll redis_view c ks w (mget r (collection_name c) ks w)
      mget_all c [] w = ((λ k. refl), tt, (refl, refl, refl))
      mget_all c (k ∷ ks) w = mget_reads c (k ∷ ks) w _ (laws.mget_lem _ w)

  -- What the store promises of a key that is not there: `ErrNotFound`, where the Redis client itself
  -- does not fail.
  abbrev pub IsMissed : Collection → String → W → Type 0
  IsMissed c k w =
      ((get r (collection_name c) k w).0 ≡ err not_found)
      ⊎ ((text : String) × ((r.redis_cli.get (redis_key r.prefix (collection_name c) k) w).0
            ≡ err (external text)))

  pub record KeepsPromises : Type 0 where
    pub is_store : IsStore redis_view (redis_store r)
    pub misses :
        (c : Collection) (k : String) (w : W) → redis_view.entry w c k ≡ none → IsMissed c k w

  get-IsMissed :
      IsRedis d r.redis_cli
      → (c : Collection) (k : String) (w : W) → redis_view.entry w c k ≡ none
      → IsMissed c k w
  unfolding get
  get-IsMissed laws c k w free =
      after (r.redis_cli.get (redis_key r.prefix (collection_name c) k) w) (laws.get_lem _ w)
    where
      after :
          (o : Result String × W)
          → Client.Reads d (redis_key r.prefix (collection_name c) k) w o
          → ((or_not_found o).0 ≡ err not_found) ⊎ ((text : String) × (o.0 ≡ err (external text)))
      after (ok x, w') (e, q) = cc (e, free)
      after (err e, w') (inl (nil, _), q) = inl (rw nil refl)
      after (err e, w') (inr (text, other), q) = inr (text, ap err other)

  -- Under any prefix the Redis store keeps its promises: `Set` and `SetNX` without an expiration, `MSet`,
  -- `MSetNX`, `Get`, `MGet` and `Del` read or write what they say in their collection, a write as a whole
  -- or, where it fails, perhaps not at all, and leave the other collections alone; and `Get` of a key that
  -- is not there answers `ErrNotFound`, unless the Redis client fails.
  pub redis_store-KeepsPromises : IsRedis d r.redis_cli → KeepsPromises
  redis_store-KeepsPromises laws = record {
    is_store = redis_store-IsStore laws;
    misses = get-IsMissed laws;
  }
