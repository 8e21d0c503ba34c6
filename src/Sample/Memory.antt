-- ===== src/Sample/Memory.antt =====
-- A Redis database, a stream and a pub-sub channel in memory, which never fail by themselves.
use rivalry.Prelude.{
  String, ℕ, ◌≡◌, ◌≢◌, refl, Bool, true, false, Option, none, some, List, [], ◌∷◌, ◌++◌, Map, map,
  keys, contains, eq_iff, arith, inl,
}
use rivalry.Prelude.Results.{Action, Result, ok, err, Error, external, redis_nil}
use rivalry.Platform.View.{collection_name, View}
use rivalry.Platform.Store.{IsReliable}
use rivalry.Platform.Broker.{Sends, StreamClient, PubsubClient, IsStream, IsPubsub}
use rivalry.Platform.Backoff.{BackoffLib, IsBackoff, Attempts, succeeds, gives_up}
use rivalry.Redis.Client.{RedisClient, Database, IsRedis, stored_after, deleted, ChangesNew, Reads}
use rivalry.Redis.{Redis, redis_key, prefix_values, redis_store, del, set, setnx, msetnx}
use rivalry.Redis.Laws.{entries_of-deleted, redis_view}

-- `down` makes the stream refuse messages.
pub record Memory : Type 0 where
  pub stored : String → Option String
  pub sent : List (String × String)
  pub published : List (String × String)
  pub fresh : ℕ
  pub down : Bool

abbrev pub database : Database Memory
database = record { stored = λ w. w.stored; sent = λ w. w.sent; published = λ w. w.published }

abbrev first_taken : Map String → (String → Option String) → Option String
first_taken [] f = none
first_taken ((k, _) ∷ m) f =
    let rest = first_taken m f in elim (f k) [ none ↦ rest | some _ ↦ some k ]

abbrev write : Map String → Memory → Memory
write m w = record w { stored = stored_after m w.stored }

abbrev answer_new : Map String → Memory → Option String → Result Bool × Memory
answer_new m w none = (ok true, write m w)
answer_new m w (some _) = (ok false, w)

abbrev write_new : Map String → Action Memory Bool
write_new m w = answer_new m w (first_taken m w.stored)

abbrev answer : Memory → Option String → Result String × Memory
answer w none = (err redis_nil, w)
answer w (some x) = (ok x, w)

abbrev read_one : String → Action Memory String
read_one k w = answer w (w.stored k)

abbrev pub client : RedisClient Memory
client = record {
  set = λ k x _ w. (ok tt, write ((k, x) ∷ []) w);
  mset = λ m w. (ok tt, write m w);
  setnx = λ k x _. write_new ((k, x) ∷ []);
  msetnx = write_new;
  keys = λ _ w. (ok [], w);
  get = read_one;
  mget = λ ks w. (ok (map w.stored ks), w);
  del = λ ks w. (ok tt, record w { stored = deleted ks w.stored });
}

first_taken-none :
    (m : Map String) (f : String → Option String) (k : String)
    → first_taken m f ≡ none
    → contains k (keys m) ≡ true
    → f k ≡ none
first_taken-none [] f k h c = cc
first_taken-none ((j, x) ∷ m) f k h c = ground (arith, first_taken-none m f k, eq_iff k j)

first_taken-some :
    (m : Map String) (f : String → Option String) (k : String)
    → first_taken m f ≡ some k
    → (contains k (keys m) ≡ true) × (f k ≢ none)
first_taken-some [] f k h = cc
first_taken-some ((j, x) ∷ m) f k h = ground (arith, first_taken-some m f k, eq_iff k j, eq_iff j j)

answer_new-ChangesNew :
    (m : Map String) (w : Memory) (o : Option String)
    → first_taken m w.stored ≡ o
    → ChangesNew database m w (answer_new m w o)
answer_new-ChangesNew m w none e = ((λ k h. first_taken-none m w.stored k e h), refl, (refl, refl))
answer_new-ChangesNew m w (some k) e =
    let (h, n) = first_taken-some m w.stored k e in ((k, h, n), (refl, refl, refl))

answer-Reads :
    (k : String) (w : Memory) (o : Option String) → w.stored k ≡ o → Reads database k w (answer w o)
answer-Reads k w none e = (inl (refl, e), (refl, refl, refl))
answer-Reads k w (some x) e = (e, (refl, refl, refl))

pub client-IsRedis : IsRedis database client
client-IsRedis = record {
  set_lem = λ k x w. (refl, (refl, refl));
  mset_lem = λ m w. (refl, (refl, refl));
  setnx_lem = λ k x w. answer_new-ChangesNew ((k, x) ∷ []) w _ refl;
  msetnx_lem = λ m w. answer_new-ChangesNew m w _ refl;
  get_lem = λ k w. answer-Reads k w _ refl;
  mget_lem = λ ks w. (refl, (refl, refl, refl));
  del_lem = λ ks w. (refl, (refl, refl));
}

abbrev pub redis : Redis Memory
redis = record { redis_cli = client; prefix = "om" }

abbrev pub memory_view : View Memory
memory_view = redis_view database redis

abbrev deliver : String → String → Memory → Bool → Result (Unit {0}) × Memory
deliver topic b w true = (err (external "nats: connection closed"), w)
deliver topic b w false = (ok tt, record w { sent = w.sent ++ (topic, b) ∷ [] })

abbrev send : String → String → Action Memory (Unit {0})
send topic b w = deliver topic b w w.down

deliver-Sends :
    (topic b : String) (w : Memory) (down : Bool)
    → Sends memory_view topic b w (deliver topic b w down)
deliver-Sends topic b w true = (refl, refl, refl)
deliver-Sends topic b w false = (refl, refl, refl)

abbrev pub stream : StreamClient Memory
stream = record { send_message = send; subscribe = λ _ w. (ok tt, w) }

abbrev pub pubsub : PubsubClient Memory
pubsub = record {
  publish = λ subject b w. (ok tt, record w { published = w.published ++ (subject, b) ∷ [] });
  subscribe = λ _ w. (ok tt, w);
}

pub stream-IsStream : IsStream memory_view stream
stream-IsStream = record { send_message_lem = λ topic b w. deliver-Sends topic b w w.down }

pub pubsub-IsPubsub : IsPubsub memory_view pubsub
pubsub-IsPubsub = record { publish_lem = λ subject b w. (refl, refl, refl) }

-- One attempt.
abbrev pub once : BackoffLib Memory
once = record {
  BackOff = Unit {0};
  nil_backoff = tt;
  new_exponential = tt;
  new_constant = λ _. tt;
  with_max_retries = λ _ _. tt;
  with_context = λ _. tt;
  retry = λ A f _. f;
}

one_attempt :
    (A : Type 0) (f : Action Memory A) (w : Memory) (o : Result A × Memory)
    → f w ≡ o
    → Attempts f w o
one_attempt A f w (ok a, w') e = succeeds e
one_attempt A f w (err x, w') e = gives_up e

pub once-IsBackoff : IsBackoff once
once-IsBackoff = record { retry_lem = λ A f p w. one_attempt A f w (f w) refl }

never_fails :
    (m : Map String) (w : Memory) (o : Option String) {w' : Memory} (e : Error)
    → answer_new m w o ≡ (err e, w')
    → ⊥
never_fails m w none e h = ground arith
never_fails m w (some k) e h = ground arith

pub memory-IsReliable : IsReliable memory_view (redis_store redis)
unfolding del set setnx msetnx
memory-IsReliable = record {
  del_done = λ c ks w. entries_of-deleted database redis c ks w.stored;
  set_failed = λ c k x w w' e h. absurd (ground arith);
  setnx_failed = λ c k x w w' e h.
      absurd (never_fails ((redis_key "om" (collection_name c) k, x) ∷ []) w _ e h);
  msetnx_failed =
      λ c m w w' e h. absurd (never_fails (prefix_values "om" (collection_name c) m) w _ e h);
}
