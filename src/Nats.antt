-- ===== src/Nats.antt =====
-- internal/db/stream/nats.go and internal/db/pubsub/nats.go: the brokers' clients over a NATS
-- connection, which is a parameter. The callbacks of a subscription are run by the library.
pub mod Closes
mod Tests
use rivalry.Prelude.{String, List, [], ◌∷◌, ◌++◌}
use rivalry.Prelude.Results.{Action, Result, ok, err}

-- The calls of nats.go; what `Unsubscribe` and the two `Drain` return is dropped. `wait` is what
-- happens until the context is done.
pub record Connection (W Subscription : Type 0) : Type 0 where
  pub publish : String → String → Action W (Unit {0})
  pub queue_subscribe : String → String → Action W Subscription
  pub subscribe : String → Action W Subscription
  pub unsubscribe : Subscription → W → W
  pub drain_subscription : Subscription → W → W
  pub drain : W → W
  pub wait : W → W

-- The stream's client, which remembers its subscriptions.
pub record NatsStream (Subscription : Type 0) : Type 0 where
  pub subs : List Subscription
  pub group : String

module _ {W Subscription : Type 0} (nc : Connection W Subscription) where
  -- `NewNATS` once the connection is there.
  pub new_nats : String → NatsStream Subscription
  new_nats group = record { subs = []; group = group }

  pub send_message : String → String → Action W (Unit {0})
  send_message topic value = nc.publish topic value

  remember :
      NatsStream Subscription
      → Result Subscription × W
      → (Result (Unit {0}) × NatsStream Subscription) × W
  remember n (ok sub, w) = ((ok tt, record n { subs = n.subs ++ sub ∷ [] }), w)
  remember n (err e, w) = ((err e, n), w)

  pub subscribe :
      String → NatsStream Subscription → W → (Result (Unit {0}) × NatsStream Subscription) × W
  unfolding remember
  subscribe topic n w = remember n (nc.queue_subscribe topic n.group w)

  -- The loop of `Close`.
  release : List Subscription → W → W
  release [] w = w
  release (sub ∷ subs) w = release subs (nc.drain_subscription sub (nc.unsubscribe sub w))

  pub close : NatsStream Subscription → W → W
  unfolding release
  close n w = nc.drain (release n.subs w)

  -- The pub-sub client: `Publish`, and `Subscribe`, which lasts until the context is done.
  pub publish : String → String → Action W (Unit {0})
  publish topic value = nc.publish topic value

  until_done : Result Subscription × W → Result (Unit {0}) × W
  until_done (ok sub, w) = (ok tt, nc.unsubscribe sub (nc.wait w))
  until_done (err e, w) = (err e, w)

  pub watch : String → Action W (Unit {0})
  unfolding until_done
  watch topic w = until_done (nc.subscribe topic w)

  -- Subscriptions one after another; an error is the caller's.
  pub subscribe_all : List String → NatsStream Subscription → W → NatsStream Subscription × W
  unfolding subscribe
  subscribe_all [] n w = (n, w)
  subscribe_all (topic ∷ topics) n w = let r = subscribe topic n w in subscribe_all topics r.0.1 r.1
