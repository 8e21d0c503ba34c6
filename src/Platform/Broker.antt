-- ===== src/Platform/Broker.antt =====
-- The clients of internal/db/stream/interface.go and internal/db/pubsub/interface.go. A message
-- whose sending failed was not sent.
use rivalry.Prelude.{String, ◌≡◌, [], ◌∷◌, ◌++◌}
use rivalry.Prelude.Results.{Action, Result, ok, err}
use rivalry.Platform.View.{View, IsSame}

-- Subscribing is an action; the callback is run by the broker, once for each message.
pub record StreamClient (W : Type 0) : Type 0 where
  pub send_message : String → String → Action W (Unit {0})
  pub subscribe : String → Action W (Unit {0})

pub record PubsubClient (W : Type 0) : Type 0 where
  pub publish : String → String → Action W (Unit {0})
  pub subscribe : String → Action W (Unit {0})

module _ {W : Type 0} (v : View W) where
  abbrev pub Sends : String → String → W → Result (Unit {0}) × W → Type 0
  Sends topic b w (ok _, w') =
      (v.entry w' ≡ v.entry w)
      × (v.sent w' ≡ v.sent w ++ (topic, b) ∷ [])
      × (v.published w' ≡ v.published w)
  Sends topic b w (err _, w') = IsSame v w w'

  abbrev pub Publishes : String → String → W → Result (Unit {0}) × W → Type 0
  Publishes subject b w (ok _, w') =
      (v.entry w' ≡ v.entry w)
      × (v.sent w' ≡ v.sent w)
      × (v.published w' ≡ v.published w ++ (subject, b) ∷ [])
  Publishes subject b w (err _, w') = IsSame v w w'

pub record IsStream {W : Type 0} (v : View W) (c : StreamClient W) : Type 0 where
  pub send_message_lem : (topic b : String) (w : W) → Sends v topic b w (c.send_message topic b w)

pub record IsPubsub {W : Type 0} (v : View W) (c : PubsubClient W) : Type 0 where
  pub publish_lem : (subject b : String) (w : W) → Publishes v subject b w (c.publish subject b w)
