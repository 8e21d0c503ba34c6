-- ===== src/Platform/Env.antt =====
-- The struct fields of the managers and the libraries that they call, in one record. All managers
-- of a process share the clients, as the commands under cmd/ wire them.
use rivalry.Prelude.{String, ℤ}
use rivalry.Wire.Codec.{Codec, IsFaithful}
use rivalry.Wire.Documents
use rivalry.Wire.Api
use rivalry.Wire.Streams
use rivalry.Platform.View.{View, IsSame}
use rivalry.Platform.Store.{Store, IsStore}
use rivalry.Platform.Broker.{StreamClient, PubsubClient, IsStream, IsPubsub}
use rivalry.Platform.Backoff.{BackoffLib, IsBackoff}
use rivalry.Platform.Sets.{SetLib, AreSets}

pub record Env (W S : Type 0) : Type 1 where
  pub kv_store : Store W
  pub stream_client : StreamClient W
  pub pubsub_client : PubsubClient W
  pub backoff : BackoffLib W
  pub sets : SetLib S
  pub match_requests : Codec Documents.MatchRequest
  pub stream_tickets : Codec Streams.StreamTicket
  pub accumulated : Codec Streams.AccumulatedStreamTicket
  pub matches : Codec Api.Match
  -- `time.Now().UTC().Unix()` and `xid.New().String()`
  pub now : W → ℤ × W
  pub new_id : W → String × W

pub record IsSound {W S : Type 0} (v : View W) (env : Env W S) : Type 1 where
  pub store_lem : IsStore v env.kv_store
  pub stream_lem : IsStream v env.stream_client
  pub pubsub_lem : IsPubsub v env.pubsub_client
  pub backoff_lem : IsBackoff env.backoff
  pub sets_lem : AreSets env.sets
  pub match_requests_lem : IsFaithful env.match_requests
  pub stream_tickets_lem : IsFaithful env.stream_tickets
  pub accumulated_lem : IsFaithful env.accumulated
  pub matches_lem : IsFaithful env.matches
  pub now-IsSame : (w : W) → IsSame v w (env.now w).1
  pub new_id-IsSame : (w : W) → IsSame v w (env.new_id w).1
