-- ===== src/Sample/Steady.antt =====
-- The environment of World over a stream that takes each message.
use rivalry.Prelude.{
  String, ◌≡◌, refl, List, [], ◌∷◌, ◌++◌, Map, some, none, Option, lookup, values, subst, to_int32,
  All-IsIn, value-IsIn,
}
use rivalry.Prelude.Results.{ok, err, external}
use rivalry.Wire.Documents
use rivalry.Platform.Broker.{StreamClient, IsStream}
use rivalry.Platform.Env.{Env, IsSound}
use rivalry.Tickets.{stream_ticket_from_db_request}
use rivalry.Tickets.Queue.Resent.{IsAnswering, CanMarshal}
use rivalry.Redis.{mget}
use rivalry.Sample.Memory.{Memory, memory_view, redis}
use rivalry.Sample.World.{env, env-IsSound, ticket, documents}

abbrev up : StreamClient Memory
up = record {
  send_message = λ topic b w. (ok tt, record w { sent = w.sent ++ (topic, b) ∷ [] });
  subscribe = λ _ w. (ok tt, w);
}

abbrev pub steady : Env Memory (List String)
steady = record env { stream_client = up }

up-IsStream : IsStream memory_view up
up-IsStream = record { send_message_lem = λ topic b w. (refl, refl, refl) }

pub steady-IsSound : IsSound memory_view steady
steady-IsSound = record {
  store_lem = env-IsSound.store_lem;
  stream_lem = up-IsStream;
  pubsub_lem = env-IsSound.pubsub_lem;
  backoff_lem = env-IsSound.backoff_lem;
  sets_lem = env-IsSound.sets_lem;
  match_requests_lem = env-IsSound.match_requests_lem;
  stream_tickets_lem = env-IsSound.stream_tickets_lem;
  accumulated_lem = env-IsSound.accumulated_lem;
  matches_lem = env-IsSound.matches_lem;
  now-IsSame = env-IsSound.now-IsSame;
  new_id-IsSame = env-IsSound.new_id-IsSame;
}

mget_done :
    (ks : List String) (w : Memory)
    → (found : Map String) × (w' : Memory) × (mget redis "ticket_assignments" ks w ≡ (ok found, w'))
unfolding mget
mget_done [] w = ([], w, refl)
mget_done (k ∷ ks) w = (_, w, refl)

pub steady-IsAnswering : IsAnswering steady
steady-IsAnswering = record {
  send_done = λ topic b w. (record w { sent = w.sent ++ (topic, b) ∷ [] }, refl);
  mget_done = mget_done;
}

pub ticket_a : CanMarshal steady (ticket "a")
ticket_a = ("ticket a", refl)

pub ticket_b : CanMarshal steady (ticket "b")
ticket_b = ("ticket b", refl)

-- The requests that can be read are those of the two players.
pub readable_tickets :
    (x : String) (mr : Documents.MatchRequest)
    → steady.match_requests.unmarshal x ≡ ok mr
    → CanMarshal steady (stream_ticket_from_db_request mr)
unfolding stream_ticket_from_db_request to_int32
readable_tickets x mr h = at_entry (lookup x documents) refl h
  where
    Sendable : Documents.MatchRequest → Type 0
    Sendable d = CanMarshal steady (stream_ticket_from_db_request d)

    at_entry :
        (o : Option Documents.MatchRequest)
        → lookup x documents ≡ o
        → elim o [ none ↦ err (external "unknown") | some d ↦ ok d ] ≡ ok mr
        → Sendable mr
    at_entry none e q = cc
    at_entry (some d) e q =
        let same : d ≡ mr = cc in
        subst Sendable same (
          All-IsIn Sendable d (values documents) (ticket_a, (ticket_b, (ticket_a, (ticket_b, tt))))
            (value-IsIn x d documents e))
