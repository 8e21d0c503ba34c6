-- ===== src/Accumulator.antt =====
-- internal/app/backend/accumulator.go: the pool of tickets of one queue, which is forwarded as a
-- batch when it is full or when the timer fires. Both handlers run under `updateMux`, so a run of
-- the service is a sequence of them. What a handler starts or resets is an effect; `go
-- a.forwardAccumulatedRequests(…)` is the effect `forward`, with the slice that it was given.
pub mod Invariant
pub mod Batches
pub mod Reference
mod Tests
use rivalry.Prelude.{
  String, ℕ, ℤ, pos, leb_ℤ, Bool, true, false, List, [], ◌∷◌, ◌++◌, if◌then◌else◌, not, length, leb,
}
use rivalry.Wire.Streams.{StreamTicket}
use rivalry.Platform.Sets.{SetLib}

pub record AccumulatorConfig : Type 0 where
  pub max_tickets : ℤ
  pub max_delay : ℤ

pub record Accumulator (S : Type 0) : Type 0 where
  pub matchmaking_queue : String
  pub config : AccumulatorConfig
  pub match_requests_seen : S
  pub match_request_slice : List StreamTicket

pub data Effect : Type 0 where
  reset_timeout : ℤ → Effect
  forward : List StreamTicket → Effect

-- A delivery on the queue's stream, or a tick of the timer.
pub data Event : Type 0 where
  delivered : StreamTicket → Event
  timed_out : Event

module _ {S : Type 0} (sets : SetLib S) where
  open sets use {new_set, add, cardinality}

  pub new_accumulator : String → AccumulatorConfig → Accumulator S
  new_accumulator queue config = record {
    matchmaking_queue = queue;
    config = config;
    match_requests_seen = new_set;
    match_request_slice = [];
  }

  pub reset_run : Accumulator S → Accumulator S
  reset_run a = record a { match_request_slice = []; match_requests_seen = new_set }

  -- The callback that `Run` hands to `StreamMatchRequests`.
  pub on_ticket : StreamTicket → Accumulator S → Accumulator S × List Effect
  unfolding reset_run
  on_ticket st a =
      let (is_new, seen) = add st.match_request_id a.match_requests_seen in
      let a' : Accumulator S = record a {
        match_requests_seen = seen;
        match_request_slice = a.match_request_slice ++ st ∷ [];
      } in
      if not is_new
      then (record a { match_requests_seen = seen }, [])
      else if leb_ℤ a.config.max_tickets (pos (cardinality seen))
      then (reset_run a', reset_timeout a.config.max_delay ∷ forward a'.match_request_slice ∷ [])
      else (a', [])

  -- The body of the loop of `watchTimeout`.
  pub on_timeout : Accumulator S → Accumulator S × List Effect
  unfolding reset_run
  on_timeout a =
      if leb 1 (length a.match_request_slice)
      then (reset_run a, forward a.match_request_slice ∷ [])
      else (a, [])

  pub step : Event → Accumulator S → Accumulator S × List Effect
  step (delivered st) a = on_ticket st a
  step timed_out a = on_timeout a

  pub run : List Event → Accumulator S → Accumulator S × List Effect
  run [] a = (a, [])
  run (e ∷ es) a =
      let (a', effects) = step e a in let (a'', rest) = run es a' in (a'', effects ++ rest)
