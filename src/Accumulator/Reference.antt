-- ===== src/Accumulator/Reference.antt =====
-- The accumulator against a plain description of its batches, which is a function of the tickets that
-- wait and keeps neither a set nor a list of effects.
use rivalry.Prelude.{
  ◌≡◌, refl, ap, ◌∙◌, true, ℤ, pos, leb, leb_ℤ, List, [], ◌∷◌, ◌++◌, contains, length,
  length-append, if◌then◌else◌, String, arith,
}
use rivalry.Wire.Streams.{StreamTicket}
use rivalry.Platform.Sets.{SetLib, AreSets}
use rivalry.Accumulator.{
  Accumulator, AccumulatorConfig, Effect, reset_timeout, forward, Event, delivered, timed_out,
  new_accumulator, reset_run, on_ticket, on_timeout, step, run,
}
use rivalry.Accumulator.Invariant.{ids, IsPool, IsHandled, step-IsHandled, new_accumulator-IsPool}

-- The batches that were forwarded, oldest first.
abbrev pub batches_of : List Effect → List (List StreamTicket)
batches_of [] = []
batches_of (reset_timeout _ ∷ es) = batches_of es
batches_of (forward sts ∷ es) = sts ∷ batches_of es

batches_of-append : (xs ys : List Effect) → batches_of (xs ++ ys) ≡ batches_of xs ++ batches_of ys
batches_of-append [] ys = refl
batches_of-append (reset_timeout _ ∷ xs) ys = batches_of-append xs ys
batches_of-append (forward sts ∷ xs) ys = ap (λ l. sts ∷ l) (batches_of-append xs ys)

-- A ticket waits unless one of its identifier waits; the tickets are a batch once there are `max` of
-- them, or when the timer fires and there are any.
abbrev pub next : ℤ → Event → List StreamTicket → List StreamTicket × List (List StreamTicket)
next max (delivered st) waiting =
    if contains st.match_request_id (ids waiting)
    then (waiting, [])
    else if leb_ℤ max (pos (length (waiting ++ st ∷ [])))
    then ([], (waiting ++ st ∷ []) ∷ [])
    else (waiting ++ st ∷ [], [])
next max timed_out [] = ([], [])
next max timed_out (st ∷ sts) = ([], (st ∷ sts) ∷ [])

abbrev pub batched :
    ℤ → List Event → List StreamTicket → List StreamTicket × List (List StreamTicket)
batched max [] waiting = (waiting, [])
batched max (e ∷ es) waiting =
    let now = next max e waiting in let later = batched max es now.0 in (later.0, now.1 ++ later.1)

-- What waits and what was forwarded.
abbrev pub outcome :
    {S : Type 0} → Accumulator S × List Effect → List StreamTicket × List (List StreamTicket)
outcome r = (r.0.match_request_slice, batches_of r.1)

module _ {S : Type 0} {sets : SetLib S} (laws : AreSets sets) where
  on_ticket-next :
      (st : StreamTicket) (a : Accumulator S)
      → IsPool sets a
      → outcome (on_ticket sets st a)
        ≡ next a.config.max_tickets (delivered st) a.match_request_slice
  unfolding on_ticket reset_run
  on_ticket-next st a p = ground (
    arith,
    laws.add-new st.match_request_id a.match_requests_seen,
    laws.cardinality-add st.match_request_id a.match_requests_seen,
    p.tracked st.match_request_id,
    p.counted,
    length-append a.match_request_slice (st ∷ []),
  )

  on_timeout-next :
      (a : Accumulator S) (sts : List StreamTicket)
      → a.match_request_slice ≡ sts
      → outcome (on_timeout sets a) ≡ next a.config.max_tickets timed_out sts
  unfolding on_timeout reset_run
  on_timeout-next a [] e = rw e refl
  on_timeout-next a (st ∷ sts) e =
      let some_wait : leb 1 (length (st ∷ sts)) ≡ true = ground arith in rw (e, some_wait) refl

  step-next :
      (e : Event) (a : Accumulator S)
      → IsPool sets a
      → outcome (step sets e a) ≡ next a.config.max_tickets e a.match_request_slice
  unfolding step
  step-next (delivered st) a p = on_ticket-next st a p
  step-next timed_out a p = on_timeout-next a a.match_request_slice refl

  run_batched :
      (es : List Event) (a : Accumulator S)
      → IsPool sets a
      → outcome (run sets es a) ≡ batched a.config.max_tickets es a.match_request_slice
  unfolding run
  run_batched [] a p = refl
  run_batched (e ∷ es) a p =
      ap (λ l. ((run sets es (step sets e a).0).0.match_request_slice, l))
        (batches_of-append (step sets e a).1 (run sets es (step sets e a).0).1)
      ∙ then_later (outcome (step sets e a)) (step-next e a p) (
          run_batched es (step sets e a).0 handled.pool
          ∙ ap (λ c. batched c.max_tickets es (step sets e a).0.match_request_slice)
              handled.config_kept)
    where
      handled : IsHandled sets a.config (step sets e a)
      handled = step-IsHandled laws e a p

      then_later :
          (now : List StreamTicket × List (List StreamTicket))
          → now ≡ next a.config.max_tickets e a.match_request_slice
          → outcome (run sets es (step sets e a).0) ≡ batched a.config.max_tickets es now.0
          → (
            (run sets es (step sets e a).0).0.match_request_slice,
            now.1 ++ batches_of (run sets es (step sets e a).0).1,
          )
            ≡ batched a.config.max_tickets (e ∷ es) a.match_request_slice
      then_later now q later =
          ap (λ r. (r.0, now.1 ++ r.1)) later
          ∙ ap (λ n. let r = batched a.config.max_tickets es n.0 in (r.0, n.1 ++ r.1)) q

  -- Whatever is delivered and however often the timer fires, the batches that a new accumulator
  -- forwards and the tickets that wait at the end are those of the plain description, for its limit.
  pub run-batched :
      (queue : String) (config : AccumulatorConfig) (es : List Event)
      → outcome (run sets es (new_accumulator sets queue config)) ≡ batched config.max_tickets es []
  unfolding new_accumulator
  run-batched queue config es =
      run_batched es (new_accumulator sets queue config) (new_accumulator-IsPool laws queue config)
