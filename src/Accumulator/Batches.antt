-- ===== src/Accumulator/Batches.antt =====
-- What an accumulator forwards, against the sequence of its deliveries.
use rivalry.Prelude.{
  ◌≡◌, refl, sym, ap, ◌∙◌, true, false, ◌||◌, List, [], ◌∷◌, ◌++◌, append-nil, append_assoc,
  contains, contains-append, length, leb, if◌then◌else◌, String, arith, Bool-cases, inl, inr,
  eq_iff,
}
use rivalry.Wire.Streams.{StreamTicket}
use mathlib.Core.List.{Sublistᴰ}
use rivalry.Platform.Sets.{SetLib, AreSets}
use rivalry.Accumulator.{
  Accumulator, AccumulatorConfig, Effect, reset_timeout, forward, Event, delivered, timed_out,
  new_accumulator, reset_run, on_ticket, on_timeout, step, run,
}
use rivalry.Accumulator.Invariant.{ids, ids-append, IsPool, step-IsHandled, new_accumulator-IsPool}

-- The tickets of the batches that were forwarded, in order.
abbrev pub forwarded : List Effect → List StreamTicket
forwarded [] = []
forwarded (reset_timeout _ ∷ es) = forwarded es
forwarded (forward sts ∷ es) = sts ++ forwarded es

pub forwarded-append : (xs ys : List Effect) → forwarded (xs ++ ys) ≡ forwarded xs ++ forwarded ys
forwarded-append [] ys = refl
forwarded-append (reset_timeout _ ∷ xs) ys = forwarded-append xs ys
forwarded-append (forward sts ∷ xs) ys = rw (forwarded-append xs ys) (sym (append_assoc sts _ _))

-- What a delivery adds to a pool that holds the given tickets: itself, unless it is there already.
abbrev pub admitted : StreamTicket → List StreamTicket → List StreamTicket
admitted st waiting = if contains st.match_request_id (ids waiting) then [] else st ∷ []

abbrev pub accepted_one : Event → List StreamTicket → List StreamTicket
accepted_one (delivered st) waiting = admitted st waiting
accepted_one timed_out waiting = []

-- The tickets that the stream delivered, in order.
abbrev pub deliveries : List Event → List StreamTicket
deliveries [] = []
deliveries (delivered st ∷ es) = st ∷ deliveries es
deliveries (timed_out ∷ es) = deliveries es

empty_of_length : (sts : List StreamTicket) → leb 1 (length sts) ≡ false → sts ≡ []
empty_of_length [] h = refl
empty_of_length (st ∷ sts) h = ground arith

contains-ids-append :
    (k : String) (xs ys : List StreamTicket)
    → contains k (ids (xs ++ ys)) ≡ (contains k (ids xs) || contains k (ids ys))
contains-ids-append k xs ys = rw (ids-append xs ys) (contains-append k (ids xs) (ids ys))

module _ {S : Type 0} {sets : SetLib S} (laws : AreSets sets) where
  -- A delivery puts the ticket behind what is pooled, or drops a duplicate; nothing is lost.
  on_ticket_flow :
      (st : StreamTicket) (a : Accumulator S)
      → IsPool sets a
      → forwarded (on_ticket sets st a).1 ++ (on_ticket sets st a).0.match_request_slice
        ≡ a.match_request_slice ++ admitted st a.match_request_slice
  unfolding on_ticket reset_run
  on_ticket_flow st a p = ground (
    arith,
    laws.add-new st.match_request_id a.match_requests_seen,
    p.tracked st.match_request_id,
    append-nil (a.match_request_slice ++ st ∷ []),
    append-nil a.match_request_slice,
  )

  on_timeout_flow :
      (a : Accumulator S)
      → forwarded (on_timeout sets a).1 ++ (on_timeout sets a).0.match_request_slice
        ≡ a.match_request_slice
  unfolding on_timeout reset_run
  on_timeout_flow a = ground (arith, append-nil a.match_request_slice)

  step_flow :
      (e : Event) (a : Accumulator S)
      → IsPool sets a
      → forwarded (step sets e a).1 ++ (step sets e a).0.match_request_slice
        ≡ a.match_request_slice ++ accepted_one e a.match_request_slice
  unfolding step
  step_flow (delivered st) a p = on_ticket_flow st a p
  step_flow timed_out a p = on_timeout_flow a ∙ sym (append-nil a.match_request_slice)

  -- The deliveries of a run that were not dropped as duplicates.
  accepted : List Event → Accumulator S → List StreamTicket
  accepted [] a = []
  accepted (e ∷ es) a = accepted_one e a.match_request_slice ++ accepted es (step sets e a).0

  run_flow :
      (es : List Event) (a : Accumulator S)
      → IsPool sets a
      → forwarded (run sets es a).1 ++ (run sets es a).0.match_request_slice
        ≡ a.match_request_slice ++ accepted es a
  unfolding run accepted
  run_flow [] a p = sym (append-nil a.match_request_slice)
  run_flow (e ∷ es) a p =
      let (a', effects) = step sets e a in
      rw (forwarded-append effects (run sets es a').1) (
        append_assoc (forwarded effects) _ _
        ∙ ap (λ l. forwarded effects ++ l) (run_flow es a' (step-IsHandled laws e a p).pool)
        ∙ sym (append_assoc (forwarded effects) _ _)
        ∙ ap (λ l. l ++ accepted es a') (step_flow e a p)
        ∙ append_assoc a.match_request_slice _ _)

  accepted-Sublistᴰ :
      (es : List Event) (a : Accumulator S) → Sublistᴰ (accepted es a) (deliveries es)
  unfolding accepted
  accepted-Sublistᴰ [] a = Sublistᴰ.slnil
  accepted-Sublistᴰ (delivered st ∷ es) a =
      elim (Bool-cases (contains st.match_request_id (ids a.match_request_slice))) [
        | inl old ↦ rw old (Sublistᴰ.cons (accepted-Sublistᴰ es _))
        | inr is_new ↦ rw is_new (Sublistᴰ.cons-cons refl (accepted-Sublistᴰ es _))
      ]
  accepted-Sublistᴰ (timed_out ∷ es) a = accepted-Sublistᴰ es _

  -- Every delivered identifier is pooled already or accepted.
  accepted_covers :
      (es : List Event) (a : Accumulator S) (k : String)
      → IsPool sets a
      → contains k (ids (deliveries es)) ≡ true
      → (contains k (ids a.match_request_slice) || contains k (ids (accepted es a))) ≡ true
  unfolding accepted
  accepted_covers [] a k p h = ground arith
  accepted_covers (delivered st ∷ es) a k p h =
      let (a', effects) = step sets (delivered st) a in
      ground (
        arith,
        eq_iff k st.match_request_id,
        contains-ids-append k (admitted st a.match_request_slice) (accepted es a'),
        contains-ids-append k a.match_request_slice (admitted st a.match_request_slice),
        contains-ids-append k (forwarded effects) a'.match_request_slice,
        ap (λ l. contains k (ids l)) (step_flow (delivered st) a p),
        accepted_covers es a' k (step-IsHandled laws (delivered st) a p).pool,
      )
  accepted_covers (timed_out ∷ es) a k p h =
      let (a', effects) = step sets timed_out a in
      ground (
        arith,
        contains-ids-append k a.match_request_slice [],
        contains-ids-append k (forwarded effects) a'.match_request_slice,
        ap (λ l. contains k (ids l)) (step_flow timed_out a p),
        accepted_covers es a' k (step-IsHandled laws timed_out a p).pool,
      )

  -- A tick of the timer empties the pool into one batch, or finds it empty.
  on_timeout_empties :
      (a : Accumulator S)
      → (forwarded (on_timeout sets a).1 ≡ a.match_request_slice)
        × ((on_timeout sets a).0.match_request_slice ≡ [])
  unfolding on_timeout reset_run
  on_timeout_empties a = elim (Bool-cases (leb 1 (length a.match_request_slice))) [
    | inl some_waiting ↦ rw some_waiting (append-nil a.match_request_slice, refl)
    | inr none_waiting ↦
        rw none_waiting (let e = empty_of_length a.match_request_slice none_waiting in (sym e, e))
  ]

  -- From an empty pool, the tickets forwarded and those still waiting are deliveries, in their
  -- order, and none is there more often than it was delivered.
  pub run_in_order :
      (queue : String) (config : AccumulatorConfig) (es : List Event)
      → let (a, effects) = run sets es (new_accumulator sets queue config) in
        Sublistᴰ (forwarded effects ++ a.match_request_slice) (deliveries es)
  unfolding new_accumulator
  run_in_order queue config es =
      let start = new_accumulator sets queue config in
      rw (run_flow es start (new_accumulator-IsPool laws queue config)) (accepted-Sublistᴰ es start)

  -- After any run and one more tick of the timer, the pool is empty and every identifier that the
  -- stream delivered is in a forwarded batch.
  pub timeout_forwards_all :
      (queue : String) (config : AccumulatorConfig) (es : List Event) (k : String)
      → contains k (ids (deliveries es)) ≡ true
      → let (a, effects) = run sets es (new_accumulator sets queue config) in
        let (a', last) = on_timeout sets a in
        (contains k (ids (forwarded (effects ++ last))) ≡ true) × (a'.match_request_slice ≡ [])
  unfolding new_accumulator
  timeout_forwards_all queue config es k h =
      let start = new_accumulator sets queue config in
      let (a, effects) = run sets es start in
      let p = new_accumulator-IsPool laws queue config in
      let empties = on_timeout_empties a in
      (
        rw (forwarded-append effects (on_timeout sets a).1, empties.0, run_flow es start p)
            (accepted_covers es start k p h),
        empties.1,
      )
