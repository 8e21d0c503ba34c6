-- ===== src/Accumulator/Invariant.antt =====
-- The pool of an accumulator between two handlers, and what it forwards.
use rivalry.Prelude.{
  String, ℕ, zero, suc, negsuc, leb, sym, ◌∙◌, ◌≤◌, ◌<◌, ◌+◌, ℤ, pos, leb_ℤ, ◌≡◌, refl, true, false,
  List, [], ◌∷◌, ◌++◌, length, length-append, contains, contains-append, IsDistinct,
  IsDistinct-append_one, All, All-append, eq_iff, arith, Bool-cases, inl, inr, subst,
}
use rivalry.Wire.Streams.{StreamTicket}
use rivalry.Platform.Sets.{SetLib, AreSets}
use rivalry.Accumulator.{
  Accumulator, AccumulatorConfig, Effect, reset_timeout, forward, Event, delivered, timed_out,
  new_accumulator, reset_run, on_ticket, on_timeout, step, run,
}

abbrev pub ids : List StreamTicket → List String
ids [] = []
ids (st ∷ sts) = st.match_request_id ∷ ids sts

pub ids-append : (xs ys : List StreamTicket) → ids (xs ++ ys) ≡ ids xs ++ ids ys
ids-append [] ys = refl
ids-append (x ∷ xs) ys = rw (ids-append xs ys)

-- The pool is never larger than the limit, nor than one ticket where the limit is not positive.
abbrev pub limit : ℤ → ℕ
limit (pos (suc n)) = suc n
limit _ = 1

-- A batch that may be forwarded: no ticket twice, at least one, and at most the limit.
pub record IsBatch (max : ℤ) (sts : List StreamTicket) : Type 0 where
  pub distinct : IsDistinct (ids sts)
  pub positive : 1 ≤ length sts
  pub bounded : length sts ≤ limit max

abbrev pub IsAllowed : ℤ → Effect → Type 0
IsAllowed max (reset_timeout _) = Unit
IsAllowed max (forward sts) = IsBatch max sts

limit_pos : (max : ℤ) → 0 < limit max
limit_pos (pos zero) = omega arith
limit_pos (pos (suc n)) = omega arith
limit_pos (negsuc n) = omega arith

-- A count that does not reach the configured maximum is below the limit.
below_limit : (max : ℤ) (n : ℕ) → 1 ≤ n → leb_ℤ max (pos n) ≡ false → n < limit max
below_limit (pos zero) n p h = ground arith
below_limit (pos (suc m)) n p h = ground arith
below_limit (negsuc m) n p h = ground arith

-- The set holds the identifiers of the pool, each once, and the pool is not full.
pub record IsPool {S : Type 0} (sets : SetLib S) (a : Accumulator S) : Type 0 where
  pub tracked :
      (k : String) → sets.has k a.match_requests_seen ≡ contains k (ids a.match_request_slice)
  pub counted : sets.cardinality a.match_requests_seen ≡ length a.match_request_slice
  pub distinct : IsDistinct (ids a.match_request_slice)
  pub below : length a.match_request_slice < limit a.config.max_tickets

-- What a handler leaves and forwards, from a pool with this configuration.
pub record IsHandled {S : Type 0} (sets : SetLib S) (c : AccumulatorConfig)
    (r : Accumulator S × List Effect) : Type 0 where
  pub pool : IsPool sets r.0
  pub config_kept : r.0.config ≡ c
  pub allowed : All (IsAllowed c.max_tickets) r.1

module _ {S : Type 0} {sets : SetLib S} (laws : AreSets sets) where
  pub new_accumulator-IsPool :
      (queue : String) (config : AccumulatorConfig)
      → IsPool sets (new_accumulator sets queue config)
  unfolding new_accumulator
  new_accumulator-IsPool queue config = record {
    tracked = λ k. laws.has-new_set k;
    counted = laws.cardinality-new_set;
    distinct = tt;
    below = limit_pos config.max_tickets;
  }

  reset_run-IsPool : (a : Accumulator S) → IsPool sets (reset_run sets a)
  unfolding reset_run
  reset_run-IsPool a = record {
    tracked = λ k. laws.has-new_set k;
    counted = laws.cardinality-new_set;
    distinct = tt;
    below = limit_pos a.config.max_tickets;
  }

  -- Each handler keeps the pool in order and forwards only batches.
  on_timeout-IsHandled :
      (a : Accumulator S) → IsPool sets a → IsHandled sets a.config (on_timeout sets a)
  unfolding on_timeout
  on_timeout-IsHandled a p = elim (Bool-cases (leb 1 (length a.match_request_slice))) [
    | inl some_waiting ↦ rw some_waiting (record {
      pool = reset_run-IsPool a;
      config_kept = refl;
      allowed = (
        record { distinct = p.distinct; positive = ground arith; bounded = omega (arith, p.below) },
        tt,
      );
    })
    | inr none_waiting ↦ rw none_waiting (record { pool = p; config_kept = refl; allowed = tt })
  ]

  -- A ticket that the set holds already is dropped.
  on_ticket_old :
      (st : StreamTicket) (a : Accumulator S)
      → sets.has st.match_request_id a.match_requests_seen ≡ true
      → on_ticket sets st a ≡ (
        record a { match_requests_seen = (sets.add st.match_request_id a.match_requests_seen).1 },
        [],
      )
  unfolding on_ticket
  on_ticket_old st a h = rw (laws.add-new st.match_request_id a.match_requests_seen, h)

  old-IsPool :
      (k : String) (a : Accumulator S)
      → IsPool sets a
      → sets.has k a.match_requests_seen ≡ true
      → IsPool sets (record a { match_requests_seen = (sets.add k a.match_requests_seen).1 })
  old-IsPool k a p h = record {
    tracked = λ j. ground (arith, laws.has-add k j a.match_requests_seen, eq_iff j k, p.tracked j);
    counted = ground (arith, laws.cardinality-add k a.match_requests_seen, p.counted);
    distinct = p.distinct;
    below = p.below;
  }

  -- What holds of the pool with a new ticket in it, before its size is looked at.
  module _ (st : StreamTicket) (a : Accumulator S) (p : IsPool sets a)
      (is_new : sets.has st.match_request_id a.match_requests_seen ≡ false) where
    grown_seen : S
    grown_seen = (sets.add st.match_request_id a.match_requests_seen).1

    grown_tracked :
        (j : String) → sets.has j grown_seen ≡ contains j (ids (a.match_request_slice ++ st ∷ []))
    unfolding grown_seen
    grown_tracked j = rw (ids-append a.match_request_slice (st ∷ [])) (
        rw (contains-append j (ids a.match_request_slice) (st.match_request_id ∷ []))
          (ground (arith, laws.has-add st.match_request_id j a.match_requests_seen, p.tracked j)))

    grown_counted : sets.cardinality grown_seen ≡ length (a.match_request_slice ++ st ∷ [])
    unfolding grown_seen
    grown_counted = ground (
      arith,
      laws.cardinality-add st.match_request_id a.match_requests_seen,
      p.counted,
      length-append a.match_request_slice (st ∷ []),
    )

    grown_distinct : IsDistinct (ids (a.match_request_slice ++ st ∷ []))
    grown_distinct = rw (ids-append a.match_request_slice (st ∷ [])) (
        IsDistinct-append_one _ st.match_request_id p.distinct
          (sym (p.tracked st.match_request_id) ∙ is_new))

    grown_length : length (a.match_request_slice ++ st ∷ []) ≡ length a.match_request_slice + 1
    grown_length = length-append a.match_request_slice (st ∷ [])

    on_ticket_new-IsHandled : IsHandled sets a.config (on_ticket sets st a)
    unfolding on_ticket grown_seen
    on_ticket_new-IsHandled =
        rw (laws.add-new st.match_request_id a.match_requests_seen, is_new)
          (elim (Bool-cases (leb_ℤ a.config.max_tickets (pos (sets.cardinality grown_seen)))) [
            | inl full ↦ rw full (record {
              pool = reset_run-IsPool a;
              config_kept = refl;
              allowed = (tt, (batch, tt));
            })
            | inr room ↦ rw room (record {
              pool = record {
                tracked = grown_tracked;
                counted = grown_counted;
                distinct = grown_distinct;
                below =
                    below_limit a.config.max_tickets _ (omega (arith, grown_length))
                      (rw (← grown_counted) room);
              };
              config_kept = refl;
              allowed = tt;
            })
          ])
      where
        batch : IsBatch a.config.max_tickets (a.match_request_slice ++ st ∷ [])
        batch = record {
          distinct = grown_distinct;
          positive = omega (arith, grown_length);
          bounded = omega (arith, grown_length, p.below);
        }

  on_ticket-IsHandled :
      (st : StreamTicket) (a : Accumulator S)
      → IsPool sets a
      → IsHandled sets a.config (on_ticket sets st a)
  on_ticket-IsHandled st a p =
      elim (Bool-cases (sets.has st.match_request_id a.match_requests_seen)) [
        | inl old ↦ rw (on_ticket_old st a old) (record {
          pool = old-IsPool st.match_request_id a p old;
          config_kept = refl;
          allowed = tt;
        })
        | inr is_new ↦ on_ticket_new-IsHandled st a p is_new
      ]

  pub step-IsHandled :
      (e : Event) (a : Accumulator S) → IsPool sets a → IsHandled sets a.config (step sets e a)
  unfolding step
  step-IsHandled (delivered st) a p = on_ticket-IsHandled st a p
  step-IsHandled timed_out a p = on_timeout-IsHandled a p

  -- However deliveries and ticks follow one another from a pool in order: the pool stays in order
  -- (its set holds the pool's identifiers, each is there once, and it is below the limit), the
  -- configuration is kept, and each batch forwarded has between one ticket and the limit, none
  -- twice.
  pub run-IsHandled :
      (es : List Event) (a : Accumulator S)
      → IsPool sets a
      → IsHandled sets a.config (run sets es a)
  unfolding run
  run-IsHandled [] a p = record { pool = p; config_kept = refl; allowed = tt }
  run-IsHandled (e ∷ es) a p =
      let now = step-IsHandled e a p in
      let later = run-IsHandled es (step sets e a).0 now.pool in
      record {
        pool = later.pool;
        config_kept = later.config_kept ∙ now.config_kept;
        allowed = All-append (IsAllowed a.config.max_tickets) (step sets e a).1 _ now.allowed (
            subst (λ c. All (IsAllowed c.max_tickets) (run sets es (step sets e a).0).1)
              now.config_kept later.allowed);
      }
