-- ===== src/Commands/Configured/Accumulator.antt =====
-- The accumulator, started with the arguments of its deployment.
use Prim.Native.String.{◌++◌ as ◌<>◌}
use rivalry.Prelude.{
  String, ℕ, ℤ, pos, negsuc, zero, suc, ◌*◌, ◌≤◌, ◌<◌, ◌^◌, leb, ◌==◌, ◌≡◌, refl, ap, ◌∙◌, true,
  false, some, [], ◌∷◌, ◌++◌, All-append, arith, append-nil, to_int64_small,
}
use rivalry.Operator.Profiles.{Profile, MatchmakingQueue}
use rivalry.Operator.Cluster.{Deployment}
use rivalry.Operator.{accumulator_of, limit_args}
use rivalry.Commands.Flags.{
  Cobra, IsCobra, Given, Values, spelled, texts_of, final_value, string_value, int64_value, names,
}
use rivalry.Commands.Steps.{Runtime, run_accumulator, close_store, close_stream, close_pubsub}
use rivalry.Commands.AccumulatorCommand
use rivalry.Commands.AccumulatorCommand.{milliseconds}
use rivalry.Commands.Configured.{IsUp, IsStarted, HasClients, opened, opening_up}
use rivalry.Commands.Configured.Limits.{
  each, spelled-append, texts_of-append, texts_of-each, texts_of_other, each-declared, limit_texts,
  limit_or_default, final_value-limit,
}

module _ (i : Profile) (mp : MatchmakingQueue) where
  abbrev queue_given : Given
  queue_given =
      ("nats_addr", i.spec.nats_address)
      ∷ ("redis_addr", i.spec.redis_address)
      ∷ ("queue", mp.name)
      ∷ []

  abbrev limits_given : Given
  limits_given =
      each "max_tickets" (limit_texts mp.max_tickets) ++ each "max_delay" (limit_texts mp.max_delay)

  abbrev given : Given
  given = queue_given ++ limits_given

  limits_other :
      (n : String)
      → ("max_tickets" == n) ≡ false
      → ("max_delay" == n) ≡ false
      → texts_of n limits_given ≡ []
  limits_other n t d =
      rw
        (
          texts_of-append n (each "max_tickets" (limit_texts mp.max_tickets))
              (each "max_delay" (limit_texts mp.max_delay)),
          texts_of_other n "max_tickets" (limit_texts mp.max_tickets) t,
          texts_of_other n "max_delay" (limit_texts mp.max_delay) d,
        )
        refl

  texts_of_tickets : texts_of "max_tickets" limits_given ≡ limit_texts mp.max_tickets
  texts_of_tickets =
      rw
        (
          texts_of-append "max_tickets" (each "max_tickets" (limit_texts mp.max_tickets))
              (each "max_delay" (limit_texts mp.max_delay)),
          texts_of-each "max_tickets" (limit_texts mp.max_tickets),
          texts_of_other "max_tickets" "max_delay" (limit_texts mp.max_delay) refl,
        )
        (append-nil _)

  texts_of_delay : texts_of "max_delay" limits_given ≡ limit_texts mp.max_delay
  texts_of_delay =
      rw
        (
          texts_of-append "max_delay" (each "max_tickets" (limit_texts mp.max_tickets))
              (each "max_delay" (limit_texts mp.max_delay)),
          texts_of_other "max_delay" "max_tickets" (limit_texts mp.max_tickets) refl,
          texts_of-each "max_delay" (limit_texts mp.max_delay),
        )
        refl

  limit_args_lem :
      (n : String) (limit : ℤ) → spelled (each n (limit_texts limit)) ≡ limit_args ("--" <> n) limit
  unfolding limit_args
  limit_args_lem n (pos zero) = refl
  limit_args_lem n (pos (suc m)) = let set : leb 1 (suc m) ≡ true = ground arith in rw set refl
  limit_args_lem n (negsuc m) = refl

  spelled_lem : (s : Deployment) → s.args ≡ [] → spelled given ≡ (accumulator_of i mp s).args
  unfolding accumulator_of
  spelled_lem s e =
      rw
        (
          e,
          spelled-append (each "max_tickets" (limit_texts mp.max_tickets))
              (each "max_delay" (limit_texts mp.max_delay)),
          limit_args_lem "max_tickets" mp.max_tickets,
          limit_args_lem "max_delay" mp.max_delay,
        )
        refl

limit_positive : (limit : ℤ) → 1 ≤ limit_or_default limit
limit_positive (pos zero) = omega arith
limit_positive (pos (suc n)) = omega arith
limit_positive (negsuc n) = omega arith

delay_in_range :
    (n : ℕ)
    → 1 ≤ n
    → n * 1000000 < 2 ^ 63
    → (milliseconds (pos n) ≡ pos (n * 1000000)) × (leb 1 (n * 1000000) ≡ true)
unfolding milliseconds
delay_in_range n p h = (to_int64_small (n * 1000000) h, ground arith)

-- The steps of the command, once its flags have these values.
run_as_set :
    (rt : Runtime) (i : Profile) (mp : MatchmakingQueue) (values : Values)
    → IsUp rt
    → HasClients i values
    → values "queue" ≡ some (string_value mp.name)
    → values "max_tickets" ≡ some (int64_value (pos (limit_or_default mp.max_tickets)))
    → values "max_delay" ≡ some (int64_value (pos (limit_or_default mp.max_delay)))
    → limit_or_default mp.max_delay * 1000000 < 2 ^ 63
    → AccumulatorCommand.run rt values [] ≡ (
        let t =
          opened i
          ++ run_accumulator mp.name (record {
            max_tickets = pos (limit_or_default mp.max_tickets);
            max_delay = pos (limit_or_default mp.max_delay * 1000000);
          })
            ∷ [] in
        (some (rt.run t), t ++ close_store ∷ close_stream ∷ close_pubsub ∷ []))
unfolding AccumulatorCommand.run AccumulatorCommand.starting
run_as_set rt i mp values up clients queue tickets delay fits =
    let scaled =
      delay_in_range (limit_or_default mp.max_delay) (limit_positive mp.max_delay) fits in
    opening_up rt i values _ [] up clients ∙ rw (queue, tickets, delay, scaled.0, scaled.1) refl

-- The arguments that the operator gives to the accumulator of a queue make it open the profile's
-- clients and run for the queue with the queue's limits, or 1000 tickets and a second where they are
-- not positive, where everything that it asks for is granted and the delay in nanoseconds fits in 63
-- bits.
pub accumulator_of-IsStarted :
    (c : Cobra)
    → IsCobra c
    → (rt : Runtime) → IsUp rt
    → (i : Profile) (mp : MatchmakingQueue) (s : Deployment) → s.args ≡ []
    → limit_or_default mp.max_tickets < 2 ^ 63
    → limit_or_default mp.max_delay * 1000000 < 2 ^ 63
    → IsStarted c rt AccumulatorCommand.flags AccumulatorCommand.run
        (accumulator_of i mp s).args
        (opened i
          ++ run_accumulator mp.name (record {
            max_tickets = pos (limit_or_default mp.max_tickets);
            max_delay = pos (limit_or_default mp.max_delay * 1000000);
          })
            ∷ [])
        (close_store ∷ close_stream ∷ close_pubsub ∷ [])
accumulator_of-IsStarted c cobra rt up i mp s e tickets_fit delay_fits =
    let (values, parsed, (_, (v_unix, (v_redis, (v_nats, (v_queue, (v_tickets, (v_delay, _)))))))) =
      cobra.execute_lem AccumulatorCommand.flags (given i mp)
        (refl, (refl, (refl, (refl, (refl, (refl, (refl, tt)))))))
        (
          refl,
          (
            refl,
            (
              refl,
              All-append _ (each "max_tickets" (limit_texts mp.max_tickets)) _
                  (each-declared "max_tickets" (limit_texts mp.max_tickets)
                    (names AccumulatorCommand.flags) refl)
                  (each-declared "max_delay" (limit_texts mp.max_delay)
                    (names AccumulatorCommand.flags) refl),
            ),
          ),
        )
        (
          rw (limits_other i mp "config" refl refl) (cc, λ r. cc),
          (
            rw (limits_other i mp "redis_unix" refl refl) (cc, λ r. cc),
            (
              rw (limits_other i mp "redis_addr" refl refl) (cc, λ _. cc),
              (
                rw (limits_other i mp "nats_addr" refl refl) (cc, λ _. cc),
                (
                  rw (limits_other i mp "queue" refl refl) (cc, λ r. cc),
                  (
                    rw (texts_of_tickets i mp, final_value-limit c cobra mp.max_tickets tickets_fit)
                        (cc, λ r. cc),
                    (
                      rw (texts_of_delay i mp, final_value-limit c cobra mp.max_delay (omega arith))
                          (cc, λ r. cc),
                      tt,
                    ),
                  ),
                ),
              ),
            ),
          ),
        ) in
    let clients : HasClients i values = record {
      redis_unix_set = rw (limits_other i mp "redis_unix" refl refl) at v_unix;
      redis_addr_set = rw (limits_other i mp "redis_addr" refl refl) at v_redis;
      nats_addr_set = rw (limits_other i mp "nats_addr" refl refl) at v_nats;
    } in
    (
      values,
      rw (← spelled_lem i mp s e) parsed,
      run_as_set rt i mp values up clients (rw (limits_other i mp "queue" refl refl) at v_queue)
          (v_tickets
            ∙ ap (final_value c.parsers (int64_value (pos 1000))) (texts_of_tickets i mp)
            ∙ final_value-limit c cobra mp.max_tickets tickets_fit)
          (v_delay
            ∙ ap (final_value c.parsers (int64_value (pos 1000))) (texts_of_delay i mp)
            ∙ final_value-limit c cobra mp.max_delay (omega arith))
          delay_fits,
    )
