-- ===== src/Commands/Configured/Frontend.antt =====
-- The frontend, started with the arguments of its deployment.
use rivalry.Prelude.{
  String, ◌==◌, ◌≡◌, refl, sym, ap, ◌∙◌, true, false, Option, none, some, List, [], ◌∷◌, ◌++◌, All,
  append-nil, append_assoc,
}
use rivalry.Operator.Profiles.{Profile, MatchmakingQueue}
use rivalry.Operator.Cluster.{Deployment}
use rivalry.Operator.{frontend_of, queue_args}
use rivalry.Commands.Flags.{
  Cobra, IsCobra, Given, Value, Values, spelled, texts_of, final_value, set_all, string_value,
  strings_value, names, is_plain,
}
use rivalry.Commands.Steps.{
  Runtime, listen, serve_frontend, close_store, close_stream, close_pubsub,
}
use rivalry.Commands.FrontendCommand
use rivalry.Commands.Configured.{IsUp, IsStarted, HasClients, opened, opening_up}
use rivalry.Commands.Configured.Limits.{each, texts_of-each, texts_of_other, each-declared}

abbrev queue_names : List MatchmakingQueue → List String
queue_names [] = []
queue_names (q ∷ qs) = q.name ∷ queue_names qs

-- The queues that the frontend serves for a profile.
abbrev pub served_queues : List MatchmakingQueue → List String
served_queues [] = "default" ∷ []
served_queues (q ∷ qs) = queue_names (q ∷ qs)

queue_args_lem :
    (qs : List MatchmakingQueue) → spelled (each "queues" (queue_names qs)) ≡ queue_args qs
unfolding queue_args
queue_args_lem [] = refl
queue_args_lem (q ∷ qs) = rw (queue_args_lem qs) refl

set_all-strings :
    (c : Cobra)
    → IsCobra c
    → (qs : List MatchmakingQueue) (ss : List String) → All (λ q. is_plain q.name ≡ true) qs
    → set_all c.parsers (strings_value ss) (queue_names qs)
      ≡ some (strings_value (ss ++ queue_names qs))
set_all-strings c cobra [] ss h = ap (λ x. some (strings_value x)) (sym (append-nil ss))
set_all-strings c cobra (q ∷ qs) ss (h, hs) =
    ap add (cobra.read_as_csv_lem q.name h)
    ∙ set_all-strings c cobra qs (ss ++ q.name ∷ []) hs
    ∙ ap (λ x. some (strings_value x)) (append_assoc ss (q.name ∷ []) (queue_names qs))
  where
    add : Option (List String) → Option Value
    add o = elim o [
      | none ↦ none
      | some more ↦ set_all c.parsers (strings_value (ss ++ more)) (queue_names qs)
    ]

final_value-queues :
    (c : Cobra)
    → IsCobra c
    → (qs : List MatchmakingQueue) → All (λ q. is_plain q.name ≡ true) qs
    → final_value c.parsers (strings_value ("default" ∷ [])) (queue_names qs)
      ≡ some (strings_value (served_queues qs))
final_value-queues c cobra [] h = refl
final_value-queues c cobra (q ∷ qs) h = set_all-strings c cobra (q ∷ qs) [] h

module _ (i : Profile) where
  abbrev queues_given : Given
  queues_given = each "queues" (queue_names i.spec.matchmaking_queues)

  abbrev given : Given
  given = ("nats_addr", i.spec.nats_address) ∷ ("redis_addr", i.spec.redis_address) ∷ queues_given

  queues_other : (n : String) → ("queues" == n) ≡ false → texts_of n queues_given ≡ []
  queues_other n h = texts_of_other n "queues" (queue_names i.spec.matchmaking_queues) h

  texts_of_queues : texts_of "queues" queues_given ≡ queue_names i.spec.matchmaking_queues
  texts_of_queues = texts_of-each "queues" (queue_names i.spec.matchmaking_queues)

  spelled_lem : (s : Deployment) → s.args ≡ [] → spelled given ≡ (frontend_of i s).args
  unfolding frontend_of
  spelled_lem s e = rw (e, queue_args_lem i.spec.matchmaking_queues) refl

-- The steps of the command, once its flags have these values.
run_as_set :
    (rt : Runtime) (i : Profile) (values : Values)
    → IsUp rt
    → HasClients i values
    → values "address" ≡ some (string_value ":50051")
    → values "queues" ≡ some (strings_value (served_queues i.spec.matchmaking_queues))
    → FrontendCommand.run rt values [] ≡ (
        let t =
          (listen ":50051" ∷ opened i)
          ++ serve_frontend (served_queues i.spec.matchmaking_queues) ∷ [] in
        (some (rt.run t), t ++ close_store ∷ close_stream ∷ close_pubsub ∷ []))
unfolding FrontendCommand.run FrontendCommand.listening FrontendCommand.if_listening
run_as_set rt i values up clients address queues =
    rw (address, up.listen_up [] ":50051")
      (opening_up rt i values _ (listen ":50051" ∷ []) up clients ∙ rw queues refl)

-- The arguments that the operator gives to the frontend make it listen on port 50051, open the
-- profile's clients and serve the queues of the profile, or the queue "default" if it has none, where
-- everything that it asks for is granted and no name of a queue is empty or has a comma, a quote or a
-- line end.
pub frontend_of-IsStarted :
    (c : Cobra)
    → IsCobra c
    → (rt : Runtime) → IsUp rt
    → (i : Profile) (s : Deployment) → s.args ≡ []
    → All (λ q. is_plain q.name ≡ true) i.spec.matchmaking_queues
    → IsStarted c rt FrontendCommand.flags FrontendCommand.run
        (frontend_of i s).args
        ((listen ":50051" ∷ opened i)
          ++ serve_frontend (served_queues i.spec.matchmaking_queues) ∷ [])
        (close_store ∷ close_stream ∷ close_pubsub ∷ [])
frontend_of-IsStarted c cobra rt up i s e plain =
    let queues_set = final_value-queues c cobra i.spec.matchmaking_queues plain in
    let (values, parsed, (v_address, (_, (v_unix, (v_redis, (v_nats, (v_queues, _))))))) =
      cobra.execute_lem FrontendCommand.flags (given i)
        (refl, (refl, (refl, (refl, (refl, (refl, tt))))))
        (
          refl,
          (
            refl,
            each-declared "queues" (queue_names i.spec.matchmaking_queues)
                (names FrontendCommand.flags) refl,
          ),
        )
        (
          rw (queues_other i "address" refl) (cc, λ r. cc),
          (
            rw (queues_other i "config" refl) (cc, λ r. cc),
            (
              rw (queues_other i "redis_unix" refl) (cc, λ r. cc),
              (
                rw (queues_other i "redis_addr" refl) (cc, λ _. cc),
                (
                  rw (queues_other i "nats_addr" refl) (cc, λ _. cc),
                  (rw (texts_of_queues i, queues_set) (cc, λ r. cc), tt),
                ),
              ),
            ),
          ),
        ) in
    let clients : HasClients i values = record {
      redis_unix_set = rw (queues_other i "redis_unix" refl) at v_unix;
      redis_addr_set = rw (queues_other i "redis_addr" refl) at v_redis;
      nats_addr_set = rw (queues_other i "nats_addr" refl) at v_nats;
    } in
    (
      values,
      rw (← spelled_lem i s e) parsed,
      run_as_set rt i values up clients (rw (queues_other i "address" refl) at v_address) (
          v_queues
          ∙ ap (final_value c.parsers (strings_value ("default" ∷ []))) (texts_of_queues i)
          ∙ queues_set),
    )
