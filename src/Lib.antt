-- ===== src/Lib.antt =====
-- A verification library for the rivalry matchmaker.
--
-- The program. A client hands a match request ("ticket") to the frontend, which stores it and sends
-- it on the stream of its queue. An accumulator collects the tickets of one queue into batches. A
-- matcher reads the requests of a batch and asks the matchmaker, a service of the user, for matches;
-- each match takes its tickets, is stored and announced, and what is left goes back to the stream. A
-- dispenser asks for a game server for each announced match and writes it into the requests, whose
-- clients are told over pub-sub. The parts share a key value store (Redis), a stream and a pub-sub
-- channel, and nothing else. An operator deploys the parts on Kubernetes, with the arguments that make
-- them serve the queues of a profile.
--
-- The files.
--   Prelude: lists, maps, 32 bit integers, and Go's results and errors. `Action W A` is a call that
--     may fail, in a world `W`; `deferred` is a deferred function that looks at the error.
--   Wire: the structs of pkg/pb, one record each. A codec stands for protobuf.
--   Platform: internal/db/kv/interface.go, internal/db/stream/interface.go,
--     internal/db/pubsub/interface.go and internal/backoff/backoff.go, with what their callers rely
--     on. `View` is what the theorems see of the world: the entries of the store and the messages.
--     `Env` holds the clients and libraries that the managers call; `IsSound` says what is relied on.
--     A command of the store that fails may or may not have been carried out; `IsReliable` is a store
--     whose deletions go through and whose failed writes did nothing.
--   Redis: internal/db/kv/redis.go over the commands of go-redis, which are parameters.
--   Tickets: internal/managers/tickets/tickets.go. Convert has the conversions, Matching the
--     operations on the tickets of a match, Queue those on the streams.
--   Matches: internal/managers/matches/matches.go.
--   Accumulator: internal/app/backend/accumulator.go. A run is a list of the events that its two
--     handlers react to, since both run under one mutex; what they start is a list of effects.
--   CustomLogic: internal/managers/customlogic/customlogic.go. The gRPC clients are parameters, and
--     what `Recv` returns is a sequence that ends or breaks.
--   Matcher: internal/app/backend/matcher.go.
--   Dispenser: internal/app/backend/dispenser.go.
--   Frontend: internal/app/frontend/frontend.go. `match_player` is `Match` up to the moment that the
--     watch begins or ends; sending to the client and the text of an error are parameters.
--   Examples: examples/matchmaker/service/pairs.go and examples/assignment/service/service.go.
--   Decimal: fmt.Sprint of an int64.
--   Operator: cmd/operator/controllers/profile_controller.go. Profiles has the types of
--     cmd/operator/api/v1alpha1/profile_types.go. The cluster is a parameter: `Kubernetes` is the client
--     with the YAML library and the embedded templates, `IsKubernetes` what is relied on, `IsWorking` a
--     cluster that answers, `Admission` the objects that its API server accepts (a name that is no
--     Kubernetes name is refused). An object has the fields that the operator reads or sets.
--   Commands: cmd/accumulator/cmd/root.go, cmd/matcher/cmd/root.go, cmd/dispenser/cmd/root.go and
--     cmd/frontend/cmd/root.go. cobra and pflag are a parameter. `run` is RunE as a list of steps, with
--     what the outside answers as a `Runtime`; `Stop` and logging are not steps.
--     ClientCommand is cmd/frontend-cli/cmd/match.go, which asks the frontend for a match.
--   Nats: internal/db/stream/nats.go and internal/db/pubsub/nats.go over a NATS connection, which is a
--     parameter. What `Unsubscribe` and `Drain` return is dropped, as in the code.
--   System: the handlers of all services over one world, as events that come in any order. Acts says
--     what a handler can do to owners and stored matches; Calls, Handlers, Backends and Dispatch show it
--     of each handler. `Outside` has the services of the user, which are parameters.
--   Sample: a small world (a Redis in memory, brokers as logs, table codecs) that satisfies what the
--     theorems assume, for the tests and examples.
--
-- Function names are the source's, in lower case with underscores. A Go function that returns an
-- error returns a `Result`; a pointer that may be nil is an `Option`; a map is an association list
-- whose order is of no importance; a text stands for a slice of bytes. A callback that may panic
-- returns `none` for the panic. The only fuel is that of the decimal notation of a number n, which has
-- at most n + 1 digits. The only unbounded loop is the retry of cenkalti/backoff, a parameter, of which
-- `Attempts` says that each attempt but the last one failed.
--
-- Not modelled: the end of a context (it shows as a policy that gives up, or as the end of a watch),
-- logging, and generated code. Expiration is always 0 in the program. The goroutines that publish the
-- assignments of a match are run one after another. The start of the operator,
-- internal/dlm and internal/db/pubsub/redis.go, which nothing uses, the configuration files of the
-- commands, which no flag is bound to, and the load and system tests are left out. The theorems on the
-- managers and services assume `IsSound` of their clients and libraries, those on the operator
-- `IsKubernetes` of the cluster, and those on the commands `IsCobra` of the parser of their flags.
pub mod Prelude
pub mod Wire
pub mod Platform
pub mod Redis
pub mod Tickets
pub mod Matches
pub mod Accumulator
pub mod Commands
pub mod CustomLogic
pub mod Decimal
pub mod Dispenser
pub mod Examples
pub mod Frontend
pub mod Matcher
pub mod Nats
pub mod Operator
pub mod System
pub mod Sample
