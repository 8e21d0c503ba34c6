-- ===== src/CustomLogic.antt =====
-- internal/managers/customlogic/customlogic.go: the calls of the user's matchmaker and assignment
-- services. Their gRPC clients are generated code, so they are parameters.
use rivalry.Prelude.{Option, some}
use rivalry.Prelude.Results.{Action, Result, ok, err, Error, unless_panic, pure, ◌>>=◌}
use rivalry.Wire.Api.{
  Match, GameServer, MakeMatchesRequest, MakeMatchesResponse, MakeAssignmentRequest,
  MakeAssignmentResponse,
}

-- What `Recv` returns, call after call, until the stream ends with `io.EOF` or breaks.
pub data Answers : Type 0 where
  next : MakeMatchesResponse → Answers → Answers
  closed : Answers
  broken : Error → Answers

pub record MatchMakerServiceClient (W : Type 0) : Type 0 where
  pub make_matches : MakeMatchesRequest → Action W Answers

pub record AssignmentServiceClient (W : Type 0) : Type 0 where
  pub make_assignment : MakeAssignmentRequest → Action W MakeAssignmentResponse

-- The loop of `MakeMatches`. The callback changes the state `X`, or panics.
unfoldable pub receive :
    {X : Type 0} → (Option Match → X → Option X) → Answers → X → Option (Result (Unit {0}) × X)
receive f (next resp rest) x = unless_panic (receive f rest) (f resp.found x)
receive f closed x = some (ok tt, x)
receive f (broken e) x = some (err e, x)

module _ {W : Type 0} where
  -- `MakeMatches`, where `A` is what the callback keeps beside the world.
  unfoldable pub make_matches :
      MatchMakerServiceClient W
      → {A : Type 0} → MakeMatchesRequest
      → (Option Match → A × W → Option (A × W))
      → A × W
      → Option (Result (Unit {0}) × (A × W))
  make_matches client req f (a, w) =
      let (r, w') = client.make_matches req w in
      elim r [ err e ↦ some (err e, (a, w')) | ok answers ↦ receive f answers (a, w') ]

  -- The match and the game server may be nil.
  unfoldable pub make_assignment :
      AssignmentServiceClient W → Option Match → Action W (Option GameServer)
  make_assignment client m = do
    resp ← client.make_assignment (record { found = m })
    pure resp.game_server
