-- ===== src/Examples/Assignment.antt =====
-- examples/assignment/service/service.go: a game server on the local machine, on a random port.
-- `rand.Intn(n)` is the library's, a parameter: some number below `n`.
use rivalry.Prelude.{
  ℕ, ◌≡◌, ◌≤◌, ◌<◌, ◌+◌, refl, some, [], ◌∷◌, to_int32, to_int32_small, pos, arith,
}
use rivalry.Wire.Api.{GameServer, MakeAssignmentRequest, MakeAssignmentResponse}
use rivalry.Prelude.Results.{Action, ok}

module _ {W : Type 0} (intn : ℕ → W → ℕ × W) where
  unfoldable pub fake_server : ℕ → GameServer
  fake_server r = record {
    game_server_ip = "127.0.0.1";
    game_server_ports = record { name = "game"; port = to_int32 (1024 + r) } ∷ [];
  }

  unfoldable pub make_assignment : MakeAssignmentRequest → Action W MakeAssignmentResponse
  make_assignment req w =
      let (r, w') = intn 64511 w in (ok (record { game_server = some (fake_server r) }), w')

  -- Where the random number is below its bound, the service answers with one port, "game", from
  -- 1024 to 65534: the conversion to 32 bits changes nothing.
  pub make_assignment_in_range :
      (req : MakeAssignmentRequest) (w : W)
      → (intn 64511 w).0 < 64511
      → (port : ℕ) × (1024 ≤ port)
        × (port < 65535)
        × ((make_assignment req w).0
            ≡ ok (record {
              game_server = some (record {
                game_server_ip = "127.0.0.1";
                game_server_ports = record { name = "game"; port = pos port } ∷ [];
              });
            }))
  unfolding make_assignment fake_server
  make_assignment_in_range req w h = (
    1024 + (intn 64511 w).0,
    omega arith,
    omega (arith, h),
    rw (to_int32_small (1024 + (intn 64511 w).0) (omega (arith, h))) refl,
  )
