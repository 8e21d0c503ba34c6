-- ===== src/Wire/Codec.antt =====
-- `proto.Marshal` and `proto.Unmarshal` at one message type. Both are the protobuf library's, so
-- they are parameters; what the code relies on is that a message survives the trip.
use rivalry.Prelude.{String, ◌≡◌}
use rivalry.Prelude.Results.{Result, ok}

pub record Codec (A : Type 0) : Type 0 where
  pub marshal : A → Result String
  pub unmarshal : String → Result A

pub record IsFaithful {A : Type 0} (c : Codec A) : Type 0 where
  pub unmarshal-marshal : (a : A) (b : String) → c.marshal a ≡ ok b → c.unmarshal b ≡ ok a
