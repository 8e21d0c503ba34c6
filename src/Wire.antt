-- ===== src/Wire.antt =====
-- The messages of pkg/pb: api/v1 (`Wire/Api`), db/v1 (`Wire/Documents`) and stream/v1
-- (`Wire/Streams`), each struct with the fields of its schema. A pointer to a message is an
-- `Option`, a repeated field a list (its elements are never nil after `proto.Unmarshal`), bytes
-- are a text, and a float64 is its bit pattern, since the code only copies it.
pub mod Api
pub mod Documents
pub mod Streams
pub mod Codec
