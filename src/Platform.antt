-- ===== src/Platform.antt =====
-- What the managers stand on: the interfaces of internal/db (`Platform/Store`, `Platform/Broker`),
-- internal/backoff (`Platform/Backoff`, `Platform/Retried`), the set library (`Platform/Sets`), and all of them in one
-- record (`Platform/Env`). `Platform/View` says what of the outside world the theorems speak of.
pub mod View
pub mod Store
pub mod Broker
pub mod Backoff
pub mod Retried
pub mod Sets
pub mod Env
