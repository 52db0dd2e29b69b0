-- ===== src/Chain.antt =====
-- The chain state that every component works on (vochain/state/state.go), its data, its errors and
-- the form of its methods.
mod Types
mod Failure
mod Monad
pub mod Fallible
pub use Types.*
pub use Failure.*
pub use Monad.*
