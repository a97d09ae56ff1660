-- ===== src/MetVoter.antt =====
-- programs/met-voter: locked-voter with an initial phase before the launch of the token.
mod State
mod VoterPower
mod Escrows
mod Deposits
pub mod Ballots
pub mod Program
mod Embedding
mod Simulation
pub mod Refinement
pub mod Phases
pub mod Casting
pub mod Custody
mod Tests
unfoldable pub use State.*
unfoldable pub use VoterPower.*
unfoldable pub use Escrows.*
unfoldable pub use Deposits.*
