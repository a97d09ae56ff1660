-- ===== src/LockedVoter.antt =====
-- programs/locked-voter: tokens locked in escrows, in exchange for voting power.
mod State
mod VoterPower
mod Escrows
mod Deposits
mod Unstaking
pub mod Ballots
mod Tests
pub mod Power
pub mod Program
pub mod Backing
mod Amounts
pub mod Supply
pub mod Places
pub mod Exit
pub mod Casting
pub mod Locks
pub mod Custody
pub mod Partial
unfoldable pub use State.*
unfoldable pub use VoterPower.*
unfoldable pub use Escrows.*
unfoldable pub use Deposits.*
unfoldable pub use Unstaking.*
