-- ===== src/Distributor.antt =====
-- programs/merkle-distributor: tokens that are claimed against the root of a tree of hashes, into
-- escrows of programs/met-voter.
mod State
mod MerkleProof
mod Admin
mod Claims
pub mod Program
pub mod Effects
pub mod Accounting
pub mod Roots
pub mod Custody
pub mod Fixtures
pub mod Runs
mod Tests
pub use State.*
unfoldable pub use MerkleProof.*
unfoldable pub use Admin.*
unfoldable pub use Claims.*
