-- ===== src/Snapshot.antt =====
-- cli/merkle_distributor/src/utils.rs: the tree of hashes of a list of allocations, and the proofs
-- that programs/merkle-distributor checks.
mod Trees
mod Allocations
mod Limits
mod Layers
pub mod Building
pub mod Budget
pub mod Room
pub mod Payment
pub mod Sorting
pub mod Proofs
pub mod Nodes
pub mod Soundness
pub mod Fixtures
mod Tests
unfoldable pub use Trees.*
unfoldable pub use Allocations.*
unfoldable pub use Limits.*
