-- ===== src/Govern.antt =====
-- programs/govern: proposals, votes and rewards.
mod State
mod Proposals
mod Setup
mod Drafts
mod Voting
mod Queue
mod Tests
pub mod Program
pub mod Execution
pub mod Lifecycle
pub mod Tally
pub mod Rewards
pub mod Ballot
pub mod Claims
pub mod Payout
unfoldable pub use State.*
unfoldable pub use Proposals.*
unfoldable pub use Setup.*
unfoldable pub use Drafts.*
unfoldable pub use Voting.*
unfoldable pub use Queue.*
