-- ===== src/SmartWallet.antt =====
-- programs/smart-wallet: a multisig wallet with a timelock.
mod State
mod Owners
mod Transactions
pub mod Program
pub mod Invariant
pub mod Effects
pub mod Consistency
pub mod History
pub mod Terms
pub mod Proposing
pub mod Rules
mod Subaccounts
mod Tests
unfoldable pub use State.*
unfoldable pub use Owners.*
unfoldable pub use Transactions.*
unfoldable pub use Subaccounts.*
