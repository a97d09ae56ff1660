-- ===== src/Chain.antt =====
-- What the programs share: addresses and accounts, results, the guards of libs/vipers, and the
-- token program, which is not part of the repository, as an interface.
mod Errors
mod Vipers
mod Token
pub mod Address
pub use Errors.*
unfoldable pub use Vipers.*
pub use Token.*
pub mod Bank
pub mod Hashing
pub mod Pairing
