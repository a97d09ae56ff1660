-- ===== src/Cli/WalletTool.antt =====
-- cli/smartwallet/src: args.rs and main.rs, the commands on a smart wallet.
mod Commands
mod Requests
pub mod Deploying
mod Executing
pub mod Owners
mod Tests
