-- ===== src/Cli/VoterTool.antt =====
-- cli/locked-voter/src: args.rs and main.rs, the commands on a locker.
mod Commands
mod Requests
pub mod Deploying
pub mod Leaving
pub mod Stakers
mod Tests
