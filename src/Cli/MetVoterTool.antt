-- ===== src/Cli/MetVoterTool.antt =====
-- cli/met-voter/src: args.rs and main.rs, the commands on a locker with an initial phase.
mod Commands
mod Requests
pub mod Deploying
