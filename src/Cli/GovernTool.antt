-- ===== src/Cli/GovernTool.antt =====
-- cli/govern/src: args.rs and main.rs, the commands on a governor and its proposals.
mod Commands
mod Requests
pub mod Deploying
pub mod Proposing
mod Tests
