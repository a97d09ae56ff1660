-- ===== src/Cli/DistributorTool.antt =====
-- cli/merkle_distributor/src: args.rs and main.rs, the commands on a distributor. A path to a
-- snapshot stands for the list that the file holds.
mod Commands
mod Requests
pub mod Sending
mod Deployed
pub mod Deploying
mod SettingUp
pub mod Claiming
mod Tests
