-- ===== src/Cli.antt =====
-- The command line tools under cli: what they read, and the instructions that they send.
pub mod Client
pub mod DistributorTool
pub mod WalletTool
pub mod VoterTool
pub mod MetVoterTool
pub mod GovernTool
