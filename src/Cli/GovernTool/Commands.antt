-- ===== src/Cli/GovernTool/Commands.antt =====
-- cli/govern/src/args.rs, the commands. A text is the list of its bytes.
use wagmi.Prelude.{ℕ, ℤ, List}
use wagmi.Chain.{Pubkey}

-- `CliCommand`.
pub data Command : Type 0 where
  create_governor :
      (voting_delay voting_period quorum_votes : ℕ) (timelock_delay_seconds : ℤ)
      (voter_program : Pubkey)
      → Command
  verify :
      (base : Pubkey) (voting_delay voting_period quorum_votes : ℕ) (timelock_delay_seconds : ℤ)
      (voter_program : Pubkey)
      → Command
  create_dummy_proposal : (base : Pubkey) → Command
  cancel_proposal queue_proposal new_vote : (proposal : Pubkey) → Command
  create_proposal_meta : (proposal : Pubkey) (title description_link : List ℕ) → Command
  view_governor : (base : Pubkey) → Command
  view_proposal view_proposal_meta : (proposal : Pubkey) → Command
  view_vote : (proposal voter : Pubkey) → Command
  view_votes : (proposal : Pubkey) → Command
