-- ===== src/Cli/VoterTool/Commands.antt =====
-- cli/locked-voter/src/args.rs, the commands; what they read, and the instructions that they send.
use wagmi.Prelude.{ℕ, ℤ, Store}
use wagmi.Chain.{Pubkey}
use wagmi.Govern.{Vote}
use wagmi.LockedVoter.Program.{Vaults, Call}

-- `CliCommand`.
pub data Command : Type 0 where
  new_locker :
      (token_mint : Pubkey)
      (max_stake_vote_multiplier min_stake_duration max_stake_duration
        proposal_activation_min_votes : ℕ)
      → Command
  verify :
      (base token_mint : Pubkey)
      (max_stake_vote_multiplier min_stake_duration max_stake_duration
        proposal_activation_min_votes : ℕ)
      → Command
  new_escrow : (base : Pubkey) → Command
  increase_locked_amount : (base : Pubkey) (amount : ℕ) → Command
  extend_lock_duration : (base : Pubkey) (duration : ℤ) → Command
  toggle_max_lock : (base : Pubkey) (is_max_lock : ℤ) → Command
  withdraw : (base : Pubkey) → Command
  cast_vote : (base proposal : Pubkey) (side : ℕ) → Command
  set_vote_delegate : (base new_delegate : Pubkey) → Command
  view_locker : (base : Pubkey) → Command
  view_escrow : (base owner : Pubkey) → Command
  get_stakers : (locker : Pubkey) → Command

-- The accounts that the tool reads.
pub record View : Type 0 where
  pub vaults : Vaults
  pub votes : Store Vote

-- The instructions that it sends: of govern, `cast_vote` of locked-voter, and its others.
pub data Instruction : Type 0 where
  new_vote : (proposal vote voter : Pubkey) → Instruction
  cast_vote : (locker escrow vote proposal vote_delegate governor : Pubkey) (side : ℕ) → Instruction
  call : Call → Instruction
