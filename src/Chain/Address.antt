-- ===== src/Chain/Address.antt =====
-- Program derived addresses: `Pubkey::find_program_address` of the Solana SDK is not part of the
-- repository, so the programs take it as an argument, a function of the seeds.
use wagmi.Prelude.{ℕ, ◌==◌}
use wagmi.Chain.Errors.{Result, anchor, constraint_seeds}
use wagmi.Chain.Vipers.{Pubkey, invariant}

-- The seeds that occur, with the program that they belong to.
pub data Seeds : Type 0 where
  locker governor smart_wallet distributor met_locker : Pubkey → Seeds
  -- The seeds of a locker under another program.
  locker_under : Pubkey → Pubkey → Seeds
  escrow met_escrow : Pubkey → Pubkey → Seeds
  proposal : Pubkey → ℕ → Seeds
  vote : Pubkey → Pubkey → Seeds
  proposal_meta option_proposal_meta subaccount_info : Pubkey → Seeds
  transaction smart_wallet_derived smart_wallet_owner_invoker : Pubkey → ℕ → Seeds
  claim_status : ℕ → Pubkey → Seeds

-- The address and its bump seed.
abbrev pub FindProgramAddress : Type 0
FindProgramAddress = Seeds → Pubkey × ℕ

-- `seeds = [..], bump`: the account passed has the derived address.
abbrev pub seeds_match : FindProgramAddress → Seeds → Pubkey → Result (Unit {0})
seeds_match find_program_address seeds key =
    invariant ((find_program_address seeds).0 == key) (anchor constraint_seeds)
