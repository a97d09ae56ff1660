-- ===== src/Cli/DistributorTool/Commands.antt =====
-- cli/merkle_distributor/src/args.rs, the commands; the instructions that they send, and what they use
-- of the token programs.
use wagmi.Prelude.{ℕ, ◌≡◌, ◌≢◌, ℤ, Bool, Option, some}
use wagmi.Chain.{Pubkey, TokenProgram}
use wagmi.Distributor.Program.{Call}
use wagmi.Snapshot.{Snapshot}

-- The parts of the token programs that only the tool uses: the decimals of a mint, and minting (mint,
-- account, authority, amount).
pub record TokenClient (tp : TokenProgram) : Type 0 where
  pub decimals : tp.Ledger → Pubkey → Option ℕ
  pub mint_to : tp.Ledger → Pubkey → Pubkey → Pubkey → ℕ → Option tp.Ledger
  pub mint_to_others :
      (l : tp.Ledger) (mint account authority k : Pubkey) (n : ℕ) {l' : tp.Ledger}
      → k ≢ account
      → mint_to l mint account authority n ≡ some l'
      → tp.account l' k ≡ tp.account l k

-- `CliCommand`.
pub data Command : Type 0 where
  new_distributor :
      (token_mint : Pubkey) (snapshot : Snapshot) (clawback_owner : Pubkey) (start : ℕ) → Command
  fund : (snapshot : Snapshot) → Command
  claim : (base : Pubkey) (snapshot : Snapshot) → Command
  view_distributor : (base : Pubkey) → Command
  view_claim_status : (base claimant : Pubkey) (snapshot : Snapshot) → Command
  verify :
      (base : Pubkey) (start : ℤ) (clawback_receiver_owner admin token_mint : Pubkey)
      (snapshot : Snapshot) (verify_amount : Bool)
      → Command

-- The instructions that the tool sends, of met-voter, of the token programs and of the distributor.
pub data Instruction : Type 0 where
  new_escrow : (locker escrow escrow_owner : Pubkey) → Instruction
  create_associated : (payer owner mint : Pubkey) → Instruction
  mint_to : (mint account authority : Pubkey) (amount : ℕ) → Instruction
  transfer : (from to authority : Pubkey) (amount : ℕ) → Instruction
  call : Call → Instruction
