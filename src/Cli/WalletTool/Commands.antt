-- ===== src/Cli/WalletTool/Commands.antt =====
-- cli/smartwallet/src/args.rs, the commands; what they read, and the instructions that they send.
use wagmi.Prelude.{ℕ, ℤ, List, Store}
use wagmi.Chain.{Pubkey}
use wagmi.SmartWallet.{TxAccountMeta}
use wagmi.SmartWallet.Program.{Wallets, Call}
use wagmi.Govern.{Governor, Proposal}

-- `CliCommand`.
pub data Command : Type 0 where
  create_smart_wallet :
      (max_owners threshold : ℕ) (minimum_delay : ℤ) (owners : List Pubkey) → Command
  verify :
      (base : Pubkey) (max_owners threshold : ℕ) (minimum_delay : ℤ) (owners : List Pubkey)
      → Command
  create_set_owners_tx : (base : Pubkey) (owners : List Pubkey) → Command
  create_add_new_owner_tx create_remove_owner_tx : (base owner : Pubkey) → Command
  create_change_threshold_tx : (base : Pubkey) (threshold : ℕ) → Command
  create_activate_proposal_tx : (base proposal : Pubkey) → Command
  create_set_governance_params_tx :
      (base : Pubkey) (voting_delay voting_period quorum_votes : ℕ) (timelock_delay_seconds : ℤ)
      → Command
  approve_transaction un_approve_transaction execute_transaction remove_transaction :
      (base transaction : Pubkey) → Command
  view_smartwallet : (base : Pubkey) → Command
  view_transaction : (transaction : Pubkey) → Command
  create_dummy_transaction : (base : Pubkey) → Command

-- The accounts that the tool reads.
pub record View : Type 0 where
  pub wallets : Wallets
  pub governors : Store Governor
  pub proposals : Store Proposal

-- The instructions that it sends, all to the smart wallet program: `execute_transaction` has the wallet,
-- the transaction, the owner and the accounts that the calls need.
pub data Instruction : Type 0 where
  call : Call → Instruction
  execute_transaction : Pubkey → Pubkey → Pubkey → List TxAccountMeta → Instruction
