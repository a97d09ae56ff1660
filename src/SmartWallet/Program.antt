-- ===== src/SmartWallet/Program.antt =====
-- programs/smart-wallet/src/lib.rs: the instructions on the accounts that they name. An instruction
-- that fails leaves the chain as it was.
use wagmi.Prelude.{
  ℕ, Bool, true, false, List, ℤ, Store, find, put, close, ◌≡◌, ◌⊎◌, inl, inr, refl, none, some,
  Option-cases,
}
use wagmi.Chain.{Pubkey, Result, ok, ◌>>=◌, ◌>>◌, load, init}
use wagmi.Chain.Address.{FindProgramAddress}
use wagmi.SmartWallet.State.{SmartWallet, Transaction, TxInstruction}
use wagmi.SmartWallet.Owners
use wagmi.SmartWallet.Transactions
use wagmi.SmartWallet.Transactions.{Approve, set_approval, validate_execute_transaction, burn}

-- The accounts that the program owns.
pub record Wallets : Type 0 where
  pub wallets : Store SmartWallet
  pub transactions : Store Transaction

-- The instructions, with the addresses that they are given, but `execute_transaction`.
pub data Call : Type 0 where
  create_smart_wallet : Pubkey → Pubkey → ℕ → List Pubkey → ℕ → ℤ → Call
  set_owners : Pubkey → Bool → List Pubkey → Call
  change_threshold : Pubkey → Bool → ℕ → Call
  create_transaction : Pubkey → Pubkey → Pubkey → List TxInstruction → Call
  create_transaction_with_timelock : Pubkey → Pubkey → Pubkey → List TxInstruction → ℤ → Call
  remove_transaction : Pubkey → Pubkey → Pubkey → Call
  approve unapprove : Pubkey → Pubkey → Pubkey → Call

abbrev pub load_approve : Pubkey → Pubkey → Pubkey → Wallets → Result Approve
load_approve k t owner s = do
  wallet ← load k s.wallets
  transaction ← load t s.transactions
  ok (record { wallet = wallet; transaction = transaction; owner = owner })

unfoldable pub process : FindProgramAddress → ℤ → Call → Wallets → Result Wallets
process pda now (Call.create_smart_wallet base k max_owners owners threshold delay) s = do
  init k s.wallets
  wallet ← Owners.create_smart_wallet pda base k max_owners owners threshold delay
  ok (record s { wallets = put k wallet s.wallets })
process pda now (Call.set_owners k is_signer owners) s = do
  wallet ← load k s.wallets
  wallet' ← Owners.set_owners (record { wallet = wallet; is_signer = is_signer }) owners
  ok (record s { wallets = put k wallet' s.wallets })
process pda now (Call.change_threshold k is_signer threshold) s = do
  wallet ← load k s.wallets
  wallet' ← Owners.change_threshold (record { wallet = wallet; is_signer = is_signer }) threshold
  ok (record s { wallets = put k wallet' s.wallets })
process pda now (Call.create_transaction k t proposer instructions) s = do
  wallet ← load k s.wallets
  init t s.transactions
  (wallet', transaction) ←
      Transactions.create_transaction pda now
        (record { wallet = wallet; transaction = t; proposer = proposer }) instructions
  ok (record s {
    wallets = put k wallet' s.wallets;
    transactions = put t transaction s.transactions;
  })
process pda now (Call.create_transaction_with_timelock k t proposer instructions eta) s = do
  wallet ← load k s.wallets
  init t s.transactions
  (wallet', transaction) ←
      Transactions.create_transaction_with_timelock pda now
        (record { wallet = wallet; transaction = t; proposer = proposer }) instructions eta
  ok (record s {
    wallets = put k wallet' s.wallets;
    transactions = put t transaction s.transactions;
  })
process pda now (Call.remove_transaction k t proposer) s = do
  wallet ← load k s.wallets
  transaction ← load t s.transactions
  Transactions.remove_transaction wallet transaction proposer
  ok (record s { transactions = close t s.transactions })
process pda now (Call.approve k t owner) s = do
  ctx ← load_approve k t owner s
  transaction ← set_approval true ctx
  ok (record s { transactions = put t transaction s.transactions })
process pda now (Call.unapprove k t owner) s = do
  ctx ← load_approve k t owner s
  transaction ← set_approval false ctx
  ok (record s { transactions = put t transaction s.transactions })

-- The transaction that an execution writes when it ends, unless its account is gone.
abbrev pub write_back : Pubkey → Transaction → Store Transaction → Store Transaction
write_back x tx transactions = elim (find x transactions) [
  | none ↦ transactions
  | some old ↦ put x tx transactions
]

pub write_back-cases :
    (x : Pubkey) (tx : Transaction) (transactions : Store Transaction)
    → (write_back x tx transactions ≡ transactions)
      ⊎ (write_back x tx transactions ≡ put x tx transactions)
write_back-cases x tx transactions = elim (Option-cases (find x transactions)) [
  | inl gone ↦ inl (rw (gone, write_back) refl)
  | inr (old, found) ↦ inr (rw (found, write_back) refl)
]

-- Any history of the program. The calls that `execute_transaction` makes may run the program again,
-- with the wallet as a signer, before the transaction is burnt; one that they remove is not brought
-- back.
pub data Run (pda : FindProgramAddress) : Wallets → Wallets → Type 0 where
  start : {s : Wallets} → Run pda s s
  call :
      {s t u : Wallets} (now : ℤ) (c : Call)
      → Run pda s t
      → process pda now c t ≡ ok u
      → Run pda s u
  execute :
      {s t u : Wallets} (now : ℤ) (k x owner : Pubkey) (ctx : Approve)
      → Run pda s t
      → load_approve k x owner t ≡ ok ctx
      → validate_execute_transaction now ctx ≡ ok tt
      → Run pda t u
      → Run pda s (record u { transactions = write_back x (burn now ctx) u.transactions })
