-- ===== src/SmartWallet/Transactions.antt =====
-- programs/smart-wallet/src/instructions: create_transaction.rs, approve.rs, execute_transaction.rs
-- and remove_transaction.rs, the life of a transaction.
use wagmi.Prelude.{
  ℕ, Bool, true, false, List, [], ◌∷◌, ℤ, pos, negsuc, not, ◌==◌, ◌==ℤ◌, leb, leb_ℤ, length, set,
  get_elem?, replicate, checked_add, checked_add_i64, checked_sub_i64, Option, some, none,
}
use wagmi.Chain.{
  Pubkey, default_pubkey, Account, Result, ok, err, ◌>>=◌, ◌>>◌, vipers, invariant_failed,
  smart_wallet, invalid_eta, delay_too_high, not_enough_signers, transaction_is_stale,
  transaction_not_ready, already_executed, owner_set_changed, num_signer_is_not_zero, invoked,
  panic, invariant, when, assert_keys_eq, has_one, unwrap_int,
}
use wagmi.Chain.Address.{Seeds, FindProgramAddress, seeds_match}
use wagmi.SmartWallet.State.{
  SmartWallet, Transaction, TxInstruction, max_delay_seconds, no_eta, owner_index, num_signers,
}

-- The accounts of `create_transaction`; `transaction` is the address to be initialised.
pub record CreateTransaction : Type 0 where
  pub wallet : Account SmartWallet
  pub transaction : Pubkey
  pub proposer : Pubkey

-- The delay rules of `create_transaction_with_timelock`.
abbrev pub check_minimum_delay : SmartWallet → ℤ → ℤ → Result (Unit {0})
check_minimum_delay wallet current_ts eta = when (not (wallet.minimum_delay ==ℤ pos 0)) do
  earliest ← unwrap_int (checked_add_i64 current_ts wallet.minimum_delay)
  invariant (leb_ℤ earliest eta) (smart_wallet invalid_eta)

abbrev pub check_eta : ℤ → ℤ → Result (Unit {0})
check_eta current_ts eta = when (not (eta ==ℤ no_eta)) do
  invariant (leb_ℤ (pos 0) eta) (vipers invariant_failed)
  delay ← unwrap_int (checked_sub_i64 eta current_ts)
  invariant (leb_ℤ (pos 0) delay) (vipers invariant_failed)
  invariant (leb_ℤ delay max_delay_seconds) (smart_wallet delay_too_high)

-- `signers[owner_index] = signed`: an index out of range panics.
unfoldable pub write_signer : List Bool → ℕ → Bool → Result (List Bool)
write_signer signers i signed = elim (get_elem? signers i) [
  | none ↦ err panic
  | some old ↦ ok (set signers i signed)
]

-- `CreateTransaction::create_transaction_with_timelock`, at a time of the clock.
unfoldable pub create_transaction_with_timelock :
    FindProgramAddress
    → ℤ
    → CreateTransaction
    → List TxInstruction
    → ℤ
    → Result (SmartWallet × Transaction)
create_transaction_with_timelock pda current_ts ctx instructions eta = do
  let wallet = ctx.wallet.info
  let seeds = Seeds.transaction ctx.wallet.key wallet.num_transactions
  seeds_match pda seeds ctx.transaction
  owner ← owner_index wallet ctx.proposer
  check_minimum_delay wallet current_ts eta
  check_eta current_ts eta
  signers ← write_signer (replicate (length wallet.owners) false) owner true
  num_transactions ← unwrap_int (checked_add wallet.num_transactions 1)
  ok (
    record wallet { num_transactions = num_transactions },
    record {
      smart_wallet = ctx.wallet.key;
      index = wallet.num_transactions;
      bump = (pda seeds).1;
      proposer = ctx.proposer;
      instructions = instructions;
      signers = signers;
      owner_set_seqno = wallet.owner_set_seqno;
      eta = eta;
      executor = default_pubkey;
      executed_at = negsuc 0;
      created_at = current_ts;
    },
  )

-- `CreateTransaction::create_transaction`.
abbrev pub create_transaction :
    FindProgramAddress
    → ℤ
    → CreateTransaction
    → List TxInstruction
    → Result (SmartWallet × Transaction)
create_transaction pda current_ts ctx instructions =
    create_transaction_with_timelock pda current_ts ctx instructions no_eta

-- The accounts of `approve`, `unapprove` and `execute_transaction`; the owner signs.
pub record Approve : Type 0 where
  pub wallet : Account SmartWallet
  pub transaction : Account Transaction
  pub owner : Pubkey

-- `Approve::validate`.
abbrev pub validate_approve : Approve → Result (Unit {0})
validate_approve ctx = do
  assert_keys_eq ctx.wallet.key ctx.transaction.info.smart_wallet
  invariant (ctx.wallet.info.owner_set_seqno == ctx.transaction.info.owner_set_seqno)
      (smart_wallet owner_set_changed)

-- `Approve::approve` (true) and `Approve::unapprove` (false).
unfoldable pub set_approval : Bool → Approve → Result Transaction
set_approval signed ctx = do
  validate_approve ctx
  owner ← owner_index ctx.wallet.info ctx.owner
  signers ← write_signer ctx.transaction.info.signers owner signed
  ok (record (ctx.transaction.info) { signers = signers })

-- `ExecuteTransaction::validate`.
unfoldable pub validate_execute_transaction : ℤ → Approve → Result (Unit {0})
validate_execute_transaction current_ts ctx = do
  let wallet = ctx.wallet.info
  let tx = ctx.transaction.info
  assert_keys_eq ctx.wallet.key tx.smart_wallet
  invariant (wallet.owner_set_seqno == tx.owner_set_seqno) (smart_wallet owner_set_changed)
  invariant (tx.executed_at ==ℤ negsuc 0) (smart_wallet already_executed)
  invariant (leb_ℤ tx.eta current_ts) (smart_wallet transaction_not_ready)
  when (not (tx.eta ==ℤ no_eta)) do
    expiry ← unwrap_int (checked_add_i64 tx.eta wallet.grace_period)
    invariant (leb_ℤ current_ts expiry) (smart_wallet transaction_is_stale)
  invariant (leb wallet.threshold (num_signers tx)) (smart_wallet not_enough_signers)
  owner ← owner_index wallet ctx.owner
  ok tt

-- The burn at the end of `do_execute_transaction`.
abbrev pub burn : ℤ → Approve → Transaction
burn current_ts ctx = record (ctx.transaction.info) {
  executor = ctx.owner;
  executed_at = current_ts;
}

-- The calls of `do_execute_transaction`: each instruction in turn, by `invoke_signed` of the SDK,
-- which is a parameter, on the state of the chain.
abbrev pub invoke_all {ℓ} :
    {World : Type ℓ}
    → (World → TxInstruction → Option World)
    → World
    → List TxInstruction
    → Result World
invoke_all invoke world [] = ok world
invoke_all invoke world (ix ∷ instructions) = elim (invoke world ix) [
  | none ↦ err invoked
  | some world' ↦ invoke_all invoke world' instructions
]

-- `execute_transaction`: the checks, the calls, the burn.
unfoldable pub execute_transaction {ℓ} :
    {World : Type ℓ}
    → (World → TxInstruction → Option World)
    → ℤ
    → Approve
    → World
    → Result (World × Transaction)
unfolding validate_execute_transaction
execute_transaction invoke current_ts ctx world = do
  validate_execute_transaction current_ts ctx
  world' ← invoke_all invoke world ctx.transaction.info.instructions
  ok (world', burn current_ts ctx)

-- `remove_transaction`: the checks; the account is closed by `close = proposer`.
abbrev pub remove_transaction :
    Account SmartWallet → Account Transaction → Pubkey → Result (Unit {0})
remove_transaction wallet transaction proposer = do
  has_one transaction.info.smart_wallet wallet.key
  has_one transaction.info.proposer proposer
  invariant (num_signers transaction.info == 0) (smart_wallet num_signer_is_not_zero)
