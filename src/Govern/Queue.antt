-- ===== src/Govern/Queue.antt =====
-- programs/govern/src/instructions/queue_proposal.rs: a proposal that passed becomes a transaction of
-- the smart wallet.
use wagmi.Prelude.{Bool, ℤ, pos, ◌==ℤ◌, if◌then◌else◌, checked_add_i64}
use wagmi.Chain.{
  Pubkey, Account, Result, ok, ◌>>=◌, ◌>>◌, vipers, invariant_failed, invariant, assert_keys_eq,
  has_one, constraint, unwrap_int,
}
use wagmi.Chain.Address.{FindProgramAddress}
use wagmi.SmartWallet.{
  SmartWallet, Transaction, CreateTransaction, create_transaction, create_transaction_with_timelock,
}
use wagmi.Govern.State.{Governor, Proposal}
use wagmi.Govern.Proposals.{state, is_state, succeeded, to_smart_wallet_instructions}

-- The accounts of `queue_proposal`; `transaction` is an address, with the test that it is empty.
pub record QueueProposal : Type 0 where
  pub governor : Account Governor
  pub proposal : Account Proposal
  pub transaction : Pubkey
  pub transaction_is_empty : Bool
  pub smart_wallet : Account SmartWallet

-- The attributes and `QueueProposal::validate`.
abbrev pub validate_queue_proposal : ℤ → QueueProposal → Result (Unit {0})
validate_queue_proposal now ctx = do
  has_one ctx.governor.info.smart_wallet ctx.smart_wallet.key
  constraint ctx.transaction_is_empty
  assert_keys_eq ctx.governor.key ctx.proposal.info.governor
  assert_keys_eq ctx.smart_wallet.key ctx.governor.info.smart_wallet
  current ← state ctx.proposal.info now
  invariant (is_state current succeeded) (vipers invariant_failed)

-- The call of the smart wallet, as the governor.
abbrev pub create_queued_transaction :
    FindProgramAddress → ℤ → QueueProposal → Result (SmartWallet × Transaction)
create_queued_transaction pda now ctx =
    let accounts : CreateTransaction = record {
      wallet = ctx.smart_wallet;
      transaction = ctx.transaction;
      proposer = ctx.governor.key;
    } in
    let instructions = to_smart_wallet_instructions ctx.proposal.info in
    let delay = ctx.governor.info.params.timelock_delay_seconds in
    if delay ==ℤ pos 0 then create_transaction pda now accounts instructions else do
      eta ← unwrap_int (checked_add_i64 now delay)
      create_transaction_with_timelock pda now accounts instructions eta

-- `queue_transaction`.
unfoldable pub queue_proposal :
    FindProgramAddress → ℤ → QueueProposal → Result (SmartWallet × Transaction × Proposal)
queue_proposal pda now ctx = do
  validate_queue_proposal now ctx
  (wallet, transaction) ← create_queued_transaction pda now ctx
  ok (
    wallet,
    transaction,
    record (ctx.proposal.info) { queued_at = now; queued_transaction = ctx.transaction },
  )
