-- ===== src/SmartWallet/Invariant.antt =====
-- What holds of every wallet and transaction of programs/smart-wallet, whatever is called.
use wagmi.Prelude.{
  ℕ, ◌≤◌, ◌<◌, ◌≡◌, ◌≢◌, ◌⊎◌, inl, inr, Bool, true, false, List, arith, ℤ, pos, negsuc, ◌+ℤ◌, ◌≤ℤ◌,
  length, length-set, length-replicate, replicate, Option-cases, ==→eq,
}
use wagmi.Chain.{Pubkey, ok}
use wagmi.Chain.Address.{Seeds, FindProgramAddress}
use wagmi.SmartWallet.State.{SmartWallet, Transaction, TxInstruction, no_eta, position}
use wagmi.SmartWallet.Owners.{Auth, set_owners, change_threshold}
use wagmi.SmartWallet.Transactions.{
  CreateTransaction, Approve, write_signer, create_transaction_with_timelock, set_approval,
  validate_execute_transaction, burn,
}

-- A wallet over time: the owner set is frozen while its sequence number stands still.
pub record Grows (w w' : SmartWallet) : Type 0 where
  pub seqno_grows : w.owner_set_seqno ≤ w'.owner_set_seqno
  pub owners_stay : w.owner_set_seqno ≡ w'.owner_set_seqno → w'.owners ≡ w.owners
  pub count_grows : w.num_transactions ≤ w'.num_transactions
  pub delay_stays : w'.minimum_delay ≡ w.minimum_delay
  pub grace_stays : w'.grace_period ≡ w.grace_period

-- A transaction against its wallet.
pub record Fits (w : SmartWallet) (tx : Transaction) : Type 0 where
  pub seqno_past : tx.owner_set_seqno ≤ w.owner_set_seqno
  pub signers_sized : tx.owner_set_seqno ≡ w.owner_set_seqno → length tx.signers ≡ length w.owners
  pub index_past : tx.index < w.num_transactions
  pub delayed : w.minimum_delay ≢ pos 0 → tx.created_at +ℤ w.minimum_delay ≤ℤ tx.eta
  pub on_time :
      (tx.executed_at ≡ negsuc 0)
      ⊎ ((tx.eta ≤ℤ tx.executed_at)
          × ((tx.eta ≡ no_eta) ⊎ (tx.executed_at ≤ℤ tx.eta +ℤ w.grace_period)))

pub Grows-refl : (w : SmartWallet) → Grows w w
Grows-refl w = ground arith

pub Grows-trans : (u v w : SmartWallet) → Grows u v → Grows v w → Grows u w
Grows-trans u v w g h = ground arith

pub Grows-Fits : (w w' : SmartWallet) (tx : Transaction) → Grows w w' → Fits w tx → Fits w' tx
Grows-Fits w w' tx g f = ground arith

pub set_owners-Grows :
    (ctx : Auth) (owners : List Pubkey) {w' : SmartWallet}
    → set_owners ctx owners ≡ ok w'
    → Grows ctx.wallet.info w'
unfolding set_owners
set_owners-Grows ctx owners h = ground arith

pub change_threshold-Grows :
    (ctx : Auth) (threshold : ℕ) {w' : SmartWallet}
    → change_threshold ctx threshold ≡ ok w'
    → Grows ctx.wallet.info w'
unfolding change_threshold
change_threshold-Grows ctx threshold h = ground arith

pub create_transaction-Grows :
    (pda : FindProgramAddress) (now : ℤ) (ctx : CreateTransaction) (ixs : List TxInstruction)
    (eta : ℤ) {w' : SmartWallet} {tx : Transaction}
    → create_transaction_with_timelock pda now ctx ixs eta ≡ ok (w', tx)
    → Grows ctx.wallet.info w'
unfolding create_transaction_with_timelock
create_transaction-Grows pda now ctx ixs eta h = ground arith

pub create_transaction-Fits :
    (pda : FindProgramAddress) (now : ℤ) (ctx : CreateTransaction) (ixs : List TxInstruction)
    (eta : ℤ) {w' : SmartWallet} {tx : Transaction}
    → create_transaction_with_timelock pda now ctx ixs eta ≡ ok (w', tx)
    → Fits w' tx
unfolding create_transaction_with_timelock write_signer
create_transaction-Fits pda now ctx ixs eta h =
    let no_one = replicate (length ctx.wallet.info.owners) false in
    elim (Option-cases (position ctx.proposer ctx.wallet.info.owners)) [
      | inl e ↦ ground arith
      | inr (i, e) ↦
          ground (
            arith,
            length-set no_one i true,
            length-replicate (length ctx.wallet.info.owners) false,
          )
    ]

pub set_approval-Fits :
    (signed : Bool) (ctx : Approve) {tx : Transaction}
    → set_approval signed ctx ≡ ok tx
    → Fits ctx.wallet.info ctx.transaction.info
    → Fits ctx.wallet.info tx
unfolding set_approval write_signer
set_approval-Fits signed ctx h f = elim (Option-cases (position ctx.owner ctx.wallet.info.owners)) [
  | inl e ↦ ground arith
  | inr (i, e) ↦ ground (arith, length-set ctx.transaction.info.signers i signed)
]

pub burn-Fits :
    (now : ℤ) (ctx : Approve)
    → validate_execute_transaction now ctx ≡ ok tt
    → Fits ctx.wallet.info ctx.transaction.info
    → Fits ctx.wallet.info (burn now ctx)
unfolding validate_execute_transaction
burn-Fits now ctx h f = ground arith

-- What nothing changes in a transaction: its wallet, its instructions, when it may run, and the owner
-- set that it belongs to.
abbrev pub SameTerms : Transaction → Transaction → Type 0
SameTerms tx tx' =
    (tx'.smart_wallet ≡ tx.smart_wallet)
    × (tx'.index ≡ tx.index)
    × (tx'.proposer ≡ tx.proposer)
    × (tx'.instructions ≡ tx.instructions)
    × (tx'.owner_set_seqno ≡ tx.owner_set_seqno)
    × (tx'.eta ≡ tx.eta)

pub create_transaction-wallet :
    (pda : FindProgramAddress) (now : ℤ) (ctx : CreateTransaction) (ixs : List TxInstruction)
    (eta : ℤ) {w' : SmartWallet} {tx : Transaction}
    → create_transaction_with_timelock pda now ctx ixs eta ≡ ok (w', tx)
    → (tx.smart_wallet ≡ ctx.wallet.key)
      × (tx.index ≡ ctx.wallet.info.num_transactions)
      × (ctx.transaction ≡ (pda (Seeds.transaction ctx.wallet.key tx.index)).0)
unfolding create_transaction_with_timelock
create_transaction-wallet pda now ctx ixs eta h =
    let seeds = Seeds.transaction ctx.wallet.key ctx.wallet.info.num_transactions in
    ground (arith, ==→eq (pda seeds).0 ctx.transaction)

pub set_approval-wallet :
    (signed : Bool) (ctx : Approve) {tx : Transaction}
    → set_approval signed ctx ≡ ok tx
    → (ctx.wallet.key ≡ ctx.transaction.info.smart_wallet) × SameTerms ctx.transaction.info tx
unfolding set_approval
set_approval-wallet signed ctx h = ground arith

pub execute-wallet :
    (now : ℤ) (ctx : Approve)
    → validate_execute_transaction now ctx ≡ ok tt
    → ctx.wallet.key ≡ ctx.transaction.info.smart_wallet
unfolding validate_execute_transaction
execute-wallet now ctx h = ground arith
