-- ===== src/SmartWallet/Rules.antt =====
-- What the instructions of programs/smart-wallet do to approvals, owners and executions.
use wagmi.Prelude.{
  ℕ, zero, suc, ◌+◌, ◌≤◌, ◌<◌, ◌≡◌, ◌≢◌, refl, ap, Bool, true, false, List, [], ◌∷◌, some, arith, ℤ,
  pos, negsuc, ◌+ℤ◌, ◌≤ℤ◌, length, get_elem?, set, replicate, find, if◌then◌else◌,
}
use wagmi.Chain.{Pubkey, Account, ok, err, smart_wallet, owner_set_changed, already_executed}
use wagmi.Chain.Address.{FindProgramAddress}
use wagmi.SmartWallet.State.{
  SmartWallet, Transaction, TxInstruction, position, count_true, num_signers,
}
use wagmi.SmartWallet.Owners.{Auth, set_owners}
use wagmi.SmartWallet.Transactions.{
  CreateTransaction, Approve, create_transaction_with_timelock, set_approval, write_signer,
  validate_execute_transaction, burn,
}
use wagmi.SmartWallet.Invariant.{Fits}
use wagmi.SmartWallet.Program.{Wallets, Run}
use wagmi.SmartWallet.Consistency.{IsConsistent, Fits-found}
use wagmi.SmartWallet.History.{Run-IsConsistent}

count_true-replicate : (n : ℕ) → count_true (replicate n false) ≡ 0
count_true-replicate zero = refl
count_true-replicate (suc n) = omega (arith, count_true-replicate n)

count_true-set :
    (bs : List Bool) (i : ℕ) (old b : Bool)
    → get_elem? bs i ≡ some old
    → count_true (set bs i b) + (if old then 1 else 0) ≡ count_true bs + (if b then 1 else 0)
count_true-set [] i old b h = cc
count_true-set (c ∷ bs) zero old b h = ground arith
count_true-set (c ∷ bs) (suc i) old b h = omega (arith, count_true-set bs i old b h)

get_elem?-replicate-false :
    (n i : ℕ) {old : Bool} → get_elem? (replicate n false) i ≡ some old → old ≡ false
get_elem?-replicate-false zero i h = cc
get_elem?-replicate-false (suc n) zero h = cc
get_elem?-replicate-false (suc n) (suc i) h = get_elem?-replicate-false n i h

write_signer-eq-ok :
    (bs : List Bool) (i : ℕ) (b : Bool) {bs' : List Bool}
    → write_signer bs i b ≡ ok bs'
    → (old : Bool) × (get_elem? bs i ≡ some old) × (bs' ≡ set bs i b)
unfolding write_signer
write_signer-eq-ok bs i b h = ground arith

created-signers :
    (pda : FindProgramAddress) (now : ℤ) (ctx : CreateTransaction) (ixs : List TxInstruction)
    (eta : ℤ) {w' : SmartWallet} {tx : Transaction}
    → create_transaction_with_timelock pda now ctx ixs eta ≡ ok (w', tx)
    → (i : ℕ) × (position ctx.proposer ctx.wallet.info.owners ≡ some i)
      × (write_signer (replicate (length ctx.wallet.info.owners) false) i true ≡ ok tx.signers)
unfolding create_transaction_with_timelock
created-signers pda now ctx ixs eta h = ground arith

-- A new transaction has exactly one signer.
create_transaction-one_signer :
    (pda : FindProgramAddress) (now : ℤ) (ctx : CreateTransaction) (ixs : List TxInstruction)
    (eta : ℤ) {w' : SmartWallet} {tx : Transaction}
    → create_transaction_with_timelock pda now ctx ixs eta ≡ ok (w', tx)
    → num_signers tx ≡ 1
create_transaction-one_signer pda now ctx ixs eta h =
    let (i, _, written) = created-signers pda now ctx ixs eta h in
    let n = length ctx.wallet.info.owners in
    let (old, there, new) = write_signer-eq-ok (replicate n false) i true written in
    rw new (
      ground (
        arith,
        count_true-replicate n,
        count_true-set (replicate n false) i old true there,
        get_elem?-replicate-false n i there,
      ))

approval-signers :
    (b : Bool) (ctx : Approve) {tx : Transaction}
    → set_approval b ctx ≡ ok tx
    → (i : ℕ) × (position ctx.owner ctx.wallet.info.owners ≡ some i)
      × (write_signer ctx.transaction.info.signers i b ≡ ok tx.signers)
unfolding set_approval
approval-signers b ctx h = ground arith

-- A successful `approve` (true) or `unapprove` (false) writes the slot at the caller's position
-- among the owners and no other, and the number of signers changes by what that slot changes.
pub set_approval-num_signers :
    (b : Bool) (ctx : Approve) {tx : Transaction}
    → set_approval b ctx ≡ ok tx
    → (i : ℕ) × (old : Bool) × (position ctx.owner ctx.wallet.info.owners ≡ some i)
      × (get_elem? ctx.transaction.info.signers i ≡ some old)
      × (tx.signers ≡ set ctx.transaction.info.signers i b)
      × (num_signers tx + (if old then 1 else 0)
          ≡ num_signers ctx.transaction.info + (if b then 1 else 0))
set_approval-num_signers b ctx h =
    let (i, at, written) = approval-signers b ctx h in
    let (old, there, new) = write_signer-eq-ok ctx.transaction.info.signers i b written in
    (
      i,
      old,
      at,
      there,
      new,
      omega (arith, ap count_true new, count_true-set ctx.transaction.info.signers i old b there),
    )

-- After a successful `set_owners` the threshold is below the number of owners and not above what
-- it was.
set_owners_threshold :
    (ctx : Auth) (owners : List Pubkey) {w' : SmartWallet}
    → set_owners ctx owners ≡ ok w'
    → (w'.threshold < length w'.owners) × (w'.threshold ≤ ctx.wallet.info.threshold)
unfolding set_owners
set_owners_threshold ctx owners h = ground arith

-- After `set_owners`, a transaction of the wallet that fitted it can no longer be approved,
-- unapproved or executed, and the error says that the owner set has changed.
pub set_owners-retires :
    (auth : Auth) (owners : List Pubkey) (tx : Account Transaction) (caller : Pubkey) (b : Bool)
    (now : ℤ) {w' : SmartWallet}
    → set_owners auth owners ≡ ok w'
    → tx.info.smart_wallet ≡ auth.wallet.key
    → Fits auth.wallet.info tx.info
    → let ctx : Approve = record {
      wallet = record { key = auth.wallet.key; info = w' };
      transaction = tx;
      owner = caller;
    } in
      (set_approval b ctx ≡ err (smart_wallet owner_set_changed))
      × (validate_execute_transaction now ctx ≡ err (smart_wallet owner_set_changed))
unfolding set_owners set_approval validate_execute_transaction
set_owners-retires auth owners tx caller b now h own f = ground arith

-- A transaction that was executed, at a time that is not negative, and then approved or unapproved
-- once more, cannot be executed again: a later execution by anybody, with the same wallet, fails
-- because it is already executed.
pub execute_once :
    (now later : ℤ) (b : Bool) (ctx next : Approve) (caller : Pubkey) {tx : Transaction}
    → pos 0 ≤ℤ now
    → validate_execute_transaction now ctx ≡ ok tt
    → next.transaction.info ≡ burn now ctx
    → next.wallet ≡ ctx.wallet
    → set_approval b next ≡ ok tx
    → validate_execute_transaction later (record next {
      transaction = record { key = next.transaction.key; info = tx };
      owner = caller;
    })
      ≡ err (smart_wallet already_executed)
unfolding validate_execute_transaction set_approval
execute_once now later b ctx next caller t v e w h = ground arith

-- In every history from a consistent state, a transaction that was executed, of a wallet whose
-- minimum delay is not zero, was executed no sooner than that delay after it was created.
pub Run-timelock :
    {pda : FindProgramAddress} {s u : Wallets} (x : Pubkey) {tx : Transaction} {w : SmartWallet}
    → Run pda s u
    → IsConsistent s
    → find x u.transactions ≡ some tx
    → find tx.smart_wallet u.wallets ≡ some w
    → w.minimum_delay ≢ pos 0
    → tx.executed_at ≢ negsuc 0
    → tx.created_at +ℤ w.minimum_delay ≤ℤ tx.executed_at
Run-timelock {u = u} x {tx} {w} r c listed found delay done =
    let fit = Fits-found u.wallets tx listed found ((Run-IsConsistent r c).fits x) in
    ground (arith, fit.delayed delay, fit.on_time)
