-- ===== src/SmartWallet/Proposing.antt =====
-- A transaction of programs/smart-wallet from its proposal to its execution.
use wagmi.Prelude.{
  Option, ◌<◌, ◌≡◌, ◌∙◌, refl, sym, ap, subst, arith, some, List, ℤ, find, find-put, ==_refl,
}
use wagmi.Chain.{Pubkey, ok, >>=-eq-ok, load, init, load-eq-ok, ok-injective}
use wagmi.Chain.Address.{Seeds, FindProgramAddress}
use wagmi.SmartWallet.State.{SmartWallet, Transaction, TxInstruction}
use wagmi.SmartWallet.Transactions.{
  CreateTransaction, create_transaction_with_timelock, Approve, validate_execute_transaction,
}
use wagmi.SmartWallet.Program.{Wallets, Call, process, load_approve, Run}
use wagmi.SmartWallet.Invariant.{Grows, create_transaction-Fits, create_transaction-wallet}
use wagmi.SmartWallet.Effects.{GrowsAt, load_approve-eq-ok, process-Effect}
use wagmi.SmartWallet.Consistency.{IsConsistent, Effect-IsConsistent}
use wagmi.SmartWallet.History.{Run-AllGrow}
use wagmi.SmartWallet.Terms.{AreApart, IsUsed, HasTerms, KeepsTerms, KeepsTerms-found, Run-HasTerms}

create_transaction-terms :
    (pda : FindProgramAddress) (now : ℤ) (ctx : CreateTransaction) (ixs : List TxInstruction)
    (eta : ℤ) {w : SmartWallet} {tx : Transaction}
    → create_transaction_with_timelock pda now ctx ixs eta ≡ ok (w, tx)
    → (tx.instructions ≡ ixs)
      × (tx.eta ≡ eta)
      × (tx.proposer ≡ ctx.proposer)
      × (tx.owner_set_seqno ≡ ctx.wallet.info.owner_set_seqno)
      × (w.owner_set_seqno ≡ ctx.wallet.info.owner_set_seqno)
      × (w.owners ≡ ctx.wallet.info.owners)
unfolding create_transaction_with_timelock
create_transaction-terms pda now ctx ixs eta h = ground arith

-- A proposal that succeeds: the wallet before and after, and the transaction.
abbrev pub Proposed :
    FindProgramAddress
    → Pubkey
    → Pubkey
    → Pubkey
    → List TxInstruction
    → ℤ
    → Wallets
    → Wallets
    → SmartWallet
    → Transaction
    → Type 0
Proposed pda k x proposer ixs eta s t w tx =
    (find k s.wallets ≡ some w)
    × ((w' : SmartWallet) × (find k t.wallets ≡ some w')
        × (w'.owner_set_seqno ≡ w.owner_set_seqno)
        × (w'.owners ≡ w.owners)
        × (tx.index < w'.num_transactions))
    × (find x t.transactions ≡ some tx)
    × (tx.smart_wallet ≡ k)
    × (x ≡ (pda (Seeds.transaction tx.smart_wallet tx.index)).0)
    × ((tx.instructions ≡ ixs)
        × (tx.eta ≡ eta)
        × (tx.proposer ≡ proposer)
        × (tx.owner_set_seqno ≡ w.owner_set_seqno))

pub process-Proposed :
    (pda : FindProgramAddress) (now : ℤ) (k x proposer : Pubkey) (ixs : List TxInstruction)
    (eta : ℤ) (s : Wallets) {t : Wallets}
    → process pda now (Call.create_transaction_with_timelock k x proposer ixs eta) s ≡ ok t
    → (w : SmartWallet) × (tx : Transaction) × Proposed pda k x proposer ixs eta s t w tx
unfolding process
process-Proposed pda now k x proposer ixs eta s h =
    let (wallet, e, h1) = >>=-eq-ok (load k s.wallets) _ h in
    let (_, _, h2) = >>=-eq-ok (init x s.transactions) _ h1 in
    let ((w', tx), g, h3) = >>=-eq-ok (create_transaction_with_timelock pda now _ ixs eta) _ h2 in
    let (own, index, address) = create_transaction-wallet pda now _ ixs eta g in
    let (ix, eta_is, by, seqno, seqno', owners) = create_transaction-terms pda now _ ixs eta g in
    let fit = create_transaction-Fits pda now _ ixs eta g in
    let (key, found) = load-eq-ok k s.wallets e in
    let eq = ok-injective h3 in
    (
      wallet.info,
      tx,
      (
        found,
        (
          w',
          ap (λ (v : Wallets). find k v.wallets) eq
              ∙ find-put k k w' s.wallets
              ∙ ground (arith, ==_refl k),
          seqno',
          owners,
          fit.index_past,
        ),
        ap (λ (v : Wallets). find x v.transactions) eq
            ∙ find-put x x tx s.transactions
            ∙ ground (arith, ==_refl x),
        own ∙ key,
        address ∙ ap (λ j. (pda (Seeds.transaction j tx.index)).0) (sym own),
        (ix, eta_is, by, seqno),
      ),
    )

validated-is_current :
    (now : ℤ) (ctx : Approve)
    → validate_execute_transaction now ctx ≡ ok tt
    → ctx.wallet.info.owner_set_seqno ≡ ctx.transaction.info.owner_set_seqno
unfolding validate_execute_transaction
validated-is_current now ctx h = ground arith

GrowsAt-found :
    (o p : Option SmartWallet) {w w' : SmartWallet}
    → o ≡ some w
    → p ≡ some w'
    → GrowsAt o p
    → Grows w w'
GrowsAt-found o p {w} {w'} e f g = subst (λ q. GrowsAt q (some w')) e (subst (GrowsAt o) f g)

Proposed-HasTerms :
    (pda : FindProgramAddress) (k x proposer : Pubkey) (ixs : List TxInstruction) (eta : ℤ)
    (s t : Wallets) (w : SmartWallet) (tx : Transaction)
    → Proposed pda k x proposer ixs eta s t w tx
    → HasTerms tx x t
Proposed-HasTerms pda k x proposer ixs eta s t w tx
      (found, (w', found', seqno', owners, past), listed, own, address, terms) =
    record {
      terms = subst (KeepsTerms tx) (sym listed) (refl, refl, refl, refl, refl, refl);
      used = subst (IsUsed tx) (sym (ap (λ j. find j t.wallets) own ∙ found')) past;
    }

-- Given that different transactions have different addresses: after a transaction was proposed to
-- a wallet in a consistent state, and after any history, also with calls made from inside executed
-- transactions, the transaction that passes the checks of an execution at its address has the
-- instructions, the ETA and the proposer that were proposed, and the wallet has the owners that it
-- had at the proposal.
pub execute-as_proposed :
    (pda : FindProgramAddress) (now later : ℤ) (k x proposer owner : Pubkey)
    (ixs : List TxInstruction) (eta : ℤ) {s t u : Wallets} {ctx : Approve}
    → AreApart pda
    → IsConsistent s
    → process pda now (Call.create_transaction_with_timelock k x proposer ixs eta) s ≡ ok t
    → Run pda t u
    → load_approve k x owner u ≡ ok ctx
    → validate_execute_transaction later ctx ≡ ok tt
    → (w : SmartWallet) × (find k s.wallets ≡ some w)
      × (ctx.transaction.info.instructions ≡ ixs)
      × (ctx.transaction.info.eta ≡ eta)
      × (ctx.transaction.info.proposer ≡ proposer)
      × (ctx.wallet.info.owners ≡ w.owners)
execute-as_proposed pda now later k x proposer owner ixs eta {s} {t} {u} {ctx} apart c h r e v =
    let (w, tx, made) = process-Proposed pda now k x proposer ixs eta s h in
    let (found, (w', found', seqno', owners, past), listed, own, address, (ix, eta_is, by, seqno)) =
      made in
    let before = Effect-IsConsistent (process-Effect pda now _ s h) c in
    let kept =
      Run-HasTerms pda apart tx x address r before
        (Proposed-HasTerms pda k x proposer ixs eta s t w tx made) in
    let (wallet, transaction, key) = load_approve-eq-ok k x owner u e in
    let same = KeepsTerms-found tx ctx.transaction.info _ transaction kept.terms in
    let grown = GrowsAt-found _ _ found' wallet (Run-AllGrow r k) in
    let (_, _, by', ix', seqno'', eta') = same in
    let current : w'.owner_set_seqno ≡ ctx.wallet.info.owner_set_seqno =
      seqno' ∙ sym seqno ∙ sym seqno'' ∙ sym (validated-is_current later ctx v) in
    (w, found, ix' ∙ ix, eta' ∙ eta_is, by' ∙ by, grown.owners_stay current ∙ owners)
