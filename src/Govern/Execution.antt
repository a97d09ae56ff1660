-- ===== src/Govern/Execution.antt =====
-- A proposal of programs/govern that is queued, to its execution by programs/smart-wallet.
use wagmi.Prelude.{
  ◌≡◌, ◌∙◌, refl, sym, ap, subst, arith, ◌⊎◌, inl, inr, none, some, true, ℤ, pos, ◌+ℤ◌, ◌≤ℤ◌, ◌==ℤ◌,
  find, Bool-cases,
}
use wagmi.Chain.{Pubkey, ok, >>=-eq-ok, ok-injective, load, load-eq-ok, init-of_none, first_step}
use wagmi.Chain.Address.{FindProgramAddress}
use wagmi.SmartWallet.{
  SmartWallet, Transaction, Approve, no_eta, create_transaction_with_timelock,
  validate_execute_transaction,
}
use wagmi.SmartWallet.Program as Wallet
use wagmi.SmartWallet.Program.{Run, load_approve}
use wagmi.SmartWallet.Consistency.{IsConsistent}
use wagmi.SmartWallet.Terms.{AreApart}
use wagmi.SmartWallet.Proposing.{execute-as_proposed}
use wagmi.Govern.State.{Governor, Proposal}
use wagmi.Govern.Proposals.{state, succeeded, to_smart_wallet_instructions}
use wagmi.Govern.Queue.{QueueProposal, queue_proposal}
use wagmi.Govern.Lifecycle.{IsPassed, succeeded-IsPassed}
use wagmi.Govern.Program.{Chambers, Call, process}

-- When the transaction may run.
abbrev EtaIs : ℤ → ℤ → ℤ → Type 0
EtaIs now delay eta = (delay ==ℤ pos 0 ≡ true) ⊎ (eta ≡ now +ℤ delay)

queue_proposal-calls :
    (pda : FindProgramAddress) (now : ℤ) (ctx : QueueProposal) {w : SmartWallet} {tx : Transaction}
    {p : Proposal}
    → queue_proposal pda now ctx ≡ ok (w, tx, p)
    → (eta : ℤ) × (create_transaction_with_timelock pda now
          (record {
            wallet = ctx.smart_wallet;
            transaction = ctx.transaction;
            proposer = ctx.governor.key;
          })
          (to_smart_wallet_instructions ctx.proposal.info)
          eta
        ≡ ok (w, tx))
      × EtaIs now ctx.governor.info.params.timelock_delay_seconds eta
      × (state ctx.proposal.info now ≡ ok succeeded)
      × (ctx.transaction_is_empty ≡ true)
unfolding queue_proposal
queue_proposal-calls pda now ctx h =
    elim (Bool-cases (ctx.governor.info.params.timelock_delay_seconds ==ℤ pos 0)) [
      | inl zero ↦ (no_eta, ground arith, inl zero, ground arith, ground arith)
      | inr some_delay ↦ (
        now +ℤ ctx.governor.info.params.timelock_delay_seconds,
        ground arith,
        inr refl,
        ground arith,
        ground arith,
      )
    ]

-- The instruction `queue_proposal` as an instruction of the smart wallet program.
queue_proposal-proposes :
    (pda : FindProgramAddress) (now : ℤ) (gk pk tk wk : Pubkey) (s : Chambers) {u : Chambers}
    → process pda now (Call.queue_proposal gk pk tk wk) s ≡ ok u
    → (g : Governor) × (p : Proposal) × (eta : ℤ) × (find gk s.governors ≡ some g)
      × (find pk s.proposals ≡ some p)
      × (state p now ≡ ok succeeded)
      × EtaIs now g.params.timelock_delay_seconds eta
      × (Wallet.process pda now
            (Wallet.Call.create_transaction_with_timelock wk tk gk
              (to_smart_wallet_instructions p)
              eta)
            s.wallets
          ≡ ok u.wallets)
unfolding process Wallet.process
queue_proposal-proposes pda now gk pk tk wk s {u} h =
    let (governor, e, h1) = >>=-eq-ok (load gk s.governors) _ h in
    let (proposal, e', h2) = >>=-eq-ok (load pk s.proposals) _ h1 in
    let (wallet, e'', h3) = >>=-eq-ok (load wk s.wallets.wallets) _ h2 in
    let ((w, tx, p'), g, h4) = >>=-eq-ok (queue_proposal pda now _) _ h3 in
    let (eta, made, eta_is, passed, fresh) = queue_proposal-calls pda now _ g in
    let (gkey, fg) = load-eq-ok gk s.governors e in
    let (_, fp) = load-eq-ok pk s.proposals e' in
    let (wkey, fw) = load-eq-ok wk s.wallets.wallets e'' in
    let call =
      subst
        (λ j.
          create_transaction_with_timelock pda now
            (record { wallet = wallet; transaction = tk; proposer = j })
            (to_smart_wallet_instructions proposal.info) eta
          ≡ ok (w, tx))
        gkey made in
    let empty : find tk s.wallets.transactions ≡ none = ground arith in
    (
      governor.info,
      proposal.info,
      eta,
      fg,
      fp,
      passed,
      eta_is,
      first_step _ _ e'' (
          first_step _ _ (init-of_none tk s.wallets.transactions empty)
            (first_step _ _ call (sym (ap (λ (v : Chambers). ok v.wallets) (ok-injective h4))))),
    )

validated-is_ready :
    (now : ℤ) (ctx : Approve)
    → validate_execute_transaction now ctx ≡ ok tt
    → ctx.transaction.info.eta ≤ℤ now
unfolding validate_execute_transaction
validated-is_ready now ctx h = ground arith

-- Given that different transactions have different addresses: where a proposal is queued on consistent
-- wallets, and after any history of the wallets, also with calls made from inside executed
-- transactions, a transaction at its address passes the checks of an execution, then the proposal
-- had passed when it was queued (activated, not cancelled, its vote over with a quorum, and for a
-- yes/no proposal more votes for than against), the transaction makes the calls of the proposal, in
-- the name of the governor, and with a timelock delay not before the queueing and the delay.
pub execute-queued_proposal :
    (pda : FindProgramAddress) (now later : ℤ) (gk pk tk wk owner : Pubkey) (s : Chambers)
    {u : Chambers} {v : Wallet.Wallets} {ctx : Approve}
    → AreApart pda
    → IsConsistent s.wallets
    → process pda now (Call.queue_proposal gk pk tk wk) s ≡ ok u
    → Run pda u.wallets v
    → load_approve wk tk owner v ≡ ok ctx
    → validate_execute_transaction later ctx ≡ ok tt
    → (g : Governor) × (p : Proposal) × (find gk s.governors ≡ some g)
      × (find pk s.proposals ≡ some p)
      × IsPassed p now
      × (ctx.transaction.info.instructions ≡ to_smart_wallet_instructions p)
      × (ctx.transaction.info.proposer ≡ gk)
      × ((g.params.timelock_delay_seconds ==ℤ pos 0 ≡ true)
          ⊎ (now +ℤ g.params.timelock_delay_seconds ≤ℤ later))
execute-queued_proposal pda now later gk pk tk wk owner s {ctx = ctx} apart c h r e valid =
    let (g, p, eta, fg, fp, passed, eta_is, call) =
      queue_proposal-proposes pda now gk pk tk wk s h in
    let (_, _, ix, eta', by, _) =
      execute-as_proposed pda now later wk tk gk owner (to_smart_wallet_instructions p) eta apart c
        call r e valid in
    (
      g,
      p,
      fg,
      fp,
      (succeeded-IsPassed p now passed).0,
      ix,
      by,
      elim eta_is [
        | inl none_set ↦ inl none_set
        | inr later_than ↦
            inr (subst (λ x. x ≤ℤ later) (eta' ∙ later_than) (validated-is_ready later ctx valid))
      ],
    )
