-- ===== src/SmartWallet/Tests/Proposing.antt =====
-- The transaction of the wallet of these tests, from its proposal to its execution
-- (programs/smart-wallet).
use wagmi.Prelude.{ℕ, ◌+◌, ◌≡◌, refl, arith, ℤ, pos, [], ◌∷◌, List, find, some, ◌+ℤ◌}
use wagmi.Chain.{ok}
use wagmi.Chain.Pairing.{pairing-injective}
use wagmi.SmartWallet.{SmartWallet, TxInstruction, create_transaction_with_timelock, set_approval}
use wagmi.SmartWallet.Program.{Run, Call, process}
use wagmi.SmartWallet.Terms.{AreApart}
use wagmi.SmartWallet.Proposing.{execute-as_proposed}
use wagmi.SmartWallet.Tests.{
  addresses, at_start, after_proposal, after_approval, execution, execution-ok,
  at_start-IsConsistent,
}

addresses-AreApart : AreApart addresses
addresses-AreApart j k m n e = pairing-injective j m k n (omega (arith, e))

proposal :
    process addresses
      (pos 500)
      (Call.create_transaction_with_timelock 7 1056 20 [] (pos 600))
      at_start
    ≡ ok after_proposal
unfolding process create_transaction_with_timelock ◌+ℤ◌ wagmi.Prelude.◌-ℤ◌
    wagmi.SmartWallet.write_signer
proposal = refl

approving : Run addresses after_proposal after_approval
unfolding process set_approval wagmi.SmartWallet.write_signer
approving = Run.call (pos 550) (Call.approve 7 1056 10) Run.start refl

execute-as_proposed_example :
    (w : SmartWallet) × (find 7 at_start.wallets ≡ some w)
    × (execution.transaction.info.instructions ≡ [])
    × (execution.transaction.info.eta ≡ pos 600)
    × (execution.transaction.info.proposer ≡ 20)
    × (execution.wallet.info.owners ≡ w.owners)
execute-as_proposed_example =
    execute-as_proposed addresses (pos 500) (pos 650) 7 1056 20 30 [] (pos 600) {s = at_start}
      {t = after_proposal} {u = after_approval} {ctx = execution} addresses-AreApart
      at_start-IsConsistent proposal approving refl execution-ok
