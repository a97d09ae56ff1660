-- ===== src/SmartWallet/History.antt =====
-- Histories of programs/smart-wallet: what every sequence of instructions keeps, with the calls that
-- `execute_transaction` makes into the program itself.
use wagmi.Prelude.{find, inl, inr}
use wagmi.Chain.Address.{FindProgramAddress}
use wagmi.SmartWallet.Program.{Wallets, Run, write_back-cases}
use wagmi.SmartWallet.Transactions.{burn}
use wagmi.SmartWallet.Effects.{AllGrow, GrowsAt-refl, GrowsAt-trans, process-Effect, Effect-AllGrow}
use wagmi.SmartWallet.Consistency.{IsConsistent, Effect-IsConsistent, burn-IsConsistent}

-- Over any history every wallet that exists goes on existing: its owner set sequence number and
-- its number of transactions never fall, its owners are the same while that sequence number is,
-- and its minimum delay and its grace period stay.
pub Run-AllGrow : {pda : FindProgramAddress} {s u : Wallets} → Run pda s u → AllGrow s u
Run-AllGrow {s = s} Run.start j = GrowsAt-refl (find j s.wallets)
Run-AllGrow {pda} (Run.call {t = t} now c r e) j =
    GrowsAt-trans _ _ _ (Run-AllGrow r j) (Effect-AllGrow (process-Effect pda now c t e) j)
Run-AllGrow (Run.execute now k x owner ctx r e v inner) j =
    GrowsAt-trans _ _ _ (Run-AllGrow r j) (Run-AllGrow inner j)

-- Over any history from a consistent state, also with calls made from inside executed
-- transactions, the state stays consistent: no transaction is listed twice, and each belongs to a
-- wallet, has a signer slot for each owner while its owner set is current, an owner set sequence
-- number not above the wallet's, an index below the wallet's count, an ETA that respects the
-- minimum delay, and if it was executed then not before its ETA and, where it has one, not after
-- its grace period.
pub Run-IsConsistent :
    {pda : FindProgramAddress} {s u : Wallets} → Run pda s u → IsConsistent s → IsConsistent u
Run-IsConsistent Run.start c = c
Run-IsConsistent {pda} (Run.call {t = t} now i r e) c =
    Effect-IsConsistent (process-Effect pda now i t e) (Run-IsConsistent r c)
Run-IsConsistent (Run.execute {t = t} {u = u} now k x owner ctx r e v inner) c =
    let d = Run-IsConsistent r c in
    let after = Run-IsConsistent inner d in
    elim (write_back-cases x (burn now ctx) u.transactions) [
      | inl gone ↦ rw gone after
      | inr written ↦
          rw written (burn-IsConsistent now k x owner ctx t u e v (Run-AllGrow inner) d after)
    ]
