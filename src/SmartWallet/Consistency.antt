-- ===== src/SmartWallet/Consistency.antt =====
-- The transactions of programs/smart-wallet against their wallets, through each instruction.
use wagmi.Prelude.{
  ◌≡◌, inl, inr, refl, ap, Option, none, some, ℤ, Store, find, put, close, find-put, find-close,
  IsDistinct, put-IsDistinct, close-IsDistinct, subst, ◌==◌, Bool-cases, ==_refl,
}
use wagmi.Chain.{Pubkey, ok}
use wagmi.Chain.Address.{FindProgramAddress}
use wagmi.SmartWallet.State.{SmartWallet, Transaction}
use wagmi.SmartWallet.Transactions.{Approve, validate_execute_transaction, burn}
use wagmi.SmartWallet.Program.{Wallets, load_approve}
use wagmi.SmartWallet.Invariant.{Fits, Grows-Fits, burn-Fits, execute-wallet}
use wagmi.SmartWallet.Effects.{GrowsAt, AllGrow, Effect, load_approve-eq-ok, Effect-AllGrow}

-- What a transaction is of its wallet.
abbrev pub FitsAt : Option SmartWallet → Transaction → Type 0
FitsAt none tx = ⊥
FitsAt (some w) tx = Fits w tx

abbrev pub FitsIn : Store SmartWallet → Option Transaction → Type 0
FitsIn wallets none = Unit
FitsIn wallets (some tx) = FitsAt (find tx.smart_wallet wallets) tx

-- Every transaction belongs to a wallet and fits it.
pub record IsConsistent (s : Wallets) : Type 0 where
  pub fits : (x : Pubkey) → FitsIn s.wallets (find x s.transactions)
  pub distinct : IsDistinct s.transactions

FitsIn-grow :
    (s u : Wallets) (o : Option Transaction) → AllGrow s u → FitsIn s.wallets o → FitsIn u.wallets o
FitsIn-grow s u none g f = tt
FitsIn-grow s u (some tx) g f =
    at (find tx.smart_wallet s.wallets) (find tx.smart_wallet u.wallets) (g tx.smart_wallet) f
  where
    at : (o p : Option SmartWallet) → GrowsAt o p → FitsAt o tx → FitsAt p tx
    at none p g f = absurd f
    at (some w) none g f = absurd g
    at (some w) (some w') g f = Grows-Fits w w' tx g f

-- Writing a transaction that fits.
FitsIn-put :
    (wallets : Store SmartWallet) (m : Store Transaction) (x : Pubkey) (tx : Transaction)
    (j : Pubkey)
    → FitsAt (find tx.smart_wallet wallets) tx
    → FitsIn wallets (find j m)
    → FitsIn wallets (find j (put x tx m))
FitsIn-put wallets m x tx j f old =
    rw (find-put x j tx m)
      (elim (Bool-cases (x == j)) [ inl same ↦ rw same f | inr other ↦ rw other old ])

FitsIn-close :
    (wallets : Store SmartWallet) (m : Store Transaction) (x j : Pubkey)
    → IsDistinct m
    → FitsIn wallets (find j m)
    → FitsIn wallets (find j (close x m))
FitsIn-close wallets m x j d old =
    rw (find-close x j m d)
      (elim (Bool-cases (x == j)) [ inl same ↦ rw same tt | inr other ↦ rw other old ])

FitsAt-found :
    (wallets : Store SmartWallet) (tx : Transaction) {w : SmartWallet}
    → find tx.smart_wallet wallets ≡ some w
    → Fits w tx
    → FitsAt (find tx.smart_wallet wallets) tx
FitsAt-found wallets tx e f = rw e f

pub Fits-found :
    (wallets : Store SmartWallet) (tx : Transaction) {w : SmartWallet} {o : Option Transaction}
    → o ≡ some tx
    → find tx.smart_wallet wallets ≡ some w
    → FitsIn wallets o
    → Fits w tx
Fits-found wallets tx listed found f =
    subst (λ p. FitsAt p tx) found (subst (FitsIn wallets) listed f)

-- The transactions of a state whose wallets have grown.
IsConsistent-after :
    (s u : Wallets) (m : Store Transaction)
    → AllGrow s u
    → IsConsistent s
    → u.transactions ≡ m
    → ((j : Pubkey) → FitsIn u.wallets (find j s.transactions) → FitsIn u.wallets (find j m))
    → IsDistinct m
    → IsConsistent u
IsConsistent-after s u m grown c eq keep d = record {
  fits = λ j. rw eq (keep j (FitsIn-grow s u (find j s.transactions) grown (c.fits j)));
  distinct = rw eq d;
}

pub Effect-IsConsistent :
    {pda : FindProgramAddress} {s u : Wallets} → Effect pda s u → IsConsistent s → IsConsistent u
Effect-IsConsistent {pda} {s} {u} (Effect.wallet_created k w e eq) c =
    IsConsistent-after s u s.transactions
      (Effect-AllGrow {pda = pda} (Effect.wallet_created k w e eq)) c
      (ap (λ (v : Wallets). v.transactions) eq) (λ j f. f) c.distinct
Effect-IsConsistent {pda} {s} {u} (Effect.wallet_changed k w w' e g eq) c =
    IsConsistent-after s u s.transactions
      (Effect-AllGrow {pda = pda} (Effect.wallet_changed k w w' e g eq)) c
      (ap (λ (v : Wallets). v.transactions) eq) (λ j f. f) c.distinct
Effect-IsConsistent {pda} {s} {u} (Effect.proposed k x w w' tx e fresh g f own at eq) c =
    IsConsistent-after s u (put x tx s.transactions)
      (Effect-AllGrow {pda = pda} (Effect.proposed k x w w' tx e fresh g f own at eq)) c
      (ap (λ (v : Wallets). v.transactions) eq)
      (λ j old.
        FitsIn-put u.wallets s.transactions x tx j
          (FitsAt-found u.wallets tx (rw (own, eq, find-put k k w' s.wallets, ==_refl k) refl) f)
          old)
      (put-IsDistinct x tx s.transactions c.distinct)
Effect-IsConsistent {pda} {s} {u} (Effect.signed x w tx tx' listed found f same eq) c =
    let fit = f (Fits-found s.wallets tx listed found (c.fits x)) in
    IsConsistent-after s u (put x tx' s.transactions)
      (Effect-AllGrow {pda = pda} (Effect.signed x w tx tx' listed found f same eq)) c
      (ap (λ (v : Wallets). v.transactions) eq)
      (λ j old.
        FitsIn-put u.wallets s.transactions x tx' j
          (FitsAt-found u.wallets tx' (rw (same.0, eq) found) fit) old)
      (put-IsDistinct x tx' s.transactions c.distinct)
Effect-IsConsistent {pda} {s} {u} (Effect.closed x tx listed eq) c =
    IsConsistent-after s u (close x s.transactions)
      (Effect-AllGrow {pda = pda} (Effect.closed x tx listed eq)) c
      (ap (λ (v : Wallets). v.transactions) eq)
      (λ j old. FitsIn-close u.wallets s.transactions x j c.distinct old)
      (close-IsDistinct x s.transactions c.distinct)

-- The burn of a transaction, after the calls that it made.
pub burn-IsConsistent :
    (now : ℤ) (k x owner : Pubkey) (ctx : Approve) (t u : Wallets)
    → load_approve k x owner t ≡ ok ctx
    → validate_execute_transaction now ctx ≡ ok tt
    → AllGrow t u
    → IsConsistent t
    → IsConsistent u
    → IsConsistent (record u { transactions = put x (burn now ctx) u.transactions })
burn-IsConsistent now k x owner ctx t u e v grown c d =
    let (found, listed, key) = load_approve-eq-ok k x owner t e in
    let tx = ctx.transaction.info in
    let here : find tx.smart_wallet t.wallets ≡ some ctx.wallet.info =
      rw (← execute-wallet now ctx v, key) found in
    let fit = burn-Fits now ctx v (Fits-found t.wallets tx listed here (c.fits x)) in
    let after : FitsIn u.wallets (some (burn now ctx)) =
      FitsIn-grow t u (some (burn now ctx)) grown
        (FitsAt-found t.wallets (burn now ctx) here fit) in
    record {
      fits = λ j. FitsIn-put u.wallets u.transactions x (burn now ctx) j after (d.fits j);
      distinct = put-IsDistinct x (burn now ctx) u.transactions d.distinct;
    }
