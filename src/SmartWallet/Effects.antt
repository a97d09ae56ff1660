-- ===== src/SmartWallet/Effects.antt =====
-- What the instructions of programs/smart-wallet do to the stores of accounts.
use wagmi.Prelude.{
  ap, ◌≡◌, inl, inr, refl, ◌∙◌, Bool, true, false, List, Option, none, some, arith, ℤ, find, put,
  close, find-put, ◌==◌, Bool-cases, ==→eq,
}
use wagmi.Chain.{Pubkey, ok, >>=-eq-ok, load, init, load-eq-ok, init-eq-ok, ok-injective}
use wagmi.Chain.Address.{Seeds, FindProgramAddress}
use wagmi.SmartWallet.State.{SmartWallet, Transaction, TxInstruction, no_eta}
use wagmi.SmartWallet.Owners
use wagmi.SmartWallet.Transactions
use wagmi.SmartWallet.Transactions.{
  CreateTransaction, create_transaction_with_timelock, Approve, set_approval,
  validate_execute_transaction, burn,
}
use wagmi.SmartWallet.Program.{Wallets, Call, process, load_approve}
use wagmi.SmartWallet.Invariant.{
  Grows, Fits, SameTerms, Grows-refl, Grows-trans, set_owners-Grows, change_threshold-Grows,
  create_transaction-Grows, create_transaction-Fits, set_approval-Fits, create_transaction-wallet,
  set_approval-wallet,
}

-- A wallet that exists goes on existing, and grows.
abbrev pub GrowsAt : Option SmartWallet → Option SmartWallet → Type 0
GrowsAt none o = Unit
GrowsAt (some w) none = ⊥
GrowsAt (some w) (some w') = Grows w w'

abbrev pub AllGrow : Wallets → Wallets → Type 0
AllGrow s u = (k : Pubkey) → GrowsAt (find k s.wallets) (find k u.wallets)

pub GrowsAt-refl : (o : Option SmartWallet) → GrowsAt o o
GrowsAt-refl none = tt
GrowsAt-refl (some w) = Grows-refl w

pub GrowsAt-trans : (o p q : Option SmartWallet) → GrowsAt o p → GrowsAt p q → GrowsAt o q
GrowsAt-trans none p q g h = tt
GrowsAt-trans (some u) none q g h = absurd g
GrowsAt-trans (some u) (some v) none g h = absurd h
GrowsAt-trans (some u) (some v) (some w) g h = Grows-trans u v w g h

-- Writing a grown wallet back.
AllGrow-put :
    (s : Wallets) (k : Pubkey) (w w' : SmartWallet)
    → find k s.wallets ≡ some w
    → Grows w w'
    → (j : Pubkey) → GrowsAt (find j s.wallets) (find j (put k w' s.wallets))
AllGrow-put s k w w' e g j = rw (find-put k j w' s.wallets) (elim (Bool-cases (k == j)) [
  | inl same ↦ rw (same, ← ==→eq k j same, e) g
  | inr other ↦ rw other (GrowsAt-refl (find j s.wallets))
])

-- What an instruction did to the accounts.
pub data Effect (pda : FindProgramAddress) (s u : Wallets) : Type 0 where
  wallet_created :
      (k : Pubkey) (w : SmartWallet)
      → find k s.wallets ≡ none
      → u ≡ record s { wallets = put k w s.wallets }
      → Effect pda s u
  wallet_changed :
      (k : Pubkey) (w w' : SmartWallet)
      → find k s.wallets ≡ some w
      → Grows w w'
      → u ≡ record s { wallets = put k w' s.wallets }
      → Effect pda s u
  proposed :
      (k x : Pubkey) (w w' : SmartWallet) (tx : Transaction)
      → find k s.wallets ≡ some w
      → find x s.transactions ≡ none
      → Grows w w'
      → Fits w' tx
      → tx.smart_wallet ≡ k
      → (tx.index ≡ w.num_transactions) × (x ≡ (pda (Seeds.transaction k tx.index)).0)
      → u ≡ record s { wallets = put k w' s.wallets; transactions = put x tx s.transactions }
      → Effect pda s u
  signed :
      (x : Pubkey) (w : SmartWallet) (tx tx' : Transaction)
      → find x s.transactions ≡ some tx
      → find tx.smart_wallet s.wallets ≡ some w
      → (Fits w tx → Fits w tx')
      → SameTerms tx tx'
      → u ≡ record s { transactions = put x tx' s.transactions }
      → Effect pda s u
  closed :
      (x : Pubkey) (tx : Transaction)
      → find x s.transactions ≡ some tx
      → u ≡ record s { transactions = close x s.transactions }
      → Effect pda s u

-- The accounts that `approve`, `unapprove` and `execute_transaction` are given.
pub load_approve-eq-ok :
    (k x owner : Pubkey) (s : Wallets) {ctx : Approve}
    → load_approve k x owner s ≡ ok ctx
    → (find k s.wallets ≡ some ctx.wallet.info)
      × (find x s.transactions ≡ some ctx.transaction.info)
      × (ctx.wallet.key ≡ k)
load_approve-eq-ok k x owner s h = ground arith

proposed-Effect :
    (pda : FindProgramAddress) (now : ℤ) (k x proposer : Pubkey) (ixs : List TxInstruction)
    (eta : ℤ) (s : Wallets) {u : Wallets}
    → process pda now (Call.create_transaction_with_timelock k x proposer ixs eta) s ≡ ok u
    → Effect pda s u
unfolding process
proposed-Effect pda now k x proposer ixs eta s h =
    let (wallet, e, h1) = >>=-eq-ok (load k s.wallets) _ h in
    let (_, fresh, h2) = >>=-eq-ok (init x s.transactions) _ h1 in
    let ((w', tx), g, h3) = >>=-eq-ok (create_transaction_with_timelock pda now _ ixs eta) _ h2 in
    let (own, index, address) = create_transaction-wallet pda now _ ixs eta g in
    proposed k x wallet.info w' tx (load-eq-ok k s.wallets e).1 (init-eq-ok x s.transactions fresh)
      (create_transaction-Grows pda now _ ixs eta g) (create_transaction-Fits pda now _ ixs eta g)
      (own ∙ (load-eq-ok k s.wallets e).0)
      (
        index,
        address ∙ ap (λ j. (pda (Seeds.transaction j tx.index)).0) (load-eq-ok k s.wallets e).0,
      )
      (ok-injective h3)

signed-Effect :
    (pda : FindProgramAddress) (b : Bool) (k x owner : Pubkey) (s : Wallets) (ctx : Approve)
    {tx : Transaction}
    → load_approve k x owner s ≡ ok ctx
    → set_approval b ctx ≡ ok tx
    → Effect pda s (record s { transactions = put x tx s.transactions })
signed-Effect pda b k x owner s ctx {tx} e g =
    let (found, listed, key) = load_approve-eq-ok k x owner s e in
    let (same, kept) = set_approval-wallet b ctx g in
    signed x ctx.wallet.info ctx.transaction.info tx listed (rw (← same, key) found)
      (set_approval-Fits b ctx g) kept refl

pub process-Effect :
    (pda : FindProgramAddress) (now : ℤ) (c : Call) (s : Wallets) {u : Wallets}
    → process pda now c s ≡ ok u
    → Effect pda s u
unfolding process
process-Effect pda now (Call.create_smart_wallet base k m owners threshold delay) s h =
    let (_, e, h1) = >>=-eq-ok (init k s.wallets) _ h in
    let (w, _, h2) =
      >>=-eq-ok (Owners.create_smart_wallet pda base k m owners threshold delay) _ h1 in
    wallet_created k w (init-eq-ok k s.wallets e) (ok-injective h2)
process-Effect pda now (Call.set_owners k is_signer owners) s h =
    let (wallet, e, h1) = >>=-eq-ok (load k s.wallets) _ h in
    let (w', g, h2) = >>=-eq-ok (Owners.set_owners _ owners) _ h1 in
    wallet_changed k wallet.info w' (load-eq-ok k s.wallets e).1 (set_owners-Grows _ owners g)
      (ok-injective h2)
process-Effect pda now (Call.change_threshold k is_signer threshold) s h =
    let (wallet, e, h1) = >>=-eq-ok (load k s.wallets) _ h in
    let (w', g, h2) = >>=-eq-ok (Owners.change_threshold _ threshold) _ h1 in
    wallet_changed k wallet.info w' (load-eq-ok k s.wallets e).1
      (change_threshold-Grows _ threshold g) (ok-injective h2)
process-Effect pda now (Call.create_transaction k x proposer ixs) s h =
    proposed-Effect pda now k x proposer ixs no_eta s h
process-Effect pda now (Call.create_transaction_with_timelock k x proposer ixs eta) s h =
    proposed-Effect pda now k x proposer ixs eta s h
process-Effect pda now (Call.remove_transaction k x proposer) s h =
    let (wallet, _, h1) = >>=-eq-ok (load k s.wallets) _ h in
    let (tx, e, h2) = >>=-eq-ok (load x s.transactions) _ h1 in
    let (_, _, h3) = >>=-eq-ok (Transactions.remove_transaction wallet tx proposer) _ h2 in
    closed x tx.info (load-eq-ok x s.transactions e).1 (ok-injective h3)
process-Effect pda now (Call.approve k x owner) s h =
    let (ctx, e, h1) = >>=-eq-ok (load_approve k x owner s) _ h in
    let (tx, g, h2) = >>=-eq-ok (set_approval true ctx) _ h1 in
    rw (ok-injective h2) (signed-Effect pda true k x owner s ctx e g)
process-Effect pda now (Call.unapprove k x owner) s h =
    let (ctx, e, h1) = >>=-eq-ok (load_approve k x owner s) _ h in
    let (tx, g, h2) = >>=-eq-ok (set_approval false ctx) _ h1 in
    rw (ok-injective h2) (signed-Effect pda false k x owner s ctx e g)

pub Effect-AllGrow : {pda : FindProgramAddress} {s u : Wallets} → Effect pda s u → AllGrow s u
Effect-AllGrow {s} (wallet_created k w e eq) j =
    rw (eq, find-put k j w s.wallets) (ground (arith, GrowsAt-refl (find j s.wallets)))
Effect-AllGrow {s} (wallet_changed k w w' e g eq) j = rw eq (AllGrow-put s k w w' e g j)
Effect-AllGrow {s} (proposed k x w w' tx e fresh g f own at eq) j =
    rw eq (AllGrow-put s k w w' e g j)
Effect-AllGrow {s} (signed x w tx tx' e o f own eq) j = rw eq (GrowsAt-refl (find j s.wallets))
Effect-AllGrow {s} (closed x tx e eq) j = rw eq (GrowsAt-refl (find j s.wallets))
