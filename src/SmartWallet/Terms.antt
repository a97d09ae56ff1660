-- ===== src/SmartWallet/Terms.antt =====
-- The terms of a transaction of programs/smart-wallet over a history.
use wagmi.Prelude.{
  ℕ, ◌<◌, ◌≡◌, ◌∙◌, inl, inr, sym, ap, subst, arith, none, some, Option, Store, ◌≢◌, find, put,
  find-put, find-close, ◌==◌, ==→eq, Bool-cases,
}
use wagmi.Chain.{Pubkey}
use wagmi.Chain.Address.{Seeds, FindProgramAddress}
use wagmi.SmartWallet.State.{SmartWallet, Transaction}
use wagmi.SmartWallet.Program.{Wallets, Run, write_back-cases}
use wagmi.SmartWallet.Transactions.{burn}
use wagmi.SmartWallet.Invariant.{SameTerms}
use wagmi.SmartWallet.Effects.{GrowsAt, Effect, load_approve-eq-ok, process-Effect, Effect-AllGrow}
use wagmi.SmartWallet.Consistency.{IsConsistent}
use wagmi.SmartWallet.History.{Run-IsConsistent}

-- Different transactions have different addresses.
abbrev pub AreApart : FindProgramAddress → Type 0
AreApart pda =
    (j k m n : ℕ)
    → (pda (Seeds.transaction j m)).0 ≡ (pda (Seeds.transaction k n)).0
    → (j ≡ k) × (m ≡ n)

-- The index of a transaction is used up in its wallet.
abbrev pub IsUsed : Transaction → Option SmartWallet → Type 0
IsUsed tx none = ⊥
IsUsed tx (some w) = tx.index < w.num_transactions

-- What is found at an address has the terms of a transaction.
abbrev pub KeepsTerms : Transaction → Option Transaction → Type 0
KeepsTerms tx none = Unit
KeepsTerms tx (some tx') = SameTerms tx tx'

pub record HasTerms (tx : Transaction) (x : Pubkey) (s : Wallets) : Type 0 where
  pub terms : KeepsTerms tx (find x s.transactions)
  pub used : IsUsed tx (find tx.smart_wallet s.wallets)

SameTerms-trans : (a b c : Transaction) → SameTerms a b → SameTerms b c → SameTerms a c
SameTerms-trans a b c p q = ground arith

IsUsed-grow :
    (tx : Transaction) (o p : Option SmartWallet) → GrowsAt o p → IsUsed tx o → IsUsed tx p
IsUsed-grow tx none p g u = absurd u
IsUsed-grow tx (some w) none g u = absurd g
IsUsed-grow tx (some w) (some w') g u = omega arith

-- Writing a transaction.
put-KeepsTerms :
    (tx new : Transaction) (x y : Pubkey) (m : Store Transaction)
    → (y ≡ x → SameTerms tx new)
    → KeepsTerms tx (find x m)
    → KeepsTerms tx (find x (put y new m))
put-KeepsTerms tx new x y m same kept = rw (find-put y x new m) (elim (Bool-cases (y == x)) [
  | inl here ↦ rw here (same (==→eq y x here))
  | inr other ↦ rw other kept
])

-- The terms of what is found.
pub KeepsTerms-found :
    (tx old : Transaction) (o : Option Transaction)
    → o ≡ some old
    → KeepsTerms tx o
    → SameTerms tx old
KeepsTerms-found tx old o e kept = subst (KeepsTerms tx) e kept

-- A transaction that is proposed later has another address.
proposed-apart :
    (pda : FindProgramAddress) (tx new : Transaction) (k : Pubkey) (w : SmartWallet)
    (wallets : Store SmartWallet)
    → AreApart pda
    → IsUsed tx (find tx.smart_wallet wallets)
    → find k wallets ≡ some w
    → new.index ≡ w.num_transactions
    → (pda (Seeds.transaction k new.index)).0 ≢ (pda (Seeds.transaction tx.smart_wallet tx.index)).0
proposed-apart pda tx new k w wallets apart used found index same =
    let (wallet, at) = apart k tx.smart_wallet new.index tx.index same in
    let here : find tx.smart_wallet wallets ≡ some w =
      ap (λ j. find j wallets) (sym wallet) ∙ found in
    let past = subst (IsUsed tx) here used in absurd (omega (arith, past, at, index))

module _ (pda : FindProgramAddress) (apart : AreApart pda) (tx : Transaction) (x : Pubkey)
    (address : x ≡ (pda (Seeds.transaction tx.smart_wallet tx.index)).0) where
  Effect-KeepsTerms :
      {s u : Wallets}
      → Effect pda s u
      → IsConsistent s
      → HasTerms tx x s
      → KeepsTerms tx (find x u.transactions)
  Effect-KeepsTerms (Effect.wallet_created k w e eq) c h = rw eq h.terms
  Effect-KeepsTerms (Effect.wallet_changed k w w' e g eq) c h = rw eq h.terms
  Effect-KeepsTerms {s} (Effect.proposed k y w w' new e fresh g f own at eq) c h = rw eq (
      put-KeepsTerms tx new x y s.transactions
        (λ here.
          absurd (
            proposed-apart pda tx new k w s.wallets apart h.used e at.0
              (sym at.1 ∙ here ∙ address)))
        h.terms)
  Effect-KeepsTerms {s} (Effect.signed y w old new found o f same eq) c h = rw eq (
      put-KeepsTerms tx new x y s.transactions
        (λ here.
          SameTerms-trans tx old new
            (KeepsTerms-found tx old (find x s.transactions)
              (ap (λ j. find j s.transactions) (sym here) ∙ found) h.terms)
            same)
        h.terms)
  Effect-KeepsTerms {s} (Effect.closed y old found eq) c h =
      rw (eq, find-close y x s.transactions c.distinct)
        (elim (Bool-cases (y == x)) [ inl here ↦ rw here tt | inr other ↦ rw other h.terms ])

  Effect-HasTerms :
      {s u : Wallets} → Effect pda s u → IsConsistent s → HasTerms tx x s → HasTerms tx x u
  Effect-HasTerms {s} {u} e c h = record {
    terms = Effect-KeepsTerms e c h;
    used =
        IsUsed-grow tx (find tx.smart_wallet s.wallets) (find tx.smart_wallet u.wallets)
          (Effect-AllGrow {pda = pda} e tx.smart_wallet) h.used;
  }

  pub Run-HasTerms :
      {s u : Wallets} → Run pda s u → IsConsistent s → HasTerms tx x s → HasTerms tx x u
  Run-HasTerms Run.start c h = h
  Run-HasTerms (Run.call {t = t} now i r e) c h =
      Effect-HasTerms (process-Effect pda now i t e) (Run-IsConsistent r c) (Run-HasTerms r c h)
  Run-HasTerms (Run.execute {t = t} {u = u} now k y owner ctx r e v inner) c h =
      let before = Run-HasTerms r c h in
      let after = Run-HasTerms inner (Run-IsConsistent r c) before in
      let (_, found, _) = load_approve-eq-ok k y owner t e in
      record {
        terms = elim (write_back-cases y (burn now ctx) u.transactions) [
          | inl gone ↦ rw gone after.terms
          | inr written ↦ rw written (
              put-KeepsTerms tx (burn now ctx) x y u.transactions
                (λ here.
                  KeepsTerms-found tx ctx.transaction.info (find x t.transactions)
                    (ap (λ j. find j t.transactions) (sym here) ∙ found) before.terms)
                after.terms)
        ];
        used = after.used;
      }
