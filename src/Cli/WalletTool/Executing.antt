-- ===== src/Cli/WalletTool/Executing.antt =====
-- A change of the owners of a wallet of programs/smart-wallet, as cli/smartwallet proposes it, at its
-- execution.
use wagmi.Prelude.{
  ℕ, ◌-◌, ◌<◌, ◌≡◌, ◌∙◌, sym, ap, arith, ℤ, Option, some, List, [], ◌∷◌, true, length, leb,
  if◌then◌else◌, find, find-put, ==_refl,
}
use wagmi.Chain.{Pubkey, ok, >>=-eq-ok, ok-injective, load, load-eq-ok}
use wagmi.Chain.Address.{FindProgramAddress}
use wagmi.SmartWallet.{
  SmartWallet, Transaction, TxInstruction, Approve, Auth, set_owners, execute_transaction,
  invoke_all, validate_execute_transaction, no_eta,
}
use wagmi.SmartWallet.Program.{Wallets, Call, process, load_approve, Run}
use wagmi.SmartWallet.Effects.{load_approve-eq-ok}
use wagmi.SmartWallet.Consistency.{IsConsistent}
use wagmi.SmartWallet.Terms.{AreApart}
use wagmi.SmartWallet.Proposing.{execute-as_proposed}
use wagmi.Cli.Client.{ProgramIds, InstructionData}
use wagmi.Cli.WalletTool.Requests.{on_itself}

-- The calls of `invoke_signed`: an instruction with the data of `set_owners` runs `set_owners`, signed
-- by the wallet.
abbrev pub RunsSetOwners :
    FindProgramAddress
    → ProgramIds
    → InstructionData
    → (Wallets → TxInstruction → Option Wallets)
    → Type 0
RunsSetOwners pda ids code invoke =
    (s t : Wallets) (k : Pubkey) (owners : List Pubkey)
    → invoke s (on_itself ids k (code.set_owners owners)) ≡ some t
    → (now : ℤ) × (process pda now (Call.set_owners k true owners) s ≡ ok t)

-- The threshold under new owners.
abbrev pub kept_threshold : SmartWallet → List Pubkey → ℕ
kept_threshold w owners = if leb (length owners) w.threshold then length owners - 1 else w.threshold

set_owners-outcome :
    (ctx : Auth) (owners : List Pubkey) {w' : SmartWallet}
    → set_owners ctx owners ≡ ok w'
    → (w'.owners ≡ owners)
      × (w'.threshold ≡ kept_threshold ctx.wallet.info owners)
      × (w'.threshold < length owners)
unfolding set_owners
set_owners-outcome ctx owners h = ground arith

process-set_owners :
    (pda : FindProgramAddress) (now : ℤ) (k : Pubkey) (owners : List Pubkey) (s : Wallets)
    {t : Wallets} {w : SmartWallet}
    → process pda now (Call.set_owners k true owners) s ≡ ok t
    → find k s.wallets ≡ some w
    → (w' : SmartWallet) × (find k t.wallets ≡ some w')
      × (w'.owners ≡ owners)
      × (w'.threshold ≡ kept_threshold w owners)
      × (w'.threshold < length owners)
unfolding process
process-set_owners pda now k owners s {t} {w} h at =
    let (wallet, e, h1) = >>=-eq-ok (load k s.wallets) _ h in
    let (w', g, h2) = >>=-eq-ok (set_owners _ owners) _ h1 in
    let (_, found) = load-eq-ok k s.wallets e in
    let same : wallet.info ≡ w = cc in
    let (is, threshold, below) = set_owners-outcome _ owners g in
    (
      w',
      ap (λ (v : Wallets). find k v.wallets) (ok-injective h2)
          ∙ find-put k k w' s.wallets
          ∙ ground (arith, ==_refl k),
      is,
      threshold ∙ ap (λ (o : SmartWallet). kept_threshold o owners) same,
      below,
    )

executed-is_valid :
    (invoke : Wallets → TxInstruction → Option Wallets) (now : ℤ) (ctx : Approve) (s : Wallets)
    {t : Wallets} {tx : Transaction}
    → execute_transaction invoke now ctx s ≡ ok (t, tx)
    → validate_execute_transaction now ctx ≡ ok tt
unfolding execute_transaction
executed-is_valid invoke now ctx s h = (>>=-eq-ok (validate_execute_transaction now ctx) _ h).1

executed_one :
    (invoke : Wallets → TxInstruction → Option Wallets) (now : ℤ) (ctx : Approve) (s : Wallets)
    (ix : TxInstruction) {t : Wallets} {tx : Transaction}
    → execute_transaction invoke now ctx s ≡ ok (t, tx)
    → ctx.transaction.info.instructions ≡ (ix ∷ [])
    → invoke s ix ≡ some t
unfolding execute_transaction
executed_one invoke now ctx s ix h only =
    let (_, v, h1) = >>=-eq-ok (validate_execute_transaction now ctx) _ h in
    let (u, e, h2) = >>=-eq-ok (invoke_all invoke s ctx.transaction.info.instructions) _ h1 in
    let one = ap (invoke_all invoke s) (sym only) ∙ e in ground arith

-- The owners of the wallet at its execution, from a proposal to set them.
pub record Changed (ctx : Approve) (w : SmartWallet) (owners : List Pubkey) (w' : SmartWallet)
    : Type 0 where
  pub before : ctx.wallet.info.owners ≡ w.owners
  pub owners_are : w'.owners ≡ owners
  pub threshold_is : w'.threshold ≡ kept_threshold ctx.wallet.info owners
  pub threshold_below : w'.threshold < length owners

pub set_owners-executed :
    (pda : FindProgramAddress) (ids : ProgramIds) (code : InstructionData)
    (invoke : Wallets → TxInstruction → Option Wallets) (now later : ℤ)
    (k x proposer owner : Pubkey) (owners : List Pubkey) {s t u u' : Wallets} {ctx : Approve}
    {tx : Transaction}
    → AreApart pda
    → RunsSetOwners pda ids code invoke
    → IsConsistent s
    → process pda now
        (Call.create_transaction k x proposer (on_itself ids k (code.set_owners owners) ∷ []))
        s
      ≡ ok t
    → Run pda t u
    → load_approve k x owner u ≡ ok ctx
    → execute_transaction invoke later ctx u ≡ ok (u', tx)
    → (w : SmartWallet) × (w' : SmartWallet) × (find k s.wallets ≡ some w)
      × (find k u'.wallets ≡ some w')
      × Changed ctx w owners w'
unfolding process
set_owners-executed pda ids code invoke now later k x proposer owner owners {s} {t} {u} {u'} {ctx}
      apart runs c h r e x' =
    let ixs = on_itself ids k (code.set_owners owners) ∷ [] in
    let (w, found, ix, _, _, before) =
      execute-as_proposed pda now later k x proposer owner ixs no_eta apart c h r e
        (executed-is_valid invoke later ctx u x') in
    let (at, call) = runs u u' k owners (executed_one invoke later ctx u _ x' ix) in
    let (wallet, _, _) = load_approve-eq-ok k x owner u e in
    let (w', found', owners_are, threshold_is, below) =
      process-set_owners pda at k owners u call wallet in
    (
      w,
      w',
      found,
      found',
      record {
        before = before;
        owners_are = owners_are;
        threshold_is = threshold_is;
        threshold_below = below;
      },
    )
