-- ===== src/Cli/WalletTool/Owners.antt =====
-- A change of the owners that cli/smartwallet proposes, to its execution by programs/smart-wallet.
use wagmi.Prelude.{
  ℕ, suc, ◌<◌, ◌≤◌, ◌≡◌, ◌==◌, ◌∙◌, refl, sym, ap, subst, arith, ℤ, Option, some, List, [], ◌∷◌,
  ◌++◌, length, false, inl, inr, Option-cases, Bool-cases, find, ==→eq,
}
use wagmi.Chain.{Pubkey, ok}
use wagmi.Chain.Address.{FindProgramAddress}
use wagmi.SmartWallet.{
  position, SmartWallet, Transaction, TxInstruction, Approve, execute_transaction,
}
use wagmi.SmartWallet.Program.{Wallets, Call, process, load_approve, Run}
use wagmi.SmartWallet.Consistency.{IsConsistent}
use wagmi.SmartWallet.Terms.{AreApart}
use wagmi.Govern.{contains}
use wagmi.Cli.Client.{ProgramIds, InstructionData}
use wagmi.Cli.WalletTool.Commands.{Command, View, Instruction}
use wagmi.Cli.WalletTool.Executing.{RunsSetOwners, kept_threshold, Changed, set_owners-executed}
use wagmi.Cli.WalletTool.Requests.{
  main, remove_at, governor_of, create_add_new_owner_tx, create_remove_owner_tx, create_transaction,
  on_itself, smart_wallet_of,
}

-- What a command that asks for new owners has read and sends.
record Asks (pda : FindProgramAddress) (ids : ProgramIds) (code : InstructionData) (base : Pubkey)
    (v : View) (k : Pubkey) (ixs : List TxInstruction) (w : SmartWallet) (owners : List Pubkey)
    : Type 0 where
  pub wallet_is : k ≡ smart_wallet_of pda base
  pub read : find (smart_wallet_of pda base) v.wallets.wallets ≡ some w
  pub asked : ixs ≡ (on_itself ids (smart_wallet_of pda base) (code.set_owners owners) ∷ [])

add_new_owner-Asks :
    (pda : FindProgramAddress) (ids : ProgramIds) (code : InstructionData) (payer : Pubkey)
    (v : View) (keypair base new_owner : Pubkey) {k x proposer : Pubkey} {ixs : List TxInstruction}
    → main pda ids code payer v keypair (Command.create_add_new_owner_tx base new_owner)
      ≡ ok (Instruction.call (Call.create_transaction k x proposer ixs) ∷ [])
    → (w : SmartWallet) × Asks pda ids code base v k ixs w (w.owners ++ new_owner ∷ [])
      × (contains new_owner w.owners ≡ false)
      × (length (w.owners ++ new_owner ∷ []) ≤ w.max_owners)
unfolding main create_add_new_owner_tx create_transaction
add_new_owner-Asks pda ids code payer v keypair base new_owner h =
    elim (Option-cases (find (smart_wallet_of pda base) v.wallets.wallets)) [
      | inl e ↦ ground arith
      | inr (w, e) ↦ (w, ground arith, ground arith, ground arith)
    ]

remove_owner-Asks :
    (pda : FindProgramAddress) (ids : ProgramIds) (code : InstructionData) (payer : Pubkey)
    (v : View) (keypair base owner : Pubkey) {k x proposer : Pubkey} {ixs : List TxInstruction}
    → main pda ids code payer v keypair (Command.create_remove_owner_tx base owner)
      ≡ ok (Instruction.call (Call.create_transaction k x proposer ixs) ∷ [])
    → (w : SmartWallet) × (i : ℕ) × Asks pda ids code base v k ixs w (remove_at w.owners i)
      × (position owner w.owners ≡ some i)
      × (w.threshold < length w.owners)
      × ((owner == governor_of pda base) ≡ false)
unfolding main create_remove_owner_tx create_transaction
remove_owner-Asks pda ids code payer v keypair base owner h =
    elim (Option-cases (find (smart_wallet_of pda base) v.wallets.wallets)) [
      | inl e ↦ ground arith
      | inr (w, e) ↦ elim (Option-cases (position owner w.owners)) [
        | inl none_there ↦ ground arith
        | inr (i, at) ↦ (w, i, ground arith, ground arith, ground arith, ground arith)
      ]
    ]

-- The first place of an owner.
remove_at-position :
    (key : Pubkey) (owners : List Pubkey) (i : ℕ)
    → position key owners ≡ some i
    → (pre : List Pubkey) × (post : List Pubkey) × (owners ≡ pre ++ key ∷ post)
      × (remove_at owners i ≡ pre ++ post)
      × (contains key pre ≡ false)
remove_at-position key [] i h = cc
remove_at-position key (a ∷ owners) i h = elim (Bool-cases (a == key)) [
  | inl here ↦
      let zeroth : i ≡ 0 = ground arith in
      ([], owners, ap (λ b. b ∷ owners) (==→eq a key here), rw zeroth refl, refl)
  | inr other ↦ elim (Option-cases (position key owners)) [
    | inl e ↦ ground arith
    | inr (j, e) ↦
        let (pre, post, whole, less, first) = remove_at-position key owners j e in
        let next : i ≡ suc j = ground arith in
        (a ∷ pre, post, ap (λ bs. a ∷ bs) whole, rw (next, less) refl, rw (other, first) refl)
  ]
]

-- What is asked for, at its execution.
Asks-executed :
    (pda : FindProgramAddress) (ids : ProgramIds) (code : InstructionData)
    (invoke : Wallets → TxInstruction → Option Wallets) (v : View) (base : Pubkey) (now later : ℤ)
    (k x proposer executor : Pubkey) (ixs : List TxInstruction) {w : SmartWallet}
    {owners : List Pubkey} {t u u' : Wallets} {ctx : Approve} {tx : Transaction}
    → AreApart pda
    → RunsSetOwners pda ids code invoke
    → IsConsistent v.wallets
    → Asks pda ids code base v k ixs w owners
    → process pda now (Call.create_transaction k x proposer ixs) v.wallets ≡ ok t
    → Run pda t u
    → load_approve k x executor u ≡ ok ctx
    → execute_transaction invoke later ctx u ≡ ok (u', tx)
    → (w' : SmartWallet) × (find (smart_wallet_of pda base) u'.wallets ≡ some w')
      × Changed ctx w owners w'
Asks-executed pda ids code invoke v base now later k x proposer executor ixs {w} {owners} {t} {u}
      {u'} {ctx} apart runs c asks h r e x' =
    let same : ixs ≡ (on_itself ids k (code.set_owners owners) ∷ []) =
      asks.asked ∙ ap (λ j. on_itself ids j (code.set_owners owners) ∷ []) (sym asks.wallet_is) in
    let proposed =
      ap (λ is. process pda now (Call.create_transaction k x proposer is) v.wallets) (sym same)
      ∙ h in
    let (w0, w', read, found, changed) =
      set_owners-executed pda ids code invoke now later k x proposer executor owners apart runs c
        proposed r e x' in
    let again = ap (λ j. find j v.wallets.wallets) asks.wallet_is ∙ asks.read in
    let same_wallet : w0 ≡ w = cc in
    (
      w',
      ap (λ j. find j u'.wallets) (sym asks.wallet_is) ∙ found,
      subst (λ y. Changed ctx y owners w') same_wallet changed,
    )

-- Given that different transactions have different addresses, and that an instruction with the data of
-- `set_owners` runs `set_owners` signed by the wallet: where the command to add an owner proposes a
-- transaction on a consistent state, the proposal succeeds, and after any history the transaction at
-- its address is executed, the wallet has the owners that the command read and after them the new one,
-- who was not among them, and not more than the wallet may have. The threshold is kept where it is
-- below the number of owners, and is otherwise one less than that number.
pub create_add_new_owner_tx-adds :
    (pda : FindProgramAddress) (ids : ProgramIds) (code : InstructionData)
    (invoke : Wallets → TxInstruction → Option Wallets) (payer : Pubkey) (v : View)
    (keypair base new_owner : Pubkey) (now later : ℤ) (k x proposer executor : Pubkey)
    (ixs : List TxInstruction) {t u u' : Wallets} {ctx : Approve} {tx : Transaction}
    → AreApart pda
    → RunsSetOwners pda ids code invoke
    → IsConsistent v.wallets
    → main pda ids code payer v keypair (Command.create_add_new_owner_tx base new_owner)
      ≡ ok (Instruction.call (Call.create_transaction k x proposer ixs) ∷ [])
    → process pda now (Call.create_transaction k x proposer ixs) v.wallets ≡ ok t
    → Run pda t u
    → load_approve k x executor u ≡ ok ctx
    → execute_transaction invoke later ctx u ≡ ok (u', tx)
    → (w : SmartWallet) × (w' : SmartWallet) × (find (smart_wallet_of pda base) v.wallets.wallets
        ≡ some w)
      × (find (smart_wallet_of pda base) u'.wallets ≡ some w')
      × (w'.owners ≡ w.owners ++ new_owner ∷ [])
      × (contains new_owner w.owners ≡ false)
      × (length w'.owners ≤ w.max_owners)
      × (w'.threshold ≡ kept_threshold ctx.wallet.info w'.owners)
      × (w'.threshold < length w'.owners)
create_add_new_owner_tx-adds pda ids code invoke payer v keypair base new_owner now later k x
      proposer executor ixs {t} {u} {u'} {ctx} apart runs c m h r e x' =
    let (w, asks, new, room) = add_new_owner-Asks pda ids code payer v keypair base new_owner m in
    let (w', found, changed) =
      Asks-executed pda ids code invoke v base now later k x proposer executor ixs apart runs c asks
        h r e x' in
    let are = changed.owners_are in
    (
      w,
      w',
      asks.read,
      found,
      are,
      new,
      rw are room,
      rw are changed.threshold_is,
      rw are changed.threshold_below,
    )

-- Given that different transactions have different addresses, and that an instruction with the data of
-- `set_owners` runs `set_owners` signed by the wallet: where the command to remove an owner proposes
-- a transaction on a consistent state, the proposal succeeds, and after any history the
-- transaction at its address is executed, the wallet has the owners that the command read, in their
-- order, without the first place of the owner, who is not the governor. The threshold is kept where it
-- is below the number of owners that are left, and is otherwise one less than that number.
pub create_remove_owner_tx-removes :
    (pda : FindProgramAddress) (ids : ProgramIds) (code : InstructionData)
    (invoke : Wallets → TxInstruction → Option Wallets) (payer : Pubkey) (v : View)
    (keypair base owner : Pubkey) (now later : ℤ) (k x proposer executor : Pubkey)
    (ixs : List TxInstruction) {t u u' : Wallets} {ctx : Approve} {tx : Transaction}
    → AreApart pda
    → RunsSetOwners pda ids code invoke
    → IsConsistent v.wallets
    → main pda ids code payer v keypair (Command.create_remove_owner_tx base owner)
      ≡ ok (Instruction.call (Call.create_transaction k x proposer ixs) ∷ [])
    → process pda now (Call.create_transaction k x proposer ixs) v.wallets ≡ ok t
    → Run pda t u
    → load_approve k x executor u ≡ ok ctx
    → execute_transaction invoke later ctx u ≡ ok (u', tx)
    → (w : SmartWallet) × (w' : SmartWallet) × (pre : List Pubkey) × (post : List Pubkey) × (find
          (smart_wallet_of pda base)
          v.wallets.wallets
        ≡ some w)
      × (find (smart_wallet_of pda base) u'.wallets ≡ some w')
      × (w.owners ≡ pre ++ owner ∷ post)
      × (w'.owners ≡ pre ++ post)
      × (contains owner pre ≡ false)
      × ((owner == governor_of pda base) ≡ false)
      × (w'.threshold ≡ kept_threshold ctx.wallet.info w'.owners)
      × (w'.threshold < length w'.owners)
create_remove_owner_tx-removes pda ids code invoke payer v keypair base owner now later k x proposer
      executor ixs {t} {u} {u'} {ctx} apart runs c m h r e x' =
    let (w, i, asks, at, room, person) =
      remove_owner-Asks pda ids code payer v keypair base owner m in
    let (w', found, changed) =
      Asks-executed pda ids code invoke v base now later k x proposer executor ixs apart runs c asks
        h r e x' in
    let are = changed.owners_are in
    let (pre, post, whole, less, first) = remove_at-position owner w.owners i at in
    (
      w,
      w',
      pre,
      post,
      asks.read,
      found,
      whole,
      are ∙ less,
      first,
      person,
      rw are changed.threshold_is,
      rw are changed.threshold_below,
    )
