-- ===== src/Cli/VoterTool/Leaving.antt =====
-- The command `withdraw` of cli/locked-voter, for an owner whose lock is over.
use wagmi.Prelude.{◌≡◌, ◌≢◌, ◌∙◌, ◌<◌, refl, sym, ap, subst, some, ℤ, [], ◌∷◌, find, close}
use wagmi.Chain.{Pubkey, ok, first_step, TokenProgram}
use wagmi.Chain.Address.{Seeds, FindProgramAddress}
use wagmi.LockedVoter.{Locker, Escrow}
use wagmi.LockedVoter.Program.{Vaults, Call, run, History}
use wagmi.LockedVoter.Backing.{IsBacked}
use wagmi.LockedVoter.Places.{PlacedIn, TokensFit, IsPlaced, History-IsPlaced}
use wagmi.LockedVoter.Exit.{IsUnlocked, AreOpen, History-owner_exits}
use wagmi.Cli.Client.{fetch-of_find}
use wagmi.Cli.VoterTool.Commands.{Command, View, Instruction}
use wagmi.Cli.VoterTool.Requests.{main, withdraw, locker_of, escrow_of}

-- Escrows of different lockers or owners have different addresses.
abbrev pub EscrowsApart : FindProgramAddress → Type 0
EscrowsApart pda =
    (j k a b : Pubkey) → (pda (Seeds.escrow j a)).0 ≡ (pda (Seeds.escrow k b)).0 → (j ≡ k) × (a ≡ b)

module _ (tp : TokenProgram) (pda : FindProgramAddress) (apart : EscrowsApart pda) where
  -- The escrow that the tool finds is the owner's, with its tokens where the tool looks.
  escrow_found :
      (s : Vaults) (lk owner : Pubkey) {k : Locker} {e : Escrow}
      → IsPlaced tp pda s
      → find lk s.lockers ≡ some k
      → find (escrow_of pda lk owner) s.escrows ≡ some e
      → (e.locker ≡ lk)
        × (e.owner ≡ owner)
        × (e.tokens ≡ tp.associated_address (escrow_of pda lk owner) k.token_mint)
  escrow_found s lk owner {k} {e} p fk fe =
      let (at, tokens) =
        subst (PlacedIn tp pda s.lockers (escrow_of pda lk owner)) fe
          (p (escrow_of pda lk owner)) in
      let (locker, who) = apart lk e.locker owner e.owner at in
      (
        sym locker,
        sym who,
        subst (λ o. TokensFit tp pda o (escrow_of pda lk owner) e.tokens)
            (ap (λ j. find j s.lockers) (sym locker) ∙ fk) tokens,
      )

  -- Given that escrows of different lockers or owners have different addresses. Let a history begin
  -- where the sums of the accounts agree and each escrow is at its address with its tokens in its
  -- associated account, and let the payer have an escrow in the locker of the base whose lock is
  -- over, without max lock and partial unstakings. Let the token account of the escrow and the
  -- payer's associated token account for the mint of the locker exist and be different accounts. If
  -- the token program makes the payment from the one to the other, where there is something to pay,
  -- then the command `withdraw` sends one instruction, this instruction succeeds, and the escrow is
  -- closed.
  pub withdraw-exits :
      {l0 : tp.Ledger} {s0 : Vaults} {l : tp.Ledger} (v : View) (now : ℤ)
      (payer keypair base : Pubkey) {k : Locker} {e : Escrow} {paid : tp.Ledger}
      → History tp pda l0 s0 l v.vaults
      → IsBacked s0
      → IsPlaced tp pda s0
      → find (locker_of pda base) v.vaults.lockers ≡ some k
      → find (escrow_of pda (locker_of pda base) payer) v.vaults.escrows ≡ some e
      → IsUnlocked now e
      → AreOpen tp l e.tokens (tp.associated_address payer k.token_mint)
      → e.tokens ≢ tp.associated_address payer k.token_mint
      → (0 < e.amount
          → tp.transfer l e.tokens
              (tp.associated_address payer k.token_mint)
              (escrow_of pda (locker_of pda base) payer)
              e.amount
            ≡ some paid)
      → (c : Call) × (l' : tp.Ledger) × (u : Vaults) × (main tp pda payer v keypair
            (Command.withdraw base)
          ≡ ok (Instruction.call c ∷ []))
        × (run tp pda now c l v.vaults ≡ ok (l', u))
        × (u.escrows ≡ close (escrow_of pda (locker_of pda base) payer) v.vaults.escrows)
  unfolding main withdraw
  withdraw-exits {l = l} v now payer keypair base {k} {e} {paid} h backed placed fk fe over opened
        distinct pays =
      let lk = locker_of pda base in
      let ek = escrow_of pda lk payer in
      let dest = tp.associated_address payer k.token_mint in
      let (locker, owner, tokens) =
        escrow_found v.vaults lk payer (History-IsPlaced tp pda h backed placed) fk fe in
      let (l', u, ran, closed) =
        History-owner_exits tp pda now ek dest {k = k} {e = e} {paid = paid} h backed fe
          (ap (λ j. find j v.vaults.lockers) locker ∙ fk) over opened distinct pays in
      (
        Call.withdraw lk ek payer (tp.associated_address ek k.token_mint) dest,
        l',
        u,
        first_step _ _ (fetch-of_find lk v.vaults.lockers fk) refl,
        subst
            (λ (p : Pubkey × Pubkey × Pubkey).
              run tp pda now (Call.withdraw (p.0) ek (p.1) (p.2) dest) l v.vaults ≡ ok (l', u))
            (λ i. (locker i, owner i, tokens i)) ran,
        closed,
      )
