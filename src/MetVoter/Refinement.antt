-- ===== src/MetVoter/Refinement.antt =====
-- Steps of programs/met-voter against steps of programs/locked-voter, on the same accounts without
-- partial unstakings.
use wagmi.Prelude.{ℕ, Bool, ◌≡◌, ap, ◌∙◌, ◌⊎◌, inl, inr, refl, some, ℤ, ◌≤ℤ◌, find}
use wagmi.Chain.{
  Pubkey, Account, ok, >>=-eq-ok, first_step, load, init, load-eq-ok, TokenProgram,
  close_token_account,
}
use wagmi.Chain.Address.{FindProgramAddress}
use wagmi.Govern.{Governor}
use wagmi.LockedVoter.{LockerParams}
use wagmi.LockedVoter.Program as Locked
use wagmi.MetVoter.State.{Locker}
use wagmi.MetVoter.Escrows
use wagmi.MetVoter.Deposits
use wagmi.MetVoter.Program.{Vaults, Call, run, load_change}
use wagmi.MetVoter.Embedding.{
  embed_locker, embed_escrow, embed_addresses, extend_lock_duration-embed, toggle_max_lock-embed,
  increase_locked_amount-embed, withdraw-steps, withdraw-embed, set_locker_params-embed,
  set_vote_delegate-embed, new_escrow-embed,
}
use wagmi.MetVoter.Simulation.{
  embed, load-embed, init-embed, load_change-embed, locker-embed, escrow-embed, both-embed,
  closed-embed, ended, ended-injective,
}

-- Instructions of the two programs, for the same accounts: those of both that write accounts of the
-- program itself, but for new_locker. cast_vote and activate_proposal, which call programs/govern and
-- write its accounts only, are not among them.
pub data Shared : Call → Locked.Call → Type 0 where
  set_locker_params :
      (lk : Pubkey) (governor : Account Governor) (wallet : Pubkey) (params : LockerParams)
      → Shared
          (Call.set_locker_params lk governor wallet params)
          (Locked.Call.set_locker_params lk governor wallet params)
  new_escrow :
      (lk ek owner : Pubkey)
      → Shared (Call.new_escrow lk ek owner) (Locked.Call.new_escrow lk ek owner)
  set_vote_delegate :
      (ek owner delegate : Pubkey)
      → Shared
          (Call.set_vote_delegate ek owner delegate)
          (Locked.Call.set_vote_delegate ek owner delegate)
  extend_lock_duration :
      (lk ek owner : Pubkey) (duration : ℤ)
      → Shared
          (Call.extend_lock_duration lk ek owner duration)
          (Locked.Call.extend_lock_duration lk ek owner duration)
  toggle_max_lock :
      (lk ek owner : Pubkey) (b : Bool)
      → Shared (Call.toggle_max_lock lk ek owner b) (Locked.Call.toggle_max_lock lk ek owner b)
  increase_locked_amount :
      (lk ek tokens payer source : Pubkey) (n : ℕ)
      → Shared
          (Call.increase_locked_amount lk ek tokens payer source n)
          (Locked.Call.increase_locked_amount lk ek tokens payer source n)
  withdraw :
      (lk ek owner tokens destination : Pubkey)
      → Shared
          (Call.withdraw lk ek owner tokens destination)
          (Locked.Call.withdraw lk ek owner tokens destination)

-- Every locker has reached its expiration.
abbrev pub IsLaunched : ℤ → Vaults → Type 0
IsLaunched now s = (lk : Pubkey) (k : Locker) → find lk s.lockers ≡ some k → k.expiration ≤ℤ now

-- The ledgers are equal, or a token account has been closed in the second.
abbrev pub SameButClosed : (tp : TokenProgram) → tp.Ledger → tp.Ledger → Type 0
SameButClosed tp l l' =
    (l ≡ l') ⊎ ((account authority : Pubkey) × (close_token_account tp l account authority ≡ ok l'))

module _ (tp : TokenProgram) (pda : FindProgramAddress) where
  -- A step of locked-voter on the embedded accounts, with the same outcome.
  abbrev pub LockedStep : ℤ → Locked.Call → tp.Ledger → Vaults → tp.Ledger → Vaults → Type 0
  LockedStep now c l s l' u =
      (paid : tp.Ledger) × (Locked.run tp (embed_addresses pda) now c l (embed s)
        ≡ ok (paid, embed u))
      × SameButClosed tp paid l'

module _ (tp : TokenProgram) (pda : FindProgramAddress) where
  -- Let every locker have reached its expiration, and let one of the instructions
  -- set_locker_params, new_escrow, set_vote_delegate, extend_lock_duration, toggle_max_lock,
  -- increase_locked_amount and withdraw of programs/met-voter succeed. Then the same instruction of
  -- locked-voter succeeds on the same accounts (seen without their expirations, and with no partial
  -- unstakings), it writes the same accounts, and it leaves the same ledger, except that met-voter
  -- may have closed a token account in it.
  pub run-refines :
      (now : ℤ) {c : Call} {c' : Locked.Call} (l : tp.Ledger) (s : Vaults) {l' : tp.Ledger}
      {u : Vaults}
      → Shared c c'
      → IsLaunched now s
      → run tp pda now c l s ≡ ok (l', u)
      → LockedStep tp pda now c' l s l' u
  unfolding run Locked.run
  run-refines now l s {l' = l'} (Shared.set_locker_params lk governor wallet params) past h =
      let (locker, e, h1) = >>=-eq-ok (load lk s.lockers) _ h in
      let (k, g, h2) = >>=-eq-ok (Escrows.set_locker_params locker governor wallet params) _ h1 in
      (
        l',
        first_step _ _ (load-embed embed_locker lk s.lockers e) (
            first_step _ _ (set_locker_params-embed locker governor wallet params g)
              (locker-embed tp lk k s h2)),
        inl refl,
      )
  run-refines now l s {l' = l'} (Shared.new_escrow lk ek owner) past h =
      let (locker, e, h1) = >>=-eq-ok (load lk s.lockers) _ h in
      let (_, fresh, h2) = >>=-eq-ok (init ek s.escrows) _ h1 in
      let ((k, escrow), g, h3) = >>=-eq-ok (Escrows.new_escrow tp pda locker ek owner) _ h2 in
      (
        l',
        first_step _ _ (load-embed embed_locker lk s.lockers e) (
            first_step _ _ (init-embed embed_escrow ek s.escrows fresh) (
              first_step _ _ (new_escrow-embed tp pda locker ek owner g)
                (both-embed tp lk ek k escrow s h3))),
        inl refl,
      )
  run-refines now l s {l' = l'} (Shared.set_vote_delegate ek owner delegate) past h =
      let (escrow, e, h1) = >>=-eq-ok (load ek s.escrows) _ h in
      let (escrow', g, h2) = >>=-eq-ok (Escrows.set_vote_delegate escrow owner delegate) _ h1 in
      (
        l',
        first_step _ _ (load-embed embed_escrow ek s.escrows e) (
            first_step _ _ (set_vote_delegate-embed escrow owner delegate g)
              (escrow-embed tp ek escrow' s h2)),
        inl refl,
      )
  run-refines now l s {l' = l'} (Shared.extend_lock_duration lk ek owner duration) past h =
      let (ctx, e, h1) = >>=-eq-ok (load_change lk ek owner s) _ h in
      let (escrow, g, h2) = >>=-eq-ok (Escrows.extend_lock_duration now ctx duration) _ h1 in
      (
        l',
        first_step _ _ (load_change-embed lk ek owner s e) (
            first_step _ _ (extend_lock_duration-embed now ctx duration g)
              (escrow-embed tp ek escrow s h2)),
        inl refl,
      )
  run-refines now l s {l' = l'} (Shared.toggle_max_lock lk ek owner b) past h =
      let (ctx, e, h1) = >>=-eq-ok (load_change lk ek owner s) _ h in
      let (escrow, g, h2) = >>=-eq-ok (Escrows.toggle_max_lock now ctx b) _ h1 in
      (
        l',
        first_step _ _ (load_change-embed lk ek owner s e)
            (first_step _ _ (toggle_max_lock-embed now ctx b g) (escrow-embed tp ek escrow s h2)),
        inl refl,
      )
  run-refines now l s {l' = l'} (Shared.increase_locked_amount lk ek tokens payer source n) past h =
      let (locker, e, h1) = >>=-eq-ok (load lk s.lockers) _ h in
      let (escrow, e', h2) = >>=-eq-ok (load ek s.escrows) _ h1 in
      let ((l'', k, escrow'), g, h3) =
        >>=-eq-ok (Deposits.increase_locked_amount tp now l _ n) _ h2 in
      let old = past lk locker.info (load-eq-ok lk s.lockers e).1 in
      (
        l',
        first_step _ _ (load-embed embed_locker lk s.lockers e) (
            first_step _ _ (load-embed embed_escrow ek s.escrows e') (
              first_step _ _ (increase_locked_amount-embed tp now l _ n old g)
                (both-embed tp lk ek k escrow' s h3))),
        inl refl,
      )
  run-refines now l s {l' = l'} (Shared.withdraw lk ek owner tokens destination) past h =
      let (locker, e, h1) = >>=-eq-ok (load lk s.lockers) _ h in
      let (escrow, e', h2) = >>=-eq-ok (load ek s.escrows) _ h1 in
      let ((l'', k), g, h3) = >>=-eq-ok (Deposits.withdraw tp now l _) _ h2 in
      let old = past lk locker.info (load-eq-ok lk s.lockers e).1 in
      let (paid, valid, pays, closes, supply, same) = withdraw-steps tp now l _ g in
      let (ledgers, vaults) = ended-injective h3 in
      (
        paid,
        first_step _ _ (load-embed embed_locker lk s.lockers e) (
            first_step _ _ (load-embed embed_escrow ek s.escrows e') (
              first_step _ _ (withdraw-embed tp now l _ old valid pays supply same)
                (closed-embed tp lk ek k s (ap (λ t. ended paid t) vaults)))),
        inr (tokens, escrow.key, closes ∙ ap ok ledgers),
      )
