-- ===== src/MetVoter/Phases.antt =====
-- The phases of the lockers over a history of programs/met-voter.
use wagmi.Prelude.{
  ℕ, ◌≡◌, ◌∙◌, ◌⊎◌, inl, inr, refl, sym, ap, arith, none, some, Bool-cases, ◌==◌, ℤ, ◌≤ℤ◌, ◌<ℤ◌,
  find, put, find-put, ==→eq,
}
use wagmi.Chain.{Pubkey, Account, ok, >>=-eq-ok, load, init, load-eq-ok, init-eq-ok, TokenProgram}
use wagmi.Chain.Address.{FindProgramAddress}
use wagmi.Govern.{Governor}
use wagmi.LockedVoter.{LockerParams}
use wagmi.MetVoter.State.{Phase, Locker, Escrow}
use wagmi.MetVoter.VoterPower.{get_current_phase}
use wagmi.MetVoter.Escrows
use wagmi.MetVoter.Deposits
use wagmi.MetVoter.Program.{Vaults, Call, run, History, load_change}
use wagmi.MetVoter.Simulation.{ended, ended-injective}

-- What an instruction did to the lockers: an expiration changes only before it is reached.
data Effect (now : ℤ) (s u : Vaults) : Type 0 where
  untouched : u.lockers ≡ s.lockers → Effect now s u
  created :
      (lk : Pubkey) (k : Locker)
      → find lk s.lockers ≡ none
      → u.lockers ≡ put lk k s.lockers
      → Effect now s u
  written :
      (lk : Pubkey) (k k' : Locker)
      → find lk s.lockers ≡ some k
      → (k'.expiration ≡ k.expiration) ⊎ (now <ℤ k.expiration)
      → u.lockers ≡ put lk k' s.lockers
      → Effect now s u

lockers_path {ℓ} :
    {L : Type ℓ} {l l' : L} {t u : Vaults} → ended l t ≡ ended l' u → u.lockers ≡ t.lockers
lockers_path h = ap (λ v. v.lockers) (sym (ended-injective h).1)

set_locker_params-expiration :
    (locker : Account Locker) (governor : Account Governor) (wallet : Pubkey)
    (params : LockerParams) {k : Locker}
    → Escrows.set_locker_params locker governor wallet params ≡ ok k
    → k.expiration ≡ locker.info.expiration
unfolding Escrows.set_locker_params
set_locker_params-expiration locker governor wallet params h = ground arith

change_locker_expiration-initial :
    (now : ℤ) (locker : Account Locker) (governor : Account Governor) (wallet : Pubkey)
    (expiration : ℤ) {k : Locker}
    → Escrows.change_locker_expiration now locker governor wallet expiration ≡ ok k
    → now <ℤ locker.info.expiration
unfolding Escrows.change_locker_expiration
change_locker_expiration-initial now locker governor wallet expiration h = ground arith

new_escrow-expiration :
    (tp : TokenProgram) (pda : FindProgramAddress) (locker : Account Locker) (ek owner : Pubkey)
    {k : Locker} {e : Escrow}
    → Escrows.new_escrow tp pda locker ek owner ≡ ok (k, e)
    → k.expiration ≡ locker.info.expiration
unfolding Escrows.new_escrow
new_escrow-expiration tp pda locker ek owner h = ground arith

increase-expiration :
    (tp : TokenProgram) (now : ℤ) (l : tp.Ledger) (ctx : Deposits.IncreaseLockedAmount) (n : ℕ)
    {l' : tp.Ledger} {k : Locker} {e : Escrow}
    → Deposits.increase_locked_amount tp now l ctx n ≡ ok (l', k, e)
    → k.expiration ≡ ctx.locker.info.expiration
unfolding Deposits.increase_locked_amount
increase-expiration tp now l ctx n h = ground arith

withdraw-expiration :
    (tp : TokenProgram) (now : ℤ) (l : tp.Ledger) (ctx : Deposits.Withdraw) {l' : tp.Ledger}
    {k : Locker}
    → Deposits.withdraw tp now l ctx ≡ ok (l', k)
    → k.expiration ≡ ctx.locker.info.expiration
unfolding Deposits.withdraw
withdraw-expiration tp now l ctx h = ground arith

module _ (tp : TokenProgram) (pda : FindProgramAddress) where
  run-Effect :
      (now : ℤ) (c : Call) (l : tp.Ledger) (s : Vaults) {l' : tp.Ledger} {u : Vaults}
      → run tp pda now c l s ≡ ok (l', u)
      → Effect now s u
  unfolding run
  run-Effect now (Call.new_locker base lk mint governor expiration params) l s h =
      let (_, fresh, h1) = >>=-eq-ok (init lk s.lockers) _ h in
      let (k, _, h2) =
        >>=-eq-ok (Escrows.new_locker pda now base lk mint governor expiration params) _ h1 in
      Effect.created lk k (init-eq-ok lk s.lockers fresh) (lockers_path h2)
  run-Effect now (Call.change_locker_expiration lk governor wallet expiration) l s h =
      let (locker, e, h1) = >>=-eq-ok (load lk s.lockers) _ h in
      let (k, g, h2) =
        >>=-eq-ok (Escrows.change_locker_expiration now locker governor wallet expiration) _ h1 in
      Effect.written lk locker.info k (load-eq-ok lk s.lockers e).1
        (inr (change_locker_expiration-initial now locker governor wallet expiration g))
        (lockers_path h2)
  run-Effect now (Call.set_locker_params lk governor wallet params) l s h =
      let (locker, e, h1) = >>=-eq-ok (load lk s.lockers) _ h in
      let (k, g, h2) = >>=-eq-ok (Escrows.set_locker_params locker governor wallet params) _ h1 in
      Effect.written lk locker.info k (load-eq-ok lk s.lockers e).1
        (inl (set_locker_params-expiration locker governor wallet params g)) (lockers_path h2)
  run-Effect now (Call.new_escrow lk ek owner) l s h =
      let (locker, e, h1) = >>=-eq-ok (load lk s.lockers) _ h in
      let (_, _, h2) = >>=-eq-ok (init ek s.escrows) _ h1 in
      let ((k, _), g, h3) = >>=-eq-ok (Escrows.new_escrow tp pda locker ek owner) _ h2 in
      Effect.written lk locker.info k (load-eq-ok lk s.lockers e).1
        (inl (new_escrow-expiration tp pda locker ek owner g)) (lockers_path h3)
  run-Effect now (Call.set_vote_delegate ek owner delegate) l s h =
      let (escrow, _, h1) = >>=-eq-ok (load ek s.escrows) _ h in
      let (_, _, h2) = >>=-eq-ok (Escrows.set_vote_delegate escrow owner delegate) _ h1 in
      Effect.untouched (lockers_path h2)
  run-Effect now (Call.extend_lock_duration lk ek owner duration) l s h =
      let (ctx, _, h1) = >>=-eq-ok (load_change lk ek owner s) _ h in
      let (_, _, h2) = >>=-eq-ok (Escrows.extend_lock_duration now ctx duration) _ h1 in
      Effect.untouched (lockers_path h2)
  run-Effect now (Call.toggle_max_lock lk ek owner b) l s h =
      let (ctx, _, h1) = >>=-eq-ok (load_change lk ek owner s) _ h in
      let (_, _, h2) = >>=-eq-ok (Escrows.toggle_max_lock now ctx b) _ h1 in
      Effect.untouched (lockers_path h2)
  run-Effect now (Call.increase_locked_amount lk ek tokens payer source n) l s h =
      let (locker, e, h1) = >>=-eq-ok (load lk s.lockers) _ h in
      let (_, _, h2) = >>=-eq-ok (load ek s.escrows) _ h1 in
      let ((_, k, _), g, h3) = >>=-eq-ok (Deposits.increase_locked_amount tp now l _ n) _ h2 in
      Effect.written lk locker.info k (load-eq-ok lk s.lockers e).1
        (inl (increase-expiration tp now l _ n g)) (lockers_path h3)
  run-Effect now (Call.withdraw lk ek owner tokens destination) l s h =
      let (locker, e, h1) = >>=-eq-ok (load lk s.lockers) _ h in
      let (_, _, h2) = >>=-eq-ok (load ek s.escrows) _ h1 in
      let ((_, k), g, h3) = >>=-eq-ok (Deposits.withdraw tp now l _) _ h2 in
      Effect.written lk locker.info k (load-eq-ok lk s.lockers e).1
        (inl (withdraw-expiration tp now l _ g)) (lockers_path h3)

-- A locker with this expiration.
abbrev pub HasExpiration : ℤ → Pubkey → Vaults → Type 0
HasExpiration expiration lk s =
    (k : Locker) × (find lk s.lockers ≡ some k) × (k.expiration ≡ expiration)

Effect-HasExpiration :
    (now : ℤ) {s u : Vaults} (lk : Pubkey) (expiration : ℤ)
    → Effect now s u
    → expiration ≤ℤ now
    → HasExpiration expiration lk s
    → HasExpiration expiration lk u
Effect-HasExpiration now lk x (untouched same) past (k, found, is) =
    (k, ap (find lk) same ∙ found, is)
Effect-HasExpiration now {s} {u} lk x (created j new fresh eq) past (k, found, is) =
    (k, rw eq (ground (arith, find-put j lk new s.lockers, ==→eq j lk)), is)
Effect-HasExpiration now {s} {u} lk x (written j k0 k' fj kept eq) past (k, found, is) =
    elim (Bool-cases (j == lk)) [
      | inl same ↦
          let found0 = ap (λ i. find i s.lockers) (sym (==→eq j lk same)) ∙ fj in
          (k', rw eq (ground (arith, find-put j lk k' s.lockers)), ground arith)
      | inr other ↦ (k, rw eq (ground (arith, find-put j lk k' s.lockers)), is)
    ]

module _ (tp : TokenProgram) (pda : FindProgramAddress) where
  began-le :
      {began : ℤ} {l : tp.Ledger} {s : Vaults} {now : ℤ} {l' : tp.Ledger} {u : Vaults}
      → History tp pda began l s now l' u
      → began ≤ℤ now
  began-le History.start = omega arith
  began-le (History.elsewhere n h) = began-le h
  began-le (History.call now c h le e) = omega (arith, began-le h)

  keeps-expiration :
      {began : ℤ} {l : tp.Ledger} {s : Vaults} {now : ℤ} {l' : tp.Ledger} {u : Vaults} (lk : Pubkey)
      (expiration : ℤ)
      → History tp pda began l s now l' u
      → expiration ≤ℤ began
      → HasExpiration expiration lk s
      → HasExpiration expiration lk u
  keeps-expiration lk x History.start past has = has
  keeps-expiration lk x (History.elsewhere n h) past has = keeps-expiration lk x h past has
  keeps-expiration lk x (History.call {m = m} {t = t} now c h le e) past has =
      Effect-HasExpiration now lk x (run-Effect tp pda now c m t e) (omega (arith, began-le h))
        (keeps-expiration lk x h past has)

  -- A locker that has reached its expiration when a history begins is there at the end of the
  -- history, with the same expiration, and is in the token launch phase: the smart wallet of the
  -- governor cannot bring back the initial phase.
  pub History-launched :
      {began : ℤ} {l : tp.Ledger} {s : Vaults} {now : ℤ} {l' : tp.Ledger} {u : Vaults} (lk : Pubkey)
      {k : Locker}
      → History tp pda began l s now l' u
      → find lk s.lockers ≡ some k
      → k.expiration ≤ℤ began
      → (k' : Locker) × (find lk u.lockers ≡ some k')
        × (k'.expiration ≡ k.expiration)
        × (get_current_phase k' now ≡ Phase.token_launch_phase)
  History-launched lk {k} h found past =
      let (k', found', same) = keeps-expiration lk k.expiration h past (k, found, refl) in
      (k', found', same, ground (arith, began-le h))
