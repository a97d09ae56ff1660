-- ===== src/LockedVoter/Supply.antt =====
-- The instructions of programs/locked-voter as effects on its accounts, and the sums of the accounts
-- over a history.
use wagmi.Prelude.{◌≡◌, ◌∙◌, sym, ap, ℤ}
use wagmi.Chain.{ok, >>=-eq-ok, ok-injective, load, init, load-eq-ok, init-eq-ok, TokenProgram}
use wagmi.Chain.Address.{Seeds, FindProgramAddress}
use wagmi.LockedVoter.Escrows
use wagmi.LockedVoter.Deposits
use wagmi.LockedVoter.Unstaking
use wagmi.LockedVoter.Backing.{IsBacked, Effect, Effect-IsBacked}
use wagmi.LockedVoter.Program.{Vaults, Call, run, History, load_change}
use wagmi.LockedVoter.Amounts.{
  new_locker-supply, set_locker_params-supply, new_escrow-empty, set_vote_delegate-Keeps,
  extend_lock_duration-Keeps, toggle_max_lock-Keeps, load_change-eq-ok, increase-amounts,
  withdraw-amounts, open-amounts, merge-amounts, withdraw_partial-amounts,
}

vaults_path {ℓ κ} : {A : Type ℓ} {B : Type κ} {p q : A × B} → ok p ≡ ok q → q.1 ≡ p.1
vaults_path h = ap (λ r. r.1) (ok-injective h)

module _ (tp : TokenProgram) (pda : FindProgramAddress) where
  pub run-Effect :
      (now : ℤ) (c : Call) (l : tp.Ledger) (s : Vaults) {l' : tp.Ledger} {u : Vaults}
      → run tp pda now c l s ≡ ok (l', u)
      → Effect tp pda s u
  unfolding run
  run-Effect now (Call.new_locker base lk mint governor params) l s h =
      let (_, e, h1) = >>=-eq-ok (init lk s.lockers) _ h in
      let (locker, g, h2) = >>=-eq-ok (Escrows.new_locker pda base lk mint governor params) _ h1 in
      Effect.locker_written lk locker
        (rw (init-eq-ok lk s.lockers e)
          (sym (new_locker-supply pda base lk mint governor params g)))
        (rw (init-eq-ok lk s.lockers e) tt) (vaults_path h2)
  run-Effect now (Call.set_locker_params lk governor wallet params) l s h =
      let (locker, e, h1) = >>=-eq-ok (load lk s.lockers) _ h in
      let (locker', g, h2) =
        >>=-eq-ok (Escrows.set_locker_params locker governor wallet params) _ h1 in
      Effect.locker_written lk locker'
        (rw ((load-eq-ok lk s.lockers e).1)
          (set_locker_params-supply locker governor wallet params g).0)
        (rw ((load-eq-ok lk s.lockers e).1)
          (set_locker_params-supply locker governor wallet params g).1)
        (vaults_path h2)
  run-Effect now (Call.new_escrow lk ek owner) l s h =
      let (locker, e, h1) = >>=-eq-ok (load lk s.lockers) _ h in
      let (_, fresh, h2) = >>=-eq-ok (init ek s.escrows) _ h1 in
      let ((locker', escrow), g, h3) = >>=-eq-ok (Escrows.new_escrow tp pda locker ek owner) _ h2 in
      let (same, no_amount, no_part, mint, (own, at, tokens)) =
        new_escrow-empty tp pda locker ek owner g in
      let (key, found) = load-eq-ok lk s.lockers e in
      Effect.escrow_created lk ek locker.info locker' escrow found (init-eq-ok ek s.escrows fresh)
        same (no_amount, no_part)
        (mint, (own ∙ key, at ∙ ap (λ j. (pda (Seeds.escrow j escrow.owner)).0) key, tokens))
        (vaults_path h3)
  run-Effect now (Call.set_vote_delegate ek owner delegate) l s h =
      let (escrow, e, h1) = >>=-eq-ok (load ek s.escrows) _ h in
      let (escrow', g, h2) = >>=-eq-ok (Escrows.set_vote_delegate escrow owner delegate) _ h1 in
      Effect.escrow_written ek escrow.info escrow' (load-eq-ok ek s.escrows e).1
        (let k = set_vote_delegate-Keeps escrow owner delegate g in (k.0, k.1, k.2))
        (set_vote_delegate-Keeps escrow owner delegate g).3 (vaults_path h2)
  run-Effect now (Call.extend_lock_duration lk ek owner duration) l s h =
      let (ctx, e, h1) = >>=-eq-ok (load_change lk ek owner s) _ h in
      let (escrow', g, h2) = >>=-eq-ok (Escrows.extend_lock_duration now ctx duration) _ h1 in
      Effect.escrow_written ek ctx.escrow.info escrow' (load_change-eq-ok lk ek owner s e)
        (let k = extend_lock_duration-Keeps now ctx duration g in (k.0, k.1, k.2))
        (extend_lock_duration-Keeps now ctx duration g).3 (vaults_path h2)
  run-Effect now (Call.toggle_max_lock lk ek owner b) l s h =
      let (ctx, e, h1) = >>=-eq-ok (load_change lk ek owner s) _ h in
      let (escrow', g, h2) = >>=-eq-ok (Escrows.toggle_max_lock now ctx b) _ h1 in
      Effect.escrow_written ek ctx.escrow.info escrow' (load_change-eq-ok lk ek owner s e)
        (let k = toggle_max_lock-Keeps now ctx b g in (k.0, k.1, k.2))
        (toggle_max_lock-Keeps now ctx b g).3 (vaults_path h2)
  run-Effect now (Call.increase_locked_amount lk ek tokens payer source n) l s h =
      let (locker, e, h1) = >>=-eq-ok (load lk s.lockers) _ h in
      let (escrow, e', h2) = >>=-eq-ok (load ek s.escrows) _ h1 in
      let ((_, locker', escrow'), g, h3) =
        >>=-eq-ok (Deposits.increase_locked_amount tp now l _ n) _ h2 in
      let (key, found) = load-eq-ok lk s.lockers e in
      let ((own, kept), sup, a, p, mint, holder) = increase-amounts tp now l _ n g in
      Effect.deposited lk ek locker.info locker' escrow.info escrow' n found
        (load-eq-ok ek s.escrows e').1 (own ∙ key, kept ∙ key) sup (a, p) (mint, holder)
        (vaults_path h3)
  run-Effect now (Call.withdraw lk ek owner tokens destination) l s h =
      let (locker, e, h1) = >>=-eq-ok (load lk s.lockers) _ h in
      let (escrow, e', h2) = >>=-eq-ok (load ek s.escrows) _ h1 in
      let ((_, locker'), g, h3) = >>=-eq-ok (Deposits.withdraw tp now l _) _ h2 in
      let (key, found) = load-eq-ok lk s.lockers e in
      let ((own, free), sup, mint) = withdraw-amounts tp now l _ g in
      Effect.withdrawn lk ek locker.info locker' escrow.info found (load-eq-ok ek s.escrows e').1
        (own ∙ key, free) sup mint (vaults_path h3)
  run-Effect now (Call.open_partial_unstaking lk ek uk owner n memo) l s h =
      let (locker, e, h1) = >>=-eq-ok (load lk s.lockers) _ h in
      let (escrow, e', h2) = >>=-eq-ok (load ek s.escrows) _ h1 in
      let (_, fresh, h3) = >>=-eq-ok (init uk s.unstakings) _ h2 in
      let ((escrow', x), g, h4) = >>=-eq-ok (Unstaking.open_partial_unstaking now _ n memo) _ h3 in
      let (key, found) = load-eq-ok ek s.escrows e' in
      let ((same, own), a, p, holder) = open-amounts now _ n memo g in
      Effect.opened ek uk escrow.info escrow' x found (init-eq-ok uk s.unstakings fresh)
        (same, own ∙ key) (a, p) holder (vaults_path h4)
  run-Effect now (Call.merge_partial_unstaking lk ek uk owner) l s h =
      let (locker, e, h1) = >>=-eq-ok (load lk s.lockers) _ h in
      let (escrow, e', h2) = >>=-eq-ok (load ek s.escrows) _ h1 in
      let (x, e'', h3) = >>=-eq-ok (load uk s.unstakings) _ h2 in
      let (escrow', g, h4) = >>=-eq-ok (Unstaking.merge_partial_unstaking now _) _ h3 in
      let (key, found) = load-eq-ok ek s.escrows e' in
      let ((same, own), a, p, holder) = merge-amounts now _ g in
      Effect.merged ek uk escrow.info escrow' x.info found (load-eq-ok uk s.unstakings e'').1
        (same, own ∙ key) (a, p) holder (vaults_path h4)
  run-Effect now (Call.withdraw_partial_unstaking lk ek uk owner tokens destination) l s h =
      let (locker, e, h1) = >>=-eq-ok (load lk s.lockers) _ h in
      let (escrow, e', h2) = >>=-eq-ok (load ek s.escrows) _ h1 in
      let (x, e'', h3) = >>=-eq-ok (load uk s.unstakings) _ h2 in
      let ((_, locker', escrow'), g, h4) =
        >>=-eq-ok (Unstaking.withdraw_partial_unstaking tp now l _) _ h3 in
      let (lkey, lfound) = load-eq-ok lk s.lockers e in
      let (ekey, efound) = load-eq-ok ek s.escrows e' in
      let ((own, kept, part), sup, a, p, mint, holder) = withdraw_partial-amounts tp now l _ g in
      Effect.paid_out lk ek uk locker.info locker' escrow.info escrow' x.info lfound efound
        (load-eq-ok uk s.unstakings e'').1 (own ∙ lkey, kept ∙ lkey, part ∙ ekey) sup (a, p)
        (mint, holder) (vaults_path h4)

  -- If in the first state of a history the supply of each locker is the sum of what its escrows
  -- hold (their amounts and the parts on their way out), the partial amount of each escrow is the
  -- sum of its open partial unstakings, and no escrow is listed twice, then the same holds in its
  -- last state.
  pub History-IsBacked :
      {l : tp.Ledger} {s : Vaults} {l' : tp.Ledger} {u : Vaults}
      → History tp pda l s l' u
      → IsBacked s
      → IsBacked u
  History-IsBacked History.start b = b
  History-IsBacked (History.elsewhere n h) b = History-IsBacked h b
  History-IsBacked (History.call {m = m} {t = t} now c h e) b =
      Effect-IsBacked (run-Effect now c m t e) (History-IsBacked h b)
