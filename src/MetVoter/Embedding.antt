-- ===== src/MetVoter/Embedding.antt =====
-- Accounts of programs/met-voter as accounts of programs/locked-voter, and the instructions of both
-- that write accounts of the program itself, but for new_locker.
use wagmi.Prelude.{ℕ, ◌≡◌, refl, sym, ap, ◌∙◌, arith, Bool, ℤ, ◌≤ℤ◌, checked_sub}
use wagmi.Chain.{
  Pubkey, Account, ok, >>=-eq-ok, ok-injective, unwrap_int, TokenProgram, close_token_account,
}
use wagmi.Chain.Address.{Seeds, FindProgramAddress}
use wagmi.LockedVoter as Locked
use wagmi.LockedVoter.{Locker as LockedLocker, LockerParams}
use wagmi.Govern.{Governor}
use wagmi.MetVoter.State.{Locker, Escrow}
use wagmi.MetVoter.Escrows
use wagmi.MetVoter.Deposits

abbrev pub embed_locker : Locker → LockedLocker
embed_locker locker = record {
  base = locker.base;
  bump = locker.bump;
  token_mint = locker.token_mint;
  locked_supply = locker.locked_supply;
  total_escrow = locker.total_escrow;
  governor = locker.governor;
  params = locker.params;
}

abbrev pub embed_escrow : Escrow → Locked.Escrow
embed_escrow escrow = record {
  locker = escrow.locker;
  owner = escrow.owner;
  bump = escrow.bump;
  tokens = escrow.tokens;
  amount = escrow.amount;
  escrow_started_at = escrow.escrow_started_at;
  escrow_ends_at = escrow.escrow_ends_at;
  vote_delegate = escrow.vote_delegate;
  is_max_lock = escrow.is_max_lock;
  partial_unstaking_amount = 0;
}

abbrev pub at_key {ℓ κ} : {A : Type ℓ} {B : Type κ} → (A → B) → Account A → Account B
at_key f account = record { key = account.key; info = f account.info }

abbrev pub embed_change : Escrows.LockChange → Locked.LockChange
embed_change ctx = record {
  locker = at_key embed_locker ctx.locker;
  escrow = at_key embed_escrow ctx.escrow;
  escrow_owner = ctx.escrow_owner;
}

abbrev pub embed_increase : Deposits.IncreaseLockedAmount → Locked.IncreaseLockedAmount
embed_increase ctx = record {
  locker = at_key embed_locker ctx.locker;
  escrow = at_key embed_escrow ctx.escrow;
  escrow_tokens = ctx.escrow_tokens;
  payer = ctx.payer;
  source_tokens = ctx.source_tokens;
}

abbrev pub embed_withdraw : Deposits.Withdraw → Locked.Withdraw
embed_withdraw ctx = record {
  locker = at_key embed_locker ctx.locker;
  escrow = at_key embed_escrow ctx.escrow;
  escrow_owner = ctx.escrow_owner;
  escrow_tokens = ctx.escrow_tokens;
  destination_tokens = ctx.destination_tokens;
}

-- The addresses of the escrows of met-voter, under the seeds of locked-voter.
abbrev pub embed_addresses : FindProgramAddress → FindProgramAddress
embed_addresses pda (Seeds.escrow locker owner) = pda (Seeds.met_escrow locker owner)
embed_addresses pda seeds = pda seeds

pub extend_lock_duration-embed :
    (now : ℤ) (ctx : Escrows.LockChange) (duration : ℤ) {e : Escrow}
    → Escrows.extend_lock_duration now ctx duration ≡ ok e
    → Locked.extend_lock_duration now (embed_change ctx) duration ≡ ok (embed_escrow e)
unfolding Escrows.extend_lock_duration Locked.extend_lock_duration
extend_lock_duration-embed now ctx duration h = ground arith

pub toggle_max_lock-embed :
    (now : ℤ) (ctx : Escrows.LockChange) (b : Bool) {e : Escrow}
    → Escrows.toggle_max_lock now ctx b ≡ ok e
    → Locked.toggle_max_lock now (embed_change ctx) b ≡ ok (embed_escrow e)
unfolding Escrows.toggle_max_lock Locked.toggle_max_lock
toggle_max_lock-embed now ctx b h = ground arith

pub increase_locked_amount-embed :
    (tp : TokenProgram) (now : ℤ) (l : tp.Ledger) (ctx : Deposits.IncreaseLockedAmount) (n : ℕ)
    {l' : tp.Ledger} {locker : Locker} {e : Escrow}
    → ctx.locker.info.expiration ≤ℤ now
    → Deposits.increase_locked_amount tp now l ctx n ≡ ok (l', locker, e)
    → Locked.increase_locked_amount tp now l (embed_increase ctx) n
      ≡ ok (l', embed_locker locker, embed_escrow e)
unfolding Deposits.increase_locked_amount Locked.increase_locked_amount
    wagmi.MetVoter.State.get_remaining_duration_until_expiration
    Locked.get_remaining_duration_until_expiration
increase_locked_amount-embed tp now l ctx n past h = ground arith

pub set_locker_params-embed :
    (locker : Account Locker) (governor : Account Governor) (wallet : Pubkey)
    (params : LockerParams) {k : Locker}
    → Escrows.set_locker_params locker governor wallet params ≡ ok k
    → Locked.set_locker_params (at_key embed_locker locker) governor wallet params
      ≡ ok (embed_locker k)
unfolding Escrows.set_locker_params Locked.set_locker_params
set_locker_params-embed locker governor wallet params h = ground arith

pub set_vote_delegate-embed :
    (escrow : Account Escrow) (owner delegate : Pubkey) {e : Escrow}
    → Escrows.set_vote_delegate escrow owner delegate ≡ ok e
    → Locked.set_vote_delegate (at_key embed_escrow escrow) owner delegate ≡ ok (embed_escrow e)
unfolding Escrows.set_vote_delegate Locked.set_vote_delegate
set_vote_delegate-embed escrow owner delegate h = ground arith

pub new_escrow-embed :
    (tp : TokenProgram) (pda : FindProgramAddress) (locker : Account Locker) (ek owner : Pubkey)
    {k : Locker} {e : Escrow}
    → Escrows.new_escrow tp pda locker ek owner ≡ ok (k, e)
    → Locked.new_escrow tp (embed_addresses pda) (at_key embed_locker locker) ek owner
      ≡ ok (embed_locker k, embed_escrow e)
unfolding Escrows.new_escrow Locked.new_escrow
new_escrow-embed tp pda locker ek owner h = ground arith

-- The steps of a `withdraw`: the payment, the closing of the token account, and the new supply.
pub withdraw-steps :
    (tp : TokenProgram) (now : ℤ) (l : tp.Ledger) (ctx : Deposits.Withdraw) {l' : tp.Ledger}
    {locker : Locker}
    → Deposits.withdraw tp now l ctx ≡ ok (l', locker)
    → (paid : tp.Ledger) × (Deposits.validate_withdraw tp now l ctx ≡ ok tt)
      × (Locked.release_tokens tp l ctx.escrow_tokens ctx.destination_tokens ctx.escrow.key
            ctx.escrow.info.amount
          ≡ ok paid)
      × (close_token_account tp paid ctx.escrow_tokens ctx.escrow.key ≡ ok l')
      × (unwrap_int (checked_sub ctx.locker.info.locked_supply ctx.escrow.info.amount)
          ≡ ok locker.locked_supply)
      × (locker ≡ record (ctx.locker.info) { locked_supply = locker.locked_supply })
unfolding Deposits.withdraw
withdraw-steps tp now l ctx h =
    let (_, valid, h1) = >>=-eq-ok (Deposits.validate_withdraw tp now l ctx) _ h in
    let (paid, pays, h2) =
      >>=-eq-ok
        (Locked.release_tokens tp l ctx.escrow_tokens ctx.destination_tokens ctx.escrow.key
          ctx.escrow.info.amount)
        _ h1 in
    let (l'', closes, h3) =
      >>=-eq-ok (close_token_account tp paid ctx.escrow_tokens ctx.escrow.key) _ h2 in
    let (supply, sub, h4) =
      >>=-eq-ok (unwrap_int (checked_sub ctx.locker.info.locked_supply ctx.escrow.info.amount)) _
        h3 in
    let same = ok-injective h4 in
    let locker_is = ap (λ r. r.1) same in
    (
      paid,
      valid,
      pays,
      closes ∙ ap (λ r. ok r.0) (sym same),
      sub ∙ ap (λ r. ok (r.1).locked_supply) (sym same),
      rw locker_is refl,
    )

pub withdraw-embed :
    (tp : TokenProgram) (now : ℤ) (l : tp.Ledger) (ctx : Deposits.Withdraw) {paid : tp.Ledger}
    {locker : Locker}
    → ctx.locker.info.expiration ≤ℤ now
    → Deposits.validate_withdraw tp now l ctx ≡ ok tt
    → Locked.release_tokens tp l ctx.escrow_tokens ctx.destination_tokens ctx.escrow.key
        ctx.escrow.info.amount
      ≡ ok paid
    → unwrap_int (checked_sub ctx.locker.info.locked_supply ctx.escrow.info.amount)
      ≡ ok locker.locked_supply
    → locker ≡ record (ctx.locker.info) { locked_supply = locker.locked_supply }
    → Locked.withdraw tp now l (embed_withdraw ctx) ≡ ok (paid, embed_locker locker)
unfolding Locked.withdraw
withdraw-embed tp now l ctx past valid pays supply same = ground arith
