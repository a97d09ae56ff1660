-- ===== src/MetVoter/Deposits.antt =====
-- programs/met-voter/src/instructions: increase_locked_amount.rs and withdraw.rs, the tokens that
-- enter an escrow and that leave it when it is closed.
use wagmi.Prelude.{ℕ, ℤ, ◌==◌, not, ltb, leb, leb_ℤ, checked_add, checked_sub}
use wagmi.Chain.{
  Pubkey, Account, Result, ok, ◌>>=◌, ◌>>◌, met_voter, MetVoterError, vipers, option_unwrap_failed,
  invariant, when, unwrap_opt, unwrap_int, assert_keys_eq, assert_keys_neq, has_one, constraint,
  TokenProgram, open_token_account, transfer_tokens, close_token_account,
}
use wagmi.LockedVoter.{release_tokens}
use wagmi.MetVoter.State.{
  Phase, is_launched, Locker, Escrow, get_remaining_duration_until_expiration,
}
use wagmi.MetVoter.VoterPower.{get_current_phase}

-- `Escrow::record_increase_locked_amount_event`.
abbrev pub record_increase_locked_amount_event : Escrow → Locker → ℕ → Result (Escrow × Locker)
record_increase_locked_amount_event escrow locker lock_amount = do
  amount ← unwrap_int (checked_add escrow.amount lock_amount)
  locked_supply ← unwrap_int (checked_add locker.locked_supply lock_amount)
  ok (record escrow { amount = amount }, record locker { locked_supply = locked_supply })

-- The accounts of `increase_locked_amount`; the payer signs.
pub record IncreaseLockedAmount : Type 0 where
  pub locker : Account Locker
  pub escrow : Account Escrow
  pub escrow_tokens : Pubkey
  pub payer : Pubkey
  pub source_tokens : Pubkey

-- The accounts of `withdraw`; the owner signs.
pub record Withdraw : Type 0 where
  pub locker : Account Locker
  pub escrow : Account Escrow
  pub escrow_owner : Pubkey
  pub escrow_tokens : Pubkey
  pub destination_tokens : Pubkey

-- The time left in the lock, which counts from the launch on.
abbrev pub check_lock_left : ℤ → Escrow → Locker → Result (Unit {0})
check_lock_left now escrow locker = do
  duration ←
      unwrap_opt (get_remaining_duration_until_expiration escrow now locker)
        (vipers option_unwrap_failed)
  invariant (leb locker.params.min_stake_duration duration)
      (met_voter MetVoterError.lockup_duration_too_short)

-- The time from which an escrow may be withdrawn.
abbrev pub withdraw_time : Phase → Locker → Escrow → Result ℤ
withdraw_time Phase.initial_phase locker escrow = ok locker.expiration
withdraw_time Phase.token_launch_phase locker escrow = do
  invariant (not escrow.is_max_lock) (met_voter MetVoterError.max_lock_is_set)
  ok escrow.escrow_ends_at

module _ (tp : TokenProgram) where
  -- The attributes and `IncreaseLockedAmount::validate`.
  abbrev pub validate_increase : ℤ → tp.Ledger → IncreaseLockedAmount → Result (Unit {0})
  validate_increase now ledger ctx = do
    let escrow = ctx.escrow.info
    let locker = ctx.locker.info
    has_one escrow.locker ctx.locker.key
    constraint (escrow.tokens == ctx.escrow_tokens)
    assert_keys_eq ctx.locker.key escrow.locker
    assert_keys_eq escrow.tokens ctx.escrow_tokens
    assert_keys_eq ctx.payer (tp.account ledger ctx.source_tokens).owner
    assert_keys_eq (tp.account ledger ctx.source_tokens).mint locker.token_mint
    assert_keys_neq ctx.escrow_tokens ctx.source_tokens
    when (is_launched (get_current_phase locker now)) (check_lock_left now escrow locker)

  -- `increase_locked_amount`.
  unfoldable pub increase_locked_amount :
      ℤ → tp.Ledger → IncreaseLockedAmount → ℕ → Result (tp.Ledger × Locker × Escrow)
  increase_locked_amount now ledger ctx amount = do
    validate_increase now ledger ctx
    invariant (ltb 0 amount) (met_voter MetVoterError.amount_is_zero)
    ledger' ← transfer_tokens tp ledger ctx.source_tokens ctx.escrow_tokens ctx.payer amount
    (escrow, locker) ← record_increase_locked_amount_event ctx.escrow.info ctx.locker.info amount
    ok (ledger', locker, escrow)

  -- The attributes and `Withdraw::validate`.
  abbrev pub validate_withdraw : ℤ → tp.Ledger → Withdraw → Result (Unit {0})
  validate_withdraw now ledger ctx = do
    open_token_account tp ledger ctx.escrow_tokens
    open_token_account tp ledger ctx.destination_tokens
    let escrow = ctx.escrow.info
    has_one escrow.locker ctx.locker.key
    constraint (escrow.tokens == ctx.escrow_tokens)
    assert_keys_eq ctx.locker.key escrow.locker
    assert_keys_eq escrow.owner ctx.escrow_owner
    assert_keys_eq escrow.tokens ctx.escrow_tokens
    assert_keys_neq ctx.escrow_tokens ctx.destination_tokens
    expiration ← withdraw_time (get_current_phase ctx.locker.info now) ctx.locker.info escrow
    invariant (leb_ℤ expiration now) (met_voter MetVoterError.escrow_not_ended)

  -- `withdraw`, which closes the escrow and its token account.
  unfoldable pub withdraw : ℤ → tp.Ledger → Withdraw → Result (tp.Ledger × Locker)
  withdraw now ledger ctx = do
    validate_withdraw now ledger ctx
    let amount = ctx.escrow.info.amount
    paid ← release_tokens tp ledger ctx.escrow_tokens ctx.destination_tokens ctx.escrow.key amount
    ledger' ← close_token_account tp paid ctx.escrow_tokens ctx.escrow.key
    locked_supply ← unwrap_int (checked_sub ctx.locker.info.locked_supply amount)
    ok (ledger', record (ctx.locker.info) { locked_supply = locked_supply })
