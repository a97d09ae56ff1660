-- ===== src/LockedVoter/Deposits.antt =====
-- programs/locked-voter/src/instructions: increase_locked_amount.rs and withdraw.rs, the tokens that
-- enter an escrow and that leave it when it is closed.
use wagmi.Prelude.{ℕ, ℤ, ◌==◌, not, ltb, leb, leb_ℤ, if◌then◌else◌, checked_add, checked_sub}
use wagmi.Chain.{
  Pubkey, Account, Result, ok, ◌>>=◌, ◌>>◌, locked_voter, vipers, option_unwrap_failed,
  amount_is_zero, lockup_duration_too_short, max_lock_is_set, escrow_not_ended,
  partial_unstaking_amount_is_not_zero, invariant, unwrap_opt, unwrap_int, assert_keys_eq,
  assert_keys_neq, has_one, constraint, TokenProgram, open_token_account, transfer_tokens,
}
use wagmi.LockedVoter.State.{Locker, Escrow, get_remaining_duration_until_expiration}

-- `Escrow::record_increase_locked_amount_event`.
abbrev pub record_increase_locked_amount_event : Escrow → Locker → ℕ → Result (Escrow × Locker)
record_increase_locked_amount_event escrow locker lock_amount = do
  amount ← unwrap_int (checked_add escrow.amount lock_amount)
  locked_supply ← unwrap_int (checked_add locker.locked_supply lock_amount)
  ok (record escrow { amount = amount }, record locker { locked_supply = locked_supply })

-- The accounts of `increase_locked_amount`; the payer signs.
pub record IncreaseLockedAmount : Type 0 where
  pub locker : Account Locker
  pub escrow : Account Escrow
  pub escrow_tokens : Pubkey
  pub payer : Pubkey
  pub source_tokens : Pubkey

-- The accounts of `withdraw`; the owner signs.
pub record Withdraw : Type 0 where
  pub locker : Account Locker
  pub escrow : Account Escrow
  pub escrow_owner : Pubkey
  pub escrow_tokens : Pubkey
  pub destination_tokens : Pubkey

module _ (tp : TokenProgram) where
  -- The attributes and `IncreaseLockedAmount::validate`.
  abbrev pub validate_increase : ℤ → tp.Ledger → IncreaseLockedAmount → Result (Unit {0})
  validate_increase now ledger ctx = do
    let escrow = ctx.escrow.info
    let locker = ctx.locker.info
    has_one escrow.locker ctx.locker.key
    constraint (escrow.tokens == ctx.escrow_tokens)
    assert_keys_eq ctx.locker.key escrow.locker
    assert_keys_eq escrow.tokens ctx.escrow_tokens
    assert_keys_eq ctx.payer (tp.account ledger ctx.source_tokens).owner
    assert_keys_eq (tp.account ledger ctx.source_tokens).mint locker.token_mint
    assert_keys_neq ctx.escrow_tokens ctx.source_tokens
    duration ←
        unwrap_opt (get_remaining_duration_until_expiration escrow now locker)
          (vipers option_unwrap_failed)
    invariant (leb locker.params.min_stake_duration duration)
        (locked_voter lockup_duration_too_short)

  -- `increase_locked_amount`.
  unfoldable pub increase_locked_amount :
      ℤ → tp.Ledger → IncreaseLockedAmount → ℕ → Result (tp.Ledger × Locker × Escrow)
  increase_locked_amount now ledger ctx amount = do
    validate_increase now ledger ctx
    invariant (ltb 0 amount) (locked_voter amount_is_zero)
    ledger' ← transfer_tokens tp ledger ctx.source_tokens ctx.escrow_tokens ctx.payer amount
    (escrow, locker) ← record_increase_locked_amount_event ctx.escrow.info ctx.locker.info amount
    ok (ledger', locker, escrow)

  -- The attributes and `Withdraw::validate`.
  abbrev pub validate_withdraw : ℤ → tp.Ledger → Withdraw → Result (Unit {0})
  validate_withdraw now ledger ctx = do
    open_token_account tp ledger ctx.escrow_tokens
    open_token_account tp ledger ctx.destination_tokens
    let escrow = ctx.escrow.info
    has_one escrow.locker ctx.locker.key
    constraint (escrow.tokens == ctx.escrow_tokens)
    assert_keys_eq ctx.locker.key escrow.locker
    assert_keys_eq escrow.owner ctx.escrow_owner
    assert_keys_eq escrow.tokens ctx.escrow_tokens
    assert_keys_neq ctx.escrow_tokens ctx.destination_tokens
    invariant (not escrow.is_max_lock) (locked_voter max_lock_is_set)
    invariant (leb_ℤ escrow.escrow_ends_at now) (locked_voter escrow_not_ended)
    invariant (escrow.partial_unstaking_amount == 0)
        (locked_voter partial_unstaking_amount_is_not_zero)

  -- A payment out of an escrow, which an amount of nothing skips.
  abbrev pub release_tokens : tp.Ledger → Pubkey → Pubkey → Pubkey → ℕ → Result tp.Ledger
  release_tokens ledger escrow_tokens destination_tokens escrow amount =
      if ltb 0 amount
      then transfer_tokens tp ledger escrow_tokens destination_tokens escrow amount
      else ok ledger

  -- `withdraw`, which closes the escrow.
  unfoldable pub withdraw : ℤ → tp.Ledger → Withdraw → Result (tp.Ledger × Locker)
  withdraw now ledger ctx = do
    validate_withdraw now ledger ctx
    let amount = ctx.escrow.info.amount
    ledger' ← release_tokens ledger ctx.escrow_tokens ctx.destination_tokens ctx.escrow.key amount
    locked_supply ← unwrap_int (checked_sub ctx.locker.info.locked_supply amount)
    ok (ledger', record (ctx.locker.info) { locked_supply = locked_supply })
