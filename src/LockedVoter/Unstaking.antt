-- ===== src/LockedVoter/Unstaking.antt =====
-- programs/locked-voter/src/instructions: open_partial_unstaking.rs, merge_partial_unstaking.rs and
-- withdraw_partial_unstaking.rs, a part of an escrow that is on its way out.
use wagmi.Prelude.{ℕ, ℤ, ◌==◌, ltb, leb, leb_ℤ, checked_sub, checked_add_i64, as_i64}
use wagmi.Chain.{
  Pubkey, Account, Result, ok, ◌>>=◌, ◌>>◌, locked_voter, amount_is_zero, escrow_has_been_ended,
  invalid_amount_for_partial_unstaking, lockup_duration_too_short, partial_unstaking_is_not_ended,
  invariant, unwrap_int, assert_keys_eq, assert_keys_neq, has_one, constraint, TokenProgram,
  open_token_account,
}
use wagmi.LockedVoter.State.{
  Locker, Escrow, PartialUnstaking, get_remaining_duration_until_expiration,
  accumulate_partial_unstaking_amount, merge_partial_unstaking_amount,
  withdraw_partial_unstaking_amount,
}
use wagmi.LockedVoter.Deposits.{release_tokens}

-- The accounts of `open_partial_unstaking`, without the one to be initialised; the owner signs.
pub record OpenPartialUnstaking : Type 0 where
  pub locker : Account Locker
  pub escrow : Account Escrow
  pub owner : Pubkey

-- `open_partial_unstaking`. The cast `remaining_duration as i64` may wrap around.
unfoldable pub open_partial_unstaking :
    ℤ → OpenPartialUnstaking → ℕ → ℕ → Result (Escrow × PartialUnstaking)
open_partial_unstaking now ctx amount memo = do
  let escrow = ctx.escrow.info
  has_one escrow.locker ctx.locker.key
  has_one escrow.owner ctx.owner
  invariant (ltb 0 amount) (locked_voter amount_is_zero)
  invariant (leb amount escrow.amount) (locked_voter invalid_amount_for_partial_unstaking)
  remaining_duration ←
      unwrap_int (get_remaining_duration_until_expiration escrow now ctx.locker.info)
  invariant (ltb 0 remaining_duration) (locked_voter escrow_has_been_ended)
  expiration ← unwrap_int (checked_add_i64 now (as_i64 remaining_duration))
  escrow' ← unwrap_int (accumulate_partial_unstaking_amount escrow amount)
  ok (
    escrow',
    record { escrow = ctx.escrow.key; amount = amount; expiration = expiration; memo = memo },
  )

-- The accounts of `merge_partial_unstaking`; the owner signs.
pub record MergePartialUnstaking : Type 0 where
  pub locker : Account Locker
  pub escrow : Account Escrow
  pub partial_unstake : Account PartialUnstaking
  pub owner : Pubkey

-- `merge_partial_unstaking`, which closes the partial unstaking.
unfoldable pub merge_partial_unstaking : ℤ → MergePartialUnstaking → Result Escrow
merge_partial_unstaking now ctx = do
  let escrow = ctx.escrow.info
  has_one escrow.locker ctx.locker.key
  has_one escrow.owner ctx.owner
  has_one ctx.partial_unstake.info.escrow ctx.escrow.key
  lock_duration ← unwrap_int (get_remaining_duration_until_expiration escrow now ctx.locker.info)
  invariant (leb ctx.locker.info.params.min_stake_duration lock_duration)
      (locked_voter lockup_duration_too_short)
  unwrap_int (merge_partial_unstaking_amount escrow ctx.partial_unstake.info.amount)

-- The accounts of `withdraw_partial_unstaking`; the owner signs.
pub record WithdrawPartialUnstaking : Type 0 where
  pub locker : Account Locker
  pub escrow : Account Escrow
  pub partial_unstake : Account PartialUnstaking
  pub owner : Pubkey
  pub escrow_tokens : Pubkey
  pub destination_tokens : Pubkey

-- The attributes and `WithdrawPartialUnstaking::validate`.
abbrev pub validate_withdraw_partial : ℤ → WithdrawPartialUnstaking → Result (Unit {0})
validate_withdraw_partial now ctx = do
  let escrow = ctx.escrow.info
  has_one escrow.locker ctx.locker.key
  has_one escrow.owner ctx.owner
  has_one ctx.partial_unstake.info.escrow ctx.escrow.key
  constraint (escrow.tokens == ctx.escrow_tokens)
  assert_keys_eq ctx.locker.key escrow.locker
  assert_keys_neq ctx.escrow_tokens ctx.destination_tokens
  invariant (leb_ℤ ctx.partial_unstake.info.expiration now)
      (locked_voter partial_unstaking_is_not_ended)

-- `withdraw_partial_unstaking`, which closes the partial unstaking.
unfoldable pub withdraw_partial_unstaking :
    (tp : TokenProgram)
    → ℤ
    → tp.Ledger
    → WithdrawPartialUnstaking
    → Result (tp.Ledger × Locker × Escrow)
withdraw_partial_unstaking tp now ledger ctx = do
  open_token_account tp ledger ctx.escrow_tokens
  open_token_account tp ledger ctx.destination_tokens
  validate_withdraw_partial now ctx
  let amount = ctx.partial_unstake.info.amount
  ledger' ← release_tokens tp ledger ctx.escrow_tokens ctx.destination_tokens ctx.escrow.key amount
  locked_supply ← unwrap_int (checked_sub ctx.locker.info.locked_supply amount)
  escrow ← unwrap_int (withdraw_partial_unstaking_amount ctx.escrow.info amount)
  ok (ledger', record (ctx.locker.info) { locked_supply = locked_supply }, escrow)
