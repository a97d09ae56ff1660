-- ===== src/LockedVoter/Escrows.antt =====
-- programs/locked-voter/src/instructions: new_locker.rs, new_escrow.rs, set_locker_params.rs,
-- set_vote_delegate.rs, extend_lock_duration.rs and toggle_max_lock.rs, which move no tokens.
use wagmi.Prelude.{
  Bool, true, false, ℤ, pos, not, leb, leb_ℤ, checked_add, checked_add_i64, to_u64, to_i64,
}
use wagmi.Chain.{
  Pubkey, Account, Result, ok, ◌>>=◌, ◌>>◌, locked_voter, panic, lockup_duration_too_short,
  lockup_duration_too_long, refresh_cannot_shorten, max_lock_is_set, invariant, unwrap_opt,
  unwrap_int, assert_keys_eq, has_one, TokenProgram,
}
use wagmi.Chain.Address.{Seeds, FindProgramAddress, seeds_match}
use wagmi.Govern.{Governor}
use wagmi.LockedVoter.State.{
  Locker, LockerParams, Escrow, default_locker, default_escrow, record_extend_lock_duration_event,
}

-- `new_locker`, at the address to be initialised; the base signs.
unfoldable pub new_locker :
    FindProgramAddress → Pubkey → Pubkey → Pubkey → Pubkey → LockerParams → Result Locker
new_locker pda base locker token_mint governor params = do
  seeds_match pda (Seeds.locker base) locker
  ok (record default_locker {
    token_mint = token_mint;
    governor = governor;
    base = base;
    bump = (pda (Seeds.locker base)).1;
    params = params;
  })

-- `new_escrow`, at the address to be initialised. Anyone may call it, for any owner.
unfoldable pub new_escrow :
    TokenProgram → FindProgramAddress → Account Locker → Pubkey → Pubkey → Result (Locker × Escrow)
new_escrow tp pda locker escrow escrow_owner = do
  let seeds = Seeds.escrow locker.key escrow_owner
  seeds_match pda seeds escrow
  total_escrow ← unwrap_int (checked_add locker.info.total_escrow 1)
  ok (
    record (locker.info) { total_escrow = total_escrow },
    record default_escrow {
      locker = locker.key;
      owner = escrow_owner;
      bump = (pda seeds).1;
      tokens = tp.associated_address escrow locker.info.token_mint;
      amount = 0;
      escrow_started_at = pos 0;
      escrow_ends_at = pos 0;
      vote_delegate = escrow_owner;
      is_max_lock = false;
    },
  )

-- `set_locker_params`; the smart wallet of the governor signs.
unfoldable pub set_locker_params :
    Account Locker → Account Governor → Pubkey → LockerParams → Result Locker
set_locker_params locker governor smart_wallet params = do
  assert_keys_eq governor.key locker.info.governor
  assert_keys_eq smart_wallet governor.info.smart_wallet
  ok (record (locker.info) { params = params })

-- `set_vote_delegate`; the owner signs.
unfoldable pub set_vote_delegate : Account Escrow → Pubkey → Pubkey → Result Escrow
set_vote_delegate escrow escrow_owner new_delegate = do
  assert_keys_eq escrow.info.owner escrow_owner
  ok (record (escrow.info) { vote_delegate = new_delegate })

-- The accounts of `extend_lock_duration` and `toggle_max_lock`; the owner signs.
pub record LockChange : Type 0 where
  pub locker : Account Locker
  pub escrow : Account Escrow
  pub escrow_owner : Pubkey

-- `extend_lock_duration`, with `ExtendLockDuration::validate` first.
unfoldable pub extend_lock_duration : ℤ → LockChange → ℤ → Result Escrow
extend_lock_duration now ctx duration = do
  let escrow = ctx.escrow.info
  let params = ctx.locker.info.params
  has_one escrow.locker ctx.locker.key
  invariant (not escrow.is_max_lock) (locked_voter max_lock_is_set)
  assert_keys_eq ctx.locker.key escrow.locker
  assert_keys_eq escrow.owner ctx.escrow_owner
  seconds ← unwrap_int (to_u64 duration)
  invariant (leb params.min_stake_duration seconds) (locked_voter lockup_duration_too_short)
  invariant (leb seconds params.max_stake_duration) (locked_voter lockup_duration_too_long)
  next_escrow_ends_at ← unwrap_int (checked_add_i64 now duration)
  invariant (leb_ℤ escrow.escrow_ends_at next_escrow_ends_at) (locked_voter refresh_cannot_shorten)
  ok (record_extend_lock_duration_event escrow now next_escrow_ends_at)

-- The new lock when max lock is switched off; `try_into().unwrap()` panics.
abbrev pub restart_lock : ℤ → Locker → Escrow → Result Escrow
restart_lock now locker escrow = do
  duration ← unwrap_opt (to_i64 locker.params.max_stake_duration) panic
  next_escrow_ends_at ← unwrap_int (checked_add_i64 now duration)
  ok (record (record_extend_lock_duration_event escrow now next_escrow_ends_at) {
    is_max_lock = false;
  })

-- The two switches and the two cases where nothing changes.
abbrev pub switch_max_lock : ℤ → Locker → Escrow → Bool → Bool → Result Escrow
switch_max_lock now locker escrow true true = ok escrow
switch_max_lock now locker escrow false false = ok escrow
switch_max_lock now locker escrow false true = ok (record escrow { is_max_lock = true })
switch_max_lock now locker escrow true false = restart_lock now locker escrow

-- `toggle_max_lock`, with `ToggleMaxLock::validate` first.
unfoldable pub toggle_max_lock : ℤ → LockChange → Bool → Result Escrow
toggle_max_lock now ctx is_max_lock = do
  has_one ctx.escrow.info.locker ctx.locker.key
  assert_keys_eq ctx.locker.key ctx.escrow.info.locker
  assert_keys_eq ctx.escrow.info.owner ctx.escrow_owner
  switch_max_lock now ctx.locker.info ctx.escrow.info ctx.escrow.info.is_max_lock is_max_lock
