-- ===== src/MetVoter/State.antt =====
-- programs/met-voter/src/state.rs: the accounts and the updates of an escrow. The reserved `buffers`,
-- which no code reads, are left out. `LockerParams` is declared as in programs/locked-voter.
use wagmi.Prelude.Maybe.{◌>>=◌}
use wagmi.Prelude.{
  ℕ, Bool, true, false, Option, some, ℤ, pos, if◌then◌else◌, ltb_ℤ, checked_sub_i64, as_u64,
}
use wagmi.Chain.{Pubkey, default_pubkey}
use wagmi.LockedVoter.{LockerParams, default_params}

pub data Phase : Type 0 where
  initial_phase token_launch_phase : Phase

abbrev pub is_initial : Phase → Bool
is_initial Phase.initial_phase = true
is_initial Phase.token_launch_phase = false

abbrev pub is_launched : Phase → Bool
is_launched Phase.initial_phase = false
is_launched Phase.token_launch_phase = true

pub record Locker : Type 0 where
  pub base : Pubkey
  pub bump : ℕ  -- u8
  pub token_mint : Pubkey
  pub locked_supply : ℕ  -- u64
  pub total_escrow : ℕ  -- u64
  pub governor : Pubkey
  pub expiration : ℤ  -- i64
  pub params : LockerParams

pub record Escrow : Type 0 where
  pub locker : Pubkey
  pub owner : Pubkey
  pub bump : ℕ  -- u8
  pub tokens : Pubkey
  pub amount : ℕ  -- u64
  pub escrow_started_at : ℤ  -- i64
  pub escrow_ends_at : ℤ  -- i64
  pub vote_delegate : Pubkey
  pub is_max_lock : Bool

-- `Default` of the accounts, which `init` writes.
abbrev pub default_locker : Locker
default_locker = record {
  base = default_pubkey;
  bump = 0;
  token_mint = default_pubkey;
  locked_supply = 0;
  total_escrow = 0;
  governor = default_pubkey;
  expiration = pos 0;
  params = default_params;
}

abbrev pub default_escrow : Escrow
default_escrow = record {
  locker = default_pubkey;
  owner = default_pubkey;
  bump = 0;
  tokens = default_pubkey;
  amount = 0;
  escrow_started_at = pos 0;
  escrow_ends_at = pos 0;
  vote_delegate = default_pubkey;
  is_max_lock = false;
}

-- `Escrow::record_extend_lock_duration_event`.
abbrev pub record_extend_lock_duration_event : Escrow → ℤ → ℤ → Escrow
record_extend_lock_duration_event escrow started_at ends_at = record escrow {
  escrow_started_at = started_at;
  escrow_ends_at = ends_at;
}

-- `Escrow::get_remaining_duration_until_expiration`.
unfoldable pub get_remaining_duration_until_expiration : Escrow → ℤ → Locker → Option ℕ
get_remaining_duration_until_expiration escrow current_time locker =
    if escrow.is_max_lock
    then some locker.params.max_stake_duration
    else if ltb_ℤ escrow.escrow_ends_at current_time
    then some 0
    else do duration ← checked_sub_i64 escrow.escrow_ends_at current_time; some (as_u64 duration)
