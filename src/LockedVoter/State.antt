-- ===== src/LockedVoter/State.antt =====
-- programs/locked-voter/src/state.rs: the accounts and the updates of an escrow. The reserved
-- `padding` and `buffers` fields, which no code reads, are left out.
use wagmi.Prelude.Maybe.{◌>>=◌}
use wagmi.Prelude.{
  ℕ, Bool, false, Option, some, ℤ, pos, if◌then◌else◌, ltb_ℤ, checked_add, checked_sub,
  checked_sub_i64, as_u64,
}
use wagmi.Chain.{Pubkey, default_pubkey}

pub record LockerParams : Type 0 where
  pub max_stake_vote_multiplier : ℕ  -- u8
  pub min_stake_duration : ℕ  -- u64
  pub max_stake_duration : ℕ  -- u64
  pub proposal_activation_min_votes : ℕ  -- u64

pub record Locker : Type 0 where
  pub base : Pubkey
  pub bump : ℕ  -- u8
  pub token_mint : Pubkey
  pub locked_supply : ℕ  -- u64
  pub total_escrow : ℕ  -- u64
  pub governor : Pubkey
  pub params : LockerParams

pub record Escrow : Type 0 where
  pub locker : Pubkey
  pub owner : Pubkey
  pub bump : ℕ  -- u8
  pub tokens : Pubkey
  pub amount : ℕ  -- u64
  pub escrow_started_at : ℤ  -- i64
  pub escrow_ends_at : ℤ  -- i64
  pub vote_delegate : Pubkey
  pub is_max_lock : Bool
  pub partial_unstaking_amount : ℕ  -- u64

pub record PartialUnstaking : Type 0 where
  pub escrow : Pubkey
  pub amount : ℕ  -- u64
  pub expiration : ℤ  -- i64
  pub memo : ℕ  -- a text, which is only stored

-- `Default` of the three accounts, which `init` writes.
abbrev pub default_params : LockerParams
default_params = record {
  max_stake_vote_multiplier = 0;
  min_stake_duration = 0;
  max_stake_duration = 0;
  proposal_activation_min_votes = 0;
}

abbrev pub default_locker : Locker
default_locker = record {
  base = default_pubkey;
  bump = 0;
  token_mint = default_pubkey;
  locked_supply = 0;
  total_escrow = 0;
  governor = default_pubkey;
  params = default_params;
}

abbrev pub default_escrow : Escrow
default_escrow = record {
  locker = default_pubkey;
  owner = default_pubkey;
  bump = 0;
  tokens = default_pubkey;
  amount = 0;
  escrow_started_at = pos 0;
  escrow_ends_at = pos 0;
  vote_delegate = default_pubkey;
  is_max_lock = false;
  partial_unstaking_amount = 0;
}

-- `Escrow::record_extend_lock_duration_event`.
abbrev pub record_extend_lock_duration_event : Escrow → ℤ → ℤ → Escrow
record_extend_lock_duration_event escrow started_at ends_at = record escrow {
  escrow_started_at = started_at;
  escrow_ends_at = ends_at;
}

-- `Escrow::get_remaining_duration_until_expiration`.
unfoldable pub get_remaining_duration_until_expiration : Escrow → ℤ → Locker → Option ℕ
get_remaining_duration_until_expiration escrow current_time locker =
    if escrow.is_max_lock
    then some locker.params.max_stake_duration
    else if ltb_ℤ escrow.escrow_ends_at current_time
    then some 0
    else do duration ← checked_sub_i64 escrow.escrow_ends_at current_time; some (as_u64 duration)

-- `Escrow::accumulate_partial_unstaking_amount`.
unfoldable pub accumulate_partial_unstaking_amount : Escrow → ℕ → Option Escrow
accumulate_partial_unstaking_amount escrow unstaked = do
  amount ← checked_sub escrow.amount unstaked
  partial_unstaking_amount ← checked_add escrow.partial_unstaking_amount unstaked
  some (record escrow { amount = amount; partial_unstaking_amount = partial_unstaking_amount })

-- `Escrow::merge_partial_unstaking_amount`.
unfoldable pub merge_partial_unstaking_amount : Escrow → ℕ → Option Escrow
merge_partial_unstaking_amount escrow unstaked = do
  amount ← checked_add escrow.amount unstaked
  partial_unstaking_amount ← checked_sub escrow.partial_unstaking_amount unstaked
  some (record escrow { amount = amount; partial_unstaking_amount = partial_unstaking_amount })

-- `Escrow::withdraw_partial_unstaking_amount`.
unfoldable pub withdraw_partial_unstaking_amount : Escrow → ℕ → Option Escrow
withdraw_partial_unstaking_amount escrow unstaked = do
  partial_unstaking_amount ← checked_sub escrow.partial_unstaking_amount unstaked
  some (record escrow { partial_unstaking_amount = partial_unstaking_amount })
