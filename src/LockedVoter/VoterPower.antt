-- ===== src/LockedVoter/VoterPower.antt =====
-- programs/locked-voter/src/locker.rs: the voting power of an escrow.
use wagmi.Prelude.Maybe.{◌>>=◌}
use wagmi.Prelude.{
  ℕ, min, Option, some, none, ℤ, pos, ◌||◌, if◌then◌else◌, ltb_ℤ, leb_ℤ, ◌==ℤ◌, checked_mul,
  checked_mul_u128, checked_div, checked_sub_i64, narrow_u64, to_u64,
}
use wagmi.LockedVoter.State.{Locker, Escrow}

-- `Locker::calculate_voter_power`, which `Escrow::voting_power_at_time` passes on.
unfoldable pub calculate_voter_power : Locker → Escrow → ℤ → Option ℕ
calculate_voter_power locker escrow now =
    if now ==ℤ pos 0
    then none
    else if escrow.is_max_lock
    then checked_mul escrow.amount locker.params.max_stake_vote_multiplier
    else if escrow.escrow_started_at ==ℤ pos 0
    then some 0
    else if ltb_ℤ now escrow.escrow_started_at || leb_ℤ escrow.escrow_ends_at now
    then some 0
    else do
      seconds_until_lockup_expiry ← checked_sub_i64 escrow.escrow_ends_at now
      seconds ← to_u64 seconds_until_lockup_expiry
      let relevant_seconds_until_lockup_expiry = min seconds locker.params.max_stake_duration
      power_if_max_lockup ← checked_mul escrow.amount locker.params.max_stake_vote_multiplier
      product ← checked_mul_u128 power_if_max_lockup relevant_seconds_until_lockup_expiry
      power ← checked_div product locker.params.max_stake_duration
      narrow_u64 power
