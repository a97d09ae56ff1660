-- ===== src/MetVoter/VoterPower.antt =====
-- programs/met-voter/src/locker.rs: the phase of a locker and the voting power of an escrow. Both
-- read the clock, which is an argument.
use wagmi.Prelude.Maybe.{◌>>=◌}
use wagmi.Prelude.{
  ℕ, min, Option, some, none, ℤ, pos, ◌||◌, if◌then◌else◌, ltb_ℤ, leb_ℤ, ◌==ℤ◌, checked_mul,
  checked_mul_u128, checked_div, checked_sub_i64, narrow_u64, to_u64,
}
use wagmi.MetVoter.State.{Phase, is_initial, Locker, Escrow}

-- `Locker::get_current_phase`.
abbrev pub get_current_phase : Locker → ℤ → Phase
get_current_phase locker clock =
    if ltb_ℤ clock locker.expiration then Phase.initial_phase else Phase.token_launch_phase

-- `Locker::calculate_voter_power`, which `Escrow::voting_power_at_time` passes on.
unfoldable pub calculate_voter_power : ℤ → Locker → Escrow → ℤ → Option ℕ
calculate_voter_power clock locker escrow now =
    if now ==ℤ pos 0
    then none
    else if is_initial (get_current_phase locker clock)
    then if leb_ℤ locker.expiration now
      then some 0
      else checked_mul escrow.amount locker.params.max_stake_vote_multiplier
    else if escrow.is_max_lock
    then checked_mul escrow.amount locker.params.max_stake_vote_multiplier
    else if escrow.escrow_started_at ==ℤ pos 0
    then some 0
    else if ltb_ℤ now escrow.escrow_started_at || leb_ℤ escrow.escrow_ends_at now
    then some 0
    else do
      seconds_until_lockup_expiry ← checked_sub_i64 escrow.escrow_ends_at now
      seconds ← to_u64 seconds_until_lockup_expiry
      let relevant_seconds_until_lockup_expiry = min seconds locker.params.max_stake_duration
      power_if_max_lockup ← checked_mul escrow.amount locker.params.max_stake_vote_multiplier
      product ← checked_mul_u128 power_if_max_lockup relevant_seconds_until_lockup_expiry
      power ← checked_div product locker.params.max_stake_duration
      narrow_u64 power
