-- ===== src/LockedVoter/Power.antt =====
-- The voting power of an escrow (programs/locked-voter/src/locker.rs): when it is defined, the curve
-- that it follows, its bound, and how it decays.
use wagmi.Prelude.{
  ℕ, ◌*◌, ◌/◌, ◌≤◌, ◌<◌, min, ◌≡◌, ◌&&◌, not, false, some, arith, ℤ, pos, pos_part, ◌-ℤ◌, ◌≤ℤ◌,
  ◌<ℤ◌, ◌==ℤ◌, leb_ℤ, ltb_ℤ, if◌then◌else◌, IsI64, u64_mod, -ℤ_parts, pos_part-sub_anti, share-le,
  share_mono, product-lt,
}
use wagmi.LockedVoter.State.{Locker, Escrow}
use wagmi.LockedVoter.VoterPower.{calculate_voter_power}

-- The power at full lock: the amount times the multiplier.
abbrev pub full_power : Locker → Escrow → ℕ
full_power locker escrow = escrow.amount * locker.params.max_stake_vote_multiplier

-- The seconds of lock that count at a time.
abbrev pub counted_seconds : Locker → Escrow → ℤ → ℕ
counted_seconds locker escrow now =
    min (pos_part (escrow.escrow_ends_at -ℤ now)) locker.params.max_stake_duration

abbrev pub linear_power : Locker → Escrow → ℤ → ℕ
linear_power locker escrow now =
    full_power locker escrow * counted_seconds locker escrow now / locker.params.max_stake_duration

-- The curve, over unbounded numbers: full power under max lock; else the linear share from the
-- start to the end of the lock, and nothing outside.
abbrev pub power_curve : Locker → Escrow → ℤ → ℕ
power_curve locker escrow now =
    if escrow.is_max_lock
    then full_power locker escrow
    else if not (escrow.escrow_started_at ==ℤ pos 0)
        && leb_ℤ escrow.escrow_started_at now
        && ltb_ℤ now escrow.escrow_ends_at
    then linear_power locker escrow now
    else 0

-- Parameters under which the products stay in 64 bits.
pub record FitsLocker (locker : Locker) (escrow : Escrow) : Type 0 where
  pub some_duration : 0 < locker.params.max_stake_duration
  pub duration_fits : locker.params.max_stake_duration < u64_mod
  pub power_fits : full_power locker escrow < u64_mod

linear_power-le :
    (l : Locker) (e : Escrow) (now : ℤ)
    → 0 < l.params.max_stake_duration
    → linear_power l e now ≤ full_power l e
linear_power-le l e now h = share-le _ _ _ h (omega arith)

-- At a positive time, with an end of the lock that is an i64, a positive maximum duration below
-- 2^64 and a full power below 2^64, voting power is defined and lies on the curve: nothing
-- overflows.
pub calculate_voter_power-eq-curve :
    (l : Locker) (e : Escrow) (now : ℤ)
    → FitsLocker l e
    → pos 0 <ℤ now
    → IsI64 e.escrow_ends_at
    → calculate_voter_power l e now ≡ some (power_curve l e now)
unfolding calculate_voter_power
calculate_voter_power-eq-curve l e now f h r = ground (
  arith,
  -ℤ_parts e.escrow_ends_at now,
  product-lt (full_power l e) (counted_seconds l e now),
  linear_power-le l e now,
)

-- An answer lies on the curve, whatever the parameters.
pub calculate_voter_power-curve :
    (l : Locker) (e : Escrow) (now : ℤ) {p : ℕ}
    → calculate_voter_power l e now ≡ some p
    → p ≡ power_curve l e now
unfolding calculate_voter_power
calculate_voter_power-curve l e now h = ground (arith, -ℤ_parts e.escrow_ends_at now)

duration_pos :
    (l : Locker) (e : Escrow) (now : ℤ) {p : ℕ}
    → calculate_voter_power l e now ≡ some p
    → 0 < p
    → e.is_max_lock ≡ false
    → 0 < l.params.max_stake_duration
unfolding calculate_voter_power
duration_pos l e now h k t = ground arith

-- Where voting power is defined, it is at most the amount times the multiplier.
pub calculate_voter_power_bounded :
    (l : Locker) (e : Escrow) (now : ℤ) {p : ℕ}
    → calculate_voter_power l e now ≡ some p
    → p ≤ full_power l e
calculate_voter_power_bounded l e now h =
    ground (
      arith,
      calculate_voter_power-curve l e now h,
      linear_power-le l e now,
      duration_pos l e now h,
    )

linear_power_decays :
    (l : Locker) (e : Escrow) (now later : ℤ)
    → 0 < l.params.max_stake_duration
    → now ≤ℤ later
    → linear_power l e later ≤ linear_power l e now
linear_power_decays l e now later h le =
    share_mono _ _ _ _ _ h (omega arith)
      (omega (arith, pos_part-sub_anti e.escrow_ends_at now later le))

-- From the start of its lock on, the power of an escrow without max lock, where it is defined,
-- does not grow.
pub calculate_voter_power_decays :
    (l : Locker) (e : Escrow) (now later : ℤ) {p q : ℕ}
    → e.is_max_lock ≡ false
    → e.escrow_started_at ≤ℤ now
    → now ≤ℤ later
    → calculate_voter_power l e now ≡ some p
    → calculate_voter_power l e later ≡ some q
    → q ≤ p
calculate_voter_power_decays l e now later timed st le hp hq = ground (
  arith,
  calculate_voter_power-curve l e now hp,
  calculate_voter_power-curve l e later hq,
  linear_power_decays l e now later,
  duration_pos l e later hq,
)
