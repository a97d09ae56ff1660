-- ===== src/LockedVoter/Tests.antt =====
-- An escrow of 300 tokens of a locker (programs/locked-voter) over its life.
mod Supply
use wagmi.Prelude.{
  ℕ, ◌+◌, ◌-◌, ◌<◌, ◌≤◌, ◌≡◌, ◌⊎◌, refl, arith, Bool, true, false, some, none, [], ◌∷◌, ℤ, pos,
  ◌+ℤ◌, ◌≤ℤ◌, ◌<ℤ◌, ◌==◌, if◌then◌else◌,
}
use wagmi.Chain.{Account, ok, Moves}
use wagmi.Chain.Bank.{bank, Book, moved}
use wagmi.Govern.{Governor, GovernanceParameters, Proposal, Vote, VotingReward, state, active}
use wagmi.Govern.Tally.{SetVoteEffect}
use wagmi.LockedVoter.State.{Locker, Escrow, PartialUnstaking, default_escrow, default_locker}
use wagmi.LockedVoter.{
  calculate_voter_power, LockChange, extend_lock_duration, toggle_max_lock, IncreaseLockedAmount,
  increase_locked_amount, Withdraw, withdraw, OpenPartialUnstaking, open_partial_unstaking,
  merge_partial_unstaking, WithdrawPartialUnstaking, withdraw_partial_unstaking,
  get_remaining_duration_until_expiration,
}
use wagmi.LockedVoter.Ballots.{CastVote, cast_vote}
use wagmi.LockedVoter.Power.{
  power_curve, full_power, FitsLocker, calculate_voter_power-eq-curve,
  calculate_voter_power_bounded, calculate_voter_power_decays,
}
use wagmi.LockedVoter.Casting.{cast_vote-power}
use wagmi.LockedVoter.Locks.{lock_end, extend_lock_duration-lengthens, toggle_max_lock-lock_end}
use wagmi.LockedVoter.Custody.{
  withdraw-releases, increase_locked_amount-deposits, withdraw_partial_unstaking-releases,
}
use wagmi.LockedVoter.Partial.{open_partial_unstaking-waits, open_merge_partial_unstaking}

abbrev locker : Locker
locker = record default_locker {
  base = 1;
  token_mint = 60;
  locked_supply = 500;
  total_escrow = 1;
  governor = 50;
  params = record {
    max_stake_vote_multiplier = 10;
    min_stake_duration = 10;
    max_stake_duration = 1000;
    proposal_activation_min_votes = 0;
  };
}

abbrev escrow : Escrow
escrow = record default_escrow {
  locker = 70;
  owner = 11;
  tokens = 1071;
  amount = 300;
  escrow_started_at = pos 100;
  escrow_ends_at = pos 600;
  vote_delegate = 12;
}

abbrev the_locker : Account Locker
the_locker = record { key = 70; info = locker }

abbrev the_escrow : Account Escrow
the_escrow = record { key = 71; info = escrow }

-- The escrow's tokens, and those of its owner.
abbrev book : Book
book k =
    if k == 1071
    then record { owner = 71; mint = 60; amount = 300 }
    else record { owner = 11; mint = 60; amount = 100 }

escrow-FitsLocker : FitsLocker locker escrow
escrow-FitsLocker = record {
  some_duration = omega arith;
  duration_fits = omega arith;
  power_fits = omega arith;
}

calculate_voter_power-eq-curve_example :
    calculate_voter_power locker escrow (pos 400) ≡ some (power_curve locker escrow (pos 400))
calculate_voter_power-eq-curve_example =
    calculate_voter_power-eq-curve locker escrow (pos 400) escrow-FitsLocker (omega arith)
      (omega arith, omega arith)

power_at_400 : calculate_voter_power locker escrow (pos 400) ≡ some 600
unfolding calculate_voter_power wagmi.Prelude.◌-ℤ◌
power_at_400 = refl

calculate_voter_power_bounded_example : 600 ≤ full_power locker escrow
calculate_voter_power_bounded_example =
    calculate_voter_power_bounded locker escrow (pos 400) {p = 600} power_at_400

abbrev exit : Withdraw
exit = record {
  locker = the_locker;
  escrow = the_escrow;
  escrow_owner = 11;
  escrow_tokens = 1071;
  destination_tokens = 2000;
}

abbrev after_exit : Locker
after_exit = record locker { locked_supply = 200 }

exit-ok : withdraw bank (pos 600) book exit ≡ ok (moved book 1071 2000 300, after_exit)
unfolding withdraw
exit-ok = refl

withdraw-releases_example :
    (11 ≡ escrow.owner)
    × (escrow.is_max_lock ≡ false)
    × (escrow.escrow_ends_at ≤ℤ pos 600)
    × (escrow.partial_unstaking_amount ≡ 0)
    × Moves bank book (moved book 1071 2000 300) 1071 2000 300
    × (500 ≡ 200 + 300)
withdraw-releases_example =
    withdraw-releases bank (pos 600) book exit {l' = moved book 1071 2000 300} {locker = after_exit}
      exit-ok

abbrev opening : OpenPartialUnstaking
opening = record { locker = the_locker; escrow = the_escrow; owner = 11 }

abbrev divided : Escrow
divided = record escrow { amount = 200; partial_unstaking_amount = 100 }

abbrev leaving_part : PartialUnstaking
leaving_part = record { escrow = 71; amount = 100; expiration = pos 600; memo = 0 }

opening-ok : open_partial_unstaking (pos 400) opening 100 0 ≡ ok (divided, leaving_part)
unfolding open_partial_unstaking get_remaining_duration_until_expiration wagmi.Prelude.◌-ℤ◌ ◌+ℤ◌
    wagmi.LockedVoter.accumulate_partial_unstaking_amount
opening-ok = refl

open_partial_unstaking-waits_example :
    (0 < 100)
    × (11 ≡ escrow.owner)
    × (leaving_part.amount ≡ 100)
    × (leaving_part.expiration ≡ lock_end (pos 400) locker escrow)
    × (pos 400 <ℤ leaving_part.expiration)
    × (escrow.amount ≡ divided.amount + 100)
    × (divided.partial_unstaking_amount ≡ escrow.partial_unstaking_amount + 100)
open_partial_unstaking-waits_example =
    open_partial_unstaking-waits (pos 400) opening 100 0 {e = divided} {u = leaving_part}
      (omega arith) opening-ok

remaining-ok : get_remaining_duration_until_expiration escrow (pos 400) locker ≡ some 200
unfolding get_remaining_duration_until_expiration wagmi.Prelude.◌-ℤ◌
remaining-ok = refl

open_merge_partial_unstaking_example :
    merge_partial_unstaking (pos 400) (record {
      locker = the_locker;
      escrow = record { key = 71; info = divided };
      partial_unstake = record { key = 90; info = leaving_part };
      owner = 11;
    })
    ≡ ok escrow
open_merge_partial_unstaking_example =
    open_merge_partial_unstaking (pos 400) opening 100 0 90 {e = divided} {u = leaving_part}
      {d = 200} (omega arith) remaining-ok (omega arith) opening-ok

abbrev collecting : WithdrawPartialUnstaking
collecting = record {
  locker = the_locker;
  escrow = record { key = 71; info = divided };
  partial_unstake = record { key = 90; info = leaving_part };
  owner = 11;
  escrow_tokens = 1071;
  destination_tokens = 2000;
}

abbrev after_collecting : Locker
after_collecting = record locker { locked_supply = 400 }

abbrev rest : Escrow
rest = record escrow { amount = 200; partial_unstaking_amount = 0 }

collecting-ok :
    withdraw_partial_unstaking bank (pos 600) book collecting
    ≡ ok (moved book 1071 2000 100, after_collecting, rest)
unfolding withdraw_partial_unstaking wagmi.LockedVoter.withdraw_partial_unstaking_amount
collecting-ok = refl

withdraw_partial_unstaking-releases_example :
    (11 ≡ divided.owner)
    × (leaving_part.escrow ≡ 71)
    × (leaving_part.expiration ≤ℤ pos 600)
    × Moves bank book (moved book 1071 2000 100) 1071 2000 100
    × (100 ≤ divided.partial_unstaking_amount)
    × (rest ≡ record divided { partial_unstaking_amount = 100 - 100 })
    × (500 ≡ 400 + 100)
withdraw_partial_unstaking-releases_example =
    withdraw_partial_unstaking-releases bank (pos 600) book collecting
      {l' = moved book 1071 2000 100} {locker = after_collecting} {e = rest} collecting-ok

abbrev governor : Governor
governor = record {
  base = 2;
  bump = 255;
  proposal_count = 1;
  locker = 70;
  smart_wallet = 7;
  params = record {
    voting_delay = 10;
    voting_period = 100;
    quorum_votes = 5;
    timelock_delay_seconds = pos 0;
  };
  voting_reward = record { reward_mint = 60; reward_vault = 1050; reward_per_proposal = 1000 };
}

abbrev proposal : Proposal
proposal = record {
  governor = 50;
  index = 0;
  bump = 255;
  proposer = 11;
  quorum_votes = 5;
  max_option = 2;
  option_votes = 0 ∷ 700 ∷ 40 ∷ [];
  canceled_at = pos 0;
  created_at = pos 300;
  activated_at = pos 400;
  voting_ends_at = pos 500;
  queued_at = pos 0;
  queued_transaction = 0;
  voting_reward = governor.voting_reward;
  total_claimed_reward = 0;
  proposal_type = 0;
  instructions = [];
}

abbrev ballot : Vote
ballot = record {
  proposal = 80;
  voter = 11;
  bump = 255;
  side = 1;
  voting_power = 50;
  claimed = false;
}

abbrev casting : CastVote
casting = record {
  locker = the_locker;
  escrow = the_escrow;
  vote_delegate = 12;
  proposal = record { key = 80; info = proposal };
  vote = record { key = 81; info = ballot };
  governor = record { key = 50; info = governor };
}

abbrev voted : Proposal
voted = record proposal { option_votes = 0 ∷ 650 ∷ 340 ∷ [] }

abbrev marked : Vote
marked = record ballot { side = 2; voting_power = 300 }

casting-ok : cast_vote (pos 450) casting 2 ≡ ok (voted, marked)
unfolding cast_vote state calculate_voter_power wagmi.Prelude.◌-ℤ◌ wagmi.Govern.set_vote
    wagmi.Govern.subtract_vote_weight wagmi.Govern.add_vote_weight
casting-ok = refl

cast_vote-power_example :
    (state proposal (pos 450) ≡ ok active)
    × (12 ≡ escrow.vote_delegate)
    × (ballot.voter ≡ escrow.owner)
    × (((power_curve locker escrow (pos 500) ≡ 0) × (voted ≡ proposal) × (marked ≡ ballot))
        ⊎ SetVoteEffect proposal voted ballot marked 2 (power_curve locker escrow (pos 500)))
cast_vote-power_example = cast_vote-power (pos 450) casting 2 {p = voted} {v = marked} casting-ok
