-- ===== src/MetVoter/Tests/Casting.antt =====
-- A vote with an escrow of 300 tokens of a locker (programs/met-voter) after its launch at 50.
use wagmi.Prelude.{◌≡◌, refl, arith, [], ◌∷◌, pos, replicate, false}
use wagmi.Chain.{ok}
use wagmi.LockedVoter.Ballots as LockedBallots
use wagmi.Govern.{Governor, Proposal, Vote, no_reward}
use wagmi.MetVoter.State.{Locker, Escrow, default_escrow, default_locker}
use wagmi.MetVoter.Ballots.{CastVote, cast_vote}
use wagmi.MetVoter.Casting.{embed_cast, cast_vote-launched}

abbrev locker : Locker
locker = record default_locker {
  governor = 50;
  expiration = pos 50;
  params = record {
    max_stake_vote_multiplier = 10;
    min_stake_duration = 10;
    max_stake_duration = 1000;
    proposal_activation_min_votes = 0;
  };
}

abbrev escrow : Escrow
escrow = record default_escrow {
  locker = 70;
  owner = 11;
  vote_delegate = 12;
  amount = 300;
  escrow_started_at = pos 100;
  escrow_ends_at = pos 1000;
}

abbrev governor : Governor
governor = record {
  base = 2;
  bump = 255;
  proposal_count = 1;
  locker = 70;
  smart_wallet = 7;
  params = record {
    voting_delay = 10;
    voting_period = 100;
    quorum_votes = 5;
    timelock_delay_seconds = pos 30;
  };
  voting_reward = no_reward;
}

abbrev opened : Proposal
opened = record {
  governor = 50;
  index = 0;
  bump = 255;
  proposer = 11;
  quorum_votes = 5;
  max_option = 2;
  option_votes = replicate 3 0;
  canceled_at = pos 0;
  created_at = pos 300;
  activated_at = pos 400;
  voting_ends_at = pos 500;
  queued_at = pos 0;
  queued_transaction = 0;
  voting_reward = no_reward;
  total_claimed_reward = 0;
  proposal_type = 0;
  instructions = [];
}

abbrev empty : Vote
empty = record {
  proposal = 80;
  voter = 11;
  bump = 255;
  side = 0;
  voting_power = 0;
  claimed = false;
}

abbrev casting : CastVote
casting = record {
  locker = record { key = 70; info = locker };
  escrow = record { key = 71; info = escrow };
  vote_delegate = 12;
  proposal = record { key = 80; info = opened };
  vote = record { key = 81; info = empty };
  governor = record { key = 50; info = governor };
}

-- Half of the longest lock is left at the end of the vote: 300 * 10 * 500 / 1000.
cast :
    cast_vote (pos 450) casting 2
    ≡ ok (
      record opened { option_votes = 0 ∷ 0 ∷ 1500 ∷ [] },
      record empty { side = 2; voting_power = 1500 },
    )
unfolding cast_vote wagmi.MetVoter.calculate_voter_power wagmi.Govern.set_vote wagmi.Govern.state
    wagmi.Govern.subtract_vote_weight wagmi.Govern.add_vote_weight wagmi.Prelude.◌-ℤ◌
cast = refl

cast_vote-launched_example :
    cast_vote (pos 450) casting 2 ≡ LockedBallots.cast_vote (pos 450) (embed_cast casting) 2
cast_vote-launched_example = cast_vote-launched (pos 450) casting 2 (omega arith)
