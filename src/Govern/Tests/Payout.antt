-- ===== src/Govern/Tests/Payout.antt =====
-- A history of a proposal of programs/govern: a vote is created, cast, and its reward claimed.
use wagmi.Prelude.{
  ℕ, ◌≤◌, refl, arith, [], ◌∷◌, pos, false, true, inl, replicate, if◌then◌else◌, ◌==◌,
  get_or-replicate_zero,
}
use wagmi.Chain.Bank.{bank, Book, moved}
use wagmi.Chain.Address.{Seeds, FindProgramAddress}
use wagmi.Govern.State.{Governor, Proposal, Vote}
use wagmi.Govern.{SetVote, ClaimReward}
use wagmi.Govern.Ballot.{Ballot, IsTallied, Step, Steps}
use wagmi.Govern.Payout.{Steps-IsTallied, Steps-paid-le}

abbrev addresses : FindProgramAddress
addresses (Seeds.vote proposal voter) = (81, 255)
addresses _ = (7, 254)

abbrev governor : Governor
governor = record {
  base = 2;
  bump = 255;
  proposal_count = 1;
  locker = 70;
  smart_wallet = 7;
  params = record {
    voting_delay = 10;
    voting_period = 100;
    quorum_votes = 5;
    timelock_delay_seconds = pos 30;
  };
  voting_reward = record { reward_mint = 60; reward_vault = 1050; reward_per_proposal = 1000 };
}

abbrev opened : Proposal
opened = record {
  governor = 50;
  index = 0;
  bump = 255;
  proposer = 11;
  quorum_votes = 5;
  max_option = 2;
  option_votes = replicate 3 0;
  canceled_at = pos 0;
  created_at = pos 300;
  activated_at = pos 400;
  voting_ends_at = pos 500;
  queued_at = pos 0;
  queued_transaction = 0;
  voting_reward = governor.voting_reward;
  total_claimed_reward = 0;
  proposal_type = 0;
  instructions = [];
}

abbrev voted : Proposal
voted = record opened { option_votes = 0 ∷ 0 ∷ 7 ∷ [] }

abbrev empty : Vote
empty = record {
  proposal = 80;
  voter = 11;
  bump = 255;
  side = 0;
  voting_power = 0;
  claimed = false;
}

abbrev cast : Vote
cast = record empty { side = 2; voting_power = 7 }

abbrev rewarded : Proposal
rewarded = record voted { total_claimed_reward = 1000 }

abbrev if_vault : ℕ → ℕ
if_vault k = if k == 1050 then 50 else 11

abbrev book : Book
book k = record { owner = if_vault k; mint = 60; amount = 5000 }

abbrev at_start : Ballot
at_start = record { now = pos 450; proposal = opened; votes = []; spent = 0; received = 0 }

abbrev at_end : Ballot
at_end = record {
  now = pos 550;
  proposal = rewarded;
  votes = (81, record cast { claimed = true }) ∷ [];
  spent = 1000;
  received = 1000;
}

abbrev setting : SetVote
setting = record {
  governor = record { key = 50; info = governor };
  proposal = record { key = 80; info = opened };
  vote = record { key = 81; info = empty };
  locker = 70;
}

abbrev claiming : ClaimReward
claiming = record {
  governor = record { key = 50; info = governor };
  reward_vault = 1050;
  proposal = record { key = 80; info = voted };
  vote = record { key = 81; info = cast };
  voter = 11;
  voter_token_account = 2000;
}

at_start-IsTallied : IsTallied at_start
at_start-IsTallied = record {
  tally = λ option. get_or-replicate_zero 3 option;
  summed = refl;
  paid = refl;
  unpaid = inl refl;
  left = refl;
  arrived = refl;
}

creating : Steps bank addresses 80 at_start (record at_start { votes = (81, empty) ∷ [] })
unfolding wagmi.Govern.new_vote
creating = Steps.next Steps.start (Step.vote_created 81 11 empty refl refl)

setting-step :
    Steps bank addresses 80 at_start (record at_start { proposal = voted; votes = (81, cast) ∷ [] })
unfolding wagmi.Govern.set_vote wagmi.Govern.state wagmi.Govern.subtract_vote_weight
    wagmi.Govern.add_vote_weight
setting-step =
    Steps.next creating (Step.vote_set 81 setting 2 7 {p = voted} {v = cast} refl refl refl)

waiting :
    Steps bank addresses 80 at_start
      (record at_start { now = pos 550; proposal = voted; votes = (81, cast) ∷ [] })
waiting = Steps.next setting-step (Step.tick (pos 550) (omega arith))

claiming-step : Steps bank addresses 80 at_start at_end
unfolding wagmi.Govern.claim_reward wagmi.Govern.state wagmi.Govern.get_voting_reward
claiming-step = Steps.next waiting (
    Step.claimed 81 book claiming {l' = moved book 1050 2000 1000} {p = rewarded}
      {v = record cast { claimed = true }} refl refl (omega arith) refl)

Steps-IsTallied_example : IsTallied at_end
Steps-IsTallied_example = Steps-IsTallied bank addresses 80 claiming-step at_start-IsTallied

Steps-paid-le_example : (1000 ≤ 1000) × (1000 ≤ 1000) × (1000 ≤ 1000)
Steps-paid-le_example = Steps-paid-le bank addresses 80 at_start-IsTallied claiming-step
