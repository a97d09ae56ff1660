-- ===== src/Govern/Tests.antt =====
-- A yes/no proposal of a governor (programs/govern) over its life.
mod Payout
mod Execution
use wagmi.Prelude.{
  ℕ, ◌+◌, ◌*◌, ◌<◌, ◌≤◌, ◌≡◌, ◌≢◌, refl, arith, Bool, true, false, some, none, [], ◌∷◌, ℤ, pos,
  negsuc, ◌+ℤ◌, ◌≤ℤ◌, ◌<ℤ◌, as_u64,
}
use wagmi.Chain.{Pubkey, Account, ok}
use wagmi.Chain.Bank.{bank, Book}
use wagmi.Chain.Address.{Seeds, FindProgramAddress}
use wagmi.SmartWallet.{SmartWallet, Transaction}
use wagmi.Govern.State.{Governor, Proposal, Vote}
use wagmi.Govern.{
  state, draft, active, succeeded, queued, canceled, ProposalAuth, cancel_proposal,
  activate_proposal, SetVote, set_vote, ClaimReward, claim_reward, QueueProposal, queue_proposal,
  get_voting_reward,
}
use wagmi.Govern.Lifecycle.{
  IsPassed, succeeded-IsPassed, queue_proposal-once, activate_proposal-opens, state_settles,
  canceled_is_final,
}
use wagmi.Govern.Tally.{SetVoteEffect, set_vote-effect}
use wagmi.Govern.Rewards.{get_voting_reward-total, reward_share}

abbrev addresses : FindProgramAddress
addresses (Seeds.transaction wallet index) = (1000 + index, 255)
addresses _ = (7, 254)

abbrev governor : Governor
governor = record {
  base = 2;
  bump = 255;
  proposal_count = 1;
  locker = 70;
  smart_wallet = 7;
  params = record {
    voting_delay = 10;
    voting_period = 100;
    quorum_votes = 5;
    timelock_delay_seconds = pos 30;
  };
  voting_reward = record { reward_mint = 60; reward_vault = 1050; reward_per_proposal = 1000 };
}

abbrev drafted : Proposal
drafted = record {
  governor = 50;
  index = 0;
  bump = 255;
  proposer = 11;
  quorum_votes = 5;
  max_option = 2;
  option_votes = 0 ∷ 0 ∷ 0 ∷ [];
  canceled_at = pos 0;
  created_at = pos 300;
  activated_at = pos 0;
  voting_ends_at = pos 0;
  queued_at = pos 0;
  queued_transaction = 0;
  voting_reward = governor.voting_reward;
  total_claimed_reward = 0;
  proposal_type = 0;
  instructions = [];
}

abbrev opened : Proposal
opened = record drafted { activated_at = pos 400; voting_ends_at = pos 500 }

abbrev voted : Proposal
voted = record opened { option_votes = 0 ∷ 3 ∷ 9 ∷ [] }

abbrev the_governor : Account Governor
the_governor = record { key = 50; info = governor }

abbrev authority : Pubkey → Proposal → ProposalAuth
authority signer p = record {
  governor = the_governor;
  proposal = record { key = 80; info = p };
  signer = signer;
}

abbrev wallet : SmartWallet
wallet = record {
  base = 1;
  bump = 254;
  threshold = 1;
  minimum_delay = pos 0;
  grace_period = pos 1000;
  max_owners = 5;
  owner_set_seqno = 0;
  num_transactions = 0;
  owners = 50 ∷ [];
}

abbrev queueing : QueueProposal
queueing = record {
  governor = the_governor;
  proposal = record { key = 80; info = voted };
  transaction = 1000;
  transaction_is_empty = true;
  smart_wallet = record { key = 7; info = wallet };
}

abbrev counted : SmartWallet
counted = record wallet { num_transactions = 1 }

abbrev passed_on : Transaction
passed_on = record {
  smart_wallet = 7;
  index = 0;
  bump = 255;
  proposer = 50;
  instructions = [];
  signers = true ∷ [];
  owner_set_seqno = 0;
  eta = pos 580;
  executor = 0;
  executed_at = negsuc 0;
  created_at = pos 550;
}

abbrev in_queue : Proposal
in_queue = record voted { queued_at = pos 550; queued_transaction = 1000 }

queueing-ok : queue_proposal addresses (pos 550) queueing ≡ ok (counted, passed_on, in_queue)
unfolding queue_proposal state ◌+ℤ◌ wagmi.SmartWallet.create_transaction_with_timelock
    wagmi.Prelude.◌-ℤ◌ wagmi.SmartWallet.write_signer
queueing-ok = refl

queue_proposal-once_example : state in_queue (pos 600) ≡ ok queued
queue_proposal-once_example =
    (queue_proposal-once addresses (pos 550) queueing {w = counted} {tx = passed_on} {p' = in_queue}
        (omega arith) queueing-ok).1
      (pos 600) (omega arith)

abbrev withdrawn : Proposal
withdrawn = record drafted { canceled_at = pos 350 }

abbrev ballot : Vote
ballot = record {
  proposal = 80;
  voter = 11;
  bump = 255;
  side = 1;
  voting_power = 3;
  claimed = false;
}

abbrev setting : SetVote
setting = record {
  governor = the_governor;
  proposal = record { key = 80; info = voted };
  vote = record { key = 81; info = ballot };
  locker = 70;
}

abbrev changed : Proposal
changed = record voted { option_votes = 0 ∷ 0 ∷ 14 ∷ [] }

abbrev moved_ballot : Vote
moved_ballot = record ballot { side = 2; voting_power = 5 }

setting-ok : set_vote (pos 450) setting 2 5 ≡ ok (changed, moved_ballot)
unfolding set_vote state wagmi.Govern.subtract_vote_weight wagmi.Govern.add_vote_weight
setting-ok = refl

set_vote-effect_example : SetVoteEffect voted changed ballot moved_ballot 2 5
set_vote-effect_example =
    set_vote-effect (pos 450) setting 2 5 {p' = changed} {v' = moved_ballot} setting-ok

get_voting_reward-total_example :
    get_voting_reward voted ballot ≡ ok (some (reward_share 1000 12 ballot))
get_voting_reward-total_example =
    get_voting_reward-total voted ballot (omega arith) (omega arith) (omega arith)

withdrawn-canceled : state withdrawn (pos 450) ≡ ok canceled
unfolding state
withdrawn-canceled = refl

canceled_is_final_example :
    let p : Account Proposal = record { key = 80; info = withdrawn } in
    let sv : SetVote = record setting { proposal = p } in
    let q : QueueProposal = record queueing { proposal = p } in
    let book : Book = λ k. record { owner = 11; mint = 60; amount = 100 } in
    let c : ClaimReward = record {
      governor = the_governor;
      reward_vault = 1050;
      proposal = p;
      vote = setting.vote;
      voter = 11;
      voter_token_account = 2000;
    } in
    ((p' : Proposal) → cancel_proposal (pos 450) (authority 11 withdrawn) ≢ ok p')
    × ((p' : Proposal) → activate_proposal (pos 450) (authority 11 withdrawn) ≢ ok p')
    × ((r : Proposal × Vote) → set_vote (pos 450) sv 2 5 ≢ ok r)
    × ((r : SmartWallet × Transaction × Proposal) → queue_proposal addresses (pos 450) q ≢ ok r)
    × ((r : Book × Proposal × Vote) → claim_reward bank (pos 450) book c ≢ ok r)
canceled_is_final_example =
    let p : Account Proposal = record { key = 80; info = withdrawn } in
    canceled_is_final bank addresses (pos 450) (λ k. record { owner = 11; mint = 60; amount = 100 })
      (authority 11 withdrawn) (record setting { proposal = p }) (record queueing { proposal = p })
      (record {
        governor = the_governor;
        reward_vault = 1050;
        proposal = p;
        vote = setting.vote;
        voter = 11;
        voter_token_account = 2000;
      })
      2 5 withdrawn-canceled refl refl refl
