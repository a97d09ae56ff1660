-- ===== src/Govern/Rewards.antt =====
-- The rewards of a proposal (`get_voting_reward` in programs/govern/src/state.rs, claim_reward.rs).
use wagmi.Prelude.{
  ℕ, ◌*◌, ◌/◌, ◌≤◌, ◌<◌, ◌≡◌, refl, some, arith, ◌==◌, if◌then◌else◌, [], ◌∷◌, sum, Store, total,
  u64_mod, product-lt, share-lt, zero, suc,
}
use native.Mathlib.Nat.{div-mul-le_self, le_of_mul-le-mul_right, le_trans, mul-le-mul_left}
use wagmi.Chain.{ok}
use wagmi.Govern.State.{Proposal, Vote}
use wagmi.Govern.Proposals.{get_voting_reward}

-- The share of a vote in the reward, rounded down.
abbrev pub reward_share : ℕ → ℕ → Vote → ℕ
reward_share reward total_vote vote =
    if total_vote == 0 then 0 else reward * vote.voting_power / total_vote

abbrev pub voting_power_of : Vote → ℕ
voting_power_of vote = vote.voting_power

-- The reward that is answered is the rounded share.
pub get_voting_reward-share :
    (p : Proposal) (v : Vote) {r : ℕ}
    → get_voting_reward p v ≡ ok (some r)
    → r ≡ reward_share p.voting_reward.reward_per_proposal (sum p.option_votes) v
unfolding get_voting_reward
get_voting_reward-share p v h = ground arith

-- The reward of a vote is defined, and is its share of the reward rounded down, if the tally and
-- the reward of the proposal are below 2^64 and the power of the vote is at most the tally.
pub get_voting_reward-total :
    (p : Proposal) (v : Vote)
    → sum p.option_votes < u64_mod
    → p.voting_reward.reward_per_proposal < u64_mod
    → v.voting_power ≤ sum p.option_votes
    → get_voting_reward p v
      ≡ ok (some (reward_share p.voting_reward.reward_per_proposal (sum p.option_votes) v))
unfolding get_voting_reward
get_voting_reward-total p v ht hr hv = ground (
  arith,
  product-lt p.voting_reward.reward_per_proposal v.voting_power,
  share-lt p.voting_reward.reward_per_proposal v.voting_power (sum p.option_votes) u64_mod,
)

share-mul-le : (reward t : ℕ) (v : Vote) → reward_share reward t v * t ≤ reward * v.voting_power
share-mul-le reward t v = ground (arith, div-mul-le_self (reward * v.voting_power) t)

total-share-mul :
    (reward t : ℕ) (votes : Store Vote)
    → total (reward_share reward t) votes * t ≤ reward * total voting_power_of votes
total-share-mul reward t [] = grind arith
total-share-mul reward t ((k, v) ∷ votes) =
    grind (arith, share-mul-le reward t v, total-share-mul reward t votes)

total-share_none : (reward : ℕ) (votes : Store Vote) → total (reward_share reward 0) votes ≡ 0
total-share_none reward [] = refl
total-share_none reward ((k, v) ∷ votes) = omega (arith, total-share_none reward votes)

-- All votes together never earn more than the reward of the proposal.
pub total-reward_share-le :
    (reward t : ℕ) (votes : Store Vote)
    → total voting_power_of votes ≤ t
    → total (reward_share reward t) votes ≤ reward
total-reward_share-le reward zero votes h = omega (arith, total-share_none reward votes)
total-reward_share-le reward (suc t) votes h =
    le_of_mul-le-mul_right
      (le_trans (total-share-mul reward (suc t) votes) (mul-le-mul_left reward h)) (omega arith)

-- What the votes whose reward was claimed have earned.
abbrev pub claimed_share : ℕ → ℕ → Vote → ℕ
claimed_share reward t vote = if vote.claimed then reward_share reward t vote else 0

abbrev pub claim_count : Vote → ℕ
claim_count vote = if vote.claimed then 1 else 0

pub total-claimed_share-le :
    (reward t : ℕ) (votes : Store Vote)
    → total (claimed_share reward t) votes ≤ total (reward_share reward t) votes
total-claimed_share-le reward t [] = omega arith
total-claimed_share-le reward t ((k, v) ∷ votes) =
    ground (arith, total-claimed_share-le reward t votes)

-- Where nothing was claimed, the claimed shares are nothing, whatever the tally.
pub total-claimed_share_none :
    (reward t : ℕ) (votes : Store Vote)
    → total claim_count votes ≡ 0
    → total (claimed_share reward t) votes ≡ 0
total-claimed_share_none reward t [] h = refl
total-claimed_share_none reward t ((k, v) ∷ votes) h =
    ground (arith, total-claimed_share_none reward t votes)
