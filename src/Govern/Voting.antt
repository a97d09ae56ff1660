-- ===== src/Govern/Voting.antt =====
-- programs/govern/src/instructions: new_vote.rs, set_vote.rs and claim_reward.rs, the votes on a
-- proposal and their rewards.
use wagmi.Prelude.{ℕ, true, false, ℤ, ◌==◌, not, ◌||◌, if◌then◌else◌, checked_add}
use wagmi.Chain.{
  Pubkey, Account, Result, ok, ◌>>=◌, ◌>>◌, govern, vipers, invariant_failed, option_unwrap_failed,
  proposal_not_active, invariant, assert_keys_eq, has_one, unwrap_opt, TokenProgram,
  open_token_account, transfer_tokens,
}
use wagmi.Chain.Address.{Seeds, FindProgramAddress, seeds_match}
use wagmi.Govern.State.{Governor, Proposal, Vote}
use wagmi.Govern.Proposals.{
  state, is_state, active, defeated, queued, succeeded, subtract_vote_weight, add_vote_weight,
  meets_quorum, get_voting_reward,
}

-- `new_vote`, at the address to be initialised. Anyone may call it, for any voter.
unfoldable pub new_vote : FindProgramAddress → Pubkey → Pubkey → Pubkey → Result Vote
new_vote pda proposal vote voter = do
  seeds_match pda (Seeds.vote proposal voter) vote
  ok (record {
    proposal = proposal;
    voter = voter;
    bump = (pda (Seeds.vote proposal voter)).1;
    side = 0;
    voting_power = 0;
    claimed = false;
  })

-- The accounts of `set_vote`; the locker signs.
pub record SetVote : Type 0 where
  pub governor : Account Governor
  pub proposal : Account Proposal
  pub vote : Account Vote
  pub locker : Pubkey

-- `SetVote::validate`.
abbrev pub validate_set_vote : ℤ → SetVote → Result (Unit {0})
validate_set_vote now ctx = do
  assert_keys_eq ctx.governor.info.locker ctx.locker
  assert_keys_eq ctx.governor.key ctx.proposal.info.governor
  assert_keys_eq ctx.vote.info.proposal ctx.proposal.key
  current ← state ctx.proposal.info now
  invariant (is_state current active) (govern proposal_not_active)

-- `set_vote`: the old weight leaves its side before the new one joins.
unfoldable pub set_vote : ℤ → SetVote → ℕ → ℕ → Result (Proposal × Vote)
set_vote now ctx side voting_power = do
  validate_set_vote now ctx
  let vote = ctx.vote.info
  proposal ← subtract_vote_weight ctx.proposal.info vote.side vote.voting_power
  proposal' ← add_vote_weight proposal side voting_power
  ok (proposal', record vote { side = side; voting_power = voting_power })

-- The accounts of `claim_reward`; the voter signs.
pub record ClaimReward : Type 0 where
  pub governor : Account Governor
  pub reward_vault : Pubkey
  pub proposal : Account Proposal
  pub vote : Account Vote
  pub voter : Pubkey
  pub voter_token_account : Pubkey

module _ (tp : TokenProgram) where
  -- The attributes and `ClaimReward::validate`.
  abbrev pub validate_claim_reward : ℤ → tp.Ledger → ClaimReward → Result (Unit {0})
  validate_claim_reward now ledger ctx = do
    open_token_account tp ledger ctx.reward_vault
    open_token_account tp ledger ctx.voter_token_account
    let proposal = ctx.proposal.info
    has_one proposal.governor ctx.governor.key
    has_one ctx.vote.info.proposal ctx.proposal.key
    has_one ctx.vote.info.voter ctx.voter
    assert_keys_eq proposal.voting_reward.reward_vault ctx.reward_vault
    quorum ← meets_quorum proposal
    invariant quorum (vipers invariant_failed)
    current ← state proposal now
    invariant (is_state current defeated || is_state current queued || is_state current succeeded)
        (vipers invariant_failed)
    invariant (not ctx.vote.info.claimed) (vipers invariant_failed)
    invariant ((tp.account ledger ctx.voter_token_account).owner == ctx.voter)
        (vipers invariant_failed)

  -- The payment of `claim_reward`, which a reward of nothing skips.
  abbrev pub pay_reward : tp.Ledger → ClaimReward → ℕ → Result (tp.Ledger × Proposal)
  pay_reward ledger ctx voting_reward =
      if voting_reward == 0 then ok (ledger, ctx.proposal.info) else do
        ledger' ←
            transfer_tokens tp ledger ctx.reward_vault ctx.voter_token_account ctx.governor.key
              voting_reward
        total_claimed_reward ←
            unwrap_opt (checked_add ctx.proposal.info.total_claimed_reward voting_reward)
              (vipers option_unwrap_failed)
        ok (ledger', record (ctx.proposal.info) { total_claimed_reward = total_claimed_reward })

  -- `claim_reward`.
  unfoldable pub claim_reward : ℤ → tp.Ledger → ClaimReward → Result (tp.Ledger × Proposal × Vote)
  claim_reward now ledger ctx = do
    validate_claim_reward now ledger ctx
    let vote = record (ctx.vote.info) { claimed = true }
    answer ← get_voting_reward ctx.proposal.info vote
    voting_reward ← unwrap_opt answer (vipers option_unwrap_failed)
    (ledger', proposal) ← pay_reward ledger ctx voting_reward
    ok (ledger', proposal, vote)
