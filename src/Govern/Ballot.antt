-- ===== src/Govern/Ballot.antt =====
-- The votes on one proposal of programs/govern, over any sequence of the instructions on it.
use wagmi.Prelude.{
  ℕ, ◌≡◌, ◌≢◌, ◌⊎◌, some, none, ℤ, pos, ◌≤ℤ◌, ◌+◌, ◌-◌, Store, find, put, total, sum,
}
use wagmi.Chain.{Pubkey, ok, TokenProgram}
use wagmi.Chain.Address.{FindProgramAddress}
use wagmi.SmartWallet.{SmartWallet, Transaction}
use wagmi.Govern.State.{Proposal, Vote}
use wagmi.Govern.Drafts.{ProposalAuth, cancel_proposal, activate_proposal}
use wagmi.Govern.Voting.{new_vote, SetVote, set_vote, ClaimReward, claim_reward}
use wagmi.Govern.Queue.{QueueProposal, queue_proposal}
use wagmi.Govern.Tally.{weight, votes_on}
use wagmi.Govern.Rewards.{voting_power_of, claimed_share, claim_count}

-- The votes of a store that are on an option.
abbrev pub weight_of : ℕ → Vote → ℕ
weight_of option v = weight v.side v.voting_power option

-- The proposal and the votes that belong to it, at a time of the clock, with the tokens that left the
-- reward vaults and those that the voters received, in all claims so far.
pub record Ballot : Type 0 where
  pub now : ℤ
  pub proposal : Proposal
  pub votes : Store Vote
  pub spent : ℕ
  pub received : ℕ

-- The vote is over, after an activation.
abbrev pub IsOver : ℤ → Proposal → Type 0
IsOver now p = (p.activated_at ≢ pos 0) × (p.voting_ends_at ≤ℤ now)

-- The tally is that of the votes, nothing is paid before the vote is over, what is counted as paid is
-- the sum of the rounded shares of the votes that claimed, and as many tokens left the vaults and
-- reached the voters.
pub record IsTallied (b : Ballot) : Type 0 where
  pub tally : (option : ℕ) → votes_on b.proposal option ≡ total (weight_of option) b.votes
  pub summed : sum b.proposal.option_votes ≡ total voting_power_of b.votes
  pub paid :
      b.proposal.total_claimed_reward
      ≡ total
          (claimed_share b.proposal.voting_reward.reward_per_proposal (sum b.proposal.option_votes))
          b.votes
  pub left : b.spent ≡ b.proposal.total_claimed_reward
  pub arrived : b.received ≡ b.proposal.total_claimed_reward
  pub unpaid : (total claim_count b.votes ≡ 0) ⊎ IsOver b.now b.proposal

module _ (tp : TokenProgram) where
  -- What an account has lost and what it has gained from one ledger to another.
  abbrev pub loss : tp.Ledger → tp.Ledger → Pubkey → ℕ
  loss l l' k = (tp.account l k).amount - (tp.account l' k).amount

  abbrev pub gain : tp.Ledger → tp.Ledger → Pubkey → ℕ
  gain l l' k = (tp.account l' k).amount - (tp.account l k).amount

module _ (tp : TokenProgram) (pda : FindProgramAddress) (pk : Pubkey) where
  -- One instruction on the proposal at `pk`, or the passing of time. A reward is claimed to a token
  -- account that is not the vault itself, and the ledger may have changed since the last claim.
  pub data Step : Ballot → Ballot → Type 0 where
    tick : {b : Ballot} (later : ℤ) → b.now ≤ℤ later → Step b (record b { now = later })
    vote_created :
        {b : Ballot} (k voter : Pubkey) (v : Vote)
        → find k b.votes ≡ none
        → new_vote pda pk k voter ≡ ok v
        → Step b (record b { votes = put k v b.votes })
    vote_set :
        {b : Ballot} (k : Pubkey) (ctx : SetVote) (side power : ℕ) {p : Proposal} {v : Vote}
        → ctx.proposal ≡ record { key = pk; info = b.proposal }
        → find k b.votes ≡ some ctx.vote.info
        → set_vote b.now ctx side power ≡ ok (p, v)
        → Step b (record b { proposal = p; votes = put k v b.votes })
    claimed :
        {b : Ballot} (k : Pubkey) (l : tp.Ledger) (ctx : ClaimReward) {l' : tp.Ledger}
        {p : Proposal} {v : Vote}
        → ctx.proposal ≡ record { key = pk; info = b.proposal }
        → find k b.votes ≡ some ctx.vote.info
        → ctx.reward_vault ≢ ctx.voter_token_account
        → claim_reward tp b.now l ctx ≡ ok (l', p, v)
        → Step b (record b {
          proposal = p;
          votes = put k v b.votes;
          spent = b.spent + loss tp l l' ctx.reward_vault;
          received = b.received + gain tp l l' ctx.voter_token_account;
        })
    canceled :
        {b : Ballot} (ctx : ProposalAuth) {p : Proposal}
        → ctx.proposal ≡ record { key = pk; info = b.proposal }
        → cancel_proposal b.now ctx ≡ ok p
        → Step b (record b { proposal = p })
    activated :
        {b : Ballot} (ctx : ProposalAuth) {p : Proposal}
        → ctx.proposal ≡ record { key = pk; info = b.proposal }
        → activate_proposal b.now ctx ≡ ok p
        → Step b (record b { proposal = p })
    passed_on :
        {b : Ballot} (ctx : QueueProposal) {w : SmartWallet} {tx : Transaction} {p : Proposal}
        → ctx.proposal ≡ record { key = pk; info = b.proposal }
        → queue_proposal pda b.now ctx ≡ ok (w, tx, p)
        → Step b (record b { proposal = p })

  pub data Steps : Ballot → Ballot → Type 0 where
    start : {b : Ballot} → Steps b b
    next : {b c d : Ballot} → Steps b c → Step c d → Steps b d
