-- ===== src/Govern/State.antt =====
-- programs/govern/src/state.rs: the accounts. The unused `buffers` fields are left out.
use wagmi.Prelude.{ℕ, Bool, List, ℤ, ◌==◌, if◌then◌else◌}
use wagmi.Chain.{Pubkey, Result, ok, err, govern, invalid_proposal_type}

pub record VotingReward : Type 0 where
  pub reward_mint : Pubkey
  pub reward_vault : Pubkey
  pub reward_per_proposal : ℕ  -- u64

pub record GovernanceParameters : Type 0 where
  pub voting_delay : ℕ  -- u64
  pub voting_period : ℕ  -- u64
  pub quorum_votes : ℕ  -- u64
  pub timelock_delay_seconds : ℤ  -- i64

pub record Governor : Type 0 where
  pub base : Pubkey
  pub bump : ℕ  -- u8
  pub proposal_count : ℕ  -- u64
  pub locker : Pubkey
  pub smart_wallet : Pubkey
  pub params : GovernanceParameters
  pub voting_reward : VotingReward

pub data ProposalType : Type 0 where
  yes_no option : ProposalType

-- `From<ProposalType> for u8`.
abbrev pub proposal_type_code : ProposalType → ℕ
proposal_type_code yes_no = 0
proposal_type_code option = 1

-- `TryFrom<u8> for ProposalType`.
abbrev pub proposal_type_of : ℕ → Result ProposalType
proposal_type_of value =
    if value == 0
    then ok yes_no
    else if value == 1
    then ok option
    else err (govern invalid_proposal_type)

pub record ProposalAccountMeta : Type 0 where
  pub pubkey : Pubkey
  pub is_signer : Bool
  pub is_writable : Bool

pub record ProposalInstruction : Type 0 where
  pub program_id : Pubkey
  pub keys : List ProposalAccountMeta
  pub payload : List ℕ  -- `data`, bytes

pub record Proposal : Type 0 where
  pub governor : Pubkey
  pub index : ℕ  -- u64
  pub bump : ℕ  -- u8
  pub proposer : Pubkey
  pub quorum_votes : ℕ  -- u64
  pub max_option : ℕ  -- u8
  pub option_votes : List ℕ  -- u64 each
  pub canceled_at : ℤ  -- i64
  pub created_at : ℤ  -- i64
  pub activated_at : ℤ  -- i64
  pub voting_ends_at : ℤ  -- i64
  pub queued_at : ℤ  -- i64
  pub queued_transaction : Pubkey
  pub voting_reward : VotingReward
  pub total_claimed_reward : ℕ  -- u64
  pub proposal_type : ℕ  -- u8
  pub instructions : List ProposalInstruction

pub record ProposalMeta : Type 0 where
  pub proposal : Pubkey
  pub title : List ℕ
  pub description_link : List ℕ

pub record OptionProposalMeta : Type 0 where
  pub proposal : Pubkey
  pub option_descriptions : List (List ℕ)

pub record Vote : Type 0 where
  pub proposal : Pubkey
  pub voter : Pubkey
  pub bump : ℕ  -- u8
  pub side : ℕ  -- u8
  pub voting_power : ℕ  -- u64
  pub claimed : Bool

-- constants.rs
abbrev pub max_option_count : ℕ
max_option_count = 10

abbrev pub abstain_vote_index : ℕ
abstain_vote_index = 0

abbrev pub against_vote_index : ℕ
against_vote_index = 1

abbrev pub for_vote_index : ℕ
for_vote_index = 2
