-- ===== src/Govern/Drafts.antt =====
-- programs/govern/src/instructions: create_proposal.rs, cancel_proposal.rs, activate_proposal.rs and
-- the two kinds of proposal description, the life of a proposal up to the vote.
use wagmi.Prelude.{
  ℕ, ◌+◌, List, ℤ, pos, ◌==◌, ◌&&◌, leb, ltb, if◌then◌else◌, length, replicate, u64_mod,
  checked_add, checked_add_i64, to_i64, as_u64,
}
use wagmi.Prelude.Maybe.{◌>>=◌ as and_then}
use wagmi.Chain.{
  Pubkey, default_pubkey, Account, Result, ok, err, ◌>>=◌, ◌>>◌, govern, invalid_max_option,
  proposal_not_draft, voting_delay_not_met, not_option_proposal, invalid_option_descriptions, panic,
  invariant, assert_keys_eq, has_one, unwrap_int,
}
use wagmi.Chain.Address.{Seeds, FindProgramAddress, seeds_match}
use wagmi.SmartWallet.{SmartWallet, owner_index}
use wagmi.Govern.State.{
  Governor, Proposal, ProposalInstruction, ProposalMeta, OptionProposalMeta, ProposalType, yes_no,
  option, proposal_type_of, proposal_type_code, max_option_count,
}
use wagmi.Govern.Proposals.{state, is_state, draft}

-- The accounts of `create_proposal`; `proposal` is the address to be initialised.
pub record CreateProposal : Type 0 where
  pub governor : Account Governor
  pub proposal : Pubkey
  pub smart_wallet : Account SmartWallet
  pub proposer : Pubkey

-- The number of options that a type of proposal allows.
abbrev pub check_max_option : ProposalType → ℕ → Result (Unit {0})
check_max_option yes_no max_option = invariant (max_option == 2) (govern invalid_max_option)
check_max_option option max_option =
    invariant (leb 2 max_option && leb max_option max_option_count) (govern invalid_max_option)

-- `governor.proposal_count += 1`: overflow panics.
abbrev pub add_one : ℕ → Result ℕ
add_one n = if ltb (n + 1) u64_mod then ok (n + 1) else err panic

-- `create_proposal`, with `CreateProposal::validate` first. The space of the account is computed with
-- `max_option + 1` on a u8, where overflow panics.
unfoldable pub create_proposal :
    FindProgramAddress
    → ℤ
    → CreateProposal
    → ℕ
    → ℕ
    → List ProposalInstruction
    → Result (Governor × Proposal)
create_proposal pda now ctx proposal_type max_option instructions = do
  let governor = ctx.governor.info
  let seeds = Seeds.proposal ctx.governor.key governor.proposal_count
  has_one governor.smart_wallet ctx.smart_wallet.key
  seeds_match pda seeds ctx.proposal
  invariant (ltb max_option 255) panic
  owner ← owner_index ctx.smart_wallet.info ctx.proposer
  kind ← proposal_type_of proposal_type
  check_max_option kind max_option
  proposal_count ← add_one governor.proposal_count
  ok (
    record governor { proposal_count = proposal_count },
    record {
      governor = ctx.governor.key;
      index = governor.proposal_count;
      bump = (pda seeds).1;
      proposer = ctx.proposer;
      quorum_votes = governor.params.quorum_votes;
      max_option = max_option;
      option_votes = replicate (max_option + 1) 0;
      canceled_at = pos 0;
      created_at = now;
      activated_at = pos 0;
      voting_ends_at = pos 0;
      queued_at = pos 0;
      queued_transaction = default_pubkey;
      voting_reward = governor.voting_reward;
      total_claimed_reward = 0;
      proposal_type = proposal_type;
      instructions = instructions;
    },
  )

-- The accounts of `cancel_proposal` and, with the locker as the signer, of `activate_proposal`.
pub record ProposalAuth : Type 0 where
  pub governor : Account Governor
  pub proposal : Account Proposal
  pub signer : Pubkey

-- The test of a state that guards the instructions.
abbrev pub require_draft : Proposal → ℤ → Result (Unit {0})
require_draft proposal now = do
  current ← state proposal now
  invariant (is_state current draft) (govern proposal_not_draft)

-- `cancel_proposal`; the proposer signs.
unfoldable pub cancel_proposal : ℤ → ProposalAuth → Result Proposal
cancel_proposal now ctx = do
  let proposal = ctx.proposal.info
  assert_keys_eq ctx.signer proposal.proposer
  assert_keys_eq ctx.governor.key proposal.governor
  require_draft proposal now
  ok (record proposal { canceled_at = now })

-- `activate_proposal`; the governor's locker signs.
unfoldable pub activate_proposal : ℤ → ProposalAuth → Result Proposal
activate_proposal now ctx = do
  let proposal = ctx.proposal.info
  let params = ctx.governor.info.params
  assert_keys_eq ctx.governor.key proposal.governor
  assert_keys_eq ctx.signer ctx.governor.info.locker
  require_draft proposal now
  earliest_activation_time ←
      unwrap_int (checked_add params.voting_delay (as_u64 proposal.created_at))
  invariant (leb earliest_activation_time (as_u64 now)) (govern voting_delay_not_met)
  voting_ends_at ← unwrap_int (and_then (to_i64 params.voting_period) (checked_add_i64 now))
  ok (record proposal { activated_at = now; voting_ends_at = voting_ends_at })

-- `create_proposal_meta`; the proposer signs.
unfoldable pub create_proposal_meta :
    FindProgramAddress → Account Proposal → Pubkey → Pubkey → List ℕ → List ℕ → Result ProposalMeta
create_proposal_meta pda proposal proposer proposal_meta title description_link = do
  seeds_match pda (Seeds.proposal_meta proposal.key) proposal_meta
  assert_keys_eq proposer proposal.info.proposer
  ok (record { proposal = proposal.key; title = title; description_link = description_link })

-- `create_option_proposal_meta`; the proposer signs.
unfoldable pub create_option_proposal_meta :
    FindProgramAddress
    → Account Proposal
    → Pubkey
    → Pubkey
    → List (List ℕ)
    → Result OptionProposalMeta
create_option_proposal_meta pda proposal proposer option_proposal_meta option_descriptions = do
  seeds_match pda (Seeds.option_proposal_meta proposal.key) option_proposal_meta
  assert_keys_eq proposer proposal.info.proposer
  invariant (proposal.info.proposal_type == proposal_type_code option) (govern not_option_proposal)
  invariant (length option_descriptions == proposal.info.max_option)
      (govern invalid_option_descriptions)
  ok (record { proposal = proposal.key; option_descriptions = option_descriptions })
