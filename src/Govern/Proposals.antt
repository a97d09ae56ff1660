-- ===== src/Govern/Proposals.antt =====
-- programs/govern/src/proposal.rs, and the reward of a vote in state.rs.
use wagmi.Prelude.{
  ℕ, Bool, true, false, List, Option, some, ℤ, pos, map, ◌==◌, ◌==ℤ◌, ltb, leb, ltb_ℤ,
  if◌then◌else◌, get_elem?, set, sum, u64_mod, checked_add, checked_sub, checked_mul_u128,
  checked_div, narrow_u64, not,
}
use wagmi.Prelude.Maybe.{◌>>=◌ as and_then}
use wagmi.Chain.{Result, ok, err, ◌>>=◌, govern, panic, invalid_vote_side, unwrap_int, unwrap_opt}
use wagmi.SmartWallet.{TxInstruction, TxAccountMeta}
use wagmi.Govern.State.{
  Proposal, ProposalInstruction, ProposalAccountMeta, Vote, yes_no, proposal_type_code,
  for_vote_index, against_vote_index,
}

pub data ProposalState : Type 0 where
  draft active canceled defeated succeeded queued : ProposalState

pub ProposalState-discrete : Discrete ProposalState
ProposalState-discrete = hlevel

-- `==` on states.
abbrev pub is_state : ProposalState → ProposalState → Bool
is_state draft draft = true
is_state active active = true
is_state canceled canceled = true
is_state defeated defeated = true
is_state succeeded succeeded = true
is_state queued queued = true
is_state _ _ = false

-- `option_votes[i]`: an index out of range panics.
abbrev pub votes_at : List ℕ → ℕ → Result ℕ
votes_at votes i = unwrap_opt (get_elem? votes i) panic

-- `Proposal::subtract_vote_weight`.
unfoldable pub subtract_vote_weight : Proposal → ℕ → ℕ → Result Proposal
subtract_vote_weight proposal side voting_power =
    if voting_power == 0
    then ok proposal
    else if ltb proposal.max_option side
    then err (govern invalid_vote_side)
    else do
      current_vote ← votes_at proposal.option_votes side
      votes ← unwrap_int (checked_sub current_vote voting_power)
      ok (record proposal { option_votes = set proposal.option_votes side votes })

-- `Proposal::add_vote_weight`.
unfoldable pub add_vote_weight : Proposal → ℕ → ℕ → Result Proposal
add_vote_weight proposal side voting_power =
    if voting_power == 0
    then ok proposal
    else if ltb proposal.max_option side
    then err (govern invalid_vote_side)
    else do
      current_vote ← votes_at proposal.option_votes side
      votes ← unwrap_int (checked_add current_vote voting_power)
      ok (record proposal { option_votes = set proposal.option_votes side votes })

-- `Proposal::total_votes`: the release profile checks overflow, so a sum beyond 64 bits panics.
abbrev pub total_votes : Proposal → Result ℕ
total_votes proposal =
    if ltb (sum proposal.option_votes) u64_mod then ok (sum proposal.option_votes) else err panic

-- `Proposal::meets_quorum`.
abbrev pub meets_quorum : Proposal → Result Bool
meets_quorum proposal = do
  total_vote ← total_votes proposal
  ok (leb proposal.quorum_votes total_vote)

-- The end of `Proposal::state`.
abbrev pub outcome : Proposal → Result ProposalState
outcome proposal =
    if proposal.proposal_type == proposal_type_code yes_no
    then (do
      for_votes ← votes_at proposal.option_votes for_vote_index
      against_votes ← votes_at proposal.option_votes against_vote_index
      ok (if leb for_votes against_votes then defeated else succeeded))
    else ok succeeded

-- The part of `Proposal::state` that follows the quorum test.
abbrev pub after_voting : Proposal → Bool → Result ProposalState
after_voting proposal quorum =
    if not quorum
    then ok defeated
    else if ltb_ℤ (pos 0) proposal.queued_at
    then ok queued
    else outcome proposal

-- `Proposal::state`, whose option is never `None`.
unfoldable pub state : Proposal → ℤ → Result ProposalState
state proposal current_time =
    if ltb_ℤ (pos 0) proposal.canceled_at
    then ok canceled
    else if proposal.activated_at ==ℤ pos 0
    then ok draft
    else if ltb_ℤ current_time proposal.voting_ends_at
    then ok active
    else do quorum ← meets_quorum proposal; after_voting proposal quorum

abbrev share_of_reward : Proposal → Vote → ℕ → Option ℕ
share_of_reward proposal vote total_vote =
    and_then (checked_mul_u128 proposal.voting_reward.reward_per_proposal vote.voting_power)
      λ product. and_then (checked_div product total_vote) narrow_u64

-- `Proposal::get_voting_reward`, of programs/govern/src/state.rs.
unfoldable pub get_voting_reward : Proposal → Vote → Result (Option ℕ)
get_voting_reward proposal vote = do
  total_vote ← total_votes proposal
  ok (if total_vote == 0 then some 0 else share_of_reward proposal vote total_vote)

-- `Proposal::to_smart_wallet_instructions`.
abbrev pub to_account_meta : ProposalAccountMeta → TxAccountMeta
to_account_meta key = record {
  pubkey = key.pubkey;
  is_signer = key.is_signer;
  is_writable = key.is_writable;
}

abbrev pub to_smart_wallet_instructions : Proposal → List TxInstruction
to_smart_wallet_instructions proposal =
    map
      (λ (ix : ProposalInstruction). record {
        program_id = ix.program_id;
        keys = map to_account_meta ix.keys;
        payload = ix.payload;
      })
      proposal.instructions
