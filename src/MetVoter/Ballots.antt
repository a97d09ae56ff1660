-- ===== src/MetVoter/Ballots.antt =====
-- programs/met-voter/src/instructions: cast_vote.rs, activate_proposal.rs and
-- activate_proposal_initial_phase.rs, which call programs/govern with the locker as the signer.
use wagmi.Prelude.{ℕ, ℤ, ◌==◌, if◌then◌else◌, leb}
use wagmi.Chain.{
  Pubkey, Account, Result, ok, ◌>>=◌, ◌>>◌, vipers, invariant_failed, invariant, unwrap_int,
  assert_keys_eq,
}
use wagmi.Govern
use wagmi.Govern.{Governor, Proposal, Vote, state, is_state, active, set_vote}
use wagmi.MetVoter.State.{is_initial, is_launched, Locker, Escrow}
use wagmi.MetVoter.VoterPower.{get_current_phase, calculate_voter_power}

-- The accounts of `cast_vote`; the delegate signs.
pub record CastVote : Type 0 where
  pub locker : Account Locker
  pub escrow : Account Escrow
  pub vote_delegate : Pubkey
  pub proposal : Account Proposal
  pub vote : Account Vote
  pub governor : Account Governor

-- `CastVote::validate`.
abbrev pub validate_cast_vote : ℤ → CastVote → Result (Unit {0})
validate_cast_vote now ctx = do
  assert_keys_eq ctx.escrow.info.locker ctx.locker.key
  assert_keys_eq ctx.escrow.info.vote_delegate ctx.vote_delegate
  assert_keys_eq ctx.locker.info.governor ctx.governor.key
  assert_keys_eq ctx.proposal.info.governor ctx.governor.key
  assert_keys_eq ctx.vote.info.proposal ctx.proposal.key
  assert_keys_eq ctx.vote.info.voter ctx.escrow.info.owner
  current ← state ctx.proposal.info now
  invariant (is_state current active) (vipers invariant_failed)

-- `CastVote::future_voting_power`: the power at the end of the vote, in the phase of the clock.
abbrev pub future_voting_power : ℤ → CastVote → Result ℕ
future_voting_power now ctx =
    unwrap_int
      (calculate_voter_power now ctx.locker.info ctx.escrow.info ctx.proposal.info.voting_ends_at)

-- The call of `set_vote`.
abbrev pub record_vote : ℤ → CastVote → ℕ → ℕ → Result (Proposal × Vote)
record_vote now ctx side voting_power =
    set_vote now
      (record {
        governor = ctx.governor;
        proposal = ctx.proposal;
        vote = ctx.vote;
        locker = ctx.locker.key;
      })
      side voting_power

-- `cast_vote`: a power of nothing changes nothing.
unfoldable pub cast_vote : ℤ → CastVote → ℕ → Result (Proposal × Vote)
cast_vote now ctx side = do
  validate_cast_vote now ctx
  voting_power ← future_voting_power now ctx
  if voting_power == 0
      then ok (ctx.proposal.info, ctx.vote.info)
      else record_vote now ctx side voting_power

-- The accounts of `activate_proposal`; the owner of the escrow signs.
pub record ActivateProposal : Type 0 where
  pub locker : Account Locker
  pub governor : Account Governor
  pub proposal : Account Proposal
  pub escrow : Account Escrow
  pub escrow_owner : Pubkey

-- The call of govern's `activate_proposal`.
abbrev pub open_vote : ℤ → Account Locker → Account Governor → Account Proposal → Result Proposal
open_vote now locker governor proposal =
    Govern.activate_proposal now
      (record { governor = governor; proposal = proposal; signer = locker.key })

-- `activate_proposal`, in the token launch phase.
unfoldable pub activate_proposal : ℤ → ActivateProposal → Result Proposal
activate_proposal now ctx = do
  assert_keys_eq ctx.locker.key ctx.governor.info.locker
  assert_keys_eq ctx.governor.key ctx.locker.info.governor
  assert_keys_eq ctx.proposal.info.governor ctx.governor.key
  assert_keys_eq ctx.escrow.info.locker ctx.locker.key
  assert_keys_eq ctx.escrow.info.owner ctx.escrow_owner
  power ← unwrap_int (calculate_voter_power now ctx.locker.info ctx.escrow.info now)
  invariant (leb ctx.locker.info.params.proposal_activation_min_votes power)
      (vipers invariant_failed)
  invariant (is_launched (get_current_phase ctx.locker.info now)) (vipers invariant_failed)
  open_vote now ctx.locker ctx.governor ctx.proposal

-- The accounts of `activate_proposal_initial_phase`; the smart wallet of the governor signs.
pub record ActivateProposalInitialPhase : Type 0 where
  pub locker : Account Locker
  pub governor : Account Governor
  pub proposal : Account Proposal
  pub smart_wallet : Pubkey

-- `activate_proposal_initial_phase`.
unfoldable pub activate_proposal_initial_phase : ℤ → ActivateProposalInitialPhase → Result Proposal
activate_proposal_initial_phase now ctx = do
  assert_keys_eq ctx.locker.key ctx.governor.info.locker
  assert_keys_eq ctx.governor.key ctx.locker.info.governor
  assert_keys_eq ctx.proposal.info.governor ctx.governor.key
  assert_keys_eq ctx.smart_wallet ctx.governor.info.smart_wallet
  invariant (is_initial (get_current_phase ctx.locker.info now)) (vipers invariant_failed)
  open_vote now ctx.locker ctx.governor ctx.proposal
