-- ===== src/LockedVoter/Ballots.antt =====
-- programs/locked-voter/src/instructions: cast_vote.rs and activate_proposal.rs, which call
-- programs/govern with the locker as the signer.
use wagmi.Prelude.{ℕ, ℤ, ◌==◌, if◌then◌else◌}
use wagmi.Chain.{
  Pubkey, Account, Result, ok, ◌>>=◌, ◌>>◌, vipers, invariant_failed, invariant, unwrap_int,
  assert_keys_eq,
}
use wagmi.Govern
use wagmi.Govern.{Governor, Proposal, Vote, state, is_state, active, set_vote}
use wagmi.LockedVoter.State.{Locker, Escrow}
use wagmi.LockedVoter.VoterPower.{calculate_voter_power}

-- The accounts of `cast_vote`; the delegate signs.
pub record CastVote : Type 0 where
  pub locker : Account Locker
  pub escrow : Account Escrow
  pub vote_delegate : Pubkey
  pub proposal : Account Proposal
  pub vote : Account Vote
  pub governor : Account Governor

-- `CastVote::validate`.
abbrev pub validate_cast_vote : ℤ → CastVote → Result (Unit {0})
validate_cast_vote now ctx = do
  assert_keys_eq ctx.escrow.info.locker ctx.locker.key
  assert_keys_eq ctx.escrow.info.vote_delegate ctx.vote_delegate
  assert_keys_eq ctx.locker.info.governor ctx.governor.key
  assert_keys_eq ctx.proposal.info.governor ctx.governor.key
  assert_keys_eq ctx.vote.info.proposal ctx.proposal.key
  assert_keys_eq ctx.vote.info.voter ctx.escrow.info.owner
  current ← state ctx.proposal.info now
  invariant (is_state current active) (vipers invariant_failed)

-- `CastVote::future_voting_power`: the power at the end of the vote.
abbrev pub future_voting_power : CastVote → Result ℕ
future_voting_power ctx =
    unwrap_int
      (calculate_voter_power ctx.locker.info ctx.escrow.info ctx.proposal.info.voting_ends_at)

-- The call of `set_vote`.
abbrev pub record_vote : ℤ → CastVote → ℕ → ℕ → Result (Proposal × Vote)
record_vote now ctx side voting_power =
    set_vote now
      (record {
        governor = ctx.governor;
        proposal = ctx.proposal;
        vote = ctx.vote;
        locker = ctx.locker.key;
      })
      side voting_power

-- `cast_vote`: a power of nothing changes nothing.
unfoldable pub cast_vote : ℤ → CastVote → ℕ → Result (Proposal × Vote)
cast_vote now ctx side = do
  validate_cast_vote now ctx
  voting_power ← future_voting_power ctx
  if voting_power == 0
      then ok (ctx.proposal.info, ctx.vote.info)
      else record_vote now ctx side voting_power

-- The accounts of `activate_proposal`; the smart wallet of the governor signs.
pub record ActivateProposal : Type 0 where
  pub locker : Account Locker
  pub governor : Account Governor
  pub proposal : Account Proposal
  pub smart_wallet : Pubkey

-- `activate_proposal`.
unfoldable pub activate_proposal : ℤ → ActivateProposal → Result Proposal
activate_proposal now ctx = do
  assert_keys_eq ctx.locker.key ctx.governor.info.locker
  assert_keys_eq ctx.governor.key ctx.locker.info.governor
  assert_keys_eq ctx.proposal.info.governor ctx.governor.key
  assert_keys_eq ctx.smart_wallet ctx.governor.info.smart_wallet
  Govern.activate_proposal now
      (record { governor = ctx.governor; proposal = ctx.proposal; signer = ctx.locker.key })
