-- ===== src/MetVoter/Casting.antt =====
-- Votes with escrows of programs/met-voter after the launch of the token, against votes with escrows
-- of programs/locked-voter.
use wagmi.Prelude.{ℕ, ◌≡◌, refl, arith, ℤ, ◌≤ℤ◌}
use wagmi.LockedVoter as Locked
use wagmi.LockedVoter.Ballots as LockedBallots
use wagmi.MetVoter.State.{Locker, Escrow}
use wagmi.MetVoter.VoterPower.{calculate_voter_power}
use wagmi.MetVoter.Ballots.{CastVote, cast_vote}
use wagmi.MetVoter.Embedding.{embed_locker, embed_escrow, at_key}

abbrev pub embed_cast : CastVote → LockedBallots.CastVote
embed_cast ctx = record {
  locker = at_key embed_locker ctx.locker;
  escrow = at_key embed_escrow ctx.escrow;
  vote_delegate = ctx.vote_delegate;
  proposal = ctx.proposal;
  vote = ctx.vote;
  governor = ctx.governor;
}

calculate_voter_power-launched :
    (now : ℤ) (k : Locker) (e : Escrow) (t : ℤ)
    → k.expiration ≤ℤ now
    → calculate_voter_power now k e t
      ≡ Locked.calculate_voter_power (embed_locker k) (embed_escrow e) t
unfolding calculate_voter_power Locked.calculate_voter_power
calculate_voter_power-launched now k e t past = ground arith

-- Once a locker of programs/met-voter has reached its expiration, `cast_vote` with an escrow of it
-- does what `cast_vote` of programs/locked-voter does on the same accounts (seen without the
-- expiration, and with no partial unstaking): it fails with the same error, or writes the same
-- proposal and the same vote.
pub cast_vote-launched :
    (now : ℤ) (ctx : CastVote) (side : ℕ)
    → ctx.locker.info.expiration ≤ℤ now
    → cast_vote now ctx side ≡ LockedBallots.cast_vote now (embed_cast ctx) side
unfolding cast_vote LockedBallots.cast_vote
cast_vote-launched now ctx side past =
    rw
      (calculate_voter_power-launched now ctx.locker.info ctx.escrow.info
        ctx.proposal.info.voting_ends_at past)
      refl
