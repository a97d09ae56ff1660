-- ===== src/LockedVoter/Casting.antt =====
-- The votes that escrows of programs/locked-voter cast on proposals of programs/govern.
use wagmi.Prelude.{ℕ, ◌≡◌, ◌⊎◌, inl, inr, arith, ℤ, some, Option-cases}
use wagmi.Chain.{ok}
use wagmi.Govern.{Proposal, Vote, state, active}
use wagmi.Govern.Tally.{SetVoteEffect, set_vote-effect}
use wagmi.LockedVoter.VoterPower.{calculate_voter_power}
use wagmi.LockedVoter.Ballots.{CastVote, cast_vote, record_vote}
use wagmi.LockedVoter.Power.{power_curve, calculate_voter_power-curve}

cast_vote-shape :
    (now : ℤ) (ctx : CastVote) (side : ℕ) {p : Proposal} {v : Vote}
    → cast_vote now ctx side ≡ ok (p, v)
    → (power : ℕ) × (state ctx.proposal.info now ≡ ok active)
      × (ctx.vote_delegate ≡ ctx.escrow.info.vote_delegate)
      × (ctx.vote.info.voter ≡ ctx.escrow.info.owner)
      × (calculate_voter_power ctx.locker.info ctx.escrow.info ctx.proposal.info.voting_ends_at
          ≡ some power)
      × (((power ≡ 0) × (p ≡ ctx.proposal.info) × (v ≡ ctx.vote.info))
          ⊎ (record_vote now ctx side power ≡ ok (p, v)))
unfolding cast_vote
cast_vote-shape now ctx side h =
    elim (Option-cases
      (calculate_voter_power ctx.locker.info ctx.escrow.info ctx.proposal.info.voting_ends_at)) [
        | inl e ↦ ground arith
        | inr (n, e) ↦ (n, ground arith, ground arith, ground arith, e, ground arith)
      ]

-- A successful `cast_vote` is on an active proposal, by the delegate of the escrow, on a vote of
-- its owner. With the power of the escrow on the curve at the end of the vote, either it is
-- nothing and nothing changes, or the vote is set to that power on that side and the tally of the
-- proposal exchanges the old weight of the vote for the new one.
pub cast_vote-power :
    (now : ℤ) (ctx : CastVote) (side : ℕ) {p : Proposal} {v : Vote}
    → cast_vote now ctx side ≡ ok (p, v)
    → (state ctx.proposal.info now ≡ ok active)
      × (ctx.vote_delegate ≡ ctx.escrow.info.vote_delegate)
      × (ctx.vote.info.voter ≡ ctx.escrow.info.owner)
      × (let power = power_curve ctx.locker.info ctx.escrow.info ctx.proposal.info.voting_ends_at in
          ((power ≡ 0) × (p ≡ ctx.proposal.info) × (v ≡ ctx.vote.info))
          ⊎ SetVoteEffect ctx.proposal.info p ctx.vote.info v side power)
cast_vote-power now ctx side h =
    let (power, voting, signed, own, e, done) = cast_vote-shape now ctx side h in
    let on_curve =
      calculate_voter_power-curve ctx.locker.info ctx.escrow.info ctx.proposal.info.voting_ends_at
        e in
    (
      voting,
      signed,
      own,
      rw (← on_curve) (elim done [
        | inl nothing ↦ inl nothing
        | inr cast ↦ inr (set_vote-effect now _ side power cast)
      ]),
    )
