-- ===== src/Govern/Payout.antt =====
-- The tally and the payments of a proposal of programs/govern over a sequence of instructions.
use wagmi.Prelude.{
  ℕ, ◌+◌, ◌≤◌, ◌≡◌, ◌⊎◌, inl, inr, refl, sym, ap, ◌∙◌, false, some, none, arith, find, put, total,
  total-put, total-put_new, sum,
}
use wagmi.Chain.{Pubkey, Account, ok, TokenProgram}
use wagmi.Chain.Address.{FindProgramAddress}
use wagmi.Govern.State.{Proposal, Vote}
use wagmi.Govern.Proposals.{state, draft, active}
use wagmi.Govern.Tally.{SetVoteEffect, set_vote-effect}
use wagmi.Govern.Rewards.{
  voting_power_of, claimed_share, claim_count, total-claimed_share-le, total-reward_share-le,
  total-claimed_share_none,
}
use wagmi.Govern.Ballot.{Ballot, IsTallied, IsOver, Step, Steps, weight_of, loss, gain}
use wagmi.Govern.Claims.{
  active-open, draft-unopened, decided-IsOver, set_vote-active, claim-IsDecided, claimed_vote,
  share_of, paid_proposal, claim-effect, cancel-shape, SameTally, activate-SameTally,
  queue-SameTally, new_vote-empty,
}

-- Putting a new proposal with the same tally.
IsTallied-same :
    (b : Ballot) (p : Proposal)
    → IsTallied b
    → SameTally b.proposal p
    → (total claim_count b.votes ≡ 0) ⊎ IsOver b.now p
    → IsTallied (record b { proposal = p })
IsTallied-same b p t (o, c, r) u = record {
  tally = λ option. rw o (t.tally option);
  summed = rw o t.summed;
  paid = rw (c, r, o) t.paid;
  left = rw c t.left;
  arrived = rw c t.arrived;
  unpaid = u;
}

-- A draft has no reward paid, whatever the clock says of it.
draft-unpaid :
    (b : Ballot) → IsTallied b → state b.proposal b.now ≡ ok draft → total claim_count b.votes ≡ 0
draft-unpaid b t s = ground (arith, t.unpaid, draft-unopened b.proposal b.now s)

vote_created-IsTallied :
    (b : Ballot) (k : Pubkey) (v : Vote)
    → find k b.votes ≡ none
    → v.voting_power ≡ 0
    → v.claimed ≡ false
    → IsTallied b
    → IsTallied (record b { votes = put k v b.votes })
vote_created-IsTallied b k v fresh z c t = record {
  tally =
      λ option. ground (arith, t.tally option, total-put_new (weight_of option) k v b.votes fresh);
  summed = ground (arith, t.summed, total-put_new voting_power_of k v b.votes fresh);
  paid = ground (
    arith,
    t.paid,
    total-put_new
        (claimed_share b.proposal.voting_reward.reward_per_proposal (sum b.proposal.option_votes)) k
        v b.votes fresh,
  );
  unpaid = ground (arith, t.unpaid, total-put_new claim_count k v b.votes fresh);
  left = t.left;
  arrived = t.arrived;
}

vote_set-IsTallied :
    (b : Ballot) (k : Pubkey) (p : Proposal) (v v' : Vote) (side power : ℕ)
    → find k b.votes ≡ some v
    → state b.proposal b.now ≡ ok active
    → SetVoteEffect b.proposal p v v' side power
    → IsTallied b
    → IsTallied (record b { proposal = p; votes = put k v' b.votes })
vote_set-IsTallied b k p v v' side power found open_now eff t =
    let claims : total claim_count b.votes ≡ 0 =
      ground (arith, t.unpaid, active-open b.proposal b.now open_now) in
    let claims' : total claim_count (put k v' b.votes) ≡ 0 =
      ground (arith, claims, total-put claim_count k v' {old = v} b.votes found, eff.vote) in
    let reward = b.proposal.voting_reward.reward_per_proposal in
    record {
      tally = λ option. ground (
        arith,
        t.tally option,
        eff.tally option,
        eff.vote,
        total-put (weight_of option) k v' {old = v} b.votes found,
      );
      summed = ground (
        arith,
        t.summed,
        eff.summed,
        eff.vote,
        total-put voting_power_of k v' {old = v} b.votes found,
      );
      paid =
          ap (λ (q : Proposal). q.total_claimed_reward) eff.rest
          ∙ t.paid
          ∙ total-claimed_share_none reward (sum b.proposal.option_votes) b.votes claims
          ∙ sym (
              total-claimed_share_none p.voting_reward.reward_per_proposal (sum p.option_votes) _
                claims');
      unpaid = inl claims';
      left = ground (arith, t.left, eff.rest);
      arrived = ground (arith, t.arrived, eff.rest);
    }

claimed-IsTallied :
    (b : Ballot) (k : Pubkey) (v : Vote)
    → find k b.votes ≡ some v
    → v.claimed ≡ false
    → IsOver b.now b.proposal
    → IsTallied b
    → IsTallied (record b {
      proposal = paid_proposal b.proposal v;
      votes = put k (claimed_vote v) b.votes;
      spent = b.spent + share_of b.proposal v;
      received = b.received + share_of b.proposal v;
    })
claimed-IsTallied b k v found new over t =
    let v' = claimed_vote v in
    let share =
      claimed_share b.proposal.voting_reward.reward_per_proposal (sum b.proposal.option_votes) in
    record {
      tally = λ option.
          ground (arith, t.tally option, total-put (weight_of option) k v' {old = v} b.votes found);
      summed = ground (arith, t.summed, total-put voting_power_of k v' {old = v} b.votes found);
      paid = ground (arith, t.paid, new, total-put share k v' {old = v} b.votes found);
      unpaid = inr over;
      left = omega (arith, t.left);
      arrived = omega (arith, t.arrived);
    }

module _ (tp : TokenProgram) (pda : FindProgramAddress) (pk : Pubkey) where
  Step-IsTallied : {b c : Ballot} → Step tp pda pk b c → IsTallied b → IsTallied c
  Step-IsTallied {b} (Step.tick later le) t = record {
    tally = t.tally;
    summed = t.summed;
    paid = t.paid;
    unpaid = ground (arith, t.unpaid, le);
    left = t.left;
    arrived = t.arrived;
  }
  Step-IsTallied {b} (Step.vote_created k voter v fresh h) t =
      let (z, c) = new_vote-empty pda pk k voter h in vote_created-IsTallied b k v fresh z c t
  Step-IsTallied {b} (Step.vote_set k ctx side power {p} {v} at found h) t =
      let same : ctx.proposal.info ≡ b.proposal = ap (λ (a : Account Proposal). a.info) at in
      vote_set-IsTallied b k p ctx.vote.info v side power found
        (rw (← same) (set_vote-active b.now ctx side power h))
        (rw (← same) (set_vote-effect b.now ctx side power h)) t
  Step-IsTallied {b} (Step.claimed k l ctx {l'} {p} {v} at found apart h) t =
      let same : ctx.proposal.info ≡ b.proposal = ap (λ (a : Account Proposal). a.info) at in
      let (new, paid, marked, moves) = claim-effect tp b.now l ctx h in
      let (lost, gained) = moves apart in
      let (s, decided, d) = claim-IsDecided tp b.now l ctx h in
      let spent : loss tp l l' ctx.reward_vault ≡ share_of b.proposal ctx.vote.info =
        rw (← same) (omega (arith, lost)) in
      let received : gain tp l l' ctx.voter_token_account ≡ share_of b.proposal ctx.vote.info =
        rw (← same) (omega (arith, gained)) in
      rw (paid, marked, same, spent, received)
        (claimed-IsTallied b k ctx.vote.info found new
          (decided-IsOver b.proposal b.now {s = s} (rw (← same) decided) d) t)
  Step-IsTallied {b} (Step.canceled ctx {p} at h) t =
      let same : ctx.proposal.info ≡ b.proposal = ap (λ (a : Account Proposal). a.info) at in
      let (s, e) = cancel-shape b.now ctx h in
      IsTallied-same b p t (rw (e, same) (refl, refl, refl))
        (inl (draft-unpaid b t (rw (← same) s)))
  Step-IsTallied {b} (Step.activated ctx {p} at h) t =
      let same : ctx.proposal.info ≡ b.proposal = ap (λ (a : Account Proposal). a.info) at in
      let (s, kept) = activate-SameTally b.now ctx h in
      IsTallied-same b p t (rw (← same) kept) (inl (draft-unpaid b t (rw (← same) s)))
  Step-IsTallied {b} (Step.passed_on ctx {p = p} at h) t =
      let same : ctx.proposal.info ≡ b.proposal = ap (λ (a : Account Proposal). a.info) at in
      let (a, ends, kept) = queue-SameTally pda b.now ctx h in
      IsTallied-same b p t (rw (← same) kept) (ground (arith, t.unpaid, a, ends, same))

  -- Whatever is done with a proposal, in any order and at times that do not decrease, the following
  -- goes on to hold where it held at the start: each option counts exactly the power of the votes
  -- on it, the counts sum up to the power of all votes, the rewards counted as paid are the rounded
  -- shares, at the present tally, of the votes that claimed, as many tokens have left the reward
  -- vaults in the claims and have reached the token accounts of the voters, and if any vote has
  -- claimed then the proposal was activated and its vote is over. The claims are those to a token
  -- account other than the vault.
  pub Steps-IsTallied : {b c : Ballot} → Steps tp pda pk b c → IsTallied b → IsTallied c
  Steps-IsTallied Steps.start t = t
  Steps-IsTallied (Steps.next r s) t = Step-IsTallied s (Steps-IsTallied r t)

  -- From a state in which the tally and the payments of a proposal are those of its votes, whatever
  -- is done with it in any order and at times that do not decrease, where rewards are claimed to
  -- token accounts other than the vault: the tokens that have left the reward vaults for its
  -- claims, those that the voters have received and those that it counts as paid never exceed its
  -- reward.
  pub Steps-paid-le :
      {b c : Ballot}
      → IsTallied b
      → Steps tp pda pk b c
      → let reward = c.proposal.voting_reward.reward_per_proposal in
        (c.spent ≤ reward) × (c.received ≤ reward) × (c.proposal.total_claimed_reward ≤ reward)
  Steps-paid-le {c = c} start_tally r =
      let t = Steps-IsTallied r start_tally in
      let reward = c.proposal.voting_reward.reward_per_proposal in
      let all = sum c.proposal.option_votes in
      let within : c.proposal.total_claimed_reward ≤ reward = omega (
        arith,
        t.paid,
        total-claimed_share-le reward all c.votes,
        total-reward_share-le reward all c.votes (omega (arith, t.summed)),
      ) in
      (omega (arith, t.left), omega (arith, t.arrived), within)
