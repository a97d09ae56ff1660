-- ===== src/Govern/Lifecycle.antt =====
-- The states of a proposal (programs/govern/src/proposal.rs) under the instructions and over time.
use wagmi.Prelude.{
  ℕ, ◌+◌, ◌≤◌, ◌<◌, ◌≡◌, ◌≢◌, inl, inr, arith, ℤ, pos, ◌+ℤ◌, ◌≤ℤ◌, ◌<ℤ◌, sum, get_elem?, get_or,
  get_or-get_elem?, Option-cases, ap, as_u64,
}
use wagmi.Chain.{Pubkey, ok, TokenProgram}
use wagmi.Chain.Address.{FindProgramAddress}
use wagmi.SmartWallet.{SmartWallet, Transaction}
use wagmi.Govern.State.{Proposal, Vote}
use wagmi.Govern.Proposals.{state, draft, active, canceled, succeeded, queued}
use wagmi.Govern.Drafts.{ProposalAuth, cancel_proposal, activate_proposal}
use wagmi.Govern.Voting.{SetVote, set_vote, ClaimReward, claim_reward}
use wagmi.Govern.Queue.{QueueProposal, queue_proposal}

-- A proposal is decided in favour: it was activated and not cancelled, its vote is over, it has a
-- quorum, and a yes/no proposal has more votes for than against.
pub record IsPassed (p : Proposal) (now : ℤ) : Type 0 where
  pub kept : p.canceled_at ≤ℤ pos 0
  pub was_activated : p.activated_at ≢ pos 0
  pub over : p.voting_ends_at ≤ℤ now
  pub quorum : p.quorum_votes ≤ sum p.option_votes
  pub majority : p.proposal_type ≡ 0 → get_or p.option_votes 1 0 < get_or p.option_votes 2 0

-- A proposal in the succeeded state is passed (not cancelled, activated, its vote over, its quorum
-- met, and for a yes/no proposal more votes for than against), and not queued yet.
pub succeeded-IsPassed :
    (p : Proposal) (now : ℤ) → state p now ≡ ok succeeded → IsPassed p now × (p.queued_at ≤ℤ pos 0)
unfolding state
succeeded-IsPassed p now h = elim (Option-cases (get_elem? p.option_votes 2)) [
  | inl e ↦ ground arith
  | inr (f, e) ↦ elim (Option-cases (get_elem? p.option_votes 1)) [
    | inl e' ↦ ground arith
    | inr (a, e') ↦
        ground
          (arith, get_or-get_elem? p.option_votes 2 0 e, get_or-get_elem? p.option_votes 1 0 e')
  ]
]

queue_proposal-shape :
    (pda : FindProgramAddress) (now : ℤ) (ctx : QueueProposal) {w : SmartWallet} {tx : Transaction}
    {p' : Proposal}
    → queue_proposal pda now ctx ≡ ok (w, tx, p')
    → (state ctx.proposal.info now ≡ ok succeeded)
      × (p' ≡ record (ctx.proposal.info) { queued_at = now; queued_transaction = ctx.transaction })
unfolding queue_proposal
queue_proposal-shape pda now ctx h = ground arith

queued_later :
    (p : Proposal) (now later : ℤ) (x : Pubkey)
    → pos 0 <ℤ now
    → now ≤ℤ later
    → state p now ≡ ok succeeded
    → state (record p { queued_at = now; queued_transaction = x }) later ≡ ok queued
unfolding state
queued_later p now later x t le h = ground arith

-- At a positive time only a passed proposal can be queued, and afterwards it is in the queued
-- state at every later time.
pub queue_proposal-once :
    (pda : FindProgramAddress) (now : ℤ) (ctx : QueueProposal) {w : SmartWallet} {tx : Transaction}
    {p' : Proposal}
    → pos 0 <ℤ now
    → queue_proposal pda now ctx ≡ ok (w, tx, p')
    → IsPassed ctx.proposal.info now × ((later : ℤ) → now ≤ℤ later → state p' later ≡ ok queued)
queue_proposal-once pda now ctx t h =
    let (s, e) = queue_proposal-shape pda now ctx h in
    (
      (succeeded-IsPassed ctx.proposal.info now s).0,
      λ later le. rw e (queued_later ctx.proposal.info now later ctx.transaction t le s),
    )

-- At a positive time, what is successfully cancelled was a draft, by its proposer, and is
-- cancelled at every time.
pub cancel_proposal-final :
    (now later : ℤ) (ctx : ProposalAuth) {p' : Proposal}
    → pos 0 <ℤ now
    → cancel_proposal now ctx ≡ ok p'
    → (state ctx.proposal.info now ≡ ok draft)
      × (ctx.signer ≡ ctx.proposal.info.proposer)
      × (state p' later ≡ ok canceled)
unfolding cancel_proposal state
cancel_proposal-final now later ctx t h = ground arith

activate_proposal-shape :
    (now : ℤ) (ctx : ProposalAuth) {p' : Proposal}
    → activate_proposal now ctx ≡ ok p'
    → (state ctx.proposal.info now ≡ ok draft)
      × (ctx.signer ≡ ctx.governor.info.locker)
      × (p' ≡ record (ctx.proposal.info) {
        activated_at = now;
        voting_ends_at = now +ℤ pos ctx.governor.info.params.voting_period;
      })
      × (as_u64 ctx.proposal.info.created_at + ctx.governor.info.params.voting_delay ≤ as_u64 now)
unfolding activate_proposal
activate_proposal-shape now ctx h = ground arith

active_before :
    (p : Proposal) (now ends later : ℤ)
    → now ≢ pos 0
    → later <ℤ ends
    → state p now ≡ ok draft
    → state (record p { activated_at = now; voting_ends_at = ends }) later ≡ ok active
unfolding state
active_before p now ends later t before h = ground arith

-- At a time that is not zero, what is successfully activated was a draft, by the governor's
-- locker, after the voting delay since its creation; its vote ends the voting period later, and
-- until then it is active.
pub activate_proposal-opens :
    (now : ℤ) (ctx : ProposalAuth) {p' : Proposal}
    → now ≢ pos 0
    → activate_proposal now ctx ≡ ok p'
    → (state ctx.proposal.info now ≡ ok draft)
      × (ctx.signer ≡ ctx.governor.info.locker)
      × (p'.voting_ends_at ≡ now +ℤ pos ctx.governor.info.params.voting_period)
      × (as_u64 ctx.proposal.info.created_at + ctx.governor.info.params.voting_delay ≤ as_u64 now)
      × ((later : ℤ) → later <ℤ p'.voting_ends_at → state p' later ≡ ok active)
activate_proposal-opens now ctx t h =
    let (s, signed, e, delay) = activate_proposal-shape now ctx h in
    let p = ctx.proposal.info in
    (
      s,
      signed,
      ap (λ (q : Proposal). q.voting_ends_at) e,
      delay,
      λ later before. rw e (
          active_before p now (now +ℤ pos ctx.governor.info.params.voting_period) later t
            (rw e at before) s),
    )

-- From the end of its vote on, the state of a proposal does not depend on the time.
pub state_settles :
    (p : Proposal) (now later : ℤ)
    → p.voting_ends_at ≤ℤ now
    → now ≤ℤ later
    → state p later ≡ state p now
unfolding state
state_settles p now later e le = ground arith

-- A cancelled proposal cannot be cancelled, activated, voted on or queued, and no reward can be
-- claimed for it.
pub canceled_is_final :
    (tp : TokenProgram) (pda : FindProgramAddress) (now : ℤ) (l : tp.Ledger) (auth : ProposalAuth)
    (sv : SetVote) (q : QueueProposal) (c : ClaimReward) (side power : ℕ)
    → state auth.proposal.info now ≡ ok canceled
    → sv.proposal ≡ auth.proposal
    → q.proposal ≡ auth.proposal
    → c.proposal ≡ auth.proposal
    → ((p' : Proposal) → cancel_proposal now auth ≢ ok p')
      × ((p' : Proposal) → activate_proposal now auth ≢ ok p')
      × ((r : Proposal × Vote) → set_vote now sv side power ≢ ok r)
      × ((r : SmartWallet × Transaction × Proposal) → queue_proposal pda now q ≢ ok r)
      × ((r : tp.Ledger × Proposal × Vote) → claim_reward tp now l c ≢ ok r)
unfolding cancel_proposal activate_proposal set_vote queue_proposal claim_reward
canceled_is_final tp pda now l auth sv q c side power s e1 e2 e3 = (
  λ p' h. ground arith,
  λ p' h. ground arith,
  λ r h. ground arith,
  λ r h. ground arith,
  λ r h. ground arith,
)
