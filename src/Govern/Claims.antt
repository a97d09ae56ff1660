-- ===== src/Govern/Claims.antt =====
-- What the instructions of programs/govern do to the times, the tally and the payments of a proposal.
use wagmi.Prelude.{
  ℕ, ◌+◌, ◌≡◌, ◌≢◌, sym, subst, ◌⊎◌, inl, inr, refl, ap, true, false, Option, some, none, arith, ℤ,
  pos, ◌<ℤ◌, sum, Option-cases, get_elem?,
}
use wagmi.Chain.{
  Pubkey, Error, unwrap_opt, ok-injective, ok, >>=-eq-ok, TokenProgram, Moves,
  transfer_tokens-Moves,
}
use wagmi.Chain.Address.{FindProgramAddress}
use wagmi.SmartWallet.{SmartWallet, Transaction}
use wagmi.Govern.State.{Proposal, Vote}
use wagmi.Govern.Proposals.{
  ProposalState, state, draft, active, defeated, succeeded, get_voting_reward,
}
use wagmi.Govern.Drafts.{ProposalAuth, cancel_proposal, activate_proposal}
use wagmi.Govern.Voting.{
  new_vote, SetVote, set_vote, ClaimReward, claim_reward, pay_reward, validate_claim_reward,
}
use wagmi.Govern.Queue.{QueueProposal, queue_proposal}
use wagmi.Govern.Rewards.{reward_share, get_voting_reward-share}
use wagmi.Govern.Ballot.{IsOver}

-- What the states say of the times.
pub active-open : (p : Proposal) (now : ℤ) → state p now ≡ ok active → now <ℤ p.voting_ends_at
unfolding state
active-open p now h = elim (Option-cases (get_elem? p.option_votes 2)) [
  | inl e ↦ ground arith
  | inr (f, e) ↦ elim (Option-cases (get_elem? p.option_votes 1)) [
    | inl e' ↦ ground arith
    | inr (a, e') ↦ ground arith
  ]
]

pub draft-unopened : (p : Proposal) (now : ℤ) → state p now ≡ ok draft → p.activated_at ≡ pos 0
unfolding state
draft-unopened p now h = elim (Option-cases (get_elem? p.option_votes 2)) [
  | inl e ↦ ground arith
  | inr (f, e) ↦ elim (Option-cases (get_elem? p.option_votes 1)) [
    | inl e' ↦ ground arith
    | inr (a, e') ↦ ground arith
  ]
]

-- The states in which a reward can be claimed.
abbrev pub IsDecided : ProposalState → Type 0
IsDecided s = (s ≡ defeated) ⊎ ((s ≡ ProposalState.queued) ⊎ (s ≡ succeeded))

pub decided-IsOver :
    (p : Proposal) (now : ℤ) {s : ProposalState} → state p now ≡ ok s → IsDecided s → IsOver now p
unfolding state
decided-IsOver p now h d = ground arith

pub set_vote-active :
    (now : ℤ) (ctx : SetVote) (side power : ℕ) {r : Proposal × Vote}
    → set_vote now ctx side power ≡ ok r
    → state ctx.proposal.info now ≡ ok active
unfolding set_vote
set_vote-active now ctx side power h = ground arith

pub claim-IsDecided :
    (tp : TokenProgram) (now : ℤ) (l : tp.Ledger) (ctx : ClaimReward)
    {r : tp.Ledger × Proposal × Vote}
    → claim_reward tp now l ctx ≡ ok r
    → (s : ProposalState) × (state ctx.proposal.info now ≡ ok s) × IsDecided s
unfolding claim_reward
claim-IsDecided tp now l ctx h = ground arith

pay_reward-adds :
    (tp : TokenProgram) (l : tp.Ledger) (ctx : ClaimReward) (n : ℕ) {r : tp.Ledger × Proposal}
    → pay_reward tp l ctx n ≡ ok r
    → r.1 ≡ record (ctx.proposal.info) {
      total_claimed_reward = ctx.proposal.info.total_claimed_reward + n;
    }
pay_reward-adds tp l ctx n h = ground arith

pay_reward-Moves :
    (tp : TokenProgram) (l : tp.Ledger) (ctx : ClaimReward) (n : ℕ) {r : tp.Ledger × Proposal}
    → ctx.reward_vault ≢ ctx.voter_token_account
    → pay_reward tp l ctx n ≡ ok r
    → Moves tp l r.0 ctx.reward_vault ctx.voter_token_account n
pay_reward-Moves tp l ctx n {r} apart h = ground (
  arith,
  transfer_tokens-Moves tp l ctx.reward_vault ctx.voter_token_account ctx.governor.key n {l' = r.0}
      apart,
)

unwrap-some {ℓ} :
    {A : Type ℓ} (o : Option A) (e : Error) {a : A} → unwrap_opt o e ≡ ok a → o ≡ some a
unwrap-some none e h = cc
unwrap-some (some a) e h = cc

unclaimed :
    (tp : TokenProgram) (now : ℤ) (l : tp.Ledger) (ctx : ClaimReward)
    → validate_claim_reward tp now l ctx ≡ ok tt
    → ctx.vote.info.claimed ≡ false
unclaimed tp now l ctx h = ground arith

-- What a claim changes: the vote is marked, and its rounded share is added to what was paid and moved
-- from the vault to the voter.
abbrev pub claimed_vote : Vote → Vote
claimed_vote v = record v { claimed = true }

abbrev pub share_of : Proposal → Vote → ℕ
share_of p v = reward_share p.voting_reward.reward_per_proposal (sum p.option_votes) v

abbrev pub paid_proposal : Proposal → Vote → Proposal
paid_proposal p v = record p { total_claimed_reward = p.total_claimed_reward + share_of p v }

pub claim-effect :
    (tp : TokenProgram) (now : ℤ) (l : tp.Ledger) (ctx : ClaimReward)
    {r : tp.Ledger × Proposal × Vote}
    → claim_reward tp now l ctx ≡ ok r
    → (ctx.vote.info.claimed ≡ false)
      × (r.1 ≡ paid_proposal ctx.proposal.info ctx.vote.info)
      × (r.2 ≡ claimed_vote ctx.vote.info)
      × (ctx.reward_vault ≢ ctx.voter_token_account
          → Moves tp l r.0 ctx.reward_vault ctx.voter_token_account
              (share_of ctx.proposal.info ctx.vote.info))
unfolding claim_reward
claim-effect tp now l ctx {r = r} h =
    let p = ctx.proposal.info in
    let v = claimed_vote ctx.vote.info in
    let (_, valid, h1) = >>=-eq-ok (validate_claim_reward tp now l ctx) _ h in
    let (answer, got, h2) = >>=-eq-ok (get_voting_reward p v) _ h1 in
    let (n, unwrapped, h3) = >>=-eq-ok (unwrap_opt answer _) _ h2 in
    let (q, paid, h4) = >>=-eq-ok (pay_reward tp l ctx n) _ h3 in
    let share = get_voting_reward-share p v {r = n} (rw (← unwrap-some answer _ unwrapped) got) in
    let e = ok-injective h4 in
    (
      unclaimed tp now l ctx valid,
      rw (e, pay_reward-adds tp l ctx n paid, share) refl,
      ap (λ (r : tp.Ledger × Proposal × Vote). r.2) e,
      λ apart.
          subst (λ x. Moves tp l x.0 ctx.reward_vault ctx.voter_token_account (share_of p v))
            (sym e)
            (subst (Moves tp l q.0 ctx.reward_vault ctx.voter_token_account) share
              (pay_reward-Moves tp l ctx n apart paid)),
    )

pub cancel-shape :
    (now : ℤ) (ctx : ProposalAuth) {p : Proposal}
    → cancel_proposal now ctx ≡ ok p
    → (state ctx.proposal.info now ≡ ok draft)
      × (p ≡ record (ctx.proposal.info) { canceled_at = now })
unfolding cancel_proposal
cancel-shape now ctx h = ground arith

-- What the instructions on the proposal alone leave as it is.
abbrev pub SameTally : Proposal → Proposal → Type 0
SameTally p q =
    (q.option_votes ≡ p.option_votes)
    × (q.total_claimed_reward ≡ p.total_claimed_reward)
    × (q.voting_reward ≡ p.voting_reward)

pub activate-SameTally :
    (now : ℤ) (ctx : ProposalAuth) {p : Proposal}
    → activate_proposal now ctx ≡ ok p
    → (state ctx.proposal.info now ≡ ok draft) × SameTally ctx.proposal.info p
unfolding activate_proposal
activate-SameTally now ctx h = ground arith

pub queue-SameTally :
    (pda : FindProgramAddress) (now : ℤ) (ctx : QueueProposal) {w : SmartWallet} {tx : Transaction}
    {p : Proposal}
    → queue_proposal pda now ctx ≡ ok (w, tx, p)
    → (p.activated_at ≡ ctx.proposal.info.activated_at)
      × (p.voting_ends_at ≡ ctx.proposal.info.voting_ends_at)
      × SameTally ctx.proposal.info p
unfolding queue_proposal
queue-SameTally pda now ctx h = ground arith

pub new_vote-empty :
    (pda : FindProgramAddress) (pk k voter : Pubkey) {v : Vote}
    → new_vote pda pk k voter ≡ ok v
    → (v.voting_power ≡ 0) × (v.claimed ≡ false)
unfolding new_vote
new_vote-empty pda pk k voter h = ground arith
