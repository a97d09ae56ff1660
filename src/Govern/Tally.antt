-- ===== src/Govern/Tally.antt =====
-- The tally of a proposal (programs/govern/src/proposal.rs, set_vote.rs) and the votes on it.
use wagmi.Prelude.{
  ℕ, ◌+◌, ◌-◌, ◌≡◌, inl, inr, refl, sym, ap, subst₂, arith, ◌==◌, ==→eq, if◌then◌else◌, get_elem?,
  get_or, get_or-set, get_or-get_elem?, sum, sum-set, Option-cases, ℤ,
}
use wagmi.Chain.{ok, >>=-eq-ok, ok-injective}
use wagmi.Govern.State.{Proposal, Vote}
use wagmi.Govern.Proposals.{subtract_vote_weight, add_vote_weight}
use wagmi.Govern.Voting.{SetVote, set_vote, validate_set_vote}

-- What a vote of some power on one side counts for another.
abbrev pub weight : ℕ → ℕ → ℕ → ℕ
weight side power option = if side == option then power else 0

-- The votes on an option; there are none on an option that does not exist.
abbrev pub votes_on : Proposal → ℕ → ℕ
votes_on p option = get_or p.option_votes option 0

-- Taking a vote off its side.
pub subtract_vote_weight-votes_on :
    (p : Proposal) (side power option : ℕ) {p' : Proposal}
    → subtract_vote_weight p side power ≡ ok p'
    → votes_on p option ≡ votes_on p' option + weight side power option
unfolding subtract_vote_weight
subtract_vote_weight-votes_on p side power option h =
    elim (Option-cases (get_elem? p.option_votes side)) [
      | inl e ↦ ground arith
      | inr (n, e) ↦ ground (
        arith,
        get_or-set p.option_votes side option (n - power) e,
        get_or-get_elem? p.option_votes side 0 e,
        ==→eq side option,
      )
    ]

-- Putting a vote on a side.
pub add_vote_weight-votes_on :
    (p : Proposal) (side power option : ℕ) {p' : Proposal}
    → add_vote_weight p side power ≡ ok p'
    → votes_on p' option ≡ votes_on p option + weight side power option
unfolding add_vote_weight
add_vote_weight-votes_on p side power option h =
    elim (Option-cases (get_elem? p.option_votes side)) [
      | inl e ↦ ground arith
      | inr (n, e) ↦ ground (
        arith,
        get_or-set p.option_votes side option (n + power) e,
        get_or-get_elem? p.option_votes side 0 e,
        ==→eq side option,
      )
    ]

subtract_vote_weight-sum :
    (p : Proposal) (side power : ℕ) {p' : Proposal}
    → subtract_vote_weight p side power ≡ ok p'
    → sum p.option_votes ≡ sum p'.option_votes + power
unfolding subtract_vote_weight
subtract_vote_weight-sum p side power h = elim (Option-cases (get_elem? p.option_votes side)) [
  | inl e ↦ ground arith
  | inr (n, e) ↦ ground (arith, sum-set p.option_votes side (n - power) e)
]

add_vote_weight-sum :
    (p : Proposal) (side power : ℕ) {p' : Proposal}
    → add_vote_weight p side power ≡ ok p'
    → sum p'.option_votes ≡ sum p.option_votes + power
unfolding add_vote_weight
add_vote_weight-sum p side power h = elim (Option-cases (get_elem? p.option_votes side)) [
  | inl e ↦ ground arith
  | inr (n, e) ↦ ground (arith, sum-set p.option_votes side (n + power) e)
]

-- What `set_vote` leaves alone, and what it writes.
pub record SetVoteEffect (p p' : Proposal) (v v' : Vote) (side power : ℕ) : Type 0 where
  pub tally :
      (option : ℕ)
      → votes_on p' option + weight v.side v.voting_power option
        ≡ votes_on p option + weight side power option
  pub summed : sum p'.option_votes + v.voting_power ≡ sum p.option_votes + power
  pub vote : v' ≡ record v { side = side; voting_power = power }
  pub rest : p' ≡ record p { option_votes = p'.option_votes }

subtract_vote_weight-rest :
    (p : Proposal) (side power : ℕ) {p' : Proposal}
    → subtract_vote_weight p side power ≡ ok p'
    → p' ≡ record p { option_votes = p'.option_votes }
unfolding subtract_vote_weight
subtract_vote_weight-rest p side power h = ground arith

add_vote_weight-rest :
    (p : Proposal) (side power : ℕ) {p' : Proposal}
    → add_vote_weight p side power ≡ ok p'
    → p' ≡ record p { option_votes = p'.option_votes }
unfolding add_vote_weight
add_vote_weight-rest p side power h = ground arith

moved-effect :
    (p q p' : Proposal) (v : Vote) (side power : ℕ)
    → subtract_vote_weight p v.side v.voting_power ≡ ok q
    → add_vote_weight q side power ≡ ok p'
    → SetVoteEffect p p' v (record v { side = side; voting_power = power }) side power
moved-effect p q p' v side power off on = record {
  tally = λ option. omega (
    arith,
    subtract_vote_weight-votes_on p v.side v.voting_power option off,
    add_vote_weight-votes_on q side power option on,
  );
  summed = omega (
    arith,
    subtract_vote_weight-sum p v.side v.voting_power off,
    add_vote_weight-sum q side power on,
  );
  vote = refl;
  rest = ground (
    arith,
    subtract_vote_weight-rest p v.side v.voting_power off,
    add_vote_weight-rest q side power on,
  );
}

pair_path {ℓ κ} : {A : Type ℓ} {B : Type κ} {x y : A × B} → x ≡ y → (x.0 ≡ y.0) × (x.1 ≡ y.1)
pair_path e = (ap (λ p. p.0) e, ap (λ p. p.1) e)

-- A successful `set_vote` moves the voter's weight: every option loses what the old vote gave it
-- and gains what the new one gives, the total changes by the difference of the powers, the vote
-- takes the new side and power, and nothing else of the proposal or of the vote changes.
pub set_vote-effect :
    (now : ℤ) (ctx : SetVote) (side power : ℕ) {p' : Proposal} {v' : Vote}
    → set_vote now ctx side power ≡ ok (p', v')
    → SetVoteEffect ctx.proposal.info p' ctx.vote.info v' side power
unfolding set_vote
set_vote-effect now ctx side power h =
    let p = ctx.proposal.info in
    let v = ctx.vote.info in
    let (_, _, h1) = >>=-eq-ok (validate_set_vote now ctx) _ h in
    let (q, off, h2) = >>=-eq-ok (subtract_vote_weight p v.side v.voting_power) _ h1 in
    let (r, on, h3) = >>=-eq-ok (add_vote_weight q side power) _ h2 in
    let (ep, ev) = pair_path (ok-injective h3) in
    subst₂ (λ a b. SetVoteEffect p a v b side power) (sym ep) (sym ev)
      (moved-effect p q r v side power off on)
