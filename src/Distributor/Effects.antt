-- ===== src/Distributor/Effects.antt =====
-- What the instructions of programs/merkle-distributor do to the stores of accounts.
use wagmi.Prelude.{
  ℕ, ◌+◌, ◌≤◌, ◌≡◌, ◌∙◌, sym, ap, arith, true, false, none, some, ℤ, List, ◌∷◌, find, put,
}
use wagmi.Chain.{
  Pubkey, Account, ok, >>=-eq-ok, ok-injective, load, init, load-eq-ok, init-eq-ok, TokenProgram,
}
use wagmi.Chain.Address.{Seeds, FindProgramAddress}
use wagmi.Chain.Hashing.{Hash, Hashv}
use wagmi.Distributor.State.{MerkleDistributor, ClaimStatus}
use wagmi.Distributor.MerkleProof.{leaf_hash, verify}
use wagmi.Distributor.Admin
use wagmi.Distributor.Claims.{Claim, Claimed, claim, lock_claim}
use wagmi.Distributor.Program.{Accounts, Call, ClaimCall, run, run_claim, claims_of}

-- What the instructions of the admin leave alone.
abbrev pub KeepsClaims : MerkleDistributor → MerkleDistributor → Type 0
KeepsClaims d d' =
    (d'.total_amount_claimed ≡ d.total_amount_claimed)
    × (d'.num_nodes_claimed ≡ d.num_nodes_claimed)
    × (d'.max_total_claim ≡ d.max_total_claim)
    × (d'.max_num_nodes ≡ d.max_num_nodes)
    × (d'.root ≡ d.root)
    × (d.clawed_back ≡ true → d'.clawed_back ≡ true)

-- What a claim counts, within the limits.
abbrev pub Counts : ℕ → MerkleDistributor → MerkleDistributor → Type 0
Counts amount d d' =
    ((d'.total_amount_claimed ≡ d.total_amount_claimed + amount)
      × (d'.num_nodes_claimed ≡ d.num_nodes_claimed + 1))
    × (d'.total_amount_claimed ≤ d'.max_total_claim)
    × (d'.num_nodes_claimed ≤ d'.max_num_nodes)
    × (d.clawed_back ≡ false)

-- The record of a claim.
abbrev pub Records : ClaimCall → ClaimStatus → Type 0
Records c status =
    (status.is_claimed ≡ true) × (status.claimant ≡ c.claimant) × (status.amount ≡ c.amount)

-- What a claim has proved, and that it keeps the root and the limits.
abbrev pub Proves : Hashv → ClaimCall → MerkleDistributor → MerkleDistributor → Type 0
Proves hashv c d d' =
    (verify hashv c.proof d.root (leaf_hash hashv c.index c.claimant c.amount) ≡ true)
    × (d'.root ≡ d.root)
    × (d'.max_total_claim ≡ d.max_total_claim)
    × (d'.max_num_nodes ≡ d.max_num_nodes)

-- The address of the claim status of an index of a distributor.
abbrev pub status_address : FindProgramAddress → ClaimCall → Pubkey
status_address pda c = (pda (Seeds.claim_status c.index c.distributor)).0

pub data Effect (hashv : Hashv) (pda : FindProgramAddress) (s u : Accounts) (log : List ClaimCall)
    : List ClaimCall → Type 0 where
  created :
      (dk : Pubkey) (d : MerkleDistributor)
      → find dk s.distributors ≡ none
      → (d.total_amount_claimed ≡ 0) × (d.num_nodes_claimed ≡ 0)
      → u.distributors ≡ put dk d s.distributors
      → u.claim_statuses ≡ s.claim_statuses
      → Effect hashv pda s u log log
  written :
      (dk : Pubkey) (d d' : MerkleDistributor)
      → find dk s.distributors ≡ some d
      → KeepsClaims d d'
      → u.distributors ≡ put dk d' s.distributors
      → u.claim_statuses ≡ s.claim_statuses
      → Effect hashv pda s u log log
  claimed :
      (c : ClaimCall) (d d' : MerkleDistributor) (status : ClaimStatus)
      → find c.distributor s.distributors ≡ some d
      → find (status_address pda c) s.claim_statuses ≡ none
      → Counts c.amount d d'
      → Records c status
      → Proves hashv c d d'
      → u.distributors ≡ put c.distributor d' s.distributors
      → u.claim_statuses ≡ put (status_address pda c) status s.claim_statuses
      → Effect hashv pda s u log (c ∷ log)

new_distributor-unclaimed :
    (tp : TokenProgram) (pda : FindProgramAddress) (now : ℤ) (l : tp.Ledger)
    (ctx : Admin.NewDistributor) (locker : Pubkey) (root : Hash) (total nodes : ℕ) (start : ℤ)
    {l' : tp.Ledger} {d : MerkleDistributor}
    → Admin.new_distributor tp pda now l ctx locker root total nodes start ≡ ok (l', d)
    → (d.total_amount_claimed ≡ 0) × (d.num_nodes_claimed ≡ 0)
unfolding Admin.new_distributor
new_distributor-unclaimed tp pda now l ctx locker root total nodes start h = ground arith

set_clawback_receiver-KeepsClaims :
    (tp : TokenProgram) (l : tp.Ledger) (dist : Account MerkleDistributor) (to admin : Pubkey)
    {d : MerkleDistributor}
    → Admin.set_clawback_receiver tp l dist to admin ≡ ok d
    → KeepsClaims dist.info d
unfolding Admin.set_clawback_receiver
set_clawback_receiver-KeepsClaims tp l dist to admin h = ground arith

set_admin-KeepsClaims :
    (dist : Account MerkleDistributor) (admin new_admin : Pubkey) {d : MerkleDistributor}
    → Admin.set_admin dist admin new_admin ≡ ok d
    → KeepsClaims dist.info d
unfolding Admin.set_admin
set_admin-KeepsClaims dist admin new_admin h = ground arith

clawback-KeepsClaims :
    (tp : TokenProgram) (now : ℤ) (l : tp.Ledger) (ctx : Admin.Clawback) {l' : tp.Ledger}
    {d : MerkleDistributor}
    → Admin.clawback tp now l ctx ≡ ok (l', d)
    → KeepsClaims ctx.distributor.info d
unfolding Admin.clawback
clawback-KeepsClaims tp now l ctx h = ground arith

module _ (tp : TokenProgram) (hashv : Hashv) (pda : FindProgramAddress) where
  -- What a `claim` that succeeds has checked and written.
  pub claim-says :
      (now : ℤ) (l : tp.Ledger) (ctx : Claim) (index amount : ℕ) (proof : List Hash)
      {done : Claimed tp.Ledger}
      → claim tp hashv pda now l ctx index amount proof ≡ ok done
      → ((ctx.claim_status ≡ (pda (Seeds.claim_status index ctx.distributor.key)).0)
          × (ctx.escrow.key ≡ (pda (Seeds.met_escrow ctx.locker.key ctx.claimant)).0)
          × (verify hashv proof ctx.distributor.info.root
                (leaf_hash hashv index ctx.claimant amount)
              ≡ true))
        × Counts amount ctx.distributor.info done.distributor
        × (done.claim_status ≡ record {
          is_claimed = true;
          claimant = ctx.claimant;
          claimed_at = now;
          amount = amount;
        })
        × (lock_claim tp hashv pda now l ctx amount ≡ ok (done.ledger, done.locker, done.escrow))
        × ((done.distributor.root ≡ ctx.distributor.info.root)
            × (done.distributor.max_total_claim ≡ ctx.distributor.info.max_total_claim)
            × (done.distributor.max_num_nodes ≡ ctx.distributor.info.max_num_nodes))
  unfolding claim
  claim-says now l ctx index amount proof h = ground arith

-- The stores that an instruction leaves, of the answer `ok (l, s)`.
answer_path {ℓ} : {L : Type ℓ} {p q : L × Accounts} → ok p ≡ ok q → q.1 ≡ p.1
answer_path h = ap (λ r. r.1) (ok-injective h)

module _ (tp : TokenProgram) (hashv : Hashv) (pda : FindProgramAddress) where
  run_claim-Effect :
      (now : ℤ) (c : ClaimCall) (l : tp.Ledger) (s : Accounts) (log : List ClaimCall)
      {l' : tp.Ledger} {u : Accounts}
      → run_claim tp hashv pda now c l s ≡ ok (l', u)
      → Effect hashv pda s u log (c ∷ log)
  unfolding run_claim
  run_claim-Effect now c l s log h =
      let (dist, e, h1) = >>=-eq-ok (load c.distributor s.distributors) _ h in
      let (_, fresh, h2) = >>=-eq-ok (init c.claim_status s.claim_statuses) _ h1 in
      let (locker, e', h3) = >>=-eq-ok (load c.locker s.voter.lockers) _ h2 in
      let (escrow, e'', h4) = >>=-eq-ok (load c.escrow s.voter.escrows) _ h3 in
      let (done, g, h5) = >>=-eq-ok (claim tp hashv pda now l _ c.index c.amount c.proof) _ h4 in
      let (key, found) = load-eq-ok c.distributor s.distributors e in
      let (checked, counts, status, _, kept) =
        claim-says tp hashv pda now l _ c.index c.amount c.proof {done = done} g in
      let at = checked.0 ∙ ap (λ k. (pda (Seeds.claim_status c.index k)).0) key in
      Effect.claimed c dist.info done.distributor done.claim_status found
        (ap (λ k. find k s.claim_statuses) (sym at)
          ∙ init-eq-ok c.claim_status s.claim_statuses fresh)
        counts
        (ap (λ x. x.is_claimed) status, ap (λ x. x.claimant) status, ap (λ x. x.amount) status)
        (checked.2, kept.0, kept.1, kept.2) (ap (λ v. v.distributors) (answer_path h5))
        (ap (λ v. v.claim_statuses) (answer_path h5)
          ∙ ap (λ k. put k done.claim_status s.claim_statuses) at)

  pub run-Effect :
      (now : ℤ) (c : Call) (l : tp.Ledger) (s : Accounts) (log : List ClaimCall) {l' : tp.Ledger}
      {u : Accounts}
      → run tp hashv pda now c l s ≡ ok (l', u)
      → Effect hashv pda s u log (claims_of c log)
  unfolding run
  run-Effect now (Call.new_distributor ctx locker root total nodes start) l s log h =
      let (_, fresh, h1) = >>=-eq-ok (init ctx.distributor s.distributors) _ h in
      let ((_, d), g, h2) =
        >>=-eq-ok (Admin.new_distributor tp pda now l ctx locker root total nodes start) _ h1 in
      Effect.created ctx.distributor d (init-eq-ok ctx.distributor s.distributors fresh)
        (new_distributor-unclaimed tp pda now l ctx locker root total nodes start g)
        (ap (λ v. v.distributors) (answer_path h2)) (ap (λ v. v.claim_statuses) (answer_path h2))
  run-Effect now (Call.set_clawback_receiver dk to admin) l s log h =
      let (dist, e, h1) = >>=-eq-ok (load dk s.distributors) _ h in
      let (d, g, h2) = >>=-eq-ok (Admin.set_clawback_receiver tp l dist to admin) _ h1 in
      Effect.written dk dist.info d (load-eq-ok dk s.distributors e).1
        (set_clawback_receiver-KeepsClaims tp l dist to admin g)
        (ap (λ v. v.distributors) (answer_path h2)) (ap (λ v. v.claim_statuses) (answer_path h2))
  run-Effect now (Call.set_admin dk admin new_admin) l s log h =
      let (dist, e, h1) = >>=-eq-ok (load dk s.distributors) _ h in
      let (d, g, h2) = >>=-eq-ok (Admin.set_admin dist admin new_admin) _ h1 in
      Effect.written dk dist.info d (load-eq-ok dk s.distributors e).1
        (set_admin-KeepsClaims dist admin new_admin g) (ap (λ v. v.distributors) (answer_path h2))
        (ap (λ v. v.claim_statuses) (answer_path h2))
  run-Effect now (Call.clawback dk vault receiver) l s log h =
      let (dist, e, h1) = >>=-eq-ok (load dk s.distributors) _ h in
      let ((_, d), g, h2) = >>=-eq-ok (Admin.clawback tp now l _) _ h1 in
      Effect.written dk dist.info d (load-eq-ok dk s.distributors e).1
        (clawback-KeepsClaims tp now l _ g) (ap (λ v. v.distributors) (answer_path h2))
        (ap (λ v. v.claim_statuses) (answer_path h2))
  run-Effect now (Call.claim c) l s log h = run_claim-Effect now c l s log h
