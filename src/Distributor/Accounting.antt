-- ===== src/Distributor/Accounting.antt =====
-- What the distributors of programs/merkle-distributor count over a history, and its log of claims.
use wagmi.Prelude.{
  ℕ, ◌+◌, ◌≤◌, ◌≡◌, ◌∙◌, refl, sym, ap, subst, arith, none, some, Option, List, [], ◌∷◌, Store,
  find, put, find-put, ◌==◌, ==→eq, if◌then◌else◌,
}
use wagmi.Chain.{Pubkey, TokenProgram}
use wagmi.Chain.Address.{Seeds, FindProgramAddress}
use wagmi.Chain.Hashing.{Hashv}
use wagmi.Distributor.State.{MerkleDistributor, ClaimStatus}
use wagmi.Distributor.Program.{Accounts, ClaimCall, History}
use wagmi.Distributor.Effects.{Effect, Records, status_address, run-Effect}

-- What a log has claimed from a distributor: the amounts, and how many claims.
abbrev pub claimed_amount : Pubkey → List ClaimCall → ℕ
claimed_amount dk [] = 0
claimed_amount dk (c ∷ log) = (if c.distributor == dk then c.amount else 0) + claimed_amount dk log

abbrev pub claimed_nodes : Pubkey → List ClaimCall → ℕ
claimed_nodes dk [] = 0
claimed_nodes dk (c ∷ log) = (if c.distributor == dk then 1 else 0) + claimed_nodes dk log

-- What a distributor has counted; one that does not exist has counted nothing.
abbrev pub total_of : Option MerkleDistributor → ℕ
total_of none = 0
total_of (some d) = d.total_amount_claimed

abbrev pub nodes_of : Option MerkleDistributor → ℕ
nodes_of none = 0
nodes_of (some d) = d.num_nodes_claimed

-- Every claim of a log has its claim status.
abbrev pub AreRecorded : FindProgramAddress → Store ClaimStatus → List ClaimCall → Type 0
AreRecorded pda m [] = Unit
AreRecorded pda m (c ∷ log) =
    ((status : ClaimStatus) × (find (status_address pda c) m ≡ some status) × Records c status)
    × AreRecorded pda m log

-- No index of a distributor is claimed twice.
abbrev pub IsFresh : ClaimCall → List ClaimCall → Type 0
IsFresh c [] = Unit
IsFresh c (d ∷ log) = ¬ ((c.distributor ≡ d.distributor) × (c.index ≡ d.index)) × IsFresh c log

abbrev pub AreOnce : List ClaimCall → Type 0
AreOnce [] = Unit
AreOnce (c ∷ log) = IsFresh c log × AreOnce log

pub record IsAccounted (pda : FindProgramAddress) (s : Accounts) (log : List ClaimCall)
    : Type 0 where
  pub amount : (dk : Pubkey) → total_of (find dk s.distributors) ≡ claimed_amount dk log
  pub nodes : (dk : Pubkey) → nodes_of (find dk s.distributors) ≡ claimed_nodes dk log
  pub limits :
      (dk : Pubkey) (d : MerkleDistributor)
      → find dk s.distributors ≡ some d
      → (d.total_amount_claimed ≤ d.max_total_claim) × (d.num_nodes_claimed ≤ d.max_num_nodes)
  pub recorded : AreRecorded pda s.claim_statuses log
  pub once : AreOnce log

module _ (pda : FindProgramAddress) where
  pub recorded-IsFresh :
      (c : ClaimCall) (m : Store ClaimStatus) (log : List ClaimCall)
      → find (status_address pda c) m ≡ none
      → AreRecorded pda m log
      → IsFresh c log
  recorded-IsFresh c m [] free r = tt
  recorded-IsFresh c m (d ∷ log) free ((status, found, _), r) = (
    λ same.
        let at =
          ap (λ k. (pda (Seeds.claim_status k c.distributor)).0) same.1
          ∙ ap (λ k. (pda (Seeds.claim_status d.index k)).0) same.0 in
        absurd (let clash = sym free ∙ ap (λ k. find k m) at ∙ found in cc),
    recorded-IsFresh c m log free r,
  )

  recorded-put :
      (k : Pubkey) (status : ClaimStatus) (m : Store ClaimStatus) (log : List ClaimCall)
      → find k m ≡ none
      → AreRecorded pda m log
      → AreRecorded pda (put k status m) log
  recorded-put k status m [] free r = tt
  recorded-put k status m (d ∷ log) free ((old, found, is), r) = (
    (
      old,
      ground (arith, find-put k (status_address pda d) status m, ==→eq k (status_address pda d)),
      is,
    ),
    recorded-put k status m log free r,
  )

  Effect-IsAccounted :
      {hashv : Hashv} {s u : Accounts} {log log' : List ClaimCall}
      → Effect hashv pda s u log log'
      → IsAccounted pda s log
      → IsAccounted pda u log'
  Effect-IsAccounted {s} {log = log} (Effect.created dk d fresh zero eq same) a = record {
    amount = λ k. rw eq (ground (arith, a.amount k, find-put dk k d s.distributors, ==→eq dk k));
    nodes = λ k. rw eq (ground (arith, a.nodes k, find-put dk k d s.distributors, ==→eq dk k));
    limits = λ k x. rw eq (λ found. ground (arith, a.limits k x, find-put dk k d s.distributors));
    recorded = subst (λ m. AreRecorded pda m log) (sym same) a.recorded;
    once = a.once;
  }
  Effect-IsAccounted {s} {log = log} (Effect.written dk d d' found kept eq same) a = record {
    amount = λ k. rw eq (ground (arith, a.amount k, find-put dk k d' s.distributors, ==→eq dk k));
    nodes = λ k. rw eq (ground (arith, a.nodes k, find-put dk k d' s.distributors, ==→eq dk k));
    limits = λ k x.
        rw eq (λ is.
          ground (arith, a.limits k x, a.limits dk d found, find-put dk k d' s.distributors));
    recorded = subst (λ m. AreRecorded pda m log) (sym same) a.recorded;
    once = a.once;
  }
  Effect-IsAccounted {s} {log = log} (Effect.claimed c d d' st found free counts is proves eq same)
        a =
      let dk = c.distributor in
      record {
        amount =
            λ k. rw eq (ground (arith, a.amount k, find-put dk k d' s.distributors, ==→eq dk k));
        nodes = λ k. rw eq (ground (arith, a.nodes k, find-put dk k d' s.distributors, ==→eq dk k));
        limits = λ k x. rw eq (λ at. ground (arith, a.limits k x, find-put dk k d' s.distributors));
        recorded = (
          (
            st,
            rw same (
                ground (
                  arith,
                  find-put (status_address pda c) (status_address pda c) st s.claim_statuses,
                )),
            is,
          ),
          subst (λ m. AreRecorded pda m log) (sym same)
              (recorded-put (status_address pda c) st s.claim_statuses log free a.recorded),
        );
        once = (recorded-IsFresh c s.claim_statuses log free a.recorded, a.once);
      }

module _ (tp : TokenProgram) (hashv : Hashv) (pda : FindProgramAddress) where
  -- In every history that begins before there is any distributor, each distributor has counted the
  -- sum and the number of the claims that succeeded, both are within its limits, each claim has a
  -- claim status with its claimant and amount, and no index of a distributor was claimed twice.
  pub History-IsAccounted :
      {s u : Accounts} {log : List ClaimCall}
      → History tp hashv pda s u log
      → s.distributors ≡ []
      → IsAccounted pda u log
  History-IsAccounted History.start empty = record {
    amount = λ dk. rw empty refl;
    nodes = λ dk. rw empty refl;
    limits = λ dk d. rw empty (λ found. cc);
    recorded = tt;
    once = tt;
  }
  History-IsAccounted (History.call {t = t} {log = log} now c l l' h e) empty =
      Effect-IsAccounted pda (run-Effect tp hashv pda now c l t log {l' = l'} e)
        (History-IsAccounted h empty)
  History-IsAccounted (History.voter now c l l' h e) empty =
      let a = History-IsAccounted h empty in
      record {
        amount = a.amount;
        nodes = a.nodes;
        limits = a.limits;
        recorded = a.recorded;
        once = a.once;
      }
