-- ===== src/Snapshot/Budget.antt =====
-- Sums over the claims of programs/merkle-distributor, against lists with a number for each index.
use wagmi.Prelude.{
  ℕ, zero, suc, ◌+◌, ◌≤◌, ◌≡◌, inl, inr, refl, sym, ap, ◌∙◌, arith, some, List, [], ◌∷◌, length,
  get_elem?, set, get_elem?-set_ne, sum, sum-set, ◌==◌, ==→eq, if◌then◌else◌, Bool-cases,
}
use wagmi.Chain.{Pubkey}
use wagmi.Distributor.Program.{ClaimCall}
use wagmi.Distributor.Accounting.{IsFresh, AreOnce, claimed_amount, claimed_nodes}

-- A list with a number for each element of another.
abbrev pub numbers {ℓ} : {A : Type ℓ} → (A → ℕ) → List A → List ℕ
numbers f [] = []
numbers f (x ∷ xs) = f x ∷ numbers f xs

pub get_elem?-numbers {ℓ} :
    {A : Type ℓ} (f : A → ℕ) (xs : List A) (i : ℕ) {x : A}
    → get_elem? xs i ≡ some x
    → get_elem? (numbers f xs) i ≡ some (f x)
get_elem?-numbers f [] i e = cc
get_elem?-numbers f (x ∷ xs) zero e = ground arith
get_elem?-numbers f (x ∷ xs) (suc i) e = get_elem?-numbers f xs i e

pub sum-numbers_one {ℓ} : {A : Type ℓ} (xs : List A) → sum (numbers (λ x. 1) xs) ≡ length xs
sum-numbers_one [] = refl
sum-numbers_one (x ∷ xs) = omega (arith, sum-numbers_one xs)

module _ (weight : ClaimCall → ℕ) (dk : Pubkey) where
  -- The weights of the claims of a distributor.
  abbrev pub weights : List ClaimCall → ℕ
  weights [] = 0
  weights (c ∷ log) = (if c.distributor == dk then weight c else 0) + weights log

  -- Every claim of a distributor has its weight in a list, at its index.
  abbrev pub AreWeighed : List ℕ → List ClaimCall → Type 0
  AreWeighed ns [] = Unit
  AreWeighed ns (c ∷ log) =
      (c.distributor ≡ dk → get_elem? ns c.index ≡ some (weight c)) × AreWeighed ns log

module _ (weight : ClaimCall → ℕ) (dk : Pubkey) where
  -- The weight at an index that is not claimed again is not used.
  set-AreWeighed :
      (c : ClaimCall) (ns : List ℕ) (log : List ClaimCall)
      → c.distributor ≡ dk
      → IsFresh c log
      → AreWeighed weight dk ns log
      → AreWeighed weight dk (set ns c.index 0) log
  set-AreWeighed c ns [] mine fresh all = tt
  set-AreWeighed c ns (d ∷ log) mine (other, fresh) (at, all) = (
    λ same. get_elem?-set_ne ns c.index d.index 0 (λ e. other (mine ∙ sym same, e)) ∙ at same,
    set-AreWeighed c ns log mine fresh all,
  )

  -- Claims of different indices weigh no more than the list.
  pub weights-le_sum :
      (ns : List ℕ) (log : List ClaimCall)
      → AreOnce log
      → AreWeighed weight dk ns log
      → weights weight dk log ≤ sum ns
  weights-le_sum ns [] once all = omega arith
  weights-le_sum ns (c ∷ log) (fresh, once) (at, all) = elim (Bool-cases (c.distributor == dk)) [
    | inl hit ↦
        let mine = ==→eq c.distributor dk hit in
        let below =
          weights-le_sum (set ns c.index 0) log once (set-AreWeighed c ns log mine fresh all) in
        rw hit (omega (arith, below, sum-set ns c.index 0 (at mine)))
    | inr miss ↦ rw miss (omega (arith, weights-le_sum ns log once all))
  ]

pub claimed_amount-weights :
    (dk : Pubkey) (log : List ClaimCall) → claimed_amount dk log ≡ weights (λ c. c.amount) dk log
claimed_amount-weights dk [] = refl
claimed_amount-weights dk (c ∷ log) =
    ap (λ n. (if c.distributor == dk then c.amount else 0) + n) (claimed_amount-weights dk log)

pub claimed_nodes-weights :
    (dk : Pubkey) (log : List ClaimCall) → claimed_nodes dk log ≡ weights (λ c. 1) dk log
claimed_nodes-weights dk [] = refl
claimed_nodes-weights dk (c ∷ log) =
    ap (λ n. (if c.distributor == dk then 1 else 0) + n) (claimed_nodes-weights dk log)
