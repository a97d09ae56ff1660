-- ===== src/Snapshot/Room.antt =====
-- The limits that cli/merkle_distributor computes from a snapshot, against claims under its root.
use wagmi.Prelude.Maybe.{>>=-eq-some}
use wagmi.Prelude.{
  ℕ, suc, ◌+◌, ◌<◌, ◌≤◌, ◌≡◌, inl, inr, refl, arith, true, some, List, [], ◌∷◌, length, get_elem?,
  get_elem?-lt, sum, ◌==◌, ==→eq, Bool-cases, checked_add, u64_mod,
}
use wagmi.Chain.{Pubkey, ok, >>=-eq-ok, unwrap_opt, panic}
use wagmi.Chain.Hashing.{Hash, Hashv, IsCollisionFree}
use wagmi.Distributor.{leaf_hash, verify}
use wagmi.Distributor.Program.{ClaimCall}
use wagmi.Distributor.Accounting.{AreOnce, claimed_amount, claimed_nodes}
use wagmi.Distributor.Roots.{AreProved}
use wagmi.Snapshot.Trees.{get_root}
use wagmi.Snapshot.Allocations.{
  TokenAllocation, Snapshot, find_user, build_merkle_tree, get_user_claim_info,
}
use wagmi.Snapshot.Limits.{add_amounts, build_tree}
use wagmi.Snapshot.Proofs.{get_user_claim_info-verifies}
use wagmi.Snapshot.Soundness.{verify-IsListed}
use wagmi.Snapshot.Budget.{
  numbers, get_elem?-numbers, sum-numbers_one, AreWeighed, weights-le_sum, claimed_amount-weights,
  claimed_nodes-weights,
}

-- The amounts of a snapshot.
abbrev pub amounts : Snapshot → List ℕ
amounts snapshot = numbers (λ x. x.amount) snapshot

add_amounts-sum :
    (start : ℕ) (snapshot : Snapshot) {total : ℕ}
    → start < u64_mod
    → add_amounts start snapshot ≡ ok total
    → (total ≡ start + sum (amounts snapshot)) × (total < u64_mod)
add_amounts-sum start [] small h = ground arith
add_amounts-sum start (x ∷ rest) small h =
    let (n, e, h1) = >>=-eq-ok (unwrap_opt (checked_add start x.amount) panic) _ h in
    let n_is : (n ≡ start + x.amount) × (n < u64_mod) = ground arith in
    let (total_is, fits) = add_amounts-sum n rest n_is.1 h1 in (omega arith, fits)

-- The limits that `build_tree` returns.
pub build_tree-limits :
    (hashv : Hashv) (snapshot : Snapshot) {nodes total : ℕ} {root : Hash}
    → build_tree hashv snapshot ≡ ok (nodes, total, root)
    → (nodes ≡ length snapshot) × (total ≡ sum (amounts snapshot)) × (total < u64_mod)
unfolding build_tree
build_tree-limits hashv snapshot h =
    let (n, e, h1) = >>=-eq-ok (add_amounts 0 snapshot) _ h in
    let (tree, _, h2) = >>=-eq-ok (unwrap_opt (build_merkle_tree hashv snapshot) panic) _ h1 in
    let (r, _, h3) = >>=-eq-ok (get_root tree) _ h2 in
    let (n_is, fits) = add_amounts-sum 0 snapshot (omega arith) e in ground (arith, n_is, fits)

find_user-listed :
    (user : Pubkey) (i : ℕ) (snapshot : Snapshot) {found : ℕ × ℕ}
    → find_user user i snapshot ≡ some found
    → (k : ℕ) × (a : TokenAllocation) × (get_elem? snapshot k ≡ some a) × (a.pubkey ≡ user)
find_user-listed user i [] h = cc
find_user-listed user i (x ∷ rest) {found} h = elim (Bool-cases (x.pubkey == user)) [
  | inl hit ↦ (0, x, refl, ==→eq x.pubkey user hit)
  | inr miss ↦
      let (k, a, at, is) = find_user-listed user (suc i) rest {found = found} (ground arith) in
      (suc k, a, at, is)
]

get_user_claim_info-listed :
    (hashv : Hashv) (snapshot : Snapshot) (user : Pubkey) {info : ℕ × ℕ × List Hash}
    → get_user_claim_info hashv snapshot user ≡ some info
    → (k : ℕ) × (a : TokenAllocation) × (get_elem? snapshot k ≡ some a) × (a.pubkey ≡ user)
unfolding get_user_claim_info
get_user_claim_info-listed hashv snapshot user h =
    let (tree, _, h1) = >>=-eq-some (build_merkle_tree hashv snapshot) _ h in
    let (found, e, _) = >>=-eq-some (find_user user 0 snapshot) _ h1 in
    find_user-listed user 0 snapshot {found = found} e

module _ (hashv : Hashv) (snapshot : Snapshot) {nodes total : ℕ} {root : Hash} where
  -- Claims under the root of a snapshot are of its allocations.
  AreProved-AreWeighed :
      (weight : TokenAllocation → ℕ) (dk : Pubkey) (log : List ClaimCall)
      → IsCollisionFree hashv
      → 0 < length snapshot
      → build_tree hashv snapshot ≡ ok (nodes, total, root)
      → AreProved hashv dk root log
      → AreWeighed
          (λ c. weight (record { pubkey = c.claimant; amount = c.amount }))
          dk
          (numbers weight snapshot)
          log
  AreProved-AreWeighed weight dk [] free some_leaf built proved = tt
  AreProved-AreWeighed weight dk (c ∷ log) free some_leaf built (here, proved) = (
    λ same. get_elem?-numbers weight snapshot c.index (
        verify-IsListed hashv snapshot c.index c.claimant c.amount c.proof free some_leaf built
          (here same)),
    AreProved-AreWeighed weight dk log free some_leaf built proved,
  )

  -- Claims of different indices under the root of a snapshot are within its limits.
  pub proved-limits :
      (dk : Pubkey) (log : List ClaimCall)
      → IsCollisionFree hashv
      → 0 < length snapshot
      → build_tree hashv snapshot ≡ ok (nodes, total, root)
      → AreProved hashv dk root log
      → AreOnce log
      → (claimed_amount dk log ≤ total) × (claimed_nodes dk log ≤ nodes)
  proved-limits dk log free some_leaf built proved once =
      let (nodes_is, total_is, _) = build_tree-limits hashv snapshot built in
      let much =
        weights-le_sum (λ c. c.amount) dk (amounts snapshot) log once
          (AreProved-AreWeighed (λ x. x.amount) dk log free some_leaf built proved) in
      let many =
        weights-le_sum (λ c. 1) dk (numbers (λ x. 1) snapshot) log once
          (AreProved-AreWeighed (λ x. 1) dk log free some_leaf built proved) in
      (
        omega (arith, much, claimed_amount-weights dk log),
        omega (arith, many, claimed_nodes-weights dk log, sum-numbers_one snapshot),
      )

module _ (hashv : Hashv) where
  pub info-verifies :
      (snapshot : Snapshot) (user : Pubkey) {index amount : ℕ} {proof : List Hash} {nodes total : ℕ}
      {root : Hash}
      → build_tree hashv snapshot ≡ ok (nodes, total, root)
      → get_user_claim_info hashv snapshot user ≡ some (index, amount, proof)
      → (0 < length snapshot) × (verify hashv proof root (leaf_hash hashv index user amount) ≡ true)
  info-verifies snapshot user {index} {amount} {proof} built info =
      let (k, a, listed, is) = get_user_claim_info-listed hashv snapshot user info in
      let (index', b, proof', info', here, who, verified) =
        get_user_claim_info-verifies hashv snapshot user k {a = a} listed is built in
      let same : index ≡ index' = cc in
      let same' : amount ≡ b.amount = cc in
      let same'' : proof ≡ proof' = cc in
      (omega (arith, get_elem?-lt snapshot k {v = a} listed), rw (same, same', same'') verified)
