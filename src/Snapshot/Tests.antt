-- ===== src/Snapshot/Tests.antt =====
-- A snapshot with the users 11 and 12 (cli/merkle_distributor).
use wagmi.Prelude.{ℕ, ◌+◌, arith, ◌<◌, ◌≡◌, refl, true, some, List, [], ◌∷◌, pos, length, get_elem?}
use wagmi.Chain.{ok}
use wagmi.Chain.Bank.{Book, bank, moved}
use wagmi.Chain.Hashing.{Hash}
use wagmi.Chain.Pairing.{paired_hash, paired_hash-IsCollisionFree}
use wagmi.MetVoter.{Escrow, increase_locked_amount}
use wagmi.Distributor.{leaf_hash, next_hash, verify, Claim, Claimed, lock_claim, claim}
use wagmi.Distributor.Fixtures.{
  addresses, leaf_11, leaf_12, root, locker, escrow, claim_11, book, claimed_11,
}
use wagmi.Distributor.Runs.{history}
use wagmi.Snapshot.Payment.{claim-succeeds}
use wagmi.Snapshot.Trees.{MerkleTree, get_root}
use wagmi.Snapshot.Allocations.{TokenAllocation, build_merkle_tree, get_user_claim_info}
use wagmi.Snapshot.Fixtures.{snapshot, building, finding}
use wagmi.Snapshot.Building.{build_merkle_tree-terminates}
use wagmi.Snapshot.Proofs.{get_user_claim_info-verifies}
use wagmi.Snapshot.Soundness.{claim-IsListed}

build_merkle_tree-terminates_example :
    (tree : MerkleTree) × (build_merkle_tree paired_hash snapshot ≡ some tree)
    × (0 < length snapshot → (root : Hash) × (get_root tree ≡ ok root))
build_merkle_tree-terminates_example = build_merkle_tree-terminates paired_hash snapshot

get_user_claim_info-verifies_example :
    (index : ℕ) × (b : TokenAllocation) × (proof : List Hash) × (get_user_claim_info paired_hash
        snapshot 12
      ≡ some (index, b.amount, proof))
    × (get_elem? snapshot index ≡ some b)
    × (b.pubkey ≡ 12)
    × (verify paired_hash proof root (leaf_hash paired_hash index 12 b.amount) ≡ true)
get_user_claim_info-verifies_example =
    get_user_claim_info-verifies paired_hash snapshot 12 1
      {a = record { pubkey = 12; amount = 200 }} {nodes = 2} {total = 500} {root = root} refl refl
      building

claiming :
    claim bank paired_hash addresses (pos 400) book claim_11 0 300 (leaf_12 ∷ []) ≡ ok claimed_11
unfolding claim verify leaf_hash next_hash increase_locked_amount
claiming = refl

claim-IsListed_example : get_elem? snapshot 0 ≡ some (record { pubkey = 11; amount = 300 })
claim-IsListed_example =
    claim-IsListed bank paired_hash addresses snapshot (pos 400) book claim_11 0 300 (leaf_12 ∷ [])
      {nodes = 2} {total = 500} {done = claimed_11} paired_hash-IsCollisionFree building claiming

-- User 12, after the claim of user 11.
abbrev escrow_12 : Escrow
escrow_12 = record escrow { owner = 12; tokens = 1072 }

abbrev claim_12 : Claim
claim_12 = record claim_11 {
  distributor = record { key = 500; info = claimed_11.distributor };
  claim_status = 801;
  claimant = 12;
  escrow = record { key = 72; info = escrow_12 };
  escrow_tokens = 1072;
}

locking :
    lock_claim bank paired_hash addresses (pos 450) book claim_12 200
    ≡ ok (
      moved book 1500 1072 200,
      record locker { locked_supply = 700 },
      record escrow_12 { amount = 240 },
    )
unfolding increase_locked_amount
locking = refl

claim-succeeds_example :
    (done : Claimed Book) × (claim bank paired_hash addresses
        (pos 450)
        book
        claim_12
        1
        200
        (leaf_11 ∷ [])
      ≡ ok done)
    × (done.distributor.total_amount_claimed ≡ 300 + 200)
    × (done.distributor.num_nodes_claimed ≡ 1 + 1)
claim-succeeds_example =
    claim-succeeds bank paired_hash addresses snapshot (pos 450) book claim_12 {nodes = 2}
      {total = 500} history refl refl refl paired_hash-IsCollisionFree (omega arith) building
      (omega arith) (omega arith) finding refl refl locking
