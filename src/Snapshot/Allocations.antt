-- ===== src/Snapshot/Allocations.antt =====
-- cli/merkle_distributor/src/utils.rs: `Snapshot`, the list of allocations. The file is read by the
-- csv crate, and an address stands for its text, which is unique.
use wagmi.Prelude.Maybe.{◌>>=◌}
use wagmi.Prelude.{ℕ, suc, ◌==◌, leb, if◌then◌else◌, Option, none, some, List, [], ◌∷◌, length}
use wagmi.Chain.{Pubkey}
use wagmi.Chain.Hashing.{Hash, Hashv}
use wagmi.Distributor.{leaf_hash}
use wagmi.Snapshot.Trees.{MerkleTree, build_layers, find_proof}

pub record TokenAllocation : Type 0 where
  pub pubkey : Pubkey
  pub amount : ℕ  -- u64

-- `Snapshot`.
abbrev pub Snapshot : Type 0
Snapshot = List TokenAllocation

-- `sort_by` of the standard library, on hashes.
abbrev pub insert : Hash → List Hash → List Hash
insert h [] = h ∷ []
insert h (k ∷ ks) = if leb h k then h ∷ k ∷ ks else k ∷ insert h ks

abbrev pub sort : List Hash → List Hash
sort [] = []
sort (h ∷ hs) = insert h (sort hs)

-- The index and the amount of the first allocation of a user, from an index on.
abbrev pub find_user : Pubkey → ℕ → Snapshot → Option (ℕ × ℕ)
find_user user i [] = none
find_user user i (allocation ∷ rest) =
    if allocation.pubkey == user then some (i, allocation.amount) else find_user user (suc i) rest

module _ (hashv : Hashv) where
  -- The leaves, from an index on.
  abbrev pub leaves : ℕ → Snapshot → List Hash
  leaves i [] = []
  leaves i (allocation ∷ rest) =
      leaf_hash hashv i allocation.pubkey allocation.amount ∷ leaves (suc i) rest

  -- `Snapshot::build_merkle_tree`. As many rounds as there are leaves are enough.
  unfoldable pub build_merkle_tree : Snapshot → Option MerkleTree
  build_merkle_tree snapshot =
      let first_branch = sort (leaves 0 snapshot) in
      build_layers hashv (length first_branch) first_branch
      >>= (λ tree. some (record { tree = tree; first_branch = first_branch }))

  -- `Snapshot::get_user_claim_info`: the index, the amount and the proof of a user.
  unfoldable pub get_user_claim_info : Snapshot → Pubkey → Option (ℕ × ℕ × List Hash)
  get_user_claim_info snapshot user = do
    tree ← build_merkle_tree snapshot
    (index, amount) ← find_user user 0 snapshot
    some (index, amount, find_proof tree (leaf_hash hashv index user amount))
