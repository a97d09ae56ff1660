-- ===== src/Distributor/MerkleProof.antt =====
-- programs/merkle-distributor/src/merkle_proof.rs, and the hash of a claim in
-- programs/merkle-distributor/src/instructions/claim.rs, which cli/merkle_distributor repeats.
use wagmi.Prelude.{ℕ, Bool, ◌==◌, leb, if◌then◌else◌, List, [], ◌∷◌}
use wagmi.Chain.{Pubkey}
use wagmi.Chain.Hashing.{Hash, Hashv, Slice}

-- Inner nodes are hashed after a byte 1, leaves after the byte 0 of `LEAF_PREFIX`.
abbrev pub inner_prefix : Slice
inner_prefix = Slice.byte 1

abbrev pub leaf_prefix : Slice
leaf_prefix = Slice.byte 0

module _ (hashv : Hashv) where
  -- The hash that `claim` checks: of the index, the claimant and the amount, and then of this hash
  -- as a leaf.
  unfoldable pub leaf_hash : ℕ → Pubkey → ℕ → Hash
  leaf_hash index claimant amount = hashv (
      leaf_prefix
      ∷ Slice.hash (hashv (Slice.u64_le index ∷ Slice.address claimant ∷ Slice.u64_le amount ∷ []))
      ∷ [])

  -- One round of the loop of `verify`.
  unfoldable pub next_hash : Hash → Hash → Hash
  next_hash computed_hash proof_element =
      if leb computed_hash proof_element
      then hashv (inner_prefix ∷ Slice.hash computed_hash ∷ Slice.hash proof_element ∷ [])
      else hashv (inner_prefix ∷ Slice.hash proof_element ∷ Slice.hash computed_hash ∷ [])

  -- The hash after the last round.
  abbrev pub computed_root : List Hash → Hash → Hash
  computed_root [] computed_hash = computed_hash
  computed_root (proof_element ∷ proof) computed_hash =
      computed_root proof (next_hash computed_hash proof_element)

  -- `verify`.
  unfoldable pub verify : List Hash → Hash → Hash → Bool
  verify proof root leaf = computed_root proof leaf == root
