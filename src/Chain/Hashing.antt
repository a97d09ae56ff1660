-- ===== src/Chain/Hashing.antt =====
-- `hashv` of the Solana SDK (SHA-256 of the slices that it is given, one after the other) is not part
-- of the repository: it is an argument, a function of the slices. A hash is 32 bytes; it stands here
-- as the number that they are in big-endian order, so that `<=` on hashes is the order of numbers.
use wagmi.Prelude.{ℕ, ◌≡◌, List, [], ◌∷◌}
use wagmi.Chain.Vipers.{Pubkey}

abbrev pub Hash : Type 0
Hash = ℕ

-- The slices that are hashed: `&[byte]`, the 8 bytes of `to_le_bytes` of a u64, the 32 bytes of an
-- address and those of a hash.
pub data Slice : Type 0 where
  byte : ℕ → Slice
  u64_le : ℕ → Slice
  address : Pubkey → Slice
  hash : Hash → Slice

abbrev pub Hashv : Type 0
Hashv = List Slice → Hash

-- What the programs hash: an allocation (8 + 32 + 8 bytes), a leaf (1 + 32 bytes) and a pair of nodes
-- (1 + 32 + 32 bytes). Two of these are the same bytes only if they are the same slices.
pub data IsPreimage : List Slice → Type 0 where
  allocation :
      (index : ℕ) (claimant : Pubkey) (amount : ℕ)
      → IsPreimage (Slice.u64_le index ∷ Slice.address claimant ∷ Slice.u64_le amount ∷ [])
  leaf : (node : Hash) → IsPreimage (Slice.byte 0 ∷ Slice.hash node ∷ [])
  pair : (a b : Hash) → IsPreimage (Slice.byte 1 ∷ Slice.hash a ∷ Slice.hash b ∷ [])

-- Different bytes have different hashes, which is what a collision-resistant hash is relied on for.
abbrev pub IsCollisionFree : Hashv → Type 0
IsCollisionFree hashv = (a b : List Slice) → IsPreimage a → IsPreimage b → hashv a ≡ hashv b → a ≡ b
