-- ===== src/Snapshot/Trees.antt =====
-- cli/merkle_distributor/src/utils.rs: `MerkleTree` and the layers that it is built of.
use wagmi.Prelude.Maybe.{◌>>=◌}
use wagmi.Prelude.{
  ℕ, zero, suc, ◌+◌, ◌-◌, ◌/◌, ◌%◌, ◌==◌, ltb, leb, if◌then◌else◌, Option, none, some, List, [],
  ◌∷◌, length, get_elem?,
}
use wagmi.Chain.{Result, panic, unwrap_opt}
use wagmi.Chain.Hashing.{Hash, Hashv, Slice}
use wagmi.Distributor.{inner_prefix}

pub record MerkleTree : Type 0 where
  pub tree : List (List Hash)
  pub first_branch : List Hash

module _ (hashv : Hashv) where
  -- `combine_hash`.
  abbrev pub combine_hash : Hash → Hash → Hash
  combine_hash first second =
      if leb first second
      then hashv (inner_prefix ∷ Slice.hash first ∷ Slice.hash second ∷ [])
      else hashv (inner_prefix ∷ Slice.hash second ∷ Slice.hash first ∷ [])

  -- `get_next_layer`: the hashes two at a time; a last one without a partner goes up as it is.
  abbrev pub get_next_layer : List Hash → List Hash
  get_next_layer [] = []
  get_next_layer (a ∷ []) = a ∷ []
  get_next_layer (a ∷ b ∷ layer) = combine_hash a b ∷ get_next_layer layer

  -- The loop of `build_merkle_tree`: the layers from one on, until there is at most one hash. The
  -- fuel bounds the rounds.
  unfoldable pub build_layers : ℕ → List Hash → Option (List (List Hash))
  build_layers zero layer = if ltb 1 (length layer) then none else some (layer ∷ [])
  build_layers (suc fuel) layer =
      let rest = build_layers fuel (get_next_layer layer) in
      if ltb 1 (length layer) then rest >>= (λ layers. some (layer ∷ layers)) else some (layer ∷ [])

-- `self.tree[self.tree.len() - 1]`.
abbrev pub last_layer : List (List Hash) → Option (List Hash)
last_layer [] = none
last_layer (layer ∷ []) = some layer
last_layer (layer ∷ next ∷ layers) = last_layer (next ∷ layers)

-- `MerkleTree::get_root`, which panics where there is no first hash.
unfoldable pub get_root : MerkleTree → Result Hash
get_root tree = unwrap_opt (do top ← last_layer tree.tree; get_elem? top 0) panic

-- `get_pair_element`, on a layer that is not empty.
abbrev pub get_pair_element : ℕ → List Hash → Option Hash
get_pair_element idx layer =
    let pair_id = if idx % 2 == 0 then idx + 1 else idx - 1 in
    if ltb (length layer - 1) pair_id then none else get_elem? layer pair_id

-- The first loop of `find_proof`: the index of a hash, or 0 where it does not occur.
abbrev pub index_of : Hash → ℕ → List Hash → ℕ
index_of hash i [] = 0
index_of hash i (val ∷ rest) = if val == hash then i else index_of hash (suc i) rest

-- The second loop: the partner in each layer, if there is one.
abbrev pub collect_proof : ℕ → List (List Hash) → List Hash
collect_proof idx [] = []
collect_proof idx (layer ∷ layers) = elim (get_pair_element idx layer) [
  | none ↦ collect_proof (idx / 2) layers
  | some pair_element ↦ pair_element ∷ collect_proof (idx / 2) layers
]

-- `MerkleTree::find_proof`.
unfoldable pub find_proof : MerkleTree → Hash → List Hash
find_proof tree hash = collect_proof (index_of hash 0 tree.first_branch) tree.tree
