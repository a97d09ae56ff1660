-- ===== src/Snapshot/Building.antt =====
-- The building of the tree of cli/merkle_distributor, and its root.
use wagmi.Prelude.{ℕ, zero, suc, ◌<◌, ◌≤◌, ◌≡◌, refl, ap, ◌∙◌, arith, some, List, [], ◌∷◌, length}
use wagmi.Chain.{ok}
use wagmi.Chain.Hashing.{Hash, Hashv}
use wagmi.Snapshot.Trees.{MerkleTree, get_next_layer, build_layers, last_layer, get_root}
use wagmi.Snapshot.Allocations.{Snapshot, insert, sort, leaves, build_merkle_tree}
use wagmi.Snapshot.Layers.{IsTower, length-get_next_layer}

length-insert : (h : Hash) (hs : List Hash) → length (insert h hs) ≡ suc (length hs)
length-insert h [] = refl
length-insert h (k ∷ ks) = ground (arith, length-insert h ks)

length-sort : (hs : List Hash) → length (sort hs) ≡ length hs
length-sort [] = refl
length-sort (h ∷ hs) = length-insert h (sort hs) ∙ ap suc (length-sort hs)

length-leaves :
    (hashv : Hashv) (i : ℕ) (snapshot : Snapshot)
    → length (leaves hashv i snapshot) ≡ length snapshot
length-leaves hashv i [] = refl
length-leaves hashv i (a ∷ rest) = ap suc (length-leaves hashv (suc i) rest)

module _ (hashv : Hashv) where
  tower-nonempty :
      {layer : List Hash} {layers : List (List Hash)} {root : Hash}
      → IsTower hashv layer layers root
      → 0 < length layers
  tower-nonempty (IsTower.top root) = omega arith
  tower-nonempty (IsTower.storey more tower) = omega arith

  last_layer-IsTower :
      {layer : List Hash} {layers : List (List Hash)} {root : Hash}
      → IsTower hashv layer layers root
      → last_layer layers ≡ some (root ∷ [])
  last_layer-IsTower (IsTower.top root) = refl
  last_layer-IsTower (IsTower.storey {layers = []} more tower) =
      absurd (omega (arith, tower-nonempty tower))
  last_layer-IsTower (IsTower.storey {layers = next ∷ layers} more tower) = last_layer-IsTower tower

  -- Enough fuel gives the layers.
  build_layers-IsTower :
      (fuel : ℕ) (layer : List Hash)
      → 0 < length layer
      → length layer ≤ suc fuel
      → (layers : List (List Hash)) × (root : Hash) × (build_layers hashv fuel layer ≡ some layers)
        × IsTower hashv layer layers root
  unfolding build_layers
  build_layers-IsTower fuel [] some_leaf enough = absurd (omega arith)
  build_layers-IsTower zero (h ∷ []) some_leaf enough = ((h ∷ []) ∷ [], h, refl, IsTower.top h)
  build_layers-IsTower (suc fuel) (h ∷ []) some_leaf enough =
      ((h ∷ []) ∷ [], h, refl, IsTower.top h)
  build_layers-IsTower zero (h ∷ k ∷ layer) some_leaf enough = absurd (omega arith)
  build_layers-IsTower (suc fuel) (h ∷ k ∷ layer) some_leaf enough =
      let (layers, root, built, tower) =
        build_layers-IsTower fuel (get_next_layer hashv (h ∷ k ∷ layer)) (omega arith)
          (omega (arith, length-get_next_layer hashv (h ∷ k ∷ layer))) in
      ((h ∷ k ∷ layer) ∷ layers, root, ground arith, IsTower.storey (omega arith) tower)

  -- The tree of a snapshot that is not empty.
  pub build_merkle_tree-IsTower :
      (snapshot : Snapshot)
      → 0 < length snapshot
      → let first_branch = sort (leaves hashv 0 snapshot) in
        (layers : List (List Hash)) × (root : Hash) × (build_merkle_tree hashv snapshot
          ≡ some (record { tree = layers; first_branch = first_branch }))
        × IsTower hashv first_branch layers root
  unfolding build_merkle_tree
  build_merkle_tree-IsTower snapshot some_leaf =
      let first_branch = sort (leaves hashv 0 snapshot) in
      let size = length-sort (leaves hashv 0 snapshot) ∙ length-leaves hashv 0 snapshot in
      let (layers, root, built, tower) =
        build_layers-IsTower (length first_branch) first_branch (rw size some_leaf) (omega arith) in
      (layers, root, rw built refl, tower)

  pub get_root-IsTower :
      {layer : List Hash} {layers : List (List Hash)} {root : Hash} (first_branch : List Hash)
      → IsTower hashv layer layers root
      → get_root (record { tree = layers; first_branch = first_branch }) ≡ ok root
  unfolding get_root
  get_root-IsTower first_branch tower = rw (last_layer-IsTower tower) refl

  build_empty : build_merkle_tree hashv [] ≡ some (record { tree = [] ∷ []; first_branch = [] })
  unfolding build_merkle_tree build_layers
  build_empty = refl

  -- `build_merkle_tree` ends for every snapshot, within as many rounds as there are leaves; where
  -- the snapshot is not empty, the tree has a root.
  pub build_merkle_tree-terminates :
      (snapshot : Snapshot)
      → (tree : MerkleTree) × (build_merkle_tree hashv snapshot ≡ some tree)
        × (0 < length snapshot → (root : Hash) × (get_root tree ≡ ok root))
  build_merkle_tree-terminates [] =
      (record { tree = [] ∷ []; first_branch = [] }, build_empty, λ h. absurd (omega arith))
  build_merkle_tree-terminates (a ∷ rest) =
      let (layers, root, built, tower) = build_merkle_tree-IsTower (a ∷ rest) (omega arith) in
      (
        record { tree = layers; first_branch = sort (leaves hashv 0 (a ∷ rest)) },
        built,
        λ h. (root, get_root-IsTower (sort (leaves hashv 0 (a ∷ rest))) tower),
      )
