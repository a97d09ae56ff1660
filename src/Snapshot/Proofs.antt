-- ===== src/Snapshot/Proofs.antt =====
-- The proofs that cli/merkle_distributor finds, against `verify` of programs/merkle-distributor.
use mathlib.Core.List.{Memᴰ}
use mathlib.Core.List.Memᴰ
use wagmi.Prelude.{
  ℕ, zero, suc, ◌+◌, ◌/◌, ◌<◌, ◌≡◌, inl, inr, refl, sym, ap, ◌∙◌, arith, true, false, none, some,
  List, [], ◌∷◌, length, get_elem?, get_elem?-lt, ◌==◌, ==→eq, ==_refl, Bool-cases,
}
use wagmi.Chain.{Pubkey, ok, >>=-eq-ok, unwrap_opt, panic}
use wagmi.Chain.Hashing.{Hash, Hashv}
use wagmi.Distributor.{leaf_hash, computed_root, verify}
use wagmi.Snapshot.Trees.{
  MerkleTree, get_pair_element, collect_proof, index_of, find_proof, get_root,
}
use wagmi.Snapshot.Allocations.{
  TokenAllocation, Snapshot, sort, leaves, find_user, build_merkle_tree, get_user_claim_info,
}
use wagmi.Snapshot.Limits.{add_amounts, build_tree}
use wagmi.Snapshot.Layers.{
  IsTower, partner-step, get_pair_element-eq-partner, next_hash-eq-combine_hash,
}
use wagmi.Snapshot.Sorting.{sort-Memᴰ}
use wagmi.Snapshot.Building.{build_merkle_tree-IsTower, get_root-IsTower}

-- The index that is found is one of the hash.
index_of-get_elem? :
    (hash : Hash) (i : ℕ) (hs : List Hash)
    → Memᴰ hash hs
    → (j : ℕ) × (index_of hash i hs ≡ i + j) × (get_elem? hs j ≡ some hash)
index_of-get_elem? hash i [] m = absurd (Memᴰ.not-nil m)
index_of-get_elem? hash i (val ∷ rest) m = elim (Bool-cases (val == hash)) [
  | inl e ↦ (0, rw e (omega arith), ap some (==→eq val hash e))
  | inr e ↦ elim (Memᴰ.cases_cons m) [
    | inl is ↦ absurd (ground arith)
    | inr below ↦
        let (j, at, found) = index_of-get_elem? hash (suc i) rest below in
        (suc j, rw e (omega arith), found)
  ]
]

collect_proof-alone :
    (i : ℕ) (layer : List Hash) (layers : List (List Hash))
    → get_pair_element i layer ≡ none
    → collect_proof i (layer ∷ layers) ≡ collect_proof (i / 2) layers
collect_proof-alone i layer layers alone = rw (collect_proof, alone) refl

collect_proof-pair :
    (i : ℕ) (layer : List Hash) (layers : List (List Hash)) {p : Hash}
    → get_pair_element i layer ≡ some p
    → collect_proof i (layer ∷ layers) ≡ p ∷ collect_proof (i / 2) layers
collect_proof-pair i layer layers pair = rw (collect_proof, pair) refl

module _ (hashv : Hashv) where
  -- The proof collected for a hash of a layer leads to the root.
  collect_proof-reaches :
      {layer : List Hash} {layers : List (List Hash)} {root : Hash} (i : ℕ) {h : Hash}
      → IsTower hashv layer layers root
      → get_elem? layer i ≡ some h
      → computed_root hashv (collect_proof i layers) h ≡ root
  collect_proof-reaches zero (IsTower.top root) e = cc
  collect_proof-reaches (suc i) (IsTower.top root) e = cc
  collect_proof-reaches i {h} (IsTower.storey {layer = layer} {layers = layers} more tower) e =
      let same = get_pair_element-eq-partner layer i (get_elem?-lt layer i e) in
      elim (partner-step hashv layer i e) [
        | inl (alone, up) ↦
            ap (λ proof. computed_root hashv proof h)
              (collect_proof-alone i layer layers (same ∙ alone))
            ∙ collect_proof-reaches (i / 2) tower up
        | inr (p, pair, up) ↦
            ap (λ proof. computed_root hashv proof h)
              (collect_proof-pair i layer layers (same ∙ pair))
            ∙ ap (computed_root hashv (collect_proof (i / 2) layers))
                (next_hash-eq-combine_hash hashv h p)
            ∙ collect_proof-reaches (i / 2) tower up
      ]

  find_proof-verifies :
      {layers : List (List Hash)} {root : Hash} (first_branch : List Hash) (leaf : Hash)
      → IsTower hashv first_branch layers root
      → Memᴰ leaf first_branch
      → verify hashv
          (find_proof (record { tree = layers; first_branch = first_branch }) leaf)
          root
          leaf
        ≡ true
  unfolding verify find_proof
  find_proof-verifies {layers} {root} first_branch leaf tower m =
      let (j, at, found) = index_of-get_elem? leaf 0 first_branch m in
      let start : index_of leaf 0 first_branch ≡ j = omega (arith, at) in
      rw start (rw (collect_proof-reaches j tower found) (==_refl root))

  -- The first allocation of a user is found, and its leaf is one of the tree.
  abbrev FindsUser : Pubkey → ℕ → Snapshot → Type 0
  FindsUser user i snapshot =
      (j : ℕ) × (b : TokenAllocation) × (find_user user i snapshot ≡ some (i + j, b.amount))
      × (get_elem? snapshot j ≡ some b)
      × (b.pubkey ≡ user)
      × Memᴰ (leaf_hash hashv (i + j) user b.amount) (leaves hashv i snapshot)

module _ (hashv : Hashv) where
  finds_here :
      (user : Pubkey) (i : ℕ) (x : TokenAllocation) (rest : Snapshot)
      → (x.pubkey == user) ≡ true
      → FindsUser hashv user i (x ∷ rest)
  finds_here user i x rest hit =
      let key = ==→eq x.pubkey user hit in
      let at : i + 0 ≡ i = omega arith in
      (
        0,
        x,
        rw (hit, at) refl,
        refl,
        key,
        Memᴰ.head (
            ap (λ n. leaf_hash hashv n user x.amount) at
            ∙ ap (λ u. leaf_hash hashv i u x.amount) (sym key)),
      )

  finds_later :
      (user : Pubkey) (i : ℕ) (x : TokenAllocation) (rest : Snapshot)
      → (x.pubkey == user) ≡ false
      → FindsUser hashv user (suc i) rest
      → FindsUser hashv user i (x ∷ rest)
  finds_later user i x rest miss (j, b, found, listed, key, m) =
      let at : suc i + j ≡ i + suc j = omega arith in
      (
        suc j,
        b,
        rw miss (found ∙ ap (λ n. some (n, b.amount)) at),
        listed,
        key,
        Memᴰ.tail (Memᴰ.cast (ap (λ n. leaf_hash hashv n user b.amount) (sym at)) m),
      )

  find_user-FindsUser :
      (user : Pubkey) (i : ℕ) (snapshot : Snapshot) (k : ℕ) {a : TokenAllocation}
      → get_elem? snapshot k ≡ some a
      → a.pubkey ≡ user
      → FindsUser hashv user i snapshot
  find_user-FindsUser user i [] k e is = cc
  find_user-FindsUser user i (x ∷ rest) zero e is = finds_here user i x rest (ground arith)
  find_user-FindsUser user i (x ∷ rest) (suc k) e is = elim (Bool-cases (x.pubkey == user)) [
    | inl hit ↦ finds_here user i x rest hit
    | inr miss ↦ finds_later user i x rest miss (find_user-FindsUser user (suc i) rest k e is)
  ]

  pub build_tree-root :
      (snapshot : Snapshot) {layers : List (List Hash)} {first_branch : List Hash} {top : Hash}
      {nodes total : ℕ} {root : Hash}
      → build_merkle_tree hashv snapshot
        ≡ some (record { tree = layers; first_branch = first_branch })
      → IsTower hashv first_branch layers top
      → build_tree hashv snapshot ≡ ok (nodes, total, root)
      → root ≡ top
  unfolding build_tree
  build_tree-root snapshot {first_branch = first_branch} built tower h =
      let (sum, _, h1) = >>=-eq-ok (add_amounts 0 snapshot) _ h in
      let (tree, e, h2) = >>=-eq-ok (unwrap_opt (build_merkle_tree hashv snapshot) panic) _ h1 in
      let (r, e', h3) = >>=-eq-ok (get_root tree) _ h2 in
      ground (arith, get_root-IsTower hashv first_branch tower)

  -- For every user whom a snapshot lists, `get_user_claim_info` returns an index, an amount and a
  -- proof: the snapshot has this amount for the user at this index, and `verify` of
  -- merkle-distributor accepts the proof under the root of `build_tree`.
  pub get_user_claim_info-verifies :
      (snapshot : Snapshot) (user : Pubkey) (k : ℕ) {a : TokenAllocation} {nodes total : ℕ}
      {root : Hash}
      → get_elem? snapshot k ≡ some a
      → a.pubkey ≡ user
      → build_tree hashv snapshot ≡ ok (nodes, total, root)
      → (index : ℕ) × (b : TokenAllocation) × (proof : List Hash) × (get_user_claim_info hashv
            snapshot user
          ≡ some (index, b.amount, proof))
        × (get_elem? snapshot index ≡ some b)
        × (b.pubkey ≡ user)
        × (verify hashv proof root (leaf_hash hashv index user b.amount) ≡ true)
  unfolding get_user_claim_info
  get_user_claim_info-verifies snapshot user k {a} e is h =
      let some_leaf : 0 < length snapshot = omega (arith, get_elem?-lt snapshot k {v = a} e) in
      let (layers, top, built, tower) = build_merkle_tree-IsTower hashv snapshot some_leaf in
      let (j, b, found, listed, key, m) = find_user-FindsUser user 0 snapshot k {a = a} e is in
      let at : 0 + j ≡ j = omega arith in
      let leaf = leaf_hash hashv j user b.amount in
      let first_branch = sort (leaves hashv 0 snapshot) in
      let m' = Memᴰ.cast (ap (λ n. leaf_hash hashv n user b.amount) (sym at)) m in
      let found' = found ∙ ap (λ n. some (n, b.amount)) at in
      let top_is = build_tree-root snapshot built tower h in
      let tree : MerkleTree = record { tree = layers; first_branch = first_branch } in
      (
        j,
        b,
        find_proof tree leaf,
        rw (built, found') refl,
        listed,
        key,
        ap (λ r. verify hashv (find_proof tree leaf) r leaf) top_is
            ∙ find_proof-verifies hashv first_branch leaf tower (sort-Memᴰ leaf _ m'),
      )
