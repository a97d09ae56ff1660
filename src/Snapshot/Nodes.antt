-- ===== src/Snapshot/Nodes.antt =====
-- The hashes that the tree of cli/merkle_distributor holds over a list of leaves.
use mathlib.Core.List.{Memᴰ}
use mathlib.Core.List.Memᴰ
use wagmi.Prelude.{
  ℕ, suc, ◌+◌, ◌≡◌, ◌≢◌, ◌⊎◌, inl, inr, refl, sym, subst, ◌∙◌, arith, some, List, [], ◌∷◌,
  get_elem?, leb, Bool-cases,
}
use wagmi.Chain.{Pubkey}
use wagmi.Chain.Hashing.{Hash, Hashv, Slice, IsPreimage, IsCollisionFree}
use wagmi.Distributor.{inner_prefix, leaf_prefix, leaf_hash, next_hash, computed_root}
use wagmi.Snapshot.Trees.{combine_hash, get_next_layer}
use wagmi.Snapshot.Allocations.{Snapshot, leaves}
use wagmi.Snapshot.Layers.{IsTower, next_hash-eq-combine_hash}

-- The hashes over a list of leaves: a leaf, or the combination of two.
pub data IsNode (hashv : Hashv) (bottom : List Hash) : Hash → Type 0 where
  leaf : (h : Hash) → Memᴰ h bottom → IsNode hashv bottom h
  pair :
      (h a b : Hash)
      → h ≡ combine_hash hashv a b
      → IsNode hashv bottom a
      → IsNode hashv bottom b
      → IsNode hashv bottom h

-- All hashes of a layer.
abbrev pub AreNodes : Hashv → List Hash → List Hash → Type 0
AreNodes hashv bottom [] = Unit
AreNodes hashv bottom (h ∷ layer) = IsNode hashv bottom h × AreNodes hashv bottom layer

module _ (hashv : Hashv) where
  pub AreNodes-bottom :
      (bottom layer : List Hash)
      → ((h : Hash) → Memᴰ h layer → Memᴰ h bottom)
      → AreNodes hashv bottom layer
  AreNodes-bottom bottom [] sub = tt
  AreNodes-bottom bottom (h ∷ layer) sub = (
    IsNode.leaf h (sub h (Memᴰ.head refl)),
    AreNodes-bottom bottom layer (λ x m. sub x (Memᴰ.tail m)),
  )

  get_next_layer-AreNodes :
      (bottom layer : List Hash)
      → AreNodes hashv bottom layer
      → AreNodes hashv bottom (get_next_layer hashv layer)
  get_next_layer-AreNodes bottom [] all = tt
  get_next_layer-AreNodes bottom (a ∷ []) all = all
  get_next_layer-AreNodes bottom (a ∷ b ∷ layer) (x, (y, all)) =
      (IsNode.pair (combine_hash hashv a b) a b refl x y, get_next_layer-AreNodes bottom layer all)

  pub root-IsNode :
      {layer : List Hash} {layers : List (List Hash)} {root : Hash} (bottom : List Hash)
      → IsTower hashv layer layers root
      → AreNodes hashv bottom layer
      → IsNode hashv bottom root
  root-IsNode bottom (IsTower.top root) all = all.0
  root-IsNode bottom (IsTower.storey {layer = layer} more tower) all =
      root-IsNode bottom tower (get_next_layer-AreNodes bottom layer all)

module _ (hashv : Hashv) (free : IsCollisionFree hashv) where
  inner-injective :
      (a b c d : Hash)
      → hashv (inner_prefix ∷ Slice.hash a ∷ Slice.hash b ∷ [])
        ≡ hashv (inner_prefix ∷ Slice.hash c ∷ Slice.hash d ∷ [])
      → (a ≡ c) × (b ≡ d)
  inner-injective a b c d e =
      let same = free _ _ (IsPreimage.pair a b) (IsPreimage.pair c d) e in (cc, cc)

  -- Two combinations with the same hash are of the same two.
  combine_hash-injective :
      (a b c d : Hash) → combine_hash hashv a b ≡ combine_hash hashv c d → (a ≡ c) ⊎ (a ≡ d)
  combine_hash-injective a b c d e = elim (Bool-cases (leb a b)) [
    | inl ab ↦ elim (Bool-cases (leb c d)) [
      | inl cd ↦ inl (inner-injective a b c d (ground arith)).0
      | inr cd ↦ inr (inner-injective a b d c (ground arith)).0
    ]
    | inr ab ↦ elim (Bool-cases (leb c d)) [
      | inl cd ↦ inr (inner-injective b a c d (ground arith)).1
      | inr cd ↦ inl (inner-injective b a d c (ground arith)).1
    ]
  ]

  leaf-not-inner :
      (h a b : Hash)
      → hashv (leaf_prefix ∷ Slice.hash h ∷ [])
        ≢ hashv (inner_prefix ∷ Slice.hash a ∷ Slice.hash b ∷ [])
  leaf-not-inner h a b e =
      let same : (leaf_prefix ∷ Slice.hash h ∷ [])
          ≡ (inner_prefix ∷ Slice.hash a ∷ Slice.hash b ∷ []) =
        free _ _ (IsPreimage.leaf h) (IsPreimage.pair a b) e in
      cc

  -- A leaf is no combination.
  leaf-not-combine :
      (index : ℕ) (user : Pubkey) (amount : ℕ) (a b : Hash)
      → leaf_hash hashv index user amount ≢ combine_hash hashv a b
  unfolding leaf_hash
  leaf-not-combine index user amount a b e = elim (Bool-cases (leb a b)) [
    | inl ab ↦ leaf-not-inner _ a b (e ∙ rw ab refl)
    | inr ab ↦ leaf-not-inner _ b a (e ∙ rw ab refl)
  ]

  leaf_hash-injective :
      (i j : ℕ) (u v : Pubkey) (m n : ℕ)
      → leaf_hash hashv i u m ≡ leaf_hash hashv j v n
      → (i ≡ j) × (u ≡ v) × (m ≡ n)
  unfolding leaf_hash
  leaf_hash-injective i j u v m n e =
      let a = Slice.u64_le i ∷ Slice.address u ∷ Slice.u64_le m ∷ [] in
      let b = Slice.u64_le j ∷ Slice.address v ∷ Slice.u64_le n ∷ [] in
      let outer : (leaf_prefix ∷ Slice.hash (hashv a) ∷ [])
          ≡ (leaf_prefix ∷ Slice.hash (hashv b) ∷ []) =
        free _ _ (IsPreimage.leaf (hashv a)) (IsPreimage.leaf (hashv b)) e in
      let inner : hashv a ≡ hashv b = cc in
      let parts : a ≡ b =
        free _ _ (IsPreimage.allocation i u m) (IsPreimage.allocation j v n) inner in
      (cc, cc, cc)

  -- The two hashes under a node that is no leaf are nodes.
  child-IsNode :
      (bottom : List Hash) (h c p : Hash)
      → ((x : Hash)
          → Memᴰ x bottom
          → (i : ℕ) × (u : Pubkey) × (n : ℕ) × (x ≡ leaf_hash hashv i u n))
      → IsNode hashv bottom h
      → h ≡ combine_hash hashv c p
      → IsNode hashv bottom c
  child-IsNode bottom h c p made (IsNode.leaf _ m) e =
      let (i, u, n, is) = made h m in absurd (leaf-not-combine i u n c p (sym is ∙ e))
  child-IsNode bottom h c p made (IsNode.pair _ a b eq na nb) e =
      elim (combine_hash-injective c p a b (sym e ∙ eq)) [
        | inl same ↦ subst (IsNode hashv bottom) (sym same) na
        | inr same ↦ subst (IsNode hashv bottom) (sym same) nb
      ]

  -- What a proof leads from to a node is a node.
  pub computed_root-IsNode :
      (bottom : List Hash) (proof : List Hash) (c : Hash)
      → ((x : Hash)
          → Memᴰ x bottom
          → (i : ℕ) × (u : Pubkey) × (n : ℕ) × (x ≡ leaf_hash hashv i u n))
      → IsNode hashv bottom (computed_root hashv proof c)
      → IsNode hashv bottom c
  computed_root-IsNode bottom [] c made node = node
  computed_root-IsNode bottom (p ∷ proof) c made node =
      child-IsNode bottom (next_hash hashv c p) c p made
        (computed_root-IsNode bottom proof (next_hash hashv c p) made node)
        (next_hash-eq-combine_hash hashv c p)

  -- A leaf that is a node is one of the leaves.
  pub node-Memᴰ :
      (bottom : List Hash) (i : ℕ) (u : Pubkey) (n : ℕ) (h : Hash)
      → h ≡ leaf_hash hashv i u n
      → IsNode hashv bottom h
      → Memᴰ h bottom
  node-Memᴰ bottom i u n h is (IsNode.leaf _ m) = m
  node-Memᴰ bottom i u n h is (IsNode.pair _ a b eq na nb) =
      absurd (leaf-not-combine i u n a b (sym is ∙ eq))

  pub leaves-made :
      (i : ℕ) (snapshot : Snapshot) (x : Hash)
      → Memᴰ x (leaves hashv i snapshot)
      → (j : ℕ) × (u : Pubkey) × (n : ℕ) × (x ≡ leaf_hash hashv j u n)
  leaves-made i [] x m = absurd (Memᴰ.not-nil m)
  leaves-made i (a ∷ rest) x m = elim (Memᴰ.cases_cons m) [
    | inl is ↦ (i, a.pubkey, a.amount, is)
    | inr below ↦ leaves-made (suc i) rest x below
  ]

  pub leaves-listed :
      (i j : ℕ) (snapshot : Snapshot) (u : Pubkey) (n : ℕ)
      → Memᴰ (leaf_hash hashv j u n) (leaves hashv i snapshot)
      → (k : ℕ) × (j ≡ i + k) × (get_elem? snapshot k ≡ some (record { pubkey = u; amount = n }))
  leaves-listed i j [] u n m = absurd (Memᴰ.not-nil m)
  leaves-listed i j (a ∷ rest) u n m = elim (Memᴰ.cases_cons m) [
    | inl is ↦
        let (at, who, much) = leaf_hash-injective j i u a.pubkey n a.amount is in
        (0, omega (arith, at), ground arith)
    | inr below ↦
        let (k, at, found) = leaves-listed (suc i) j rest u n below in
        (suc k, omega (arith, at), found)
  ]
