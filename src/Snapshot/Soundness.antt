-- ===== src/Snapshot/Soundness.antt =====
-- The claims of programs/merkle-distributor against the snapshot of cli/merkle_distributor that the
-- root was built from.
use wagmi.Prelude.{
  ℕ, ◌<◌, ◌≡◌, ◌≢◌, refl, sym, ap, subst, ◌∙◌, arith, ℤ, true, some, List, [], ◌∷◌, length,
  get_elem?, ==→eq,
}
use wagmi.Chain.{Pubkey, ok, TokenProgram}
use wagmi.Chain.Address.{FindProgramAddress}
use wagmi.Chain.Hashing.{Hash, Hashv, IsCollisionFree}
use wagmi.Distributor.{leaf_hash, computed_root, verify}
use wagmi.Distributor.{Claim, Claimed, claim}
use wagmi.Distributor.Effects.{claim-says}
use wagmi.Snapshot.Trees.{combine_hash, get_next_layer}
use wagmi.Snapshot.Allocations.{Snapshot, sort, leaves, build_merkle_tree}
use wagmi.Snapshot.Limits.{build_tree}
use wagmi.Snapshot.Sorting.{sort-of_Memᴰ}
use wagmi.Snapshot.Nodes.{
  IsNode, AreNodes-bottom, root-IsNode, computed_root-IsNode, leaves-made, leaves-listed, node-Memᴰ,
}
use wagmi.Snapshot.Building.{build_merkle_tree-IsTower}
use wagmi.Snapshot.Proofs.{build_tree-root}

module _ (hashv : Hashv) where
  build_empty-fails :
      {nodes total : ℕ} {root : Hash} → build_tree hashv [] ≢ ok (nodes, total, root)
  unfolding build_tree build_merkle_tree wagmi.Snapshot.Trees.build_layers
      wagmi.Snapshot.Trees.get_root
  build_empty-fails e = cc

  pub verify-IsListed :
      (snapshot : Snapshot) (index : ℕ) (user : Pubkey) (amount : ℕ) (proof : List Hash)
      {nodes total : ℕ} {root : Hash}
      → IsCollisionFree hashv
      → 0 < length snapshot
      → build_tree hashv snapshot ≡ ok (nodes, total, root)
      → verify hashv proof root (leaf_hash hashv index user amount) ≡ true
      → get_elem? snapshot index ≡ some (record { pubkey = user; amount = amount })
  unfolding verify
  verify-IsListed snapshot index user amount proof {root = root} free some_leaf built ok_proof =
      let (layers, top, is_built, tower) = build_merkle_tree-IsTower hashv snapshot some_leaf in
      let bottom = leaves hashv 0 snapshot in
      let root_is : root ≡ top = build_tree-root hashv snapshot is_built tower built in
      let leaf = leaf_hash hashv index user amount in
      let reaches = ==→eq (computed_root hashv proof leaf) root ok_proof ∙ root_is in
      let node =
        root-IsNode hashv bottom tower
          (AreNodes-bottom hashv bottom (sort bottom) (λ h m. sort-of_Memᴰ h bottom m)) in
      let start =
        computed_root-IsNode hashv free bottom proof leaf (leaves-made hashv free 0 snapshot)
          (subst (IsNode hashv bottom) (sym reaches) node) in
      let (k, at, found) =
        leaves-listed hashv free 0 index snapshot user amount
          (node-Memᴰ hashv free bottom index user amount leaf refl start) in
      let here : index ≡ k = omega (arith, at) in ap (get_elem? snapshot) here ∙ found

module _ (tp : TokenProgram) (hashv : Hashv) (pda : FindProgramAddress) where
  -- Let the hash have no collisions, and let the root of a distributor be that of `build_tree` for a
  -- snapshot. Then a `claim` that succeeds is of an allocation of the snapshot: the snapshot has the
  -- claimant and the amount at the index of the claim.
  pub claim-IsListed :
      (snapshot : Snapshot) (now : ℤ) (l : tp.Ledger) (ctx : Claim) (index amount : ℕ)
      (proof : List Hash) {nodes total : ℕ} {done : Claimed tp.Ledger}
      → IsCollisionFree hashv
      → build_tree hashv snapshot ≡ ok (nodes, total, ctx.distributor.info.root)
      → claim tp hashv pda now l ctx index amount proof ≡ ok done
      → get_elem? snapshot index ≡ some (record { pubkey = ctx.claimant; amount = amount })
  claim-IsListed [] now l ctx index amount proof free built h =
      absurd (build_empty-fails hashv built)
  claim-IsListed (a ∷ rest) now l ctx index amount proof {done = done} free built h =
      let ((_, _, proved), _, _, _, _) =
        claim-says tp hashv pda now l ctx index amount proof {done = done} h in
      verify-IsListed hashv (a ∷ rest) index ctx.claimant amount proof free (omega arith) built
        proved
