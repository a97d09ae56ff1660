-- ===== src/Snapshot/Payment.antt =====
-- The claims of a history of programs/merkle-distributor, against the snapshot of
-- cli/merkle_distributor that the root and the limits were built from.
use wagmi.Prelude.{
  ℕ, ◌+◌, ◌<◌, ◌≤◌, ◌≡◌, refl, sym, ap, ◌∙◌, arith, ℤ, true, false, none, some, List, [], ◌∷◌,
  length, find, ==_refl, u64_mod,
}
use wagmi.Chain.{ok, first_step, TokenProgram}
use wagmi.Chain.Address.{Seeds, FindProgramAddress}
use wagmi.Chain.Hashing.{Hash, Hashv, IsCollisionFree}
use wagmi.MetVoter.{Locker, Escrow}
use wagmi.Distributor.{
  MerkleDistributor, leaf_hash, verify, Claim, Claimed, validate_claim, check_claim, count_claim,
  lock_claim, claim,
}
use wagmi.Distributor.Program.{Accounts, ClaimCall, History}
use wagmi.Distributor.Effects.{status_address}
use wagmi.Distributor.Accounting.{total_of, nodes_of, recorded-IsFresh, History-IsAccounted}
use wagmi.Distributor.Roots.{History-AreProved}
use wagmi.Snapshot.Allocations.{Snapshot, get_user_claim_info}
use wagmi.Snapshot.Limits.{build_tree}
use wagmi.Snapshot.Room.{build_tree-limits, proved-limits, info-verifies}

count_claim-ok :
    (d : MerkleDistributor) (amount : ℕ)
    → d.total_amount_claimed + amount ≤ d.max_total_claim
    → d.total_amount_claimed + amount < u64_mod
    → d.num_nodes_claimed + 1 ≤ d.max_num_nodes
    → d.num_nodes_claimed + 1 < u64_mod
    → count_claim d amount
      ≡ ok (record d {
        total_amount_claimed = d.total_amount_claimed + amount;
        num_nodes_claimed = d.num_nodes_claimed + 1;
      })
count_claim-ok d amount a b c e = ground arith

module _ (tp : TokenProgram) (hashv : Hashv) (pda : FindProgramAddress) where
  claim-ok :
      (now : ℤ) (l : tp.Ledger) (ctx : Claim) (index amount : ℕ) (proof : List Hash)
      {l' : tp.Ledger} {locker : Locker} {escrow : Escrow} {d : MerkleDistributor}
      → validate_claim pda ctx index ≡ ok tt
      → ctx.distributor.info.clawed_back ≡ false
      → verify hashv proof ctx.distributor.info.root (leaf_hash hashv index ctx.claimant amount)
        ≡ true
      → lock_claim tp hashv pda now l ctx amount ≡ ok (l', locker, escrow)
      → count_claim ctx.distributor.info amount ≡ ok d
      → (done : Claimed tp.Ledger) × (claim tp hashv pda now l ctx index amount proof ≡ ok done)
        × (done.distributor ≡ d)
  unfolding claim
  claim-ok now l ctx index amount proof {l'} {locker} {escrow} {d} valid active proved locked
        counted =
      (
        record {
          ledger = l';
          distributor = d;
          claim_status = record {
            is_claimed = true;
            claimant = ctx.claimant;
            claimed_at = now;
            amount = amount;
          };
          locker = locker;
          escrow = escrow;
        },
        first_step (validate_claim pda ctx index) _ valid (
            first_step (check_claim tp hashv pda ctx index amount proof) _
              (rw (active, proved) refl)
              (first_step (lock_claim tp hashv pda now l ctx amount) _ locked
                (first_step (count_claim ctx.distributor.info amount) _ counted refl))),
        refl,
      )

  -- What a history has left for one more claim of an index that is not claimed.
  room_left :
      {s u : Accounts} {log : List ClaimCall} (snapshot : Snapshot) (c : ClaimCall)
      (d : MerkleDistributor) {nodes total : ℕ}
      → History tp hashv pda s u log
      → s.distributors ≡ []
      → find c.distributor u.distributors ≡ some d
      → find (status_address pda c) u.claim_statuses ≡ none
      → IsCollisionFree hashv
      → 0 < length snapshot
      → build_tree hashv snapshot ≡ ok (nodes, total, d.root)
      → verify hashv c.proof d.root (leaf_hash hashv c.index c.claimant c.amount) ≡ true
      → (d.total_amount_claimed + c.amount ≤ total) × (d.num_nodes_claimed + 1 ≤ nodes)
  room_left {u = u} {log = log} snapshot c d h empty at unclaimed free some_leaf built proved =
      let dk = c.distributor in
      let counted = History-IsAccounted tp hashv pda h empty in
      let fresh = recorded-IsFresh pda c u.claim_statuses log unclaimed counted.recorded in
      let (much, many) =
        proved-limits hashv snapshot dk (c ∷ log) free some_leaf built
          (λ same. proved, History-AreProved tp hashv pda h empty dk d at) (fresh, counted.once) in
      let total_is = sym (counted.amount dk) ∙ ap total_of at in
      let nodes_is = sym (counted.nodes dk) ∙ ap nodes_of at in
      (ground (arith, much, total_is, ==_refl dk), ground (arith, many, nodes_is, ==_refl dk))

  validate_claim-address :
      (ctx : Claim) (index : ℕ)
      → validate_claim pda ctx index ≡ ok tt
      → (pda (Seeds.claim_status index ctx.distributor.key)).0 ≡ ctx.claim_status
  validate_claim-address ctx index h = ground arith

  -- Let a history begin before there is any distributor, let a distributor that is not clawed back
  -- have after it the root of `build_tree` for a snapshot of fewer than 2 ^ 64 entries and at least
  -- its limits, and let the hash have no collisions. Then `claim` succeeds with the index, the amount
  -- and the proof that `get_user_claim_info` returns for a user, where the claim status of the index
  -- does not exist, the attributes hold and the tokens can be locked: the limits are not in the
  -- way. It counts the amount and one claim.
  pub claim-succeeds :
      {s u : Accounts} {log : List ClaimCall} (snapshot : Snapshot) (now : ℤ) (l : tp.Ledger)
      (ctx : Claim) {index amount : ℕ} {proof : List Hash} {nodes total : ℕ} {l' : tp.Ledger}
      {locker : Locker} {escrow : Escrow}
      → History tp hashv pda s u log
      → s.distributors ≡ []
      → find ctx.distributor.key u.distributors ≡ some ctx.distributor.info
      → find ctx.claim_status u.claim_statuses ≡ none
      → IsCollisionFree hashv
      → length snapshot < u64_mod
      → build_tree hashv snapshot ≡ ok (nodes, total, ctx.distributor.info.root)
      → total ≤ ctx.distributor.info.max_total_claim
      → nodes ≤ ctx.distributor.info.max_num_nodes
      → get_user_claim_info hashv snapshot ctx.claimant ≡ some (index, amount, proof)
      → ctx.distributor.info.clawed_back ≡ false
      → validate_claim pda ctx index ≡ ok tt
      → lock_claim tp hashv pda now l ctx amount ≡ ok (l', locker, escrow)
      → (done : Claimed tp.Ledger) × (claim tp hashv pda now l ctx index amount proof ≡ ok done)
        × (done.distributor.total_amount_claimed
            ≡ ctx.distributor.info.total_amount_claimed + amount)
        × (done.distributor.num_nodes_claimed ≡ ctx.distributor.info.num_nodes_claimed + 1)
  claim-succeeds snapshot now l ctx {index} {amount} {proof} h empty at unclaimed free short built
        within_total within_nodes info active valid locked =
      let d = ctx.distributor.info in
      let (nodes_is, _, fits) = build_tree-limits hashv snapshot built in
      let (some_leaf, proved) = info-verifies hashv snapshot ctx.claimant built info in
      let address : (pda (Seeds.claim_status index ctx.distributor.key)).0 ≡ ctx.claim_status =
        validate_claim-address ctx index valid in
      let (much, many) =
        room_left snapshot
          (record {
            distributor = ctx.distributor.key;
            claim_status = ctx.claim_status;
            token_vault = ctx.token_vault;
            claimant = ctx.claimant;
            locker = ctx.locker.key;
            escrow = ctx.escrow.key;
            escrow_tokens = ctx.escrow_tokens;
            index = index;
            amount = amount;
            proof = proof;
          })
          d h empty at (rw address unclaimed) free some_leaf built proved in
      let counts =
        count_claim-ok d amount (omega arith) (omega arith) (omega arith) (omega arith) in
      let (done, claims, is) =
        claim-ok now l ctx index amount proof valid active proved locked counts in
      (done, claims, ap (λ x. x.total_amount_claimed) is, ap (λ x. x.num_nodes_claimed) is)
