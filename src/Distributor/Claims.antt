-- ===== src/Distributor/Claims.antt =====
-- programs/merkle-distributor/src/instructions/claim.rs, which calls programs/met-voter with the
-- distributor as the signer.
use wagmi.Prelude.{ℕ, true, ℤ, pos, ◌&&◌, ◌==ℤ◌, not, leb, checked_add, List}
use wagmi.Chain.{
  Pubkey, Account, Result, ok, ◌>>=◌, ◌>>◌, distributor, claim_expired, drop_already_claimed,
  invalid_proof, exceeded_max_claim, exceeded_max_num_nodes, invariant, unwrap_int, has_one,
  TokenProgram,
}
use wagmi.Chain.Address.{Seeds, FindProgramAddress, seeds_match}
use wagmi.Chain.Hashing.{Hash, Hashv}
use wagmi.MetVoter as Voter
use wagmi.MetVoter.{Locker, Escrow}
use wagmi.Distributor.State.{MerkleDistributor, ClaimStatus, default_claim_status}
use wagmi.Distributor.MerkleProof.{leaf_hash, verify}

-- The accounts of `claim`, with the address of the claim status to be initialised; the claimant
-- signs. The locker and the escrow are read by the program that is called.
pub record Claim : Type 0 where
  pub distributor : Account MerkleDistributor
  pub claim_status : Pubkey
  pub token_vault : Pubkey
  pub claimant : Pubkey
  pub locker : Account Locker
  pub escrow : Account Escrow
  pub escrow_tokens : Pubkey

-- What `claim` writes.
pub record Claimed (Ledger : Type 0) : Type 0 where
  pub ledger : Ledger
  pub distributor : MerkleDistributor
  pub claim_status : ClaimStatus
  pub locker : Locker
  pub escrow : Escrow

-- The attributes.
abbrev pub validate_claim : FindProgramAddress → Claim → ℕ → Result (Unit {0})
validate_claim pda ctx index = do
  has_one ctx.distributor.info.locker ctx.locker.key
  has_one ctx.distributor.info.token_vault ctx.token_vault
  seeds_match pda (Seeds.claim_status index ctx.distributor.key) ctx.claim_status
  seeds_match pda (Seeds.met_escrow ctx.locker.key ctx.claimant) ctx.escrow.key

-- The limits, which are checked after the claim is counted.
abbrev pub count_claim : MerkleDistributor → ℕ → Result MerkleDistributor
count_claim dist amount = do
  total_amount_claimed ← unwrap_int (checked_add dist.total_amount_claimed amount)
  invariant (leb total_amount_claimed dist.max_total_claim) (distributor exceeded_max_claim)
  num_nodes_claimed ← unwrap_int (checked_add dist.num_nodes_claimed 1)
  invariant (leb num_nodes_claimed dist.max_num_nodes) (distributor exceeded_max_num_nodes)
  ok (record dist {
    total_amount_claimed = total_amount_claimed;
    num_nodes_claimed = num_nodes_claimed;
  })

module _ (tp : TokenProgram) (hashv : Hashv) (pda : FindProgramAddress) where
  -- The checks of `handle_claim`. The claim status has just been initialised.
  abbrev pub check_claim : Claim → ℕ → ℕ → List Hash → Result (Unit {0})
  check_claim ctx index amount proof = do
    invariant (not ctx.distributor.info.clawed_back) (distributor claim_expired)
    invariant (not default_claim_status.is_claimed && (default_claim_status.claimed_at ==ℤ pos 0))
        (distributor drop_already_claimed)
    invariant
        (verify hashv proof ctx.distributor.info.root (leaf_hash hashv index ctx.claimant amount))
        (distributor invalid_proof)

  -- `voter::cpi::increase_locked_amount`: the distributor pays from the vault.
  abbrev pub lock_claim : ℤ → tp.Ledger → Claim → ℕ → Result (tp.Ledger × Locker × Escrow)
  lock_claim now ledger ctx amount =
      Voter.increase_locked_amount tp now ledger
        (record {
          locker = ctx.locker;
          escrow = ctx.escrow;
          escrow_tokens = ctx.escrow_tokens;
          payer = ctx.distributor.key;
          source_tokens = ctx.token_vault;
        })
        amount

  -- `handle_claim`.
  unfoldable pub claim : ℤ → tp.Ledger → Claim → ℕ → ℕ → List Hash → Result (Claimed tp.Ledger)
  claim now ledger ctx index amount proof = do
    validate_claim pda ctx index
    check_claim ctx index amount proof
    (ledger', locker, escrow) ← lock_claim now ledger ctx amount
    dist ← count_claim ctx.distributor.info amount
    ok (record {
      ledger = ledger';
      distributor = dist;
      claim_status = record {
        is_claimed = true;
        claimant = ctx.claimant;
        claimed_at = now;
        amount = amount;
      };
      locker = locker;
      escrow = escrow;
    })
