-- ===== src/Distributor/State.antt =====
-- programs/merkle-distributor/src/lib.rs: the accounts. The reserved buffers, which no code reads,
-- are left out.
use wagmi.Prelude.{ℕ, Bool, false, ℤ, pos}
use wagmi.Chain.{Pubkey, default_pubkey}
use wagmi.Chain.Hashing.{Hash}

pub record MerkleDistributor : Type 0 where
  pub base : Pubkey
  pub bump : ℕ  -- u8
  pub token_vault : Pubkey
  pub root : Hash
  pub mint : Pubkey
  pub max_total_claim : ℕ  -- u64
  pub max_num_nodes : ℕ  -- u64
  pub total_amount_claimed : ℕ  -- u64
  pub num_nodes_claimed : ℕ  -- u64
  pub locker : Pubkey
  pub admin : Pubkey
  pub clawback_start_ts : ℤ  -- i64
  pub clawback_receiver : Pubkey
  pub clawed_back : Bool

pub record ClaimStatus : Type 0 where
  pub is_claimed : Bool
  pub claimant : Pubkey
  pub claimed_at : ℤ  -- i64
  pub amount : ℕ  -- u64

-- `Default` of the claim status, which `init` writes.
abbrev pub default_claim_status : ClaimStatus
default_claim_status = record {
  is_claimed = false;
  claimant = default_pubkey;
  claimed_at = pos 0;
  amount = 0;
}
