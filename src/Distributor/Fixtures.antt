-- ===== src/Distributor/Fixtures.antt =====
-- Accounts for tests: a distributor of 600 tokens to the users 11 and 12, who hold escrows of a locker
-- of programs/met-voter in its initial phase.
use wagmi.Prelude.{◌+◌, false, true, pos, ◌==◌, if◌then◌else◌}
use wagmi.Chain.Bank.{Book, moved}
use wagmi.Chain.Address.{Seeds, FindProgramAddress}
use wagmi.Chain.Hashing.{Hash}
use wagmi.Chain.Pairing.{paired_hash}
use wagmi.MetVoter.{Locker, Escrow, default_escrow, default_locker}
use wagmi.Distributor.State.{MerkleDistributor}
use wagmi.Distributor.MerkleProof.{leaf_hash, next_hash}
use wagmi.Distributor.Claims.{Claim, Claimed}

abbrev pub addresses : FindProgramAddress
addresses (Seeds.claim_status index distributor) = (800 + index, 254)
addresses (Seeds.met_escrow locker owner) = (60 + owner, 254)
addresses seeds = (500, 254)

abbrev pub leaf_11 : Hash
leaf_11 = leaf_hash paired_hash 0 11 300

abbrev pub leaf_12 : Hash
leaf_12 = leaf_hash paired_hash 1 12 200

abbrev pub root : Hash
root = next_hash paired_hash leaf_11 leaf_12

abbrev pub distributor : MerkleDistributor
distributor = record {
  base = 9;
  bump = 254;
  token_vault = 1500;
  root = root;
  mint = 60;
  max_total_claim = 500;
  max_num_nodes = 2;
  total_amount_claimed = 0;
  num_nodes_claimed = 0;
  locker = 70;
  admin = 5;
  clawback_start_ts = pos 90000;
  clawback_receiver = 2000;
  clawed_back = false;
}

abbrev pub locker : Locker
locker = record default_locker { token_mint = 60; locked_supply = 500; expiration = pos 5000 }

abbrev pub escrow : Escrow
escrow = record default_escrow { locker = 70; owner = 11; tokens = 1071; amount = 40 }

abbrev pub claim_11 : Claim
claim_11 = record {
  distributor = record { key = 500; info = distributor };
  claim_status = 800;
  token_vault = 1500;
  claimant = 11;
  locker = record { key = 70; info = locker };
  escrow = record { key = 71; info = escrow };
  escrow_tokens = 1071;
}

-- The vault, and the others.
abbrev pub book : Book
book k =
    if k == 1500
    then record { owner = 500; mint = 60; amount = 600 }
    else record { owner = 11; mint = 60; amount = 40 }

abbrev pub claimed_11 : Claimed Book
claimed_11 = record {
  ledger = moved book 1500 1071 300;
  distributor = record distributor { total_amount_claimed = 300; num_nodes_claimed = 1 };
  claim_status = record { is_claimed = true; claimant = 11; claimed_at = pos 400; amount = 300 };
  locker = record locker { locked_supply = 800 };
  escrow = record escrow { amount = 340 };
}
