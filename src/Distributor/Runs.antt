-- ===== src/Distributor/Runs.antt =====
-- A run for tests: a distributor (programs/merkle-distributor) is created, and user 11 claims.
use wagmi.Prelude.{ℕ, ◌+◌, ◌<◌, ◌≡◌, refl, arith, true, some, [], ◌∷◌, ℤ, pos, find}
use wagmi.Chain.{ok}
use wagmi.Chain.Bank.{bank, Book, opened, closed}
use wagmi.Chain.Pairing.{paired_hash}
use wagmi.MetVoter.{increase_locked_amount}
use wagmi.Distributor.MerkleProof.{leaf_hash, next_hash, verify}
use wagmi.Distributor.Admin
use wagmi.Distributor.Claims.{claim}
use wagmi.Distributor.Program.{Accounts, Call, ClaimCall, History, run, run_claim}
use wagmi.Distributor.Fixtures.{
  addresses, leaf_12, root, distributor, locker, escrow, book, claimed_11,
}

abbrev pub before : Accounts
before = record {
  distributors = [];
  claim_statuses = [];
  voter = record { lockers = (70, locker) ∷ []; escrows = (71, escrow) ∷ [] };
}

abbrev pub created : Accounts
created = record before { distributors = (500, distributor) ∷ [] }

abbrev pub after : Accounts
after = record {
  distributors = (500, claimed_11.distributor) ∷ [];
  claim_statuses = (800, claimed_11.claim_status) ∷ [];
  voter = record { lockers = (70, claimed_11.locker) ∷ []; escrows = (71, claimed_11.escrow) ∷ [] };
}

abbrev pub creation : Call
creation =
    Call.new_distributor
      (record { base = 9; distributor = 500; mint = 60; admin = 5; clawback_receiver = 2000 }) 70
      root 500 2 (pos 90000)

abbrev pub the_claim : ClaimCall
the_claim = record {
  distributor = 500;
  claim_status = 800;
  token_vault = 1500;
  claimant = 11;
  locker = 70;
  escrow = 71;
  escrow_tokens = 1071;
  index = 0;
  amount = 300;
  proof = leaf_12 ∷ [];
}

-- Before the creation there is no vault.
abbrev bare : Book
bare = closed book 1500

creating :
    run bank paired_hash addresses (pos 100) creation bare before ≡ ok (opened bare 500 60, created)
unfolding run Admin.new_distributor wagmi.Prelude.◌+ℤ◌
creating = refl

running :
    run bank paired_hash addresses (pos 400) (Call.claim the_claim) book created
    ≡ ok (claimed_11.ledger, after)
unfolding run run_claim claim verify leaf_hash next_hash increase_locked_amount
running = refl

pub history : History bank paired_hash addresses before after (the_claim ∷ [])
history =
    History.call (pos 400) (Call.claim the_claim) book claimed_11.ledger
      (History.call (pos 100) creation bare (opened bare 500 60) History.start creating) running
