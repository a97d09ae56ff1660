-- ===== src/Cli/DistributorTool/Tests.antt =====
-- The tool on the distributor of the tests of programs/merkle-distributor: user 5 deploys one, and
-- user 12 claims, who has no escrow yet.
use wagmi.Prelude.{
  ℕ, ◌+◌, ◌≡◌, ◌≢◌, refl, arith, true, false, some, none, Option, List, [], ◌∷◌, ℤ, pos, find, not,
  ◌==◌, if◌then◌else◌, as_i64,
}
use wagmi.Chain.{Pubkey, ok}
use wagmi.Chain.Bank.{Book, bank, moved, opened, closed}
use wagmi.Chain.Pairing.{paired_hash, paired_hash-IsCollisionFree}
use wagmi.MetVoter.{Locker, Escrow, default_escrow, increase_locked_amount, new_escrow}
use wagmi.MetVoter.Program as Voter
use wagmi.Distributor.{MerkleDistributor, lock_claim, new_distributor}
use wagmi.Distributor.Program.{Accounts, Call, run}
use wagmi.Distributor.Fixtures.{addresses, leaf_11, root, distributor, book, claimed_11}
use wagmi.Distributor.Runs.{before, after, history}
use wagmi.Snapshot.{read_snapshot}
use wagmi.Snapshot.Fixtures.{snapshot, building, finding}
use wagmi.Cli.DistributorTool.Commands.{TokenClient, Instruction}
use wagmi.Cli.DistributorTool.Requests as Requests
use wagmi.Cli.DistributorTool.Sending.{perform, send}
use wagmi.Cli.DistributorTool.Deploying.{deploy-verifies}
use wagmi.Cli.DistributorTool.Claiming.{claim_call, claim_accounts, claim-pays}

abbrev minted : Book → Pubkey → ℕ → Book
minted book account n k =
    if k == account then record (book k) { amount = (book k).amount + n } else book k

minted-others :
    (l : Book) (mint account authority k : Pubkey) (n : ℕ) {l' : Book}
    → k ≢ account
    → some (minted l account n) ≡ some l'
    → l' k ≡ l k
minted-others l mint account authority k n ne h = ground arith

abbrev tokens : TokenClient bank
tokens = record {
  decimals = λ l mint. some 0;
  mint_to = λ l mint account authority n. some (minted l account n);
  mint_to_others = minted-others;
}

-- Before the deployment there is no vault.
abbrev bare : Book
bare = closed book 1500

-- The vault 1500 is empty; the other accounts are those of user 5.
abbrev unfunded : Book
unfunded k =
    if k == 1500
    then record { owner = 500; mint = 60; amount = 0 }
    else record { owner = 5; mint = 60; amount = 40 }

abbrev deployed : Accounts
deployed = record before {
  distributors =
      (500, record distributor { locker = 500; clawback_receiver = 1020; token_vault = 1500 }) ∷ [];
}

abbrev creation : List Instruction
creation =
    Instruction.call (
      Call.new_distributor
        (record { base = 9; distributor = 500; mint = 60; admin = 5; clawback_receiver = 1020 }) 500
        root 500 2 (as_i64 90000))
    ∷ []

abbrev funding : List Instruction
funding = Instruction.mint_to 60 1005 5 500 ∷ Instruction.transfer 1005 1500 5 500 ∷ []

abbrev funded : Book
funded = moved (minted unfunded 1005 500) 1005 1500 500

loading : read_snapshot snapshot 0 ≡ ok snapshot
unfolding read_snapshot
loading = refl

deploying :
    Requests.new_distributor bank tokens paired_hash addresses 5 bare before 9 60 snapshot 20 90000
    ≡ ok creation
unfolding Requests.new_distributor
deploying = rw (loading, building) refl

sending :
    send bank tokens paired_hash addresses (pos 100) creation bare before
    ≡ ok (opened bare 500 60, deployed)
unfolding perform run new_distributor wagmi.Prelude.◌+ℤ◌
sending = refl

asking : Requests.fund bank tokens paired_hash addresses 5 unfunded deployed 9 snapshot ≡ ok funding
unfolding Requests.fund
asking = rw (loading, building) refl

paying :
    send bank tokens paired_hash addresses (pos 200) funding unfunded deployed
    ≡ ok (funded, deployed)
unfolding perform
paying = refl

deploy-verifies_example :
    Requests.verify bank tokens paired_hash addresses 5 funded deployed 9 60
      (as_i64 90000)
      20
      5
      snapshot
      true
    ≡ ok tt
deploy-verifies_example =
    deploy-verifies bank tokens paired_hash addresses 5 (pos 100) (pos 200) bare unfunded before 9
      60 20 90000 snapshot {l' = opened bare 500 60} deploying sending refl (omega arith) refl
      asking paying refl

abbrev escrow_12 : Escrow
escrow_12 = record default_escrow {
  locker = 70;
  owner = 12;
  bump = 254;
  tokens = 1072;
  vote_delegate = 12;
}

abbrev locker_12 : Locker
locker_12 = record (claimed_11.locker) { total_escrow = 1 }

abbrev ready : Accounts
ready = record after {
  voter = record {
    lockers = (70, locker_12) ∷ [];
    escrows = (71, claimed_11.escrow) ∷ (72, escrow_12) ∷ [];
  };
}

readying :
    send bank tokens paired_hash addresses
      (pos 450)
      (Requests.set_up bank tokens paired_hash addresses 12 book after claimed_11.distributor 72)
      book
      after
    ≡ ok (book, ready)
unfolding perform Voter.run new_escrow
readying = refl

locking :
    lock_claim bank paired_hash addresses
      (pos 450)
      book
      (claim_accounts
        (claim_call bank addresses 12 500 claimed_11.distributor 1 200 (leaf_11 ∷ []))
        claimed_11.distributor
        locker_12
        escrow_12)
      200
    ≡ ok (
      moved book 1500 1072 200,
      record locker_12 { locked_supply = 1000 },
      record escrow_12 { amount = 200 },
    )
unfolding increase_locked_amount
locking = refl

claim-pays_example :
    (is : List Instruction) × (l' : Book) × (u' : Accounts) × (d' : MerkleDistributor)
    × (Requests.claim bank tokens paired_hash addresses 12 book after 9 snapshot ≡ ok is)
    × (send bank tokens paired_hash addresses (pos 450) is book after ≡ ok (l', u'))
    × (find 500 u'.distributors ≡ some d')
    × (d'.total_amount_claimed ≡ 300 + 200)
    × (d'.num_nodes_claimed ≡ 1 + 1)
claim-pays_example =
    claim-pays bank tokens paired_hash addresses 12 (pos 450) book book 9 snapshot
      {d = claimed_11.distributor} {k = locker_12} {e = escrow_12} {nodes = 2} {total = 500} history
      refl refl loading finding refl paired_hash-IsCollisionFree (omega arith) building
      (omega arith) (omega arith) refl readying refl refl locking
