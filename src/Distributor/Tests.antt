-- ===== src/Distributor/Tests.antt =====
-- A distributor (programs/merkle-distributor) is created, and user 11 claims.
use wagmi.Prelude.{◌≡◌, refl, true, some, [], ◌∷◌, pos, find}
use wagmi.Chain.{ok}
use wagmi.Chain.Bank.{bank}
use wagmi.Chain.Pairing.{paired_hash}
use wagmi.Distributor.State.{MerkleDistributor}
use wagmi.Distributor.Admin
use wagmi.Distributor.Program.{Accounts, Call, History, run}
use wagmi.Distributor.Accounting.{IsAccounted, claimed_nodes, History-IsAccounted}
use wagmi.Distributor.Custody.{History-clawed_back}
use wagmi.Distributor.Runs.{before, after, the_claim, history}
use wagmi.Distributor.Fixtures.{addresses, distributor, book}

History-IsAccounted_example : IsAccounted addresses after (the_claim ∷ [])
History-IsAccounted_example = History-IsAccounted bank paired_hash addresses history refl

abbrev closed : MerkleDistributor
closed = record distributor { clawed_back = true }

abbrev clawed : Accounts
clawed = record before { distributors = (500, closed) ∷ [] }

abbrev handed_over : Accounts
handed_over = record before { distributors = (500, record closed { admin = 6 }) ∷ [] }

handing_over :
    run bank paired_hash addresses (pos 400) (Call.set_admin 500 5 6) book clawed
    ≡ ok (book, handed_over)
unfolding run Admin.set_admin
handing_over = refl

History-clawed_back_example :
    ((d : MerkleDistributor) × (find 500 handed_over.distributors ≡ some d)
      × (d.clawed_back ≡ true))
    × (claimed_nodes 500 [] ≡ 0)
History-clawed_back_example =
    History-clawed_back bank paired_hash addresses 500 {d = closed}
      (History.call (pos 400) (Call.set_admin 500 5 6) book book History.start handing_over) refl
      refl
