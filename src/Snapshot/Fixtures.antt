-- ===== src/Snapshot/Fixtures.antt =====
-- A snapshot for tests, with the users 11 and 12 (cli/merkle_distributor).
use wagmi.Prelude.{◌≡◌, refl, some, [], ◌∷◌}
use wagmi.Chain.{ok}
use wagmi.Chain.Pairing.{paired_hash}
use wagmi.Distributor.{leaf_hash, next_hash}
use wagmi.Distributor.Fixtures.{leaf_11, root}
use wagmi.Snapshot.Trees.{find_proof, build_layers, get_root}
use wagmi.Snapshot.Allocations.{Snapshot, build_merkle_tree, get_user_claim_info}
use wagmi.Snapshot.Limits.{build_tree}

abbrev pub snapshot : Snapshot
snapshot = record { pubkey = 11; amount = 300 } ∷ record { pubkey = 12; amount = 200 } ∷ []

pub building : build_tree paired_hash snapshot ≡ ok (2, 500, root)
unfolding build_tree build_merkle_tree build_layers get_root leaf_hash next_hash
building = refl

pub finding : get_user_claim_info paired_hash snapshot 12 ≡ some (1, 200, leaf_11 ∷ [])
unfolding get_user_claim_info build_merkle_tree build_layers find_proof leaf_hash next_hash
finding = refl
