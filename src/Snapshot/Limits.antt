-- ===== src/Snapshot/Limits.antt =====
-- cli/merkle_distributor/src/utils.rs: what is read from a snapshot and checked of it, and the
-- limits of the distributor that is built on it.
use wagmi.Prelude.{
  ℕ, ◌^◌, ◌==◌, not, ltb, if◌then◌else◌, Bool, true, false, [], ◌∷◌, length, checked_add,
  checked_mul, u64_mod,
}
use wagmi.Chain.{Pubkey, Result, ok, ◌>>=◌, ◌>>◌, panic, invariant, unwrap_opt}
use wagmi.Chain.Hashing.{Hash, Hashv}
use wagmi.Snapshot.Trees.{get_root}
use wagmi.Snapshot.Allocations.{Snapshot, build_merkle_tree}

-- The sum of `build_tree`, which panics on overflow.
abbrev pub add_amounts : ℕ → Snapshot → Result ℕ
add_amounts max_total_claim [] = ok max_total_claim
add_amounts max_total_claim (allocation ∷ rest) = do
  sum ← unwrap_opt (checked_add max_total_claim allocation.amount) panic
  add_amounts sum rest

-- `build_tree`: the limits of the distributor and its root.
unfoldable pub build_tree : Hashv → Snapshot → Result (ℕ × ℕ × Hash)
build_tree hashv snapshot = do
  max_total_claim ← add_amounts 0 snapshot
  tree ← unwrap_opt (build_merkle_tree hashv snapshot) panic
  root ← get_root tree
  ok (length snapshot, max_total_claim, root)

-- Whether a user is in a list.
abbrev pub is_listed : Pubkey → Snapshot → Bool
is_listed user [] = false
is_listed user (allocation ∷ rest) = if allocation.pubkey == user then true else is_listed user rest

-- The check of `read_snapshot` for duplicates.
abbrev pub check_duplicates : Snapshot → Result (Unit {0})
check_duplicates [] = ok tt
check_duplicates (item ∷ rest) = do
  invariant (not (is_listed item.pubkey rest)) panic
  check_duplicates rest

-- The amounts in the smallest unit; the product is not a checked one.
abbrev pub with_decimals : ℕ → Snapshot → Result Snapshot
with_decimals unit [] = ok []
with_decimals unit (x ∷ rest) = do
  amount ← unwrap_opt (checked_mul x.amount unit) panic
  list ← with_decimals unit rest
  ok (record x { amount = amount } ∷ list)

-- `10u64.pow(decimals)` for each item, so that it panics only where there is one.
abbrev pub scale : ℕ → Snapshot → Result Snapshot
scale decimals [] = ok []
scale decimals (x ∷ rest) = do
  invariant (ltb (10 ^ decimals) u64_mod) panic
  with_decimals (10 ^ decimals) (x ∷ rest)

-- `read_snapshot`, of the list that the file holds.
unfoldable pub read_snapshot : Snapshot → ℕ → Result Snapshot
read_snapshot list decimals = do check_duplicates list; scale decimals list
