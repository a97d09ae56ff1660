-- ===== src/Cli/Client.antt =====
-- What the command line tools under cli share: reading accounts, assertions and the names of the
-- programs. `anchor_client`, which reaches the chain, is not part of the repository: a tool is a
-- function from the accounts that it can read to the instructions of the transaction that it sends.
use wagmi.Prelude.{
  ℕ, ◌≡◌, refl, arith, ==_refl, ==→eq, Bool, Store, find, none, some, ◌==◌, ◌&&◌, List, [], ◌∷◌,
  true, false,
}
use wagmi.Chain.{Pubkey, client, panic, Result, ok, err, invariant}
use wagmi.Govern.{GovernanceParameters}

-- `program.account(address)?`.
abbrev pub fetch {ℓ} : {T : Type ℓ} → Pubkey → Store T → Result T
fetch k m = elim (find k m) [ none ↦ err client | some t ↦ ok t ]

-- `program.rpc().get_account_data(&address).is_err()`.
abbrev pub is_missing {ℓ} : {T : Type ℓ} → Pubkey → Store T → Bool
is_missing k m = elim (find k m) [ none ↦ true | some t ↦ false ]

-- `assert_eq!`.
abbrev pub assert : Bool → Result (Unit {0})
assert test = invariant test panic

-- `==` on lists of addresses.
abbrev pub same_keys : List Pubkey → List Pubkey → Bool
same_keys [] [] = true
same_keys [] (k ∷ ks) = false
same_keys (j ∷ js) [] = false
same_keys (j ∷ js) (k ∷ ks) = j == k && same_keys js ks

-- The addresses of the programs, `declare_id!`.
pub record ProgramIds : Type 0 where
  pub smart_wallet : Pubkey
  pub govern : Pubkey
  pub locked_voter : Pubkey
  pub met_voter : Pubkey

-- `InstructionData::data` of the instructions that a smart wallet is asked to make, which anchor
-- generates.
pub record InstructionData : Type 0 where
  pub set_owners : List Pubkey → List ℕ
  pub change_threshold : ℕ → List ℕ
  pub set_governance_params : GovernanceParameters → List ℕ
  pub activate_proposal_initial_phase : List ℕ

pub fetch-of_find {ℓ} :
    {T : Type ℓ} (k : Pubkey) (m : Store T) {t : T} → find k m ≡ some t → fetch k m ≡ ok t
fetch-of_find k m h = ground arith

pub fetch-eq-ok {ℓ} :
    {T : Type ℓ} (k : Pubkey) (m : Store T) {t : T} → fetch k m ≡ ok t → find k m ≡ some t
fetch-eq-ok k m h = ground arith

pub assert_same : (a b : ℕ) → a ≡ b → assert (a == b) ≡ ok tt
assert_same a b e = ground (arith, ==_refl a)

pub same_keys_refl : (ks : List Pubkey) → same_keys ks ks ≡ true
same_keys_refl [] = refl
same_keys_refl (k ∷ ks) = ground (arith, ==_refl k, same_keys_refl ks)

pub same_keys→eq : (js ks : List Pubkey) → same_keys js ks ≡ true → js ≡ ks
same_keys→eq [] [] h = refl
same_keys→eq [] (k ∷ ks) h = cc
same_keys→eq (j ∷ js) [] h = cc
same_keys→eq (j ∷ js) (k ∷ ks) h = ground (arith, ==→eq j k, same_keys→eq js ks)
