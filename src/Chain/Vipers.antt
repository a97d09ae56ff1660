-- ===== src/Chain/Vipers.antt =====
-- The guards of libs/vipers/src/assert.rs, addresses, and the checks of `#[account(..)]` attributes.
use wagmi.Prelude.{ℕ, Bool, true, false, Option, none, some, ◌==◌, not, Store, find, ◌≡◌, arith}
use wagmi.Chain.Errors.{
  Error, vipers, anchor, integer_overflow, key_mismatch, keys_must_not_match, constraint_has_one,
  constraint_raw, account_not_initialized, account_already_in_use, Result, ok, err,
}

-- An address. The programs only compare addresses, so a number stands for its 32 bytes.
abbrev pub Pubkey : Type 0
Pubkey = ℕ

-- `Pubkey::default()`.
abbrev pub default_pubkey : Pubkey
default_pubkey = 0

-- `Account<'info, T>`: an address and what is stored there.
pub record Account {ℓ} (T : Type ℓ) : Type ℓ where
  pub key : Pubkey
  pub info : T

-- `invariant!` and `require!`.
abbrev pub invariant : Bool → Error → Result (Unit {0})
invariant true e = ok tt
invariant false e = err e

-- `unwrap_opt!`.
abbrev pub unwrap_opt {ℓ} : {A : Type ℓ} → Option A → Error → Result A
unwrap_opt none e = err e
unwrap_opt (some a) e = ok a

-- `unwrap_int!`.
abbrev pub unwrap_int {ℓ} : {A : Type ℓ} → Option A → Result A
unwrap_int o = unwrap_opt o (vipers integer_overflow)

-- `assert_keys_eq!`.
abbrev pub assert_keys_eq : Pubkey → Pubkey → Result (Unit {0})
assert_keys_eq a b = invariant (a == b) (vipers key_mismatch)

-- `assert_keys_neq!`.
abbrev pub assert_keys_neq : Pubkey → Pubkey → Result (Unit {0})
assert_keys_neq a b = invariant (not (a == b)) (vipers keys_must_not_match)

-- `has_one = name`: the address stored under that name is that of the account passed.
abbrev pub has_one : Pubkey → Pubkey → Result (Unit {0})
has_one stored passed = invariant (stored == passed) (anchor constraint_has_one)

-- `constraint = test`.
abbrev pub constraint : Bool → Result (Unit {0})
constraint test = invariant test (anchor constraint_raw)

-- An account that is passed exists.
abbrev pub load {ℓ} : {T : Type ℓ} → Pubkey → Store T → Result (Account T)
load k m = elim (find k m) [
  | none ↦ err (anchor account_not_initialized)
  | some t ↦ ok (record { key = k; info = t })
]

-- `init`: the account does not exist yet.
abbrev pub init {ℓ} : {T : Type ℓ} → Pubkey → Store T → Result (Unit {0})
init k m = elim (find k m) [ none ↦ ok tt | some t ↦ err (anchor account_already_in_use) ]

-- `if test { body }`, for the checks of the body.
abbrev pub when : Bool → Result (Unit {0}) → Result (Unit {0})
when true body = body
when false body = ok tt

-- What a successful `load` says.
pub load-eq-ok {ℓ} :
    {T : Type ℓ} (k : Pubkey) (m : Store T) {a : Account T}
    → load k m ≡ ok a
    → (a.key ≡ k) × (find k m ≡ some a.info)
load-eq-ok k m h = ground arith

pub init-eq-ok {ℓ} : {T : Type ℓ} (k : Pubkey) (m : Store T) → init k m ≡ ok tt → find k m ≡ none
init-eq-ok k m h = ground arith

pub init-of_none {ℓ} : {T : Type ℓ} (k : Pubkey) (m : Store T) → find k m ≡ none → init k m ≡ ok tt
init-of_none k m h = ground arith

pub load-of_find {ℓ} :
    {T : Type ℓ} (k : Pubkey) (m : Store T) {t : T}
    → find k m ≡ some t
    → load k m ≡ ok (record { key = k; info = t })
load-of_find k m h = ground arith

pub unwrap_opt-eq-ok {ℓ} :
    {A : Type ℓ} (o : Option A) (e : Error) {a : A} → unwrap_opt o e ≡ ok a → o ≡ some a
unwrap_opt-eq-ok none e h = cc
unwrap_opt-eq-ok (some b) e h = cc
