-- ===== src/SmartWallet/State.antt =====
-- programs/smart-wallet/src/state.rs: wallets and their transactions. The unused `reserved` field is
-- left out.
use wagmi.Prelude.{
  ℕ, ◌+◌, ◌*◌, suc, Bool, List, [], ◌∷◌, Option, none, some, ◌==◌, if◌then◌else◌, ℤ, pos, negsuc,
}
use wagmi.Chain.{Pubkey, Result, smart_wallet, invalid_owner, unwrap_opt}

pub record SmartWallet : Type 0 where
  pub base : Pubkey
  pub bump : ℕ  -- u8
  pub threshold : ℕ  -- u64
  pub minimum_delay : ℤ  -- i64
  pub grace_period : ℤ  -- i64
  pub max_owners : ℕ  -- u8
  pub owner_set_seqno : ℕ  -- u32
  pub num_transactions : ℕ  -- u64
  pub owners : List Pubkey

pub record TxAccountMeta : Type 0 where
  pub pubkey : Pubkey
  pub is_signer : Bool
  pub is_writable : Bool

pub record TxInstruction : Type 0 where
  pub program_id : Pubkey
  pub keys : List TxAccountMeta
  pub payload : List ℕ  -- `data`, bytes

pub record Transaction : Type 0 where
  pub smart_wallet : Pubkey
  pub index : ℕ  -- u64
  pub bump : ℕ  -- u8
  pub proposer : Pubkey
  pub instructions : List TxInstruction
  pub signers : List Bool
  pub owner_set_seqno : ℕ  -- u32
  pub eta : ℤ  -- i64
  pub executor : Pubkey
  pub executed_at : ℤ  -- i64
  pub created_at : ℤ  -- i64

-- `SECONDS_PER_DAY`, `MAX_DELAY_SECONDS`, `DEFAULT_GRACE_PERIOD` and `NO_ETA` of lib.rs.
abbrev pub seconds_per_day : ℕ
seconds_per_day = 60 * 60 * 24

abbrev pub max_delay_seconds : ℤ
max_delay_seconds = pos (365 * seconds_per_day)

abbrev pub default_grace_period : ℤ
default_grace_period = pos (14 * seconds_per_day)

abbrev pub no_eta : ℤ
no_eta = negsuc 0

-- `iter().position(|a| *a == key)`.
abbrev pub position : Pubkey → List Pubkey → Option ℕ
position key [] = none
position key (a ∷ owners) =
    let rest = position key owners in
    if a == key then some 0 else elim rest [ none ↦ none | some i ↦ some (suc i) ]

-- `SmartWallet::owner_index`.
abbrev pub owner_index : SmartWallet → Pubkey → Result ℕ
owner_index wallet key = unwrap_opt (position key wallet.owners) (smart_wallet invalid_owner)

abbrev pub count_true : List Bool → ℕ
count_true [] = 0
count_true (b ∷ bs) = (if b then 1 else 0) + count_true bs

-- `Transaction::num_signers`.
abbrev pub num_signers : Transaction → ℕ
num_signers tx = count_true tx.signers
