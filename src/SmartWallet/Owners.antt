-- ===== src/SmartWallet/Owners.antt =====
-- programs/smart-wallet/src/instructions/create_smart_wallet.rs and auth.rs: creating a wallet, and
-- changing its owners and threshold.
use wagmi.Prelude.{
  ℕ, Bool, List, ℤ, pos, leb, ltb, leb_ℤ, ltb_ℤ, if◌then◌else◌, length, checked_sub, Option, some,
  none, ◌^◌, ◌+◌,
}
use wagmi.Chain.{
  Pubkey, Account, Result, ok, ◌>>=◌, ◌>>◌, vipers, invariant_failed, smart_wallet, delay_too_high,
  invalid_threshold, anchor, constraint_signer, invariant, unwrap_int,
}
use wagmi.Chain.Address.{Seeds, FindProgramAddress, seeds_match}
use wagmi.SmartWallet.State.{SmartWallet, max_delay_seconds, default_grace_period}

-- `CreateSmartWallet::create_smart_wallet`; the address is derived from the base key, which signs.
unfoldable pub create_smart_wallet :
    FindProgramAddress → Pubkey → Pubkey → ℕ → List Pubkey → ℕ → ℤ → Result SmartWallet
create_smart_wallet pda base key max_owners owners threshold minimum_delay = do
  seeds_match pda (Seeds.smart_wallet base) key
  invariant (leb_ℤ (pos 0) minimum_delay) (vipers invariant_failed)
  invariant (ltb_ℤ minimum_delay max_delay_seconds) (smart_wallet delay_too_high)
  invariant (leb (length owners) max_owners) (vipers invariant_failed)
  ok (record {
    base = base;
    bump = (pda (Seeds.smart_wallet base)).1;
    threshold = threshold;
    minimum_delay = minimum_delay;
    grace_period = default_grace_period;
    max_owners = max_owners;
    owner_set_seqno = 0;
    num_transactions = 0;
    owners = owners;
  })

-- `u32::checked_add`.
abbrev pub checked_add_u32 : ℕ → ℕ → Option ℕ
checked_add_u32 a b = if ltb (a + b) (2 ^ 32) then some (a + b) else none

-- The accounts of `set_owners` and `change_threshold`; `is_signer` is set when the wallet signs.
pub record Auth : Type 0 where
  pub wallet : Account SmartWallet
  pub is_signer : Bool

-- `#[account(mut, signer)]` and `Auth::validate`.
abbrev pub validate_auth : Auth → Result (Unit {0})
validate_auth ctx = do
  invariant ctx.is_signer (anchor constraint_signer)
  invariant ctx.is_signer (vipers invariant_failed)

-- `Auth::set_owners`.
unfoldable pub set_owners : Auth → List Pubkey → Result SmartWallet
set_owners ctx owners = do
  validate_auth ctx
  let wallet = ctx.wallet.info
  threshold ←
      if leb (length owners) wallet.threshold
      then unwrap_int (checked_sub (length owners) 1)
      else ok wallet.threshold
  owner_set_seqno ← unwrap_int (checked_add_u32 wallet.owner_set_seqno 1)
  ok (record wallet { threshold = threshold; owners = owners; owner_set_seqno = owner_set_seqno })

-- `Auth::change_threshold`.
unfoldable pub change_threshold : Auth → ℕ → Result SmartWallet
change_threshold ctx threshold = do
  validate_auth ctx
  let wallet = ctx.wallet.info
  invariant (ltb threshold (length wallet.owners)) (smart_wallet invalid_threshold)
  ok (record wallet { threshold = threshold })
