-- ===== src/Govern/Setup.antt =====
-- programs/govern/src/instructions: create_governor.rs, set_governance_params.rs and
-- set_voting_reward.rs, the governor and its parameters.
use wagmi.Prelude.{ℕ, Bool, false, List, [], ◌∷◌, pos, ◌==◌, ◌||◌, leb_ℤ}
use wagmi.Chain.{
  Pubkey, default_pubkey, Account, Result, ok, ◌>>◌, vipers, invariant_failed, govern,
  governor_not_found, invariant, assert_keys_eq, has_one, TokenProgram,
}
use wagmi.Chain.Address.{Seeds, FindProgramAddress, seeds_match}
use wagmi.SmartWallet.{SmartWallet}
use wagmi.Govern.State.{Governor, GovernanceParameters, VotingReward}

abbrev pub contains : Pubkey → List Pubkey → Bool
contains key [] = false
contains key (a ∷ owners) = a == key || contains key owners

abbrev pub no_reward : VotingReward
no_reward = record {
  reward_mint = default_pubkey;
  reward_vault = default_pubkey;
  reward_per_proposal = 0;
}

-- The accounts of `create_governor`; `governor` is the address to be initialised, and the base signs.
pub record CreateGovernor : Type 0 where
  pub base : Pubkey
  pub governor : Pubkey
  pub smart_wallet : Account SmartWallet

-- `create_governor`, with the check of `CreateGovernor::validate` first.
unfoldable pub create_governor :
    FindProgramAddress → CreateGovernor → Pubkey → GovernanceParameters → Result Governor
create_governor pda ctx locker params = do
  seeds_match pda (Seeds.governor ctx.base) ctx.governor
  invariant (contains ctx.governor ctx.smart_wallet.info.owners) (govern governor_not_found)
  invariant (leb_ℤ (pos 0) params.timelock_delay_seconds) (vipers invariant_failed)
  ok (record {
    base = ctx.base;
    bump = (pda (Seeds.governor ctx.base)).1;
    proposal_count = 0;
    locker = locker;
    smart_wallet = ctx.smart_wallet.key;
    params = params;
    voting_reward = no_reward;
  })

-- The accounts of `set_governance_params` and `set_locker`; the smart wallet signs.
pub record SetGovernanceParams : Type 0 where
  pub governor : Account Governor
  pub smart_wallet : Pubkey

-- `set_governance_params`.
unfoldable pub set_governance_params : SetGovernanceParams → GovernanceParameters → Result Governor
set_governance_params ctx params = do
  assert_keys_eq ctx.smart_wallet ctx.governor.info.smart_wallet
  ok (record (ctx.governor.info) { params = params })

-- `set_locker`.
unfoldable pub set_locker : SetGovernanceParams → Pubkey → Result Governor
set_locker ctx locker = do
  assert_keys_eq ctx.smart_wallet ctx.governor.info.smart_wallet
  ok (record (ctx.governor.info) { locker = locker })

-- `set_voting_reward`; the smart wallet signs, and the vault is the governor's associated account.
unfoldable pub set_voting_reward : TokenProgram → SetGovernanceParams → Pubkey → ℕ → Result Governor
set_voting_reward tp ctx reward_mint reward_per_proposal = do
  has_one ctx.governor.info.smart_wallet ctx.smart_wallet
  ok (record (ctx.governor.info) {
    voting_reward = record {
      reward_mint = reward_mint;
      reward_vault = tp.associated_address ctx.governor.key reward_mint;
      reward_per_proposal = reward_per_proposal;
    };
  })
