-- ===== src/Chain/Errors.antt =====
-- Results and error codes: libs/vipers/src/error.rs and the `ErrorCode` of each program.
use wagmi.Prelude.{◌≡◌, refl, ◌⊎◌, inl, inr, Option, none, some}

-- libs/vipers/src/error.rs: the codes that the guards raise.
pub data VipersError : Type 0 where
  key_mismatch ata_mismatch program_id_mismatch integer_overflow owner_mismatch : VipersError
  invalid_ata invariant_failed option_unwrap_failed keys_must_not_match : VipersError
  token_account_is_non_zero unknown_bump : VipersError

-- programs/locked-voter/src/lib.rs
pub data LockedVoterError : Type 0 where
  lockup_duration_too_short lockup_duration_too_long refresh_cannot_shorten : LockedVoterError
  escrow_not_ended max_lock_is_set expiration_is_less_than_current_time : LockedVoterError
  locker_is_expired expiration_is_not_zero amount_is_zero max_lock_is_not_set : LockedVoterError
  invalid_amount_for_partial_unstaking escrow_has_been_ended : LockedVoterError
  invalid_unstaking_lock_duration partial_unstaking_amount_is_not_zero : LockedVoterError
  partial_unstaking_is_not_ended : LockedVoterError

-- programs/met-voter/src/lib.rs
pub data MetVoterError : Type 0 where
  lockup_duration_too_short lockup_duration_too_long refresh_cannot_shorten : MetVoterError
  escrow_not_ended max_lock_is_set expiration_is_less_than_current_time : MetVoterError
  locker_is_expired expiration_is_not_zero amount_is_zero : MetVoterError

-- programs/govern/src/lib.rs
pub data GovernError : Type 0 where
  invalid_vote_side invalid_proposal_type governor_not_found voting_delay_not_met : GovernError
  proposal_not_draft proposal_not_active invalid_max_option not_yes_no_proposal : GovernError
  not_option_proposal invalid_option_descriptions : GovernError

-- programs/smart-wallet/src/lib.rs
pub data SmartWalletError : Type 0 where
  invalid_owner invalid_eta delay_too_high not_enough_signers : SmartWalletError
  transaction_is_stale transaction_not_ready already_executed : SmartWalletError
  invalid_threshold owner_set_changed subaccount_owner_mismatch : SmartWalletError
  num_signer_is_not_zero : SmartWalletError

-- programs/merkle-distributor/src/error.rs
pub data DistributorError : Type 0 where
  invalid_proof drop_already_claimed exceeded_max_claim exceeded_max_num_nodes : DistributorError
  unauthorized mint_mismatch owner_mismatch payer_mismatch claim_expired : DistributorError
  arithmetic_error insufficient_clawback_delay same_clawback_receiver : DistributorError
  same_admin clawback_before_start clawback_already_claimed : DistributorError

-- What the checks that an `#[account(..)]` attribute asks for can raise.
pub data AnchorError : Type 0 where
  constraint_has_one constraint_raw constraint_signer constraint_token_mint : AnchorError
  constraint_seeds constraint_address constraint_associated : AnchorError
  account_not_initialized account_already_in_use : AnchorError

-- `panic` is a failed `unwrap`, assertion, index or overflow check; `token` and `invoked` are errors
-- of a program that is called and is not part of the repository, `client` those of the library by
-- which the command line tools reach the chain.
pub data Error : Type 0 where
  vipers : VipersError → Error
  anchor : AnchorError → Error
  locked_voter : LockedVoterError → Error
  met_voter : MetVoterError → Error
  govern : GovernError → Error
  smart_wallet : SmartWalletError → Error
  distributor : DistributorError → Error
  token invoked client panic : Error

-- An instruction that fails changes nothing: the runtime drops all its writes.
pub data Result {ℓ} (T : Type ℓ) : Type ℓ where
  err : (reason : Error) → Result T
  ok : (value : T) → Result T

-- The operator `?`: an error ends the instruction, a value goes on to the rest.
abbrev pub ◌>>=◌ {ℓ κ} :
    {T : Type ℓ} {U : Type κ} → (step : Result T) → (rest : T → Result U) → Result U
err reason >>= rest = err reason
ok value >>= rest = rest value

-- `?` on a check, which gives no value.
abbrev pub ◌>>◌ {ℓ} : {U : Type ℓ} → (check : Result (Unit {0})) → (rest : Result U) → Result U
check >> rest = check >>= (λ done. rest)

infixl 5 ◌>>=◌ ◌>>◌
-- Where a whole instruction succeeds, so does its first step, and the rest on that step's value.
pub >>=-eq-ok {ℓ κ} :
    {T : Type ℓ} {U : Type κ} (step : Result T) (rest : T → Result U) {answer : U}
    → (step >>= rest) ≡ ok answer
    → (value : T) × (step ≡ ok value) × (rest value ≡ ok answer)
>>=-eq-ok (err reason) rest succeeds = cc
>>=-eq-ok (ok value) rest succeeds = (value, refl, succeeds)

pub ok-injective {ℓ} : {T : Type ℓ} {t u : T} → ok t ≡ ok u → u ≡ t
ok-injective same = cc

-- The value, without the reason of a failure.
abbrev pub succeeded {ℓ} : {T : Type ℓ} → Result T → Option T
succeeded (err reason) = none
succeeded (ok value) = some value

pub Result-cases {ℓ} :
    {T : Type ℓ} (r : Result T)
    → ((reason : Error) × (r ≡ err reason)) ⊎ ((value : T) × (r ≡ ok value))
Result-cases (err reason) = inl (reason, refl)
Result-cases (ok value) = inr (value, refl)

-- A chain of steps whose first step is known.
pub first_step {ℓ κ} :
    {T : Type ℓ} {U : Type κ} (step : Result T) (rest : T → Result U) {v : T} {w : Result U}
    → step ≡ ok v
    → rest v ≡ w
    → (step >>= rest) ≡ w
first_step step rest h k = rw h k
