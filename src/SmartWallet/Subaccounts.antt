-- ===== src/SmartWallet/Subaccounts.antt =====
-- programs/smart-wallet: the addresses that a wallet signs for beside its own.
-- instructions/create_subaccount_info.rs, instructions/owner_invoke_instruction.rs, the subaccounts of
-- state.rs, and execute_transaction_derived of lib.rs.
use wagmi.Prelude.{ℕ, Bool, true, List, [], ◌∷◌, ◌==◌, if◌then◌else◌, ℤ, Option}
use wagmi.Chain.{
  Pubkey, Account, Result, ok, err, ◌>>=◌, ◌>>◌, smart_wallet, subaccount_owner_mismatch, invoked,
  panic, invariant, unwrap_opt,
}
use wagmi.Chain.Address.{Seeds, FindProgramAddress, seeds_match}
use wagmi.SmartWallet.State.{SmartWallet, Transaction, TxInstruction, TxAccountMeta, owner_index}
use wagmi.SmartWallet.Transactions.{Approve, execute_transaction}

pub data SubaccountType : Type 0 where
  derived owner_invoker : SubaccountType

pub record SubaccountInfo : Type 0 where
  pub smart_wallet : Pubkey
  pub subaccount_type : SubaccountType
  pub index : ℕ  -- u64

-- The seeds of a subaccount of a wallet.
abbrev pub subaccount_seeds : SubaccountType → Pubkey → ℕ → Seeds
subaccount_seeds SubaccountType.derived wallet index = Seeds.smart_wallet_derived wallet index
subaccount_seeds SubaccountType.owner_invoker wallet index =
    Seeds.smart_wallet_owner_invoker wallet index

-- `CreateSubaccountInfo::create_subaccount_info`, at the address to be initialised. Anyone may call
-- it.
unfoldable pub create_subaccount_info :
    FindProgramAddress → Pubkey → Pubkey → Pubkey → ℕ → SubaccountType → Result SubaccountInfo
create_subaccount_info pda subaccount_info subaccount wallet index subaccount_type = do
  seeds_match pda (Seeds.subaccount_info subaccount) subaccount_info
  let address = (pda (subaccount_seeds subaccount_type wallet index)).0
  invariant (address == subaccount) (smart_wallet subaccount_owner_mismatch)
  ok (record { smart_wallet = wallet; subaccount_type = subaccount_type; index = index })

-- `invoke_signed` of the SDK is a parameter: the seeds and the bump of the signer, the state of the
-- chain, the instruction.
abbrev pub InvokeSigned {ℓ} : Type ℓ → Type ℓ
InvokeSigned World = Seeds → ℕ → World → TxInstruction → Option World

-- The accounts of `owner_invoke_instruction` and `owner_invoke_instruction_v2`; the owner signs.
pub record OwnerInvokeInstruction : Type 0 where
  pub wallet : Account SmartWallet
  pub owner : Pubkey

-- What the runtime tells of a further account that is passed.
pub record AccountInfo : Type 0 where
  pub key : Pubkey
  pub is_signer : Bool
  pub is_writable : Bool

-- The account in the instruction that is invoked: the invoker signs.
abbrev pub account_meta : Pubkey → AccountInfo → TxAccountMeta
account_meta invoker v = record {
  pubkey = v.key;
  is_signer = if v.key == invoker then true else v.is_signer;
  is_writable = v.is_writable;
}

abbrev pub account_metas : Pubkey → List AccountInfo → List TxAccountMeta
account_metas invoker [] = []
account_metas invoker (v ∷ accounts) = account_meta invoker v ∷ account_metas invoker accounts

module _ {ℓ} {World : Type ℓ} (invoke_signed : InvokeSigned World) where
  -- `execute_transaction_derived`: as `execute_transaction`, signed by a derived address.
  unfoldable pub execute_transaction_derived :
      ℤ → Approve → ℕ → ℕ → World → Result (World × Transaction)
  execute_transaction_derived current_ts ctx index bump world =
      execute_transaction (invoke_signed (Seeds.smart_wallet_derived ctx.wallet.key index) bump)
        current_ts ctx world

  -- `OwnerInvokeInstruction::owner_invoke_instruction`.
  unfoldable pub owner_invoke_instruction :
      OwnerInvokeInstruction → ℕ → ℕ → TxInstruction → World → Result World
  owner_invoke_instruction ctx index bump ix world = do
    owner ← owner_index ctx.wallet.info ctx.owner
    unwrap_opt (invoke_signed (Seeds.smart_wallet_owner_invoker ctx.wallet.key index) bump world ix)
        invoked

  -- The instruction of `owner_invoke_instruction_v2`: the program is the first further account, and
  -- without one the index panics.
  abbrev pub instruction_of : Pubkey → List ℕ → List AccountInfo → Result TxInstruction
  instruction_of invoker payload [] = err panic
  instruction_of invoker payload (program ∷ accounts) = ok (record {
    program_id = program.key;
    keys = account_metas invoker accounts;
    payload = payload;
  })

  -- `OwnerInvokeInstruction::owner_invoke_instruction_v2`.
  unfoldable pub owner_invoke_instruction_v2 :
      OwnerInvokeInstruction → ℕ → ℕ → Pubkey → List ℕ → List AccountInfo → World → Result World
  owner_invoke_instruction_v2 ctx index bump invoker payload remaining_accounts world = do
    owner ← owner_index ctx.wallet.info ctx.owner
    ix ← instruction_of invoker payload remaining_accounts
    unwrap_opt (invoke_signed (Seeds.smart_wallet_owner_invoker ctx.wallet.key index) bump world ix)
        invoked
