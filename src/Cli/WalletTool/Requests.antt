-- ===== src/Cli/WalletTool/Requests.antt =====
-- cli/smartwallet/src/main.rs: the commands, as the instructions that they send.
use wagmi.Prelude.{
  ℕ, zero, suc, ◌%◌, ℤ, ◌==◌, ◌==ℤ◌, ◌+◌, true, false, leb, ltb, if◌then◌else◌, List, [], ◌∷◌, ◌++◌,
  length,
}
use wagmi.Chain.{Pubkey, panic, Result, ok, ◌>>=◌, ◌>>◌, unwrap_opt}
use wagmi.Chain.Address.{Seeds, FindProgramAddress}
use wagmi.SmartWallet.{SmartWallet, TxAccountMeta, TxInstruction, position}
use wagmi.SmartWallet.Program.{Call}
use wagmi.Govern.{contains}
use wagmi.Cli.Client.{ProgramIds, InstructionData, fetch, assert, same_keys}
use wagmi.Cli.WalletTool.Commands.{Command, View, Instruction}

-- `Vec::remove`.
abbrev pub remove_at : List Pubkey → ℕ → List Pubkey
remove_at [] i = []
remove_at (k ∷ ks) zero = ks
remove_at (k ∷ ks) (suc i) = k ∷ remove_at ks i

-- The accounts that the calls of a transaction need: the program and the keys of each. None signs.
abbrev pub key_metas : List TxAccountMeta → List TxAccountMeta
key_metas [] = []
key_metas (key ∷ keys) = record key { is_signer = false } ∷ key_metas keys

abbrev pub remaining_accounts : List TxInstruction → List TxAccountMeta
remaining_accounts [] = []
remaining_accounts (ix ∷ instructions) =
    (record { pubkey = ix.program_id; is_signer = false; is_writable = false } ∷ key_metas ix.keys)
    ++ remaining_accounts instructions

abbrev pub smart_wallet_of : FindProgramAddress → Pubkey → Pubkey
smart_wallet_of pda base = (pda (Seeds.smart_wallet base)).0

abbrev pub governor_of : FindProgramAddress → Pubkey → Pubkey
governor_of pda base = (pda (Seeds.governor base)).0

-- An instruction that the wallet is asked to make on itself.
abbrev pub on_itself : ProgramIds → Pubkey → List ℕ → TxInstruction
on_itself ids wallet payload = record {
  program_id = ids.smart_wallet;
  keys = record { pubkey = wallet; is_signer = true; is_writable = true } ∷ [];
  payload = payload;
}

module _ (pda : FindProgramAddress) (ids : ProgramIds) (code : InstructionData) (payer : Pubkey)
    (v : View) where
  abbrev pub wallet_state : Pubkey → Result SmartWallet
  wallet_state base = fetch (smart_wallet_of pda base) v.wallets.wallets

  -- The owners that `verify` expects: with the governor, where there is one more than was given.
  abbrev pub expected_owners : Pubkey → SmartWallet → List Pubkey → List Pubkey
  expected_owners base state owners =
      if length state.owners == length owners + 1
      then owners ++ governor_of pda base ∷ []
      else owners

  -- `verify`.
  unfoldable pub verify : Pubkey → ℕ → ℕ → ℤ → List Pubkey → Result (Unit {0})
  verify base max_owners threshold minimum_delay owners = do
    state ← wallet_state base
    assert (state.max_owners == max_owners)
    assert (state.threshold == threshold)
    assert (state.minimum_delay ==ℤ minimum_delay)
    assert (same_keys state.owners (expected_owners base state owners))

  -- `create_smart_wallet`; the base signs. The number of owners is cast to a u8.
  unfoldable pub create_smart_wallet : Pubkey → ℕ → ℕ → ℤ → List Pubkey → Result (List Instruction)
  create_smart_wallet base max_owners threshold minimum_delay owners = do
    let all_owners = owners ++ governor_of pda base ∷ []
    assert (leb (length all_owners % 256) max_owners)
    ok (
        Instruction.call (
          Call.create_smart_wallet base (smart_wallet_of pda base) max_owners all_owners threshold
            minimum_delay)
        ∷ [])

  -- `create_transaction`.
  unfoldable pub create_transaction : Pubkey → List TxInstruction → Result (List Instruction)
  create_transaction base instructions = do
    state ← wallet_state base
    let wallet = smart_wallet_of pda base
    let transaction = (pda (Seeds.transaction wallet state.num_transactions)).0
    ok (Instruction.call (Call.create_transaction wallet transaction payer instructions) ∷ [])

  abbrev pub create_set_owners_tx : Pubkey → List Pubkey → Result (List Instruction)
  create_set_owners_tx base owners =
      create_transaction base
        (on_itself ids (smart_wallet_of pda base) (code.set_owners owners) ∷ [])

  -- `create_add_new_owner_tx`: a message, and nothing is sent, where the owner exists or there is no
  -- place.
  unfoldable pub create_add_new_owner_tx : Pubkey → Pubkey → Result (List Instruction)
  create_add_new_owner_tx base new_owner = do
    state ← wallet_state base
    let owners = state.owners ++ new_owner ∷ []
    if contains new_owner state.owners
        then ok []
        else if ltb state.max_owners (length owners)
        then ok []
        else create_set_owners_tx base owners

  -- `create_remove_owner_tx`.
  unfoldable pub create_remove_owner_tx : Pubkey → Pubkey → Result (List Instruction)
  create_remove_owner_tx base owner = do
    state ← wallet_state base
    if leb (length state.owners) state.threshold
        then ok []
        else if owner == governor_of pda base
        then ok []
        else do
          index ← unwrap_opt (position owner state.owners) panic
          create_set_owners_tx base (remove_at state.owners index)

  abbrev pub create_change_threshold_tx : Pubkey → ℕ → Result (List Instruction)
  create_change_threshold_tx base threshold =
      create_transaction base
        (on_itself ids (smart_wallet_of pda base) (code.change_threshold threshold) ∷ [])

  abbrev pub create_set_governance_params_tx : Pubkey → ℕ → ℕ → ℕ → ℤ → Result (List Instruction)
  create_set_governance_params_tx base voting_delay voting_period quorum_votes delay =
      create_transaction base (
        record {
          program_id = ids.govern;
          keys =
              record { pubkey = governor_of pda base; is_signer = false; is_writable = true }
              ∷ record { pubkey = smart_wallet_of pda base; is_signer = true; is_writable = false }
              ∷ [];
          payload = code.set_governance_params (record {
            voting_delay = voting_delay;
            voting_period = voting_period;
            quorum_votes = quorum_votes;
            timelock_delay_seconds = delay;
          });
        }
        ∷ [])

  -- `create_activate_proposal_tx`: the activation in the initial phase of met-voter.
  unfoldable pub create_activate_proposal_tx : Pubkey → Pubkey → Result (List Instruction)
  create_activate_proposal_tx base proposal = do
    proposal_state ← fetch proposal v.proposals
    governor_state ← fetch proposal_state.governor v.governors
    create_transaction base (
        record {
          program_id = ids.met_voter;
          keys =
              record { pubkey = governor_state.locker; is_signer = false; is_writable = true }
              ∷ record { pubkey = proposal_state.governor; is_signer = false; is_writable = true }
              ∷ record { pubkey = proposal; is_signer = false; is_writable = true }
              ∷ record { pubkey = ids.govern; is_signer = false; is_writable = false }
              ∷ record { pubkey = smart_wallet_of pda base; is_signer = true; is_writable = true }
              ∷ [];
          payload = code.activate_proposal_initial_phase;
        }
        ∷ [])

  -- `execute_transaction`.
  unfoldable pub execute_transaction : Pubkey → Pubkey → Result (List Instruction)
  execute_transaction base transaction = do
    tx ← fetch transaction v.wallets.transactions
    ok (
        Instruction.execute_transaction (smart_wallet_of pda base) transaction payer
          (remaining_accounts tx.instructions)
        ∷ [])

  abbrev pub approve_transaction : Pubkey → Pubkey → List Instruction
  approve_transaction base transaction =
      Instruction.call (Call.approve (smart_wallet_of pda base) transaction payer) ∷ []

  abbrev pub unapprove_transaction : Pubkey → Pubkey → List Instruction
  unapprove_transaction base transaction =
      Instruction.call (Call.unapprove (smart_wallet_of pda base) transaction payer) ∷ []

  abbrev pub remove_transaction : Pubkey → Pubkey → List Instruction
  remove_transaction base transaction =
      Instruction.call (Call.remove_transaction (smart_wallet_of pda base) transaction payer) ∷ []

  -- `main`, with the address of the base keypair. A command that only prints sends nothing.
  unfoldable pub main : Pubkey → Command → Result (List Instruction)
  main keypair (Command.create_smart_wallet max_owners threshold minimum_delay owners) =
      create_smart_wallet keypair max_owners threshold minimum_delay owners
  main keypair (Command.verify base max_owners threshold minimum_delay owners) = do
    verify base max_owners threshold minimum_delay owners
    ok []
  main keypair (Command.create_set_owners_tx base owners) = create_set_owners_tx base owners
  main keypair (Command.create_add_new_owner_tx base owner) = create_add_new_owner_tx base owner
  main keypair (Command.create_remove_owner_tx base owner) = create_remove_owner_tx base owner
  main keypair (Command.create_change_threshold_tx base threshold) =
      create_change_threshold_tx base threshold
  main keypair (Command.create_activate_proposal_tx base proposal) =
      create_activate_proposal_tx base proposal
  main keypair (Command.create_set_governance_params_tx base delay period quorum timelock) =
      create_set_governance_params_tx base delay period quorum timelock
  main keypair (Command.approve_transaction base transaction) =
      ok (approve_transaction base transaction)
  main keypair (Command.un_approve_transaction base transaction) =
      ok (unapprove_transaction base transaction)
  main keypair (Command.execute_transaction base transaction) = execute_transaction base transaction
  main keypair (Command.remove_transaction base transaction) =
      ok (remove_transaction base transaction)
  main keypair (Command.view_smartwallet base) = do state ← wallet_state base; ok []
  main keypair (Command.view_transaction transaction) = do
    state ← fetch transaction v.wallets.transactions
    ok []
  main keypair (Command.create_dummy_transaction base) = create_transaction base []
