-- ===== src/Cli/WalletTool/Tests.antt =====
-- The wallet 7 with the owners 10, 20 and its governor 8: the commands of cli/smartwallet on it.
use wagmi.Prelude.{
  ◌+◌, ◌<◌, ◌≤◌, ◌≡◌, refl, arith, pos, negsuc, true, false, Option, some, none, List, [], ◌∷◌,
  ◌++◌, ◌==◌, length, find,
}
use wagmi.Chain.{Pubkey, Result, ok, err}
use wagmi.Chain.Address.{Seeds, FindProgramAddress}
use wagmi.Chain.Pairing.{pairing, pairing-injective}
use wagmi.SmartWallet.{
  SmartWallet, Transaction, TxInstruction, Approve, burn, default_grace_period, execute_transaction,
  create_transaction_with_timelock, set_owners, no_eta,
}
use wagmi.SmartWallet as Owners
use wagmi.SmartWallet.Program.{Wallets, Call, process, Run}
use wagmi.SmartWallet.Consistency.{IsConsistent}
use wagmi.SmartWallet.Terms.{AreApart}
use wagmi.Govern.{contains}
use wagmi.Cli.Client.{ProgramIds, InstructionData}
use wagmi.Cli.WalletTool.Commands.{Command, View, Instruction}
use wagmi.Cli.WalletTool.Requests.{
  main, create_add_new_owner_tx, create_remove_owner_tx, create_transaction, on_itself,
}
use wagmi.Cli.WalletTool.Executing.{RunsSetOwners, kept_threshold}
use wagmi.Cli.WalletTool.Deploying.{create_smart_wallet-verifies}
use wagmi.Cli.WalletTool.Owners.{create_add_new_owner_tx-adds, create_remove_owner_tx-removes}

abbrev addresses : FindProgramAddress
addresses (Seeds.smart_wallet base) = (7, 255)
addresses (Seeds.governor base) = (8, 255)
addresses (Seeds.transaction wallet index) = (1000 + pairing wallet index, 255)
addresses _ = (9, 255)

addresses-AreApart : AreApart addresses
addresses-AreApart j k m n e = pairing-injective j m k n (omega (arith, e))

abbrev ids : ProgramIds
ids = record { smart_wallet = 100; govern = 101; locked_voter = 102; met_voter = 103 }

abbrev code : InstructionData
code = record {
  set_owners = λ owners. owners;
  change_threshold = λ n. n ∷ [];
  set_governance_params = λ _. [];
  activate_proposal_initial_phase = [];
}

abbrev to_option : Result Wallets → Option Wallets
to_option (ok s) = some s
to_option (err reason) = none

abbrev invoke : Wallets → TxInstruction → Option Wallets
invoke s ix = elim ix.keys [
  | [] ↦ none
  | meta ∷ _ ↦ to_option (process addresses (pos 0) (Call.set_owners meta.pubkey true ix.payload) s)
]

to_option-eq-some : (r : Result Wallets) {t : Wallets} → to_option r ≡ some t → r ≡ ok t
to_option-eq-some (ok s) h = cc
to_option-eq-some (err reason) h = cc

invoke-RunsSetOwners : RunsSetOwners addresses ids code invoke
invoke-RunsSetOwners s t k owners h =
    (pos 0, to_option-eq-some (process addresses (pos 0) (Call.set_owners k true owners) s) h)

abbrev wallet : SmartWallet
wallet = record {
  base = 1;
  bump = 255;
  threshold = 1;
  minimum_delay = pos 0;
  grace_period = default_grace_period;
  max_owners = 4;
  owner_set_seqno = 0;
  num_transactions = 0;
  owners = 10 ∷ 20 ∷ 8 ∷ [];
}

abbrev view : View
view = record {
  wallets = record { wallets = (7, wallet) ∷ []; transactions = [] };
  governors = [];
  proposals = [];
}

abbrev empty : View
empty = record view { wallets = record { wallets = []; transactions = [] } }

view-IsConsistent : IsConsistent view.wallets
view-IsConsistent = record { fits = λ x. tt; distinct = tt }

create_smart_wallet-verifies_example :
    (c : Call) × (s : Wallets) × (main addresses ids code 10 empty 1
        (Command.create_smart_wallet 4 1 (pos 0) (10 ∷ 20 ∷ []))
      ≡ ok (Instruction.call c ∷ []))
    × (process addresses (pos 500) c empty.wallets ≡ ok s)
    × (main addresses ids code 10
          (record empty { wallets = s })
          5
          (Command.verify 1 4 1 (pos 0) (10 ∷ 20 ∷ []))
        ≡ ok [])
create_smart_wallet-verifies_example =
    create_smart_wallet-verifies addresses ids code 10 empty 1 5 (pos 500) 4 1 (pos 0)
      (10 ∷ 20 ∷ []) (omega arith) (omega arith) refl refl refl

-- A change to `owners`, proposed at 500 by 10 and executed at 600 by 20.
abbrev calls : List Pubkey → List TxInstruction
calls owners = on_itself ids 7 owners ∷ []

abbrev proposed : List Pubkey → Transaction
proposed owners = record {
  smart_wallet = 7;
  index = 0;
  bump = 255;
  proposer = 10;
  instructions = calls owners;
  signers = true ∷ false ∷ false ∷ [];
  owner_set_seqno = 0;
  eta = no_eta;
  executor = 0;
  executed_at = negsuc 0;
  created_at = pos 500;
}

abbrev counted : SmartWallet
counted = record wallet { num_transactions = 1 }

abbrev waiting : List Pubkey → Wallets
waiting owners = record { wallets = (7, counted) ∷ []; transactions = (1056, proposed owners) ∷ [] }

abbrev execution : List Pubkey → Approve
execution owners = record {
  wallet = record { key = 7; info = counted };
  transaction = record { key = 1056; info = proposed owners };
  owner = 20;
}

abbrev changed : List Pubkey → SmartWallet
changed owners = record counted { owners = owners; owner_set_seqno = 1 }

abbrev at_end : List Pubkey → Wallets
at_end owners = record {
  wallets = (7, changed owners) ∷ [];
  transactions = (1056, proposed owners) ∷ [];
}

proposal :
    (owners : List Pubkey)
    → process addresses (pos 500) (Call.create_transaction 7 1056 10 (calls owners)) view.wallets
      ≡ ok (waiting owners)
unfolding process create_transaction_with_timelock wagmi.SmartWallet.write_signer
proposal owners = refl

abbrev more : List Pubkey
more = 10 ∷ 20 ∷ 8 ∷ 30 ∷ []

execution-more :
    execute_transaction invoke (pos 600) (execution more) (waiting more)
    ≡ ok (at_end more, burn (pos 600) (execution more))
unfolding execute_transaction process set_owners
execution-more = refl

request-more :
    main addresses ids code 10 view 5 (Command.create_add_new_owner_tx 1 30)
    ≡ ok (Instruction.call (Call.create_transaction 7 1056 10 (calls more)) ∷ [])
unfolding main create_add_new_owner_tx create_transaction
request-more = refl

create_add_new_owner_tx-adds_example :
    (w : SmartWallet) × (w' : SmartWallet) × (find 7 view.wallets.wallets ≡ some w)
    × (find 7 (at_end more).wallets ≡ some w')
    × (w'.owners ≡ w.owners ++ 30 ∷ [])
    × (contains 30 w.owners ≡ false)
    × (length w'.owners ≤ w.max_owners)
    × (w'.threshold ≡ kept_threshold counted w'.owners)
    × (w'.threshold < length w'.owners)
create_add_new_owner_tx-adds_example =
    create_add_new_owner_tx-adds addresses ids code invoke 10 view 5 1 30 (pos 500) (pos 600) 7 1056
      10 20 (calls more) {t = waiting more} {u = waiting more} {u' = at_end more}
      {ctx = execution more} {tx = burn (pos 600) (execution more)} addresses-AreApart
      invoke-RunsSetOwners view-IsConsistent request-more (proposal more) Run.start refl
      execution-more

abbrev fewer : List Pubkey
fewer = 20 ∷ 8 ∷ []

execution-fewer :
    execute_transaction invoke (pos 600) (execution fewer) (waiting fewer)
    ≡ ok (at_end fewer, burn (pos 600) (execution fewer))
unfolding execute_transaction process set_owners
execution-fewer = refl

request-fewer :
    main addresses ids code 10 view 5 (Command.create_remove_owner_tx 1 10)
    ≡ ok (Instruction.call (Call.create_transaction 7 1056 10 (calls fewer)) ∷ [])
unfolding main create_remove_owner_tx create_transaction
request-fewer = refl

create_remove_owner_tx-removes_example :
    (w : SmartWallet) × (w' : SmartWallet) × (pre : List Pubkey) × (post : List Pubkey) × (find 7
        view.wallets.wallets
      ≡ some w)
    × (find 7 (at_end fewer).wallets ≡ some w')
    × (w.owners ≡ pre ++ 10 ∷ post)
    × (w'.owners ≡ pre ++ post)
    × (contains 10 pre ≡ false)
    × ((10 == 8) ≡ false)
    × (w'.threshold ≡ kept_threshold counted w'.owners)
    × (w'.threshold < length w'.owners)
create_remove_owner_tx-removes_example =
    create_remove_owner_tx-removes addresses ids code invoke 10 view 5 1 10 (pos 500) (pos 600) 7
      1056 10 20 (calls fewer) {t = waiting fewer} {u = waiting fewer} {u' = at_end fewer}
      {ctx = execution fewer} {tx = burn (pos 600) (execution fewer)} addresses-AreApart
      invoke-RunsSetOwners view-IsConsistent request-fewer (proposal fewer) Run.start refl
      execution-fewer
