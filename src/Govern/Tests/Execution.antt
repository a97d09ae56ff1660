-- ===== src/Govern/Tests/Execution.antt =====
-- The proposal 90 of the governor 80, whose smart wallet is 7: it is queued and executed.
use wagmi.Prelude.{
  ℕ, ◌+◌, ◌≡◌, refl, arith, true, false, ◌⊎◌, some, List, [], ◌∷◌, ℤ, pos, negsuc, ◌+ℤ◌, ◌≤ℤ◌,
  ◌==ℤ◌, find,
}
use wagmi.Chain.{ok}
use wagmi.Chain.Address.{Seeds, FindProgramAddress}
use wagmi.Chain.Pairing.{pairing, pairing-injective}
use wagmi.SmartWallet.{
  SmartWallet, Transaction, Approve, default_grace_period, validate_execute_transaction,
}
use wagmi.SmartWallet.Program.{Run}
use wagmi.SmartWallet.Consistency.{IsConsistent}
use wagmi.SmartWallet.Terms.{AreApart}
use wagmi.Govern.State.{Governor, Proposal}
use wagmi.Govern.Setup.{no_reward}
use wagmi.Govern.Proposals.{state, to_smart_wallet_instructions}
use wagmi.Govern.Lifecycle.{IsPassed}
use wagmi.Govern.Program.{Chambers, Call, process}
use wagmi.Govern.Execution.{execute-queued_proposal}

abbrev addresses : FindProgramAddress
addresses (Seeds.transaction wallet index) = (1000 + pairing wallet index, 255)
addresses _ = (9, 255)

addresses-AreApart : AreApart addresses
addresses-AreApart j k m n e = pairing-injective j m k n (omega (arith, e))

abbrev wallet : SmartWallet
wallet = record {
  base = 1;
  bump = 255;
  threshold = 1;
  minimum_delay = pos 0;
  grace_period = default_grace_period;
  max_owners = 4;
  owner_set_seqno = 0;
  num_transactions = 0;
  owners = 10 ∷ 80 ∷ [];
}

abbrev governor : Governor
governor = record {
  base = 1;
  bump = 255;
  proposal_count = 1;
  locker = 70;
  smart_wallet = 7;
  params = record {
    voting_delay = 0;
    voting_period = 100;
    quorum_votes = 5;
    timelock_delay_seconds = pos 50;
  };
  voting_reward = no_reward;
}

abbrev proposal : Proposal
proposal = record {
  governor = 80;
  index = 0;
  bump = 255;
  proposer = 10;
  quorum_votes = 5;
  max_option = 2;
  option_votes = 1 ∷ 2 ∷ 10 ∷ [];
  canceled_at = pos 0;
  created_at = pos 300;
  activated_at = pos 350;
  voting_ends_at = pos 450;
  queued_at = pos 0;
  queued_transaction = 0;
  voting_reward = no_reward;
  total_claimed_reward = 0;
  proposal_type = 0;
  instructions = record { program_id = 33; keys = []; payload = 1 ∷ [] } ∷ [];
}

abbrev voted : Chambers
voted = record {
  governors = (80, governor) ∷ [];
  proposals = (90, proposal) ∷ [];
  votes = [];
  metas = [];
  wallets = record { wallets = (7, wallet) ∷ []; transactions = [] };
}

abbrev transaction : Transaction
transaction = record {
  smart_wallet = 7;
  index = 0;
  bump = 255;
  proposer = 80;
  instructions = record { program_id = 33; keys = []; payload = 1 ∷ [] } ∷ [];
  signers = false ∷ true ∷ [];
  owner_set_seqno = 0;
  eta = pos 550;
  executor = 0;
  executed_at = negsuc 0;
  created_at = pos 500;
}

abbrev queued : Chambers
queued = record voted {
  proposals = (90, record proposal { queued_at = pos 500; queued_transaction = 1056 }) ∷ [];
  wallets = record {
    wallets = (7, record wallet { num_transactions = 1 }) ∷ [];
    transactions = (1056, transaction) ∷ [];
  };
}

queueing : process addresses (pos 500) (Call.queue_proposal 80 90 1056 7) voted ≡ ok queued
unfolding process state wagmi.Govern.Queue.queue_proposal wagmi.Prelude.◌+ℤ◌ wagmi.Prelude.◌-ℤ◌
    wagmi.SmartWallet.create_transaction_with_timelock wagmi.SmartWallet.write_signer
queueing = refl

abbrev execution : Approve
execution = record {
  wallet = record { key = 7; info = record wallet { num_transactions = 1 } };
  transaction = record { key = 1056; info = transaction };
  owner = 10;
}

execution-ok : validate_execute_transaction (pos 600) execution ≡ ok tt
unfolding validate_execute_transaction wagmi.Prelude.◌+ℤ◌
execution-ok = refl

voted-IsConsistent : IsConsistent voted.wallets
voted-IsConsistent = record { fits = λ x. tt; distinct = tt }

execute-queued_proposal_example :
    (g : Governor) × (p : Proposal) × (find 80 voted.governors ≡ some g)
    × (find 90 voted.proposals ≡ some p)
    × IsPassed p (pos 500)
    × (execution.transaction.info.instructions ≡ to_smart_wallet_instructions p)
    × (execution.transaction.info.proposer ≡ 80)
    × ((g.params.timelock_delay_seconds ==ℤ pos 0 ≡ true)
        ⊎ (pos 500 +ℤ g.params.timelock_delay_seconds ≤ℤ pos 600))
execute-queued_proposal_example =
    execute-queued_proposal addresses (pos 500) (pos 600) 80 90 1056 7 10 voted {u = queued}
      {v = queued.wallets} {ctx = execution} addresses-AreApart voted-IsConsistent queueing
      Run.start refl execution-ok
