-- ===== src/Cli/GovernTool/Tests.antt =====
-- The commands of cli/govern for the base 1, with the smart wallet 7 and the governor 80.
use wagmi.Prelude.{◌≡◌, refl, arith, some, [], ◌∷◌, pos, find}
use wagmi.Chain.{ok}
use wagmi.Chain.Address.{Seeds, FindProgramAddress}
use wagmi.SmartWallet.{SmartWallet, default_grace_period}
use wagmi.Govern.{Governor, Proposal, no_reward, state, draft}
use wagmi.Govern.Program.{Chambers, Call, process}
use wagmi.Cli.Client.{ProgramIds}
use wagmi.Cli.GovernTool.Commands.{Command}
use wagmi.Cli.GovernTool.Requests.{main}
use wagmi.Cli.GovernTool.Deploying.{create_governor-verifies}
use wagmi.Cli.GovernTool.Proposing.{create_dummy_proposal-drafts}

abbrev addresses : FindProgramAddress
addresses (Seeds.smart_wallet base) = (7, 255)
addresses (Seeds.governor base) = (80, 255)
addresses (Seeds.proposal governor index) = (90, 255)
addresses _ = (9, 255)

abbrev ids : ProgramIds
ids = record { smart_wallet = 100; govern = 101; locked_voter = 102; met_voter = 103 }

abbrev wallet : SmartWallet
wallet = record {
  base = 1;
  bump = 255;
  threshold = 1;
  minimum_delay = pos 0;
  grace_period = default_grace_period;
  max_owners = 4;
  owner_set_seqno = 0;
  num_transactions = 0;
  owners = 10 ∷ 80 ∷ [];
}

abbrev bare : Chambers
bare = record {
  governors = [];
  proposals = [];
  votes = [];
  metas = [];
  wallets = record { wallets = (7, wallet) ∷ []; transactions = [] };
}

abbrev governor : Governor
governor = record {
  base = 1;
  bump = 255;
  proposal_count = 0;
  locker = 9;
  smart_wallet = 7;
  params = record {
    voting_delay = 20;
    voting_period = 100;
    quorum_votes = 5;
    timelock_delay_seconds = pos 50;
  };
  voting_reward = no_reward;
}

abbrev governed : Chambers
governed = record bare { governors = (80, governor) ∷ [] }

create_governor-verifies_example :
    (c : Call) × (u : Chambers) × (main addresses ids 10 bare 1
        (Command.create_governor 20 100 5 (pos 50) 102)
      ≡ ok (c ∷ []))
    × (process addresses (pos 500) c bare ≡ ok u)
    × (main addresses ids 10 u 12 (Command.verify 1 20 100 5 (pos 50) 102) ≡ ok [])
create_governor-verifies_example =
    create_governor-verifies addresses ids (pos 500) bare 10 1 12 20 100 5 (pos 50) 102 {w = wallet}
      refl refl refl refl

create_dummy_proposal-drafts_example :
    (c : Call) × (u : Chambers) × (p : Proposal) × (main addresses ids 10 governed 12
        (Command.create_dummy_proposal 1)
      ≡ ok (c ∷ []))
    × (process addresses (pos 500) c governed ≡ ok u)
    × (find 90 u.proposals ≡ some p)
    × (state p (pos 500) ≡ ok draft)
    × (p.governor ≡ 80)
    × (p.index ≡ 0)
    × (p.proposer ≡ 10)
    × (p.instructions ≡ [])
    × (find 80 u.governors ≡ some (record governor { proposal_count = 1 }))
create_dummy_proposal-drafts_example =
    create_dummy_proposal-drafts addresses ids (pos 500) governed 10 12 1 {g = governor}
      {w = wallet} {i = 0} refl refl refl (omega arith) refl
