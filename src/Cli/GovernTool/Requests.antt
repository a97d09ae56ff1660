-- ===== src/Cli/GovernTool/Requests.antt =====
-- cli/govern/src/main.rs: the commands, as the instructions of govern that they send.
use wagmi.Prelude.{ℕ, ◌==◌, ◌==ℤ◌, if◌then◌else◌, List, [], ◌∷◌, Store}
use wagmi.Chain.{Pubkey, Result, ok, ◌>>=◌, ◌>>◌}
use wagmi.Chain.Address.{Seeds, FindProgramAddress}
use wagmi.Govern.{GovernanceParameters, Vote}
use wagmi.Govern.Program.{Chambers, Call}
use wagmi.Cli.Client.{ProgramIds, fetch, assert}
use wagmi.Cli.GovernTool.Commands.{Command}

abbrev pub governor_of : FindProgramAddress → Pubkey → Pubkey
governor_of pda base = (pda (Seeds.governor base)).0

abbrev pub smart_wallet_of : FindProgramAddress → Pubkey → Pubkey
smart_wallet_of pda base = (pda (Seeds.smart_wallet base)).0

-- The address of a locker of the given voter program.
abbrev pub locker_of : FindProgramAddress → ProgramIds → Pubkey → Pubkey → Pubkey
locker_of pda ids voter_program base =
    if voter_program == ids.locked_voter
    then (pda (Seeds.locker base)).0
    else if voter_program == ids.met_voter
    then (pda (Seeds.met_locker base)).0
    else (pda (Seeds.locker_under voter_program base)).0

-- The memory comparison of `view_votes`: the votes on the proposal, as lines of address, voter, side and
-- voting power.
abbrev pub votes_on : Pubkey → Store Vote → List (Pubkey × Pubkey × ℕ × ℕ)
votes_on proposal [] = []
votes_on proposal ((key, vote) ∷ accounts) =
    let rest = votes_on proposal accounts in
    if vote.proposal == proposal
    then (key, vote.voter, vote.side, vote.voting_power) ∷ rest
    else rest

module _ (pda : FindProgramAddress) (ids : ProgramIds) (payer : Pubkey) (s : Chambers) where
  -- `verify`.
  unfoldable pub verify : Pubkey → GovernanceParameters → Pubkey → Result (Unit {0})
  verify base expected voter_program = do
    governor_state ← fetch (governor_of pda base) s.governors
    let params = governor_state.params
    assert (params.voting_delay == expected.voting_delay)
    assert (params.voting_period == expected.voting_period)
    assert (params.quorum_votes == expected.quorum_votes)
    assert (params.timelock_delay_seconds ==ℤ expected.timelock_delay_seconds)
    assert (governor_state.smart_wallet == smart_wallet_of pda base)
    assert (governor_state.locker == locker_of pda ids voter_program base)

  -- `create_governor`; the base signs.
  abbrev pub create_governor : Pubkey → GovernanceParameters → Pubkey → List Call
  create_governor base params voter_program =
      Call.create_governor base (governor_of pda base) (smart_wallet_of pda base)
        (locker_of pda ids voter_program base) params
      ∷ []

  unfoldable pub create_dummy_proposal : Pubkey → Result (List Call)
  create_dummy_proposal base = do
    let governor = governor_of pda base
    governor_state ← fetch governor s.governors
    let proposal = (pda (Seeds.proposal governor governor_state.proposal_count)).0
    ok (Call.create_proposal governor proposal governor_state.smart_wallet payer 0 2 [] ∷ [])

  abbrev pub cancel_proposal : Pubkey → Result (List Call)
  cancel_proposal proposal = do
    proposal_state ← fetch proposal s.proposals
    ok (Call.cancel_proposal proposal_state.governor proposal payer ∷ [])

  unfoldable pub queue_proposal : Pubkey → Result (List Call)
  queue_proposal proposal = do
    proposal_state ← fetch proposal s.proposals
    governor_state ← fetch proposal_state.governor s.governors
    let wallet = governor_state.smart_wallet
    smart_wallet_state ← fetch wallet s.wallets.wallets
    let transaction = (pda (Seeds.transaction wallet smart_wallet_state.num_transactions)).0
    ok (Call.queue_proposal proposal_state.governor proposal transaction wallet ∷ [])

  abbrev pub new_vote : Pubkey → List Call
  new_vote proposal = Call.new_vote proposal (pda (Seeds.vote proposal payer)).0 payer ∷ []

  abbrev pub create_proposal_meta : Pubkey → List ℕ → List ℕ → List Call
  create_proposal_meta proposal title description_link =
      Call.create_proposal_meta proposal (pda (Seeds.proposal_meta proposal)).0 payer title
        description_link
      ∷ []

  abbrev pub view_votes : Pubkey → List (Pubkey × Pubkey × ℕ × ℕ)
  view_votes proposal = votes_on proposal s.votes

  -- `main`, with the address of the base keypair. A command that only prints sends nothing.
  unfoldable pub main : Pubkey → Command → Result (List Call)
  main keypair (Command.create_governor delay period quorum timelock voter_program) = ok (
      create_governor keypair
        (record {
          voting_delay = delay;
          voting_period = period;
          quorum_votes = quorum;
          timelock_delay_seconds = timelock;
        })
        voter_program)
  main keypair (Command.verify base delay period quorum timelock voter_program) = do
    verify base
        (record {
          voting_delay = delay;
          voting_period = period;
          quorum_votes = quorum;
          timelock_delay_seconds = timelock;
        })
        voter_program
    ok []
  main keypair (Command.create_dummy_proposal base) = create_dummy_proposal base
  main keypair (Command.cancel_proposal proposal) = cancel_proposal proposal
  main keypair (Command.queue_proposal proposal) = queue_proposal proposal
  main keypair (Command.new_vote proposal) = ok (new_vote proposal)
  main keypair (Command.create_proposal_meta proposal title description_link) =
      ok (create_proposal_meta proposal title description_link)
  main keypair (Command.view_governor base) = do
    state ← fetch (governor_of pda base) s.governors
    ok []
  main keypair (Command.view_proposal proposal) = do state ← fetch proposal s.proposals; ok []
  main keypair (Command.view_proposal_meta proposal) = do
    state ← fetch (pda (Seeds.proposal_meta proposal)).0 s.metas
    ok []
  main keypair (Command.view_vote proposal voter) = do
    vote_state ← fetch (pda (Seeds.vote proposal voter)).0 s.votes
    ok []
  main keypair (Command.view_votes proposal) = ok []
