-- ===== src/Cli/MetVoterTool/Requests.antt =====
-- cli/met-voter/src/main.rs: the commands, as the instructions that they send.
use wagmi.Prelude.{ℕ, ℤ, pos, not, ◌==◌, ◌==ℤ◌, if◌then◌else◌, List, [], ◌∷◌, ◌++◌}
use wagmi.Chain.{Pubkey, Result, ok, ◌>>=◌, ◌>>◌, TokenProgram}
use wagmi.Chain.Address.{Seeds, FindProgramAddress}
use wagmi.MetVoter.Program.{Call}
use wagmi.Cli.Client.{fetch, is_missing, assert}
use wagmi.Cli.MetVoterTool.Commands.{Command, View, Instruction}

abbrev pub locker_of : FindProgramAddress → Pubkey → Pubkey
locker_of pda base = (pda (Seeds.met_locker base)).0

abbrev pub escrow_of : FindProgramAddress → Pubkey → Pubkey → Pubkey
escrow_of pda locker owner = (pda (Seeds.met_escrow locker owner)).0

module _ (tp : TokenProgram) (pda : FindProgramAddress) (payer : Pubkey) (v : View) where
  -- `verify`.
  unfoldable pub verify : Pubkey → Pubkey → ℤ → ℕ → ℕ → ℕ → ℕ → Result (Unit {0})
  verify base token_mint expiration multiplier min_duration max_duration min_votes = do
    locker_state ← fetch (locker_of pda base) v.vaults.lockers
    assert (locker_state.token_mint == token_mint)
    assert (locker_state.governor == (pda (Seeds.governor base)).0)
    assert (locker_state.expiration ==ℤ expiration)
    let params = locker_state.params
    assert (params.max_stake_vote_multiplier == multiplier)
    assert (params.min_stake_duration == min_duration)
    assert (params.max_stake_duration == max_duration)
    assert (params.proposal_activation_min_votes == min_votes)

  -- `new_locker`; the base signs.
  abbrev pub new_locker : Pubkey → Pubkey → ℤ → ℕ → ℕ → ℕ → ℕ → List Instruction
  new_locker base token_mint expiration multiplier min_duration max_duration min_votes =
      Instruction.call (
        Call.new_locker base (locker_of pda base) token_mint (pda (Seeds.governor base)).0
          expiration
          (record {
            max_stake_vote_multiplier = multiplier;
            min_stake_duration = min_duration;
            max_stake_duration = max_duration;
            proposal_activation_min_votes = min_votes;
          }))
      ∷ []

  abbrev pub new_escrow : Pubkey → List Instruction
  new_escrow locker =
      Instruction.call (Call.new_escrow locker (escrow_of pda locker payer) payer) ∷ []

  abbrev pub increase_locked_amount : Pubkey → ℕ → Result (List Instruction)
  increase_locked_amount locker amount = do
    locker_state ← fetch locker v.vaults.lockers
    let escrow = escrow_of pda locker payer
    ok (
        Instruction.call (
          Call.increase_locked_amount locker escrow
            (tp.associated_address escrow locker_state.token_mint) payer
            (tp.associated_address payer locker_state.token_mint) amount)
        ∷ [])

  abbrev pub extend_locked_duration : Pubkey → ℤ → List Instruction
  extend_locked_duration locker duration =
      Instruction.call
        (Call.extend_lock_duration locker (escrow_of pda locker payer) payer duration)
      ∷ []

  abbrev pub toggle_max_lock : Pubkey → ℤ → List Instruction
  toggle_max_lock locker is_max_lock =
      Instruction.call (
        Call.toggle_max_lock locker (escrow_of pda locker payer) payer
          (not (is_max_lock ==ℤ pos 0)))
      ∷ []

  unfoldable pub withdraw : Pubkey → Result (List Instruction)
  withdraw locker = do
    locker_state ← fetch locker v.vaults.lockers
    let escrow = escrow_of pda locker payer
    ok (
        Instruction.call (
          Call.withdraw locker escrow payer (tp.associated_address escrow locker_state.token_mint)
            (tp.associated_address payer locker_state.token_mint))
        ∷ [])

  abbrev pub active_proposal : Pubkey → Pubkey → Result (List Instruction)
  active_proposal locker proposal = do
    locker_state ← fetch locker v.vaults.lockers
    ok (
        Instruction.activate_proposal locker (escrow_of pda locker payer) proposal payer
          locker_state.governor
        ∷ [])

  -- `cast_vote`: the vote is opened first, where it does not exist.
  unfoldable pub cast_vote : Pubkey → Pubkey → ℕ → Result (List Instruction)
  cast_vote locker proposal side = do
    locker_state ← fetch locker v.vaults.lockers
    let vote = (pda (Seeds.vote proposal payer)).0
    ok (
        (if is_missing vote v.votes then Instruction.new_vote proposal vote payer ∷ [] else [])
        ++ (Instruction.cast_vote locker (escrow_of pda locker payer) vote proposal payer
              locker_state.governor side
            ∷ []))

  abbrev pub set_vote_delegate : Pubkey → Pubkey → List Instruction
  set_vote_delegate locker new_delegate =
      Instruction.call (Call.set_vote_delegate (escrow_of pda locker payer) payer new_delegate) ∷ []

  -- `main`, with the address of the base keypair. A command that only prints sends nothing.
  unfoldable pub main : Pubkey → Command → Result (List Instruction)
  main keypair
        (Command.new_locker token_mint expiration multiplier min_duration max_duration min_votes) =
      ok (new_locker keypair token_mint expiration multiplier min_duration max_duration min_votes)
  main keypair
        (Command.verify base token_mint expiration multiplier min_duration max_duration min_votes) =
      do verify base token_mint expiration multiplier min_duration max_duration min_votes; ok []
  main keypair (Command.new_escrow base) = ok (new_escrow (locker_of pda base))
  main keypair (Command.increase_locked_amount base amount) =
      increase_locked_amount (locker_of pda base) amount
  main keypair (Command.extend_lock_duration base duration) =
      ok (extend_locked_duration (locker_of pda base) duration)
  main keypair (Command.toggle_max_lock base is_max_lock) =
      ok (toggle_max_lock (locker_of pda base) is_max_lock)
  main keypair (Command.withdraw base) = withdraw (locker_of pda base)
  main keypair (Command.activate_proposal base proposal) =
      active_proposal (locker_of pda base) proposal
  main keypair (Command.cast_vote base proposal side) = cast_vote (locker_of pda base) proposal side
  main keypair (Command.set_vote_delegate base new_delegate) =
      ok (set_vote_delegate (locker_of pda base) new_delegate)
  main keypair (Command.view_locker base) = do
    locker ← fetch (locker_of pda base) v.vaults.lockers
    ok []
  main keypair (Command.view_escrow base owner) = do
    escrow ← fetch (escrow_of pda (locker_of pda base) owner) v.vaults.escrows
    ok []
