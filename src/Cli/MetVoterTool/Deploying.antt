-- ===== src/Cli/MetVoterTool/Deploying.antt =====
-- A locker that cli/met-voter creates, and its command `verify`.
use wagmi.Prelude.{ℕ, ◌≡◌, ◌∙◌, refl, arith, ℤ, none, some, [], ◌∷◌, find, put, find-put, ==_refl}
use wagmi.Chain.{Pubkey, ok, first_step, init-of_none, TokenProgram}
use wagmi.Chain.Address.{Seeds, FindProgramAddress}
use wagmi.LockedVoter.{LockerParams}
use wagmi.MetVoter.{Locker, default_locker, check_expiration}
use wagmi.MetVoter as Escrows
use wagmi.MetVoter.Program.{Vaults, Call, run}
use wagmi.Cli.Client.{fetch-of_find}
use wagmi.Cli.MetVoterTool.Commands.{Command, View, Instruction}
use wagmi.Cli.MetVoterTool.Requests.{main, verify, locker_of}

-- The locker that is made.
abbrev created : FindProgramAddress → Pubkey → Pubkey → ℤ → LockerParams → Locker
created pda base token_mint expiration params = record default_locker {
  token_mint = token_mint;
  governor = (pda (Seeds.governor base)).0;
  base = base;
  bump = (pda (Seeds.met_locker base)).1;
  params = params;
  expiration = expiration;
}

module _ (tp : TokenProgram) (pda : FindProgramAddress) where
  run-created :
      (now : ℤ) (l : tp.Ledger) (s : Vaults) (base token_mint : Pubkey) (expiration : ℤ)
      (params : LockerParams)
      → check_expiration now expiration ≡ ok tt
      → find (locker_of pda base) s.lockers ≡ none
      → run tp pda now
          (Call.new_locker base
            (locker_of pda base)
            token_mint
            (pda (Seeds.governor base)).0
            expiration
            params)
          l
          s
        ≡ ok (
          l,
          record s {
            lockers =
                put (locker_of pda base) (created pda base token_mint expiration params) s.lockers;
          },
        )
  unfolding run Escrows.new_locker
  run-created now l s base token_mint expiration params ahead fresh =
      first_step _ _ (init-of_none _ s.lockers fresh) (ground (arith, ==_refl (locker_of pda base)))

  verify-created :
      (payer : Pubkey) (v : View) (base token_mint : Pubkey) (expiration : ℤ)
      (params : LockerParams)
      → find (locker_of pda base) v.vaults.lockers
        ≡ some (created pda base token_mint expiration params)
      → verify tp pda payer v base token_mint expiration params.max_stake_vote_multiplier
          params.min_stake_duration params.max_stake_duration params.proposal_activation_min_votes
        ≡ ok tt
  unfolding verify
  verify-created payer v base token_mint expiration params found =
      first_step _ _ (fetch-of_find _ v.vaults.lockers found) (
        ground (
          arith,
          ==_refl token_mint,
          ==_refl (pda (Seeds.governor base)).0,
          ==_refl params.max_stake_vote_multiplier,
          ==_refl params.min_stake_duration,
          ==_refl params.max_stake_duration,
          ==_refl params.proposal_activation_min_votes,
        ))

  -- Where there is no locker at the address yet, and the expiration is at least a day ahead, the
  -- command to create one sends one instruction, this instruction succeeds, and then the command
  -- `verify` with the same arguments and any base keypair accepts the locker.
  pub new_locker-verifies :
      (now : ℤ) (l : tp.Ledger) (v : View) (payer base keypair token_mint : Pubkey) (expiration : ℤ)
      (multiplier min_duration max_duration min_votes : ℕ)
      → check_expiration now expiration ≡ ok tt
      → find (locker_of pda base) v.vaults.lockers ≡ none
      → (c : Call) × (u : Vaults) × (main tp pda payer v base (
            Command.new_locker token_mint expiration multiplier min_duration max_duration min_votes)
          ≡ ok (Instruction.call c ∷ []))
        × (run tp pda now c l v.vaults ≡ ok (l, u))
        × (main tp pda payer
              (record v { vaults = u })
              keypair
              (Command.verify base token_mint expiration multiplier min_duration max_duration
                min_votes)
            ≡ ok [])
  unfolding main
  new_locker-verifies now l v payer base keypair token_mint expiration multiplier min_duration
        max_duration min_votes ahead fresh =
      let params : LockerParams = record {
        max_stake_vote_multiplier = multiplier;
        min_stake_duration = min_duration;
        max_stake_duration = max_duration;
        proposal_activation_min_votes = min_votes;
      } in
      let lk = locker_of pda base in
      let k = created pda base token_mint expiration params in
      let u : Vaults = record (v.vaults) { lockers = put lk k v.vaults.lockers } in
      (
        Call.new_locker base lk token_mint (pda (Seeds.governor base)).0 expiration params,
        u,
        refl,
        run-created now l v.vaults base token_mint expiration params ahead fresh,
        first_step _ _
            (verify-created payer (record v { vaults = u }) base token_mint expiration params
              (find-put lk lk k v.vaults.lockers ∙ ground (arith, ==_refl lk)))
            refl,
      )
