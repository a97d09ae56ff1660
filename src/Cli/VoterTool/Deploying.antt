-- ===== src/Cli/VoterTool/Deploying.antt =====
-- A locker that cli/locked-voter creates, and its command `verify`.
use wagmi.Prelude.{ℕ, ◌≡◌, ◌∙◌, refl, arith, ℤ, none, some, [], ◌∷◌, find, put, find-put, ==_refl}
use wagmi.Chain.{Pubkey, ok, first_step, init-of_none, TokenProgram}
use wagmi.Chain.Address.{Seeds, FindProgramAddress}
use wagmi.LockedVoter.{Locker, LockerParams, default_locker}
use wagmi.LockedVoter as Escrows
use wagmi.LockedVoter.Program.{Vaults, Call, run}
use wagmi.Cli.Client.{fetch-of_find}
use wagmi.Cli.VoterTool.Commands.{Command, View, Instruction}
use wagmi.Cli.VoterTool.Requests.{main, verify, locker_of}

-- The locker that is made.
abbrev created : FindProgramAddress → Pubkey → Pubkey → LockerParams → Locker
created pda base token_mint params = record default_locker {
  token_mint = token_mint;
  governor = (pda (Seeds.governor base)).0;
  base = base;
  bump = (pda (Seeds.locker base)).1;
  params = params;
}

module _ (tp : TokenProgram) (pda : FindProgramAddress) where
  run-created :
      (now : ℤ) (l : tp.Ledger) (s : Vaults) (base token_mint : Pubkey) (params : LockerParams)
      → find (locker_of pda base) s.lockers ≡ none
      → run tp pda now
          (Call.new_locker base
            (locker_of pda base)
            token_mint
            (pda (Seeds.governor base)).0
            params)
          l
          s
        ≡ ok (
          l,
          record s {
            lockers = put (locker_of pda base) (created pda base token_mint params) s.lockers;
          },
        )
  unfolding run Escrows.new_locker
  run-created now l s base token_mint params fresh =
      first_step _ _ (init-of_none _ s.lockers fresh) (ground (arith, ==_refl (locker_of pda base)))

  verify-created :
      (payer : Pubkey) (v : View) (base token_mint : Pubkey) (params : LockerParams)
      → find (locker_of pda base) v.vaults.lockers ≡ some (created pda base token_mint params)
      → verify tp pda payer v base token_mint params.max_stake_vote_multiplier
          params.min_stake_duration params.max_stake_duration params.proposal_activation_min_votes
        ≡ ok tt
  unfolding verify
  verify-created payer v base token_mint params found =
      first_step _ _ (fetch-of_find _ v.vaults.lockers found) (
        ground (
          arith,
          ==_refl token_mint,
          ==_refl (pda (Seeds.governor base)).0,
          ==_refl params.max_stake_vote_multiplier,
          ==_refl params.min_stake_duration,
          ==_refl params.max_stake_duration,
          ==_refl params.proposal_activation_min_votes,
        ))

  -- Where there is no locker at the address yet, the command to create one sends one instruction, this
  -- instruction succeeds, and then the command `verify` with the same arguments and any base keypair
  -- accepts the locker.
  pub new_locker-verifies :
      (now : ℤ) (l : tp.Ledger) (v : View) (payer base keypair token_mint : Pubkey)
      (multiplier min_duration max_duration min_votes : ℕ)
      → find (locker_of pda base) v.vaults.lockers ≡ none
      → (c : Call) × (u : Vaults) × (main tp pda payer v base
            (Command.new_locker token_mint multiplier min_duration max_duration min_votes)
          ≡ ok (Instruction.call c ∷ []))
        × (run tp pda now c l v.vaults ≡ ok (l, u))
        × (main tp pda payer
              (record v { vaults = u })
              keypair
              (Command.verify base token_mint multiplier min_duration max_duration min_votes)
            ≡ ok [])
  unfolding main
  new_locker-verifies now l v payer base keypair token_mint multiplier min_duration max_duration
        min_votes fresh =
      let params : LockerParams = record {
        max_stake_vote_multiplier = multiplier;
        min_stake_duration = min_duration;
        max_stake_duration = max_duration;
        proposal_activation_min_votes = min_votes;
      } in
      let lk = locker_of pda base in
      let k = created pda base token_mint params in
      let u : Vaults = record (v.vaults) { lockers = put lk k v.vaults.lockers } in
      (
        Call.new_locker base lk token_mint (pda (Seeds.governor base)).0 params,
        u,
        refl,
        run-created now l v.vaults base token_mint params fresh,
        first_step _ _
            (verify-created payer (record v { vaults = u }) base token_mint params
              (find-put lk lk k v.vaults.lockers ∙ ground (arith, ==_refl lk)))
            refl,
      )
