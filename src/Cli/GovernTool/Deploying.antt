-- ===== src/Cli/GovernTool/Deploying.antt =====
-- A governor that cli/govern creates, and its command `verify`.
use wagmi.Prelude.{
  ℕ, ◌≡◌, ◌∙◌, refl, arith, true, ℤ, pos, leb_ℤ, none, some, [], ◌∷◌, find, put, find-put, ==_refl,
}
use wagmi.Chain.{Pubkey, ok, first_step, init-of_none, load-of_find}
use wagmi.Chain.Address.{Seeds, FindProgramAddress}
use wagmi.SmartWallet.{SmartWallet}
use wagmi.Govern.{Governor, GovernanceParameters, contains, no_reward}
use wagmi.Govern as Setup
use wagmi.Govern.Program.{Chambers, Call, process}
use wagmi.Cli.Client.{ProgramIds, fetch-of_find}
use wagmi.Cli.GovernTool.Commands.{Command}
use wagmi.Cli.GovernTool.Requests.{main, verify, governor_of, smart_wallet_of, locker_of}

-- The governor that is made.
abbrev created : FindProgramAddress → ProgramIds → Pubkey → GovernanceParameters → Pubkey → Governor
created pda ids base params voter_program = record {
  base = base;
  bump = (pda (Seeds.governor base)).1;
  proposal_count = 0;
  locker = locker_of pda ids voter_program base;
  smart_wallet = smart_wallet_of pda base;
  params = params;
  voting_reward = no_reward;
}

module _ (pda : FindProgramAddress) (ids : ProgramIds) where
  process-created :
      (now : ℤ) (s : Chambers) (base : Pubkey) (params : GovernanceParameters)
      (voter_program : Pubkey) {w : SmartWallet}
      → find (governor_of pda base) s.governors ≡ none
      → find (smart_wallet_of pda base) s.wallets.wallets ≡ some w
      → contains (governor_of pda base) w.owners ≡ true
      → leb_ℤ (pos 0) params.timelock_delay_seconds ≡ true
      → process pda now
          (Call.create_governor base
            (governor_of pda base)
            (smart_wallet_of pda base)
            (locker_of pda ids voter_program base)
            params)
          s
        ≡ ok (record s {
          governors =
              put (governor_of pda base) (created pda ids base params voter_program) s.governors;
        })
  unfolding process Setup.create_governor
  process-created now s base params voter_program fresh wallet owner positive =
      first_step _ _ (init-of_none _ s.governors fresh) (
        first_step _ _ (load-of_find _ s.wallets.wallets wallet)
          (ground (arith, ==_refl (governor_of pda base))))

  verify-created :
      (payer : Pubkey) (s : Chambers) (base : Pubkey) (params : GovernanceParameters)
      (voter_program : Pubkey)
      → find (governor_of pda base) s.governors ≡ some (created pda ids base params voter_program)
      → verify pda ids payer s base params voter_program ≡ ok tt
  unfolding verify
  verify-created payer s base params voter_program found =
      first_step _ _ (fetch-of_find _ s.governors found) (
        ground (
          arith,
          ==_refl params.voting_delay,
          ==_refl params.voting_period,
          ==_refl params.quorum_votes,
          ==_refl (smart_wallet_of pda base),
          ==_refl (locker_of pda ids voter_program base),
        ))

  -- Where the smart wallet of the base exists with its governor among the owners, there is no governor
  -- yet and the timelock delay is not negative: the command to create the governor sends one
  -- instruction, this instruction succeeds, and then the command `verify` with
  -- the same arguments and any base keypair accepts the governor.
  pub create_governor-verifies :
      (now : ℤ) (s : Chambers) (payer base keypair : Pubkey) (delay period quorum : ℕ)
      (timelock : ℤ) (voter_program : Pubkey) {w : SmartWallet}
      → find (governor_of pda base) s.governors ≡ none
      → find (smart_wallet_of pda base) s.wallets.wallets ≡ some w
      → contains (governor_of pda base) w.owners ≡ true
      → leb_ℤ (pos 0) timelock ≡ true
      → (c : Call) × (u : Chambers) × (main pda ids payer s base
            (Command.create_governor delay period quorum timelock voter_program)
          ≡ ok (c ∷ []))
        × (process pda now c s ≡ ok u)
        × (main pda ids payer u keypair
              (Command.verify base delay period quorum timelock voter_program)
            ≡ ok [])
  unfolding main
  create_governor-verifies now s payer base keypair delay period quorum timelock voter_program fresh
        wallet owner positive =
      let params : GovernanceParameters = record {
        voting_delay = delay;
        voting_period = period;
        quorum_votes = quorum;
        timelock_delay_seconds = timelock;
      } in
      let k = governor_of pda base in
      let g = created pda ids base params voter_program in
      let u : Chambers = record s { governors = put k g s.governors } in
      (
        Call.create_governor base k (smart_wallet_of pda base)
            (locker_of pda ids voter_program base) params,
        u,
        refl,
        process-created now s base params voter_program fresh wallet owner positive,
        first_step _ _
            (verify-created payer u base params voter_program
              (find-put k k g s.governors ∙ ground (arith, ==_refl k)))
            refl,
      )
