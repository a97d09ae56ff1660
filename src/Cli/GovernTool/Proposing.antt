-- ===== src/Cli/GovernTool/Proposing.antt =====
-- The commands of cli/govern on proposals: a dummy proposal, and a proposal that is queued.
use wagmi.Prelude.{
  ℕ, ◌+◌, ◌<◌, ◌≡◌, ◌∙◌, refl, arith, ℤ, pos, none, some, [], ◌∷◌, find, put, find-put, ==_refl,
  u64_mod,
}
use wagmi.Chain.{Pubkey, default_pubkey, ok, first_step, init-of_none, load-of_find}
use wagmi.Chain.Address.{Seeds, FindProgramAddress}
use wagmi.SmartWallet.{SmartWallet, owner_index}
use wagmi.Govern.{Governor, Proposal, state, draft, create_proposal}
use wagmi.Govern.Program.{Chambers, Call, process}
use wagmi.Cli.Client.{ProgramIds, fetch-of_find}
use wagmi.Cli.GovernTool.Commands.{Command}
use wagmi.Cli.GovernTool.Requests as Requests
use wagmi.Cli.GovernTool.Requests.{main, governor_of}

-- The proposal that is made.
abbrev drafted : FindProgramAddress → ℤ → Pubkey → Pubkey → Governor → Proposal
drafted pda now gk payer g = record {
  governor = gk;
  index = g.proposal_count;
  bump = (pda (Seeds.proposal gk g.proposal_count)).1;
  proposer = payer;
  quorum_votes = g.params.quorum_votes;
  max_option = 2;
  option_votes = 0 ∷ 0 ∷ 0 ∷ [];
  canceled_at = pos 0;
  created_at = now;
  activated_at = pos 0;
  voting_ends_at = pos 0;
  queued_at = pos 0;
  queued_transaction = default_pubkey;
  voting_reward = g.voting_reward;
  total_claimed_reward = 0;
  proposal_type = 0;
  instructions = [];
}

create_proposal-drafted :
    (pda : FindProgramAddress) (now : ℤ) (gk payer : Pubkey) (g : Governor) (w : SmartWallet)
    {i : ℕ}
    → owner_index w payer ≡ ok i
    → g.proposal_count + 1 < u64_mod
    → create_proposal pda now
        (record {
          governor = record { key = gk; info = g };
          proposal = (pda (Seeds.proposal gk g.proposal_count)).0;
          smart_wallet = record { key = g.smart_wallet; info = w };
          proposer = payer;
        })
        0
        2
        []
      ≡ ok (record g { proposal_count = g.proposal_count + 1 }, drafted pda now gk payer g)
unfolding create_proposal
create_proposal-drafted pda now gk payer g w owner room =
    ground (arith, ==_refl g.smart_wallet, ==_refl (pda (Seeds.proposal gk g.proposal_count)).0)

module _ (pda : FindProgramAddress) (ids : ProgramIds) where
  -- Where the governor of the base and its smart wallet exist, the payer is an owner of this
  -- wallet, the governor has made fewer than 2^64 - 1 proposals and the address of its next one is
  -- free, the command to create a dummy proposal sends one instruction. This instruction succeeds,
  -- makes at that address a proposal of the payer for this governor, with the next index and
  -- nothing to execute, which is a draft, and raises the number of proposals of the governor by
  -- one; nothing else of the governor changes.
  pub create_dummy_proposal-drafts :
      (now : ℤ) (s : Chambers) (payer keypair base : Pubkey) {g : Governor} {w : SmartWallet}
      {i : ℕ}
      → let pk = (pda (Seeds.proposal (governor_of pda base) g.proposal_count)).0 in
        find (governor_of pda base) s.governors ≡ some g
        → find g.smart_wallet s.wallets.wallets ≡ some w
        → owner_index w payer ≡ ok i
        → g.proposal_count + 1 < u64_mod
        → find pk s.proposals ≡ none
        → (c : Call) × (u : Chambers) × (p : Proposal) × (main pda ids payer s keypair
              (Command.create_dummy_proposal base)
            ≡ ok (c ∷ []))
          × (process pda now c s ≡ ok u)
          × (find pk u.proposals ≡ some p)
          × (state p now ≡ ok draft)
          × (p.governor ≡ governor_of pda base)
          × (p.index ≡ g.proposal_count)
          × (p.proposer ≡ payer)
          × (p.instructions ≡ [])
          × (find (governor_of pda base) u.governors
              ≡ some (record g { proposal_count = g.proposal_count + 1 }))
  unfolding main Requests.create_dummy_proposal process state
  create_dummy_proposal-drafts now s payer keypair base {g} {w} {i} fg fw owner room fresh =
      let gk = governor_of pda base in
      let pk = (pda (Seeds.proposal gk g.proposal_count)).0 in
      (
        Call.create_proposal gk pk g.smart_wallet payer 0 2 [],
        record s {
          governors = put gk (record g { proposal_count = g.proposal_count + 1 }) s.governors;
          proposals = put pk (drafted pda now gk payer g) s.proposals;
        },
        drafted pda now gk payer g,
        first_step _ _ (fetch-of_find gk s.governors fg) refl,
        first_step _ _ (load-of_find gk s.governors fg) (
            first_step _ _ (init-of_none pk s.proposals fresh) (
              first_step _ _ (load-of_find g.smart_wallet s.wallets.wallets fw)
                (first_step _ _ (create_proposal-drafted pda now gk payer g w owner room) refl))),
        find-put pk pk (drafted pda now gk payer g) s.proposals ∙ ground (arith, ==_refl pk),
        refl,
        refl,
        refl,
        refl,
        refl,
        find-put gk gk (record g { proposal_count = g.proposal_count + 1 }) s.governors
            ∙ ground (arith, ==_refl gk),
      )
