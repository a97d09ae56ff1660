-- ===== src/Govern/Program.antt =====
-- programs/govern/src/lib.rs: the instructions that proposers and voters send, on the accounts that they
-- name. Those that a locker or a wallet signs come from calls of the other programs, and act on single
-- accounts (Govern/Ballot).
use wagmi.Prelude.{ℕ, List, ℤ, Store, none, some, true, false, find, put}
use wagmi.Chain.{Pubkey, Result, ok, ◌>>=◌, ◌>>◌, load, init}
use wagmi.Chain.Address.{FindProgramAddress}
use wagmi.SmartWallet.Program.{Wallets}
use wagmi.Govern.State.{
  Governor, GovernanceParameters, Proposal, ProposalInstruction, ProposalMeta, Vote,
}
use wagmi.Govern.Setup
use wagmi.Govern.Drafts
use wagmi.Govern.Voting
use wagmi.Govern.Queue

-- The accounts of the program, and those of the smart wallet program.
pub record Chambers : Type 0 where
  pub governors : Store Governor
  pub proposals : Store Proposal
  pub votes : Store Vote
  pub metas : Store ProposalMeta
  pub wallets : Wallets

-- The instructions, with the addresses that they are given.
pub data Call : Type 0 where
  create_governor :
      (base governor smart_wallet locker : Pubkey) (params : GovernanceParameters) → Call
  create_proposal :
      (governor proposal smart_wallet proposer : Pubkey) (proposal_type max_option : ℕ)
      (instructions : List ProposalInstruction)
      → Call
  cancel_proposal : (governor proposal proposer : Pubkey) → Call
  queue_proposal : (governor proposal transaction smart_wallet : Pubkey) → Call
  new_vote : (proposal vote voter : Pubkey) → Call
  create_proposal_meta :
      (proposal proposal_meta proposer : Pubkey) (title description_link : List ℕ) → Call

unfoldable pub process : FindProgramAddress → ℤ → Call → Chambers → Result Chambers
process pda now (Call.create_governor base gk wk locker params) s = do
  init gk s.governors
  wallet ← load wk s.wallets.wallets
  governor ←
      Setup.create_governor pda (record { base = base; governor = gk; smart_wallet = wallet })
        locker params
  ok (record s { governors = put gk governor s.governors })
process pda now (Call.create_proposal gk pk wk proposer kind max_option instructions) s = do
  governor ← load gk s.governors
  init pk s.proposals
  wallet ← load wk s.wallets.wallets
  (governor', proposal) ←
      Drafts.create_proposal pda now
        (record { governor = governor; proposal = pk; smart_wallet = wallet; proposer = proposer })
        kind max_option instructions
  ok (record s {
    governors = put gk governor' s.governors;
    proposals = put pk proposal s.proposals;
  })
process pda now (Call.cancel_proposal gk pk proposer) s = do
  governor ← load gk s.governors
  proposal ← load pk s.proposals
  proposal' ←
      Drafts.cancel_proposal now
        (record { governor = governor; proposal = proposal; signer = proposer })
  ok (record s { proposals = put pk proposal' s.proposals })
process pda now (Call.queue_proposal gk pk tk wk) s = do
  governor ← load gk s.governors
  proposal ← load pk s.proposals
  wallet ← load wk s.wallets.wallets
  (wallet', transaction, proposal') ← Queue.queue_proposal pda now (record {
    governor = governor;
    proposal = proposal;
    transaction = tk;
    transaction_is_empty = elim (find tk s.wallets.transactions) [
      | none ↦ true
      | some transaction ↦ false
    ];
    smart_wallet = wallet;
  })
  ok (record s {
    proposals = put pk proposal' s.proposals;
    wallets = record (s.wallets) {
      wallets = put wk wallet' s.wallets.wallets;
      transactions = put tk transaction s.wallets.transactions;
    };
  })
process pda now (Call.new_vote pk vk voter) s = do
  proposal ← load pk s.proposals
  init vk s.votes
  vote ← Voting.new_vote pda pk vk voter
  ok (record s { votes = put vk vote s.votes })
process pda now (Call.create_proposal_meta pk mk proposer title description_link) s = do
  proposal ← load pk s.proposals
  init mk s.metas
  meta ← Drafts.create_proposal_meta pda proposal proposer mk title description_link
  ok (record s { metas = put mk meta s.metas })
