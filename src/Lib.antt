-- ===== src/Lib.antt =====
-- A model of the on-chain programs of WAGMI (Solana programs in Rust) and its correctness.
--
-- The programs and the files that model them:
-- - programs/locked-voter: holders lock tokens in an escrow (`Escrow`) of a locker (`Locker`) and get
--   voting power for the time of the lock. LockedVoter/State holds the accounts and their updates
--   (state.rs), LockedVoter/VoterPower the voting power (locker.rs). The instructions are in
--   LockedVoter/Escrows (new_locker, new_escrow, set_locker_params, set_vote_delegate,
--   extend_lock_duration, toggle_max_lock), LockedVoter/Deposits (increase_locked_amount, withdraw),
--   LockedVoter/Unstaking (open, merge and withdraw_partial_unstaking) and LockedVoter/Ballots
--   (cast_vote, activate_proposal, which call programs/govern with the locker as signer).
--   LockedVoter/Program runs those that write accounts of the program on stores of accounts, and its
--   `History` is any history of them, between which other programs may change the ledger.
-- - programs/met-voter: locked-voter with an initial phase before the launch of the token, in which
--   the voting power does not depend on the lock; it has no partial unstakings. MetVoter/State
--   holds the accounts (state.rs), MetVoter/VoterPower the phase and the power (locker.rs),
--   MetVoter/Escrows, MetVoter/Deposits and MetVoter/Ballots the instructions, MetVoter/Program its
--   entry points that write accounts of the program and its `History`, whose clock never goes back. MetVoter/Embedding and
--   MetVoter/Simulation read its accounts as accounts of locked-voter, and MetVoter/Casting its votes.
-- - programs/merkle-distributor: tokens claimed against the root of a tree of hashes, into escrows of
--   met-voter. Distributor/State holds the accounts (lib.rs), Distributor/MerkleProof the check of a
--   proof (merkle_proof.rs), Distributor/Admin the instructions new_distributor, set_admin,
--   set_clawback_receiver and clawback, Distributor/Claims the instruction claim, which calls
--   met-voter. Distributor/Program runs them, and its `History` logs the claims.
-- - cli/merkle_distributor/src/utils.rs: the tree that is claimed against. Snapshot/Trees holds the
--   layers, the root and the proofs, Snapshot/Allocations the list of allocations, its leaves and
--   its tree, Snapshot/Limits the reading of the list and the limits of the distributor.
-- - programs/govern: proposals, their votes and rewards. Govern/State holds the accounts (state.rs,
--   constants.rs), Govern/Proposals the states of a proposal and its tally (proposal.rs). The
--   instructions are in Govern/Setup (create_governor, set_governance_params, set_locker,
--   set_voting_reward), Govern/Drafts (create_proposal, cancel_proposal, activate_proposal and the
--   descriptions), Govern/Voting (new_vote, set_vote, claim_reward) and Govern/Queue (queue_proposal,
--   which calls programs/smart-wallet). Govern/Ballot is any sequence of the instructions on one
--   proposal and its votes.
-- - programs/smart-wallet: a multisig wallet with a timelock. SmartWallet/State holds the accounts
--   (state.rs), SmartWallet/Owners the instructions create_smart_wallet, set_owners and
--   change_threshold, SmartWallet/Transactions those on transactions. SmartWallet/Program runs them
--   on stores of accounts, and its `Run` is any history, with the calls that execute_transaction
--   makes back into the program. SmartWallet/Subaccounts holds the subaccounts, the owner invokers
--   and execute_transaction_derived.
-- - libs/vipers: the guards, in Chain/Vipers; the errors of all programs are in Chain/Errors.
-- - cli: the command line tools, one function `main` each from a command, the accounts that the tool reads
--   and the address of its payer to the instructions that it sends. Cli/Client holds what they share,
--   Cli/DistributorTool is cli/merkle_distributor (args.rs, main.rs), whose Sending runs a
--   transaction of several instructions, Cli/WalletTool is cli/smartwallet, Cli/VoterTool is
--   cli/locked-voter, Cli/MetVoterTool is cli/met-voter and Cli/GovernTool is cli/govern.
-- - Where the parts meet: Govern/Program runs the instructions of govern that users send on the accounts of
--   govern and of smart-wallet, Govern/Execution follows a proposal into a transaction of the wallet,
--   SmartWallet/Terms and SmartWallet/Proposing follow a transaction from its proposal to its execution,
--   LockedVoter/Places holds where the escrows are, and the modules Deploying, Owners, Leaving,
--   Claiming, Stakers and Proposing of the tools run what a tool sends on the programs.
--
-- An instruction is a function from the accounts that it is given, the clock and its arguments to a
-- `Result`: the accounts that it writes, or the error. The checks of `#[account(..)]` come first, then
-- `validate`, then the body, in the order of the source. An instruction that fails has no effect, as
-- on the chain. Whoever must sign is an address in the accounts; a signature that the model leaves
-- implicit is said where the instruction is defined. The release profile checks overflow, so plain
-- arithmetic that leaves its range is the error `panic`; checked operations and casts are in
-- Prelude/Words. All recursion is on lists, but for the loop that builds the layers of a tree
-- (Snapshot/Trees): it has fuel, and `build_merkle_tree` gives it one round for each leaf, which is
-- enough since a layer is at most half as long as the one below, rounded up.
--
-- Parameters: the token program (`TokenProgram`, Chain/Token, with the documented effects of a
-- transfer and of opening and closing a token account; Chain/Bank is an instance), `find_program_address`
-- (Chain/Address), `invoke_signed`, the data of instructions that anchor generates
-- (`InstructionData`, Cli/Client), what a tool uses of the token programs (`TokenClient`,
-- Cli/DistributorTool/Commands), and the hash of the SDK (`Hashv`, Chain/Hashing; Chain/Pairing is
-- an instance). An address is a number, since addresses are only compared; a hash is the number
-- that its bytes are, which orders hashes as their bytes do.
--
-- Not modelled: events, logs, rent and the size of accounts; of the command line tools the parsing of
-- arguments, keys and the client that reaches a node (`anchor_client`; an account that cannot be
-- read is the error `client`); cli/utils, which simulates transactions; and of libs/vipers what the
-- programs do not use.
--
-- Shared: Prelude (lists, stores of accounts, integers, machine words, shares rounded down).
pub mod Prelude
pub mod Chain
pub mod LockedVoter
pub mod MetVoter
pub mod Distributor
pub mod Snapshot
pub mod SmartWallet
pub mod Govern
pub mod Cli
