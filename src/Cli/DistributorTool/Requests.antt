-- ===== src/Cli/DistributorTool/Requests.antt =====
-- cli/merkle_distributor/src/main.rs: the commands, as the instructions that they send.
use wagmi.Prelude.{ℕ, ℤ, ◌==◌, ◌==ℤ◌, Bool, if◌then◌else◌, List, [], ◌∷◌, ◌++◌, as_i64}
use wagmi.Chain.{Pubkey, client, Result, ok, ◌>>=◌, ◌>>◌, unwrap_opt, when, TokenProgram}
use wagmi.Chain.Address.{Seeds, FindProgramAddress}
use wagmi.Chain.Hashing.{Hash, Hashv}
use wagmi.Distributor.{MerkleDistributor, ClaimStatus}
use wagmi.Distributor.Program.{Accounts, Call}
use wagmi.Snapshot.{Snapshot, read_snapshot, build_tree, get_user_claim_info}
use wagmi.Cli.DistributorTool.Commands.{TokenClient, Command, Instruction}
use wagmi.Cli.Client.{fetch, is_missing, assert}

module _ (tp : TokenProgram) (tc : TokenClient tp) (hashv : Hashv) (pda : FindProgramAddress)
    (payer : Pubkey) (l : tp.Ledger) (s : Accounts) where
  abbrev pub distributor_of : Pubkey → Pubkey
  distributor_of base = (pda (Seeds.distributor base)).0

  abbrev pub met_locker_of : Pubkey → Pubkey
  met_locker_of base = (pda (Seeds.met_locker base)).0

  -- The snapshot of a file, in the smallest unit of the mint.
  abbrev pub load_snapshot : Pubkey → Snapshot → Result Snapshot
  load_snapshot token_mint file = do
    decimals ← unwrap_opt (tc.decimals l token_mint) client
    read_snapshot file decimals

  -- `new_distributor`; the base signs.
  unfoldable pub new_distributor :
      Pubkey → Pubkey → Snapshot → Pubkey → ℕ → Result (List Instruction)
  new_distributor base token_mint file clawback_owner start = do
    snapshot ← load_snapshot token_mint file
    (max_num_nodes, max_total_claim, root) ← build_tree hashv snapshot
    ok (
        Instruction.call (
          Call.new_distributor
            (record {
              base = base;
              distributor = distributor_of base;
              mint = token_mint;
              admin = payer;
              clawback_receiver = tp.associated_address clawback_owner token_mint;
            })
            (met_locker_of base) root max_total_claim max_num_nodes (as_i64 start))
        ∷ [])

  -- `fund`: the payer mints the tokens and sends them to the vault.
  unfoldable pub fund : Pubkey → Snapshot → Result (List Instruction)
  fund base file = do
    let distributor = distributor_of base
    state ← fetch distributor s.distributors
    snapshot ← load_snapshot state.mint file
    (max_num_nodes, max_total_claim, root) ← build_tree hashv snapshot
    let admin_ata = tp.associated_address payer state.mint
    ok (
        Instruction.mint_to state.mint admin_ata payer max_total_claim
        ∷ Instruction.transfer admin_ata (tp.associated_address distributor state.mint) payer
            max_total_claim
        ∷ [])

  -- What `claim` sends first: the escrow and its token account, where they do not exist.
  abbrev pub set_up : MerkleDistributor → Pubkey → List Instruction
  set_up state escrow =
      (if is_missing escrow s.voter.escrows
        then Instruction.new_escrow state.locker escrow payer ∷ []
        else [])
      ++ (if tp.is_open l (tp.associated_address escrow state.mint)
          then []
          else Instruction.create_associated payer escrow state.mint ∷ [])

  -- `claim`; the payer claims.
  unfoldable pub claim : Pubkey → Snapshot → Result (List Instruction)
  claim base file = do
    let distributor = distributor_of base
    state ← fetch distributor s.distributors
    snapshot ← load_snapshot state.mint file
    (index, amount, proof) ← unwrap_opt (get_user_claim_info hashv snapshot payer) client
    let escrow = (pda (Seeds.met_escrow state.locker payer)).0
    ok (
        set_up state escrow
        ++ (Instruction.call (
              Call.claim (record {
                distributor = distributor;
                claim_status = (pda (Seeds.claim_status index distributor)).0;
                token_vault = state.token_vault;
                claimant = payer;
                locker = state.locker;
                escrow = escrow;
                escrow_tokens = tp.associated_address escrow state.mint;
                index = index;
                amount = amount;
                proof = proof;
              }))
            ∷ []))

  -- `ViewClaimStatus` of `main`.
  abbrev pub view_claim_status : Pubkey → Pubkey → Snapshot → Result ClaimStatus
  view_claim_status base claimant file = do
    let distributor = distributor_of base
    state ← fetch distributor s.distributors
    snapshot ← load_snapshot state.mint file
    (index, amount, proof) ← unwrap_opt (get_user_claim_info hashv snapshot claimant) client
    fetch (pda (Seeds.claim_status index distributor)).0 s.claim_statuses

  -- The assertions of `verify`, on the addresses and the time, and on the tree of the snapshot.
  abbrev pub verify_fields :
      MerkleDistributor → Pubkey → Pubkey → ℤ → Pubkey → Pubkey → Result (Unit {0})
  verify_fields state base token_mint start clawback_receiver_owner admin = do
    assert (state.mint == token_mint)
    assert (state.locker == met_locker_of base)
    assert (state.admin == admin)
    assert (state.clawback_start_ts ==ℤ start)
    assert (state.clawback_receiver == tp.associated_address clawback_receiver_owner state.mint)

  abbrev pub verify_tree : MerkleDistributor → ℕ → ℕ → Hash → Result (Unit {0})
  verify_tree state max_num_nodes max_total_claim root = do
    assert (state.root == root)
    assert (state.max_num_nodes == max_num_nodes)
    assert (state.max_total_claim == max_total_claim)

  -- `verify`.
  unfoldable pub verify :
      Pubkey → Pubkey → ℤ → Pubkey → Pubkey → Snapshot → Bool → Result (Unit {0})
  verify base token_mint start clawback_receiver_owner admin file verify_amount = do
    state ← fetch (distributor_of base) s.distributors
    verify_fields state base token_mint start clawback_receiver_owner admin
    snapshot ← load_snapshot token_mint file
    (max_num_nodes, max_total_claim, root) ← build_tree hashv snapshot
    verify_tree state max_num_nodes max_total_claim root
    when verify_amount (assert ((tp.account l state.token_vault).amount == state.max_total_claim))

  -- `main`, with the address of the base keypair. A command that only prints sends nothing.
  unfoldable pub main : Pubkey → Command → Result (List Instruction)
  main keypair (Command.new_distributor token_mint file clawback_owner start) =
      new_distributor keypair token_mint file clawback_owner start
  main keypair (Command.fund file) = fund keypair file
  main keypair (Command.claim base file) = claim base file
  main keypair (Command.view_distributor base) = do
    state ← fetch (distributor_of base) s.distributors
    ok []
  main keypair (Command.view_claim_status base claimant file) = do
    status ← view_claim_status base claimant file
    ok []
  main keypair (Command.verify base start receiver_owner admin token_mint file verify_amount) = do
    verify base token_mint start receiver_owner admin file verify_amount
    ok []
