-- ===== src/Cli/DistributorTool/Deployed.antt =====
-- A distributor as the command `verify` of cli/merkle_distributor looks for it.
use wagmi.Prelude.{ℕ, ◌≡◌, arith, ℤ, Bool, true, some, find, ==_refl, as_i64, ◌==ℤ◌}
use wagmi.Chain.{Pubkey, ok, first_step, TokenProgram}
use wagmi.Chain.Address.{Seeds, FindProgramAddress}
use wagmi.Chain.Hashing.{Hash, Hashv}
use wagmi.Distributor.{MerkleDistributor}
use wagmi.Distributor as Admin
use wagmi.Distributor.Program.{Accounts}
use wagmi.Snapshot.{Snapshot, build_tree}
use wagmi.Cli.DistributorTool.Commands.{TokenClient}
use wagmi.Cli.DistributorTool.Requests as Requests
use wagmi.Cli.DistributorTool.Requests.{load_snapshot, verify_fields, verify_tree}
use wagmi.Cli.Client.{assert, fetch-of_find, assert_same}

module _ (tp : TokenProgram) (pda : FindProgramAddress) (payer : Pubkey) where
  -- What `verify` looks for in a distributor.
  pub record IsDeployed (base token_mint clawback_owner : Pubkey) (start : ℕ)
      (d : MerkleDistributor) (nodes total : ℕ) (root : Hash) : Type 0 where
    pub mint : d.mint ≡ token_mint
    pub locker : d.locker ≡ (pda (Seeds.met_locker base)).0
    pub admin : d.admin ≡ payer
    pub start_is : d.clawback_start_ts ≡ as_i64 start
    pub receiver : d.clawback_receiver ≡ tp.associated_address clawback_owner token_mint
    pub vault : d.token_vault ≡ tp.associated_address (pda (Seeds.distributor base)).0 token_mint
    pub root_is : d.root ≡ root
    pub nodes_is : d.max_num_nodes ≡ nodes
    pub total_is : d.max_total_claim ≡ total

module _ (tp : TokenProgram) (pda : FindProgramAddress) (payer : Pubkey) where
  pub new_distributor-IsDeployed :
      (now : ℤ) (l : tp.Ledger) (base token_mint owner : Pubkey) (start : ℕ) (root : Hash)
      (total nodes : ℕ) {l' : tp.Ledger} {d : MerkleDistributor}
      → Admin.new_distributor tp pda now l
          (record {
            base = base;
            distributor = (pda (Seeds.distributor base)).0;
            mint = token_mint;
            admin = payer;
            clawback_receiver = tp.associated_address owner token_mint;
          })
          (pda (Seeds.met_locker base)).0
          root
          total
          nodes
          (as_i64 start)
        ≡ ok (l', d)
      → IsDeployed tp pda payer base token_mint owner start d nodes total root
  unfolding Admin.new_distributor
  new_distributor-IsDeployed now l base token_mint owner start root total nodes h = ground arith

module _ (tp : TokenProgram) (tc : TokenClient tp) (hashv : Hashv) (pda : FindProgramAddress)
    (payer : Pubkey) where
  verify_fields-IsDeployed :
      (l : tp.Ledger) (s : Accounts) (base token_mint owner : Pubkey) (start : ℕ) {nodes total : ℕ}
      {root : Hash} {d : MerkleDistributor}
      → IsDeployed tp pda payer base token_mint owner start d nodes total root
      → verify_fields tp tc hashv pda payer l s d base token_mint (as_i64 start) owner payer ≡ ok tt
  verify_fields-IsDeployed l s base token_mint owner start {d = d} is =
      first_step _ _ (assert_same _ _ is.mint) (
        first_step _ _ (assert_same _ _ is.locker) (
          first_step _ _ (assert_same _ _ is.admin) (
            first_step (assert (d.clawback_start_ts ==ℤ as_i64 start)) _
              (assert_same _ _ (ground arith)) (assert_same _ _ (ground arith)))))

  verify_tree-IsDeployed :
      (l : tp.Ledger) (s : Accounts) (base token_mint owner : Pubkey) (start : ℕ) {nodes total : ℕ}
      {root : Hash} {d : MerkleDistributor}
      → IsDeployed tp pda payer base token_mint owner start d nodes total root
      → verify_tree tp tc hashv pda payer l s d nodes total root ≡ ok tt
  verify_tree-IsDeployed l s base token_mint owner start is =
      first_step _ _ (assert_same _ _ is.root_is)
        (first_step _ _ (assert_same _ _ is.nodes_is) (assert_same _ _ is.total_is))

  pub verify-IsDeployed :
      (l : tp.Ledger) (s : Accounts) (base token_mint owner : Pubkey) (start : ℕ) (file : Snapshot)
      (b : Bool) {snapshot : Snapshot} {nodes total : ℕ} {root : Hash} {d : MerkleDistributor}
      → find (pda (Seeds.distributor base)).0 s.distributors ≡ some d
      → IsDeployed tp pda payer base token_mint owner start d nodes total root
      → load_snapshot tp tc hashv pda payer l s token_mint file ≡ ok snapshot
      → build_tree hashv snapshot ≡ ok (nodes, total, root)
      → (b ≡ true → (tp.account l d.token_vault).amount ≡ total)
      → Requests.verify tp tc hashv pda payer l s base token_mint (as_i64 start) owner payer file b
        ≡ ok tt
  unfolding Requests.verify
  verify-IsDeployed l s base token_mint owner start file b {snapshot} {d = d} at is loaded built
        paid =
      first_step _ _ (fetch-of_find _ s.distributors at) (
        first_step _ _ (verify_fields-IsDeployed l s base token_mint owner start is) (
          first_step _ _ loaded (
            first_step _ _ built (
              first_step _ _ (verify_tree-IsDeployed l s base token_mint owner start is)
                (ground (arith, paid, is.total_is, ==_refl d.max_total_claim))))))
