-- ===== src/Cli/DistributorTool/Deploying.antt =====
-- The deployment of a distributor with cli/merkle_distributor: new_distributor, fund and verify.
use wagmi.Prelude.{
  ℕ, ◌+◌, ◌≡◌, ◌≢◌, ◌∙◌, refl, sym, ap, subst, arith, ℤ, true, some, List, [], ◌∷◌, find, find-put,
  ==_refl, as_i64,
}
use wagmi.Chain.{
  Pubkey, client, token, ok, >>=-eq-ok, ok-injective, first_step, ◌>>=◌, init, unwrap_opt,
  TokenProgram, transfer_tokens, transfer_tokens-Moves, unwrap_opt-eq-ok,
}
use wagmi.Chain.Address.{Seeds, FindProgramAddress}
use wagmi.Chain.Hashing.{Hash, Hashv}
use wagmi.Distributor.{MerkleDistributor}
use wagmi.Distributor as Admin
use wagmi.Distributor.Program.{Accounts, Call, run}
use wagmi.Snapshot.{Snapshot, read_snapshot, build_tree}
use wagmi.Cli.DistributorTool.Commands.{TokenClient, Instruction}
use wagmi.Cli.DistributorTool.Requests as Requests
use wagmi.Cli.DistributorTool.Requests.{load_snapshot, verify_fields, verify_tree}
use wagmi.Cli.Client.{fetch-of_find}
use wagmi.Cli.DistributorTool.Sending.{perform, send, send_one}
use wagmi.Cli.DistributorTool.Deployed.{new_distributor-IsDeployed, verify-IsDeployed}

module _ (tp : TokenProgram) (tc : TokenClient tp) (hashv : Hashv) (pda : FindProgramAddress)
    (payer : Pubkey) where
  -- `new_distributor` of the program, on the stores.
  run-new_distributor :
      (now : ℤ) (l : tp.Ledger) (s : Accounts) (ctx : Admin.NewDistributor) (locker : Pubkey)
      (root : Hash) (total nodes : ℕ) (start : ℤ) {r : tp.Ledger × Accounts}
      → perform tp tc hashv pda now
          (Instruction.call (Call.new_distributor ctx locker root total nodes start))
          l
          s
        ≡ ok r
      → (d : MerkleDistributor) × (Admin.new_distributor tp pda now l ctx locker root total nodes
            start
          ≡ ok (r.0, d))
        × (find ctx.distributor r.1.distributors ≡ some d)
  unfolding run perform
  run-new_distributor now l s ctx locker root total nodes start h =
      let (_, _, h1) = >>=-eq-ok (init ctx.distributor s.distributors) _ h in
      let ((l', d), e, h2) =
        >>=-eq-ok (Admin.new_distributor tp pda now l ctx locker root total nodes start) _ h1 in
      (
        d,
        e ∙ ap (λ p. ok (p.0, d)) (sym (ok-injective h2)),
        ap (λ p. find ctx.distributor p.1.distributors) (ok-injective h2)
            ∙ find-put ctx.distributor ctx.distributor d s.distributors
            ∙ ground (arith, ==_refl ctx.distributor),
      )

  -- What `new_distributor` of the tool sends.
  new_distributor-sends :
      (l : tp.Ledger) (s : Accounts) (base token_mint owner : Pubkey) (start : ℕ) (file : Snapshot)
      {is : List Instruction}
      → Requests.new_distributor tp tc hashv pda payer l s base token_mint file owner start ≡ ok is
      → (snapshot : Snapshot) × (nodes : ℕ) × (total : ℕ) × (root : Hash) × (load_snapshot tp tc
            hashv pda payer l s token_mint file
          ≡ ok snapshot)
        × (build_tree hashv snapshot ≡ ok (nodes, total, root))
        × (is ≡ (
            Instruction.call (
              Call.new_distributor
                (record {
                  base = base;
                  distributor = (pda (Seeds.distributor base)).0;
                  mint = token_mint;
                  admin = payer;
                  clawback_receiver = tp.associated_address owner token_mint;
                })
                (pda (Seeds.met_locker base)).0
                root
                total
                nodes
                (as_i64 start))
            ∷ []))
  unfolding Requests.new_distributor
  new_distributor-sends l s base token_mint owner start file h =
      let (snapshot, e, h1) =
        >>=-eq-ok (load_snapshot tp tc hashv pda payer l s token_mint file) _ h in
      let ((nodes, total, root), e', h2) = >>=-eq-ok (build_tree hashv snapshot) _ h1 in
      (snapshot, nodes, total, root, e, e', ok-injective h2)

  -- The two instructions of `fund`.
  send-fund :
      (now : ℤ) (l : tp.Ledger) (s : Accounts) (token_mint ata vault : Pubkey) (total : ℕ)
      {l' : tp.Ledger} {s' : Accounts}
      → ata ≢ vault
      → send tp tc hashv pda now
          (Instruction.mint_to token_mint ata payer total
            ∷ Instruction.transfer ata vault payer total
            ∷ [])
          l
          s
        ≡ ok (l', s')
      → (s' ≡ s) × ((tp.account l' vault).amount ≡ (tp.account l vault).amount + total)
  unfolding perform
  send-fund now l s token_mint ata vault total {l'} {s'} apart h =
      let mint = Instruction.mint_to token_mint ata payer total in
      let pay = Instruction.transfer ata vault payer total in
      let (p, e, h1) = >>=-eq-ok (perform tp tc hashv pda now mint l s) _ h in
      let (q, e', h2) = >>=-eq-ok (perform tp tc hashv pda now pay p.0 p.1) _ h1 in
      let (m, minted, is) =
        >>=-eq-ok (unwrap_opt (tc.mint_to l token_mint ata payer total) token) _ e in
      let (n, paid, is') = >>=-eq-ok (transfer_tokens tp p.0 ata vault payer total) _ e' in
      let first = ok-injective is in
      let second = ok-injective is' in
      let done = ok-injective h2 in
      let gives = transfer_tokens-Moves tp p.0 ata vault payer total {l' = n} apart paid in
      let kept : tp.account m vault ≡ tp.account l vault =
        tc.mint_to_others l token_mint ata payer vault total {l' = m} (λ e. apart (sym e))
          (unwrap_opt-eq-ok _ _ minted) in
      (
        ap (λ x. x.1) done ∙ ap (λ x. x.1) second ∙ ap (λ x. x.1) first,
        ap (λ x. (tp.account x.0 vault).amount) (done ∙ second)
            ∙ gives.1
            ∙ ap (λ x. (tp.account x vault).amount + total) (ap (λ x. x.0) first)
            ∙ ap (λ x. x.amount + total) kept,
      )

  fund-pays :
      (now : ℤ) (l : tp.Ledger) (s : Accounts) (base : Pubkey) (file : Snapshot)
      {is : List Instruction} {l' : tp.Ledger} {s' : Accounts} {d : MerkleDistributor}
      {snapshot : Snapshot} {nodes total : ℕ} {root : Hash}
      → find (pda (Seeds.distributor base)).0 s.distributors ≡ some d
      → load_snapshot tp tc hashv pda payer l s d.mint file ≡ ok snapshot
      → build_tree hashv snapshot ≡ ok (nodes, total, root)
      → Requests.fund tp tc hashv pda payer l s base file ≡ ok is
      → send tp tc hashv pda now is l s ≡ ok (l', s')
      → let vault = tp.associated_address (pda (Seeds.distributor base)).0 d.mint in
        tp.associated_address payer d.mint ≢ vault
        → (s' ≡ s) × ((tp.account l' vault).amount ≡ (tp.account l vault).amount + total)
  unfolding Requests.fund
  fund-pays now l s base file {is} {l'} {s'} {d} {nodes = nodes} {total = total} at loaded built h
        sent apart =
      let sends =
        first_step _ _ (fetch-of_find _ s.distributors at)
          (first_step _ _ loaded (first_step _ _ built refl)) in
      let same = ok-injective (sym sends ∙ h) in
      send-fund now l s d.mint (tp.associated_address payer d.mint)
        (tp.associated_address (pda (Seeds.distributor base)).0 d.mint) total apart
        (ap (λ x. send tp tc hashv pda now x l s) (sym same) ∙ sent)

  -- Let `new_distributor` of the tool succeed on the chain, let then the vault be empty and `fund`
  -- succeed, with a payer whose token account is not the vault, and let the decimals of the mint stay.
  -- Then `verify` accepts the distributor for the same arguments, with its amount.
  pub deploy-verifies :
      (now later : ℤ) (l m : tp.Ledger) (s : Accounts) (base token_mint owner : Pubkey) (start : ℕ)
      (file : Snapshot) {is js : List Instruction} {l' m' : tp.Ledger} {t u : Accounts}
      → Requests.new_distributor tp tc hashv pda payer l s base token_mint file owner start ≡ ok is
      → send tp tc hashv pda now is l s ≡ ok (l', t)
      → let vault = tp.associated_address (pda (Seeds.distributor base)).0 token_mint in
        (tp.account m vault).amount ≡ 0
        → tp.associated_address payer token_mint ≢ vault
        → tc.decimals m token_mint ≡ tc.decimals l token_mint
        → Requests.fund tp tc hashv pda payer m t base file ≡ ok js
        → send tp tc hashv pda later js m t ≡ ok (m', u)
        → tc.decimals m' token_mint ≡ tc.decimals l token_mint
        → Requests.verify tp tc hashv pda payer m' u base token_mint
            (as_i64 start)
            owner
            payer
            file
            true
          ≡ ok tt
  deploy-verifies now later l m s base token_mint owner start file {is} {js} {l'} {m'} {t} {u} h
        sent nothing apart same funding funded same' =
      let (snapshot, nodes, total, root, loaded, built, only) =
        new_distributor-sends l s base token_mint owner start file h in
      let (d, made, at) =
        run-new_distributor now l s _ _ root total nodes (as_i64 start) {r = (l', t)}
          (send_one tp tc hashv pda now _ is l s only sent) in
      let is_deployed =
        new_distributor-IsDeployed tp pda payer now l base token_mint owner start root total nodes
          made in
      let reload : (k : tp.Ledger) (v : Accounts) (mint : Pubkey)
          → tc.decimals k mint ≡ tc.decimals l token_mint
          → load_snapshot tp tc hashv pda payer k v mint file ≡ ok snapshot =
        λ k v mint e.
          ap (λ n. unwrap_opt n client >>= (λ decimals. read_snapshot file decimals)) e ∙ loaded in
      let (kept, paid) =
        fund-pays later m t base file at
          (reload m t d.mint (ap (tc.decimals m) is_deployed.mint ∙ same)) built funding funded
          (subst
            (λ x.
              tp.associated_address payer x
              ≢ tp.associated_address (pda (Seeds.distributor base)).0 x)
            (sym is_deployed.mint) apart) in
      let vault = is_deployed.vault in
      verify-IsDeployed tp tc hashv pda payer m' u base token_mint owner start file true
        (ap (λ x. find (pda (Seeds.distributor base)).0 x.distributors) kept ∙ at) is_deployed
        (reload m' u token_mint same') built
        (λ e.
          ap (λ x. (tp.account m' x).amount) vault
          ∙ subst
              (λ x.
                let v = tp.associated_address (pda (Seeds.distributor base)).0 x in
                (tp.account m' v).amount ≡ (tp.account m v).amount + total)
              is_deployed.mint paid
          ∙ omega (arith, nothing))
