-- ===== src/Cli/DistributorTool/Claiming.antt =====
-- The transaction of `claim` of cli/merkle_distributor on the chain.
use wagmi.Prelude.{
  ℕ, ◌+◌, ◌<◌, ◌≤◌, ◌≡◌, ◌∙◌, refl, ap, arith, ℤ, false, none, some, List, [], ◌∷◌, ◌++◌, length,
  find, find-put, ==_refl, u64_mod,
}
use wagmi.Chain.{Pubkey, client, ok, first_step, init, load-of_find, unwrap_opt, TokenProgram}
use wagmi.Chain.Address.{Seeds, FindProgramAddress}
use wagmi.Chain.Hashing.{Hash, Hashv, IsCollisionFree}
use wagmi.MetVoter.{Locker, Escrow}
use wagmi.Distributor.{MerkleDistributor, Claim, Claimed, claim, lock_claim, validate_claim}
use wagmi.Distributor.Program.{Accounts, Call, ClaimCall, History, run, run_claim}
use wagmi.Snapshot.{Snapshot, build_tree, get_user_claim_info}
use wagmi.Snapshot.Payment.{claim-succeeds}
use wagmi.Cli.Client.{fetch-of_find}
use wagmi.Cli.DistributorTool.Commands.{TokenClient, Instruction}
use wagmi.Cli.DistributorTool.Requests as Requests
use wagmi.Cli.DistributorTool.Requests.{load_snapshot, set_up}
use wagmi.Cli.DistributorTool.Sending.{perform, send, send-append}
use wagmi.Cli.DistributorTool.SettingUp.{send-Prepared, set_up-AllPrepare}

-- The claim that the tool asks for.
abbrev pub claim_call :
    (tp : TokenProgram)
    → FindProgramAddress
    → Pubkey
    → Pubkey
    → MerkleDistributor
    → ℕ
    → ℕ
    → List Hash
    → ClaimCall
claim_call tp pda payer dk d index amount proof =
    let escrow = (pda (Seeds.met_escrow d.locker payer)).0 in
    record {
      distributor = dk;
      claim_status = (pda (Seeds.claim_status index dk)).0;
      token_vault = d.token_vault;
      claimant = payer;
      locker = d.locker;
      escrow = escrow;
      escrow_tokens = tp.associated_address escrow d.mint;
      index = index;
      amount = amount;
      proof = proof;
    }

-- The accounts of a claim.
abbrev pub claim_accounts : ClaimCall → MerkleDistributor → Locker → Escrow → Claim
claim_accounts c d k e = record {
  distributor = record { key = c.distributor; info = d };
  claim_status = c.claim_status;
  token_vault = c.token_vault;
  claimant = c.claimant;
  locker = record { key = c.locker; info = k };
  escrow = record { key = c.escrow; info = e };
  escrow_tokens = c.escrow_tokens;
}

module _ (tp : TokenProgram) (tc : TokenClient tp) (hashv : Hashv) (pda : FindProgramAddress)
    (payer : Pubkey) where
  -- What the tool sends.
  claim-sends :
      (l : tp.Ledger) (u : Accounts) (base : Pubkey) (file : Snapshot) {snapshot : Snapshot}
      {d : MerkleDistributor} {index amount : ℕ} {proof : List Hash}
      → find (pda (Seeds.distributor base)).0 u.distributors ≡ some d
      → load_snapshot tp tc hashv pda payer l u d.mint file ≡ ok snapshot
      → get_user_claim_info hashv snapshot payer ≡ some (index, amount, proof)
      → let dk = (pda (Seeds.distributor base)).0 in
        Requests.claim tp tc hashv pda payer l u base file
        ≡ ok (
            set_up tp tc hashv pda payer l u d (pda (Seeds.met_escrow d.locker payer)).0
            ++ (Instruction.call (Call.claim (claim_call tp pda payer dk d index amount proof))
                ∷ []))
  unfolding Requests.claim
  claim-sends l u base file {snapshot} at loaded info =
      first_step _ _ (fetch-of_find _ u.distributors at) (
        first_step _ _ loaded (
          first_step (unwrap_opt (get_user_claim_info hashv snapshot payer) client) _ (rw info refl)
            refl))

  -- `run_claim`, from what its steps find.
  run_claim-of_claim :
      (now : ℤ) (c : ClaimCall) (l : tp.Ledger) (u : Accounts) {d : MerkleDistributor} {k : Locker}
      {e : Escrow} {done : Claimed tp.Ledger}
      → find c.distributor u.distributors ≡ some d
      → find c.claim_status u.claim_statuses ≡ none
      → find c.locker u.voter.lockers ≡ some k
      → find c.escrow u.voter.escrows ≡ some e
      → claim tp hashv pda now l (claim_accounts c d k e) c.index c.amount c.proof ≡ ok done
      → (l' : tp.Ledger) × (u' : Accounts) × (run_claim tp hashv pda now c l u ≡ ok (l', u'))
        × (find c.distributor u'.distributors ≡ some done.distributor)
  unfolding run_claim
  run_claim-of_claim now c l u {done = done} fd fs fk fe e = (
    _,
    _,
    first_step _ _ (load-of_find _ u.distributors fd) (
        first_step (init c.claim_status u.claim_statuses) _ (rw (fs, init) refl) (
          first_step _ _ (load-of_find _ u.voter.lockers fk)
            (first_step _ _ (load-of_find _ u.voter.escrows fe) (first_step _ _ e refl)))),
    find-put c.distributor c.distributor done.distributor u.distributors
        ∙ ground (arith, ==_refl c.distributor),
  )

  -- `claim` passes the attributes.
  claim_call-valid :
      (dk : Pubkey) (d : MerkleDistributor) (index amount : ℕ) (proof : List Hash) (k : Locker)
      (e : Escrow)
      → validate_claim pda
          (claim_accounts (claim_call tp pda payer dk d index amount proof) d k e)
          index
        ≡ ok tt
  claim_call-valid dk d index amount proof k e = ground (
    arith,
    ==_refl d.locker,
    ==_refl d.token_vault,
    ==_refl (pda (Seeds.claim_status index dk)).0,
    ==_refl (pda (Seeds.met_escrow d.locker payer)).0,
  )

  -- After a history from accounts without a distributor, let the tool read a distributor that is not
  -- clawed back, whose root is that of the tree of the file and whose limits cover the file, and let
  -- the payer be listed in the file and have no claim status yet. Let the hash be free of collisions
  -- and the file be shorter than 2^64, let the first instructions of `claim`, which open the
  -- escrow and its token account where they do not exist, succeed, and let met-voter then be able to
  -- lock the amount. Then the command `claim` sends a transaction, the transaction succeeds, and the
  -- distributor counts the amount that the file gives the payer and one claim more.
  pub claim-pays :
      {s u t : Accounts} {log : List ClaimCall} (now : ℤ) (l m : tp.Ledger) (base : Pubkey)
      (file : Snapshot) {snapshot : Snapshot} {d : MerkleDistributor} {k k' : Locker}
      {e e' : Escrow} {index amount nodes total : ℕ} {proof : List Hash} {m' : tp.Ledger}
      → History tp hashv pda s u log
      → s.distributors ≡ []
      → let dk = (pda (Seeds.distributor base)).0 in
        let c = claim_call tp pda payer dk d index amount proof in
        find dk u.distributors ≡ some d
        → load_snapshot tp tc hashv pda payer l u d.mint file ≡ ok snapshot
        → get_user_claim_info hashv snapshot payer ≡ some (index, amount, proof)
        → find c.claim_status u.claim_statuses ≡ none
        → IsCollisionFree hashv
        → length snapshot < u64_mod
        → build_tree hashv snapshot ≡ ok (nodes, total, d.root)
        → total ≤ d.max_total_claim
        → nodes ≤ d.max_num_nodes
        → d.clawed_back ≡ false
        → send tp tc hashv pda now (set_up tp tc hashv pda payer l u d c.escrow) l u ≡ ok (m, t)
        → find d.locker t.voter.lockers ≡ some k
        → find c.escrow t.voter.escrows ≡ some e
        → lock_claim tp hashv pda now m (claim_accounts c d k e) amount ≡ ok (m', k', e')
        → (is : List Instruction) × (l' : tp.Ledger) × (u' : Accounts) × (d' : MerkleDistributor)
          × (Requests.claim tp tc hashv pda payer l u base file ≡ ok is)
          × (send tp tc hashv pda now is l u ≡ ok (l', u'))
          × (find dk u'.distributors ≡ some d')
          × (d'.total_amount_claimed ≡ d.total_amount_claimed + amount)
          × (d'.num_nodes_claimed ≡ d.num_nodes_claimed + 1)
  unfolding perform run
  claim-pays {s} {u} {t} {log} now l m base file {snapshot} {d} {k} {e = e} {index} {amount} {nodes}
        {total} {proof} h empty at loaded info unclaimed free short built within_total within_nodes
        active ready fk fe locked =
      let dk = (pda (Seeds.distributor base)).0 in
      let c = claim_call tp pda payer dk d index amount proof in
      let (h', same, same') =
        send-Prepared tp tc hashv pda now _ l {p = (m, t)}
          (set_up-AllPrepare tp tc hashv pda payer l u d c.escrow) h ready in
      let fd = ap (find dk) same ∙ at in
      let fs = ap (find c.claim_status) same' ∙ unclaimed in
      let (done, claims, much, many) =
        claim-succeeds tp hashv pda snapshot now m (claim_accounts c d k e) {nodes = nodes}
          {total = total} h' empty fd fs free short built within_total within_nodes info active
          (claim_call-valid dk d index amount proof k e) locked in
      let (l', u', ran, found) = run_claim-of_claim now c m t fd fs fk fe claims in
      (
        _,
        l',
        u',
        done.distributor,
        claim-sends l u base file at loaded info,
        send-append tp tc hashv pda now _ _ l u ready ∙ first_step _ _ ran refl,
        found,
        much,
        many,
      )
