-- ===== src/Distributor/Program.antt =====
-- programs/merkle-distributor/src/lib.rs: the instructions on the accounts that they name, with the
-- accounts of programs/met-voter, which `claim` calls.
use wagmi.Prelude.{ℕ, ℤ, Store, put, List, [], ◌∷◌, ◌≡◌}
use wagmi.Chain.{Pubkey, Result, ok, ◌>>=◌, ◌>>◌, load, init, TokenProgram}
use wagmi.Chain.Address.{FindProgramAddress}
use wagmi.Chain.Hashing.{Hash, Hashv}
use wagmi.MetVoter.Program as Voter
use wagmi.Distributor.State.{MerkleDistributor, ClaimStatus}
use wagmi.Distributor.Admin
use wagmi.Distributor.Claims

-- The accounts that the program owns, and those of programs/met-voter.
pub record Accounts : Type 0 where
  pub distributors : Store MerkleDistributor
  pub claim_statuses : Store ClaimStatus
  pub voter : Voter.Vaults

-- The addresses and arguments of `claim`.
pub record ClaimCall : Type 0 where
  pub distributor : Pubkey
  pub claim_status : Pubkey
  pub token_vault : Pubkey
  pub claimant : Pubkey
  pub locker : Pubkey
  pub escrow : Pubkey
  pub escrow_tokens : Pubkey
  pub index : ℕ
  pub amount : ℕ
  pub proof : List Hash

-- The instructions, with the addresses that they are given.
pub data Call : Type 0 where
  new_distributor : Admin.NewDistributor → Pubkey → Hash → ℕ → ℕ → ℤ → Call
  set_clawback_receiver : Pubkey → Pubkey → Pubkey → Call
  set_admin : Pubkey → Pubkey → Pubkey → Call
  clawback : Pubkey → Pubkey → Pubkey → Call
  claim : ClaimCall → Call

module _ (tp : TokenProgram) (hashv : Hashv) (pda : FindProgramAddress) where
  -- `claim`, on the stores.
  unfoldable pub run_claim : ℤ → ClaimCall → tp.Ledger → Accounts → Result (tp.Ledger × Accounts)
  run_claim now c l s = do
    dist ← load c.distributor s.distributors
    init c.claim_status s.claim_statuses
    locker ← load c.locker s.voter.lockers
    escrow ← load c.escrow s.voter.escrows
    done ←
        Claims.claim tp hashv pda now l
          (record {
            distributor = dist;
            claim_status = c.claim_status;
            token_vault = c.token_vault;
            claimant = c.claimant;
            locker = locker;
            escrow = escrow;
            escrow_tokens = c.escrow_tokens;
          })
          c.index c.amount c.proof
    ok (
      done.ledger,
      record {
        distributors = put c.distributor done.distributor s.distributors;
        claim_statuses = put c.claim_status done.claim_status s.claim_statuses;
        voter = record {
          lockers = put c.locker done.locker s.voter.lockers;
          escrows = put c.escrow done.escrow s.voter.escrows;
        };
      },
    )

  unfoldable pub run : ℤ → Call → tp.Ledger → Accounts → Result (tp.Ledger × Accounts)
  run now (Call.new_distributor ctx locker root max_total max_nodes start) l s = do
    init ctx.distributor s.distributors
    (l', dist) ← Admin.new_distributor tp pda now l ctx locker root max_total max_nodes start
    ok (l', record s { distributors = put ctx.distributor dist s.distributors })
  run now (Call.set_clawback_receiver dk new_account admin) l s = do
    dist ← load dk s.distributors
    dist' ← Admin.set_clawback_receiver tp l dist new_account admin
    ok (l, record s { distributors = put dk dist' s.distributors })
  run now (Call.set_admin dk admin new_admin) l s = do
    dist ← load dk s.distributors
    dist' ← Admin.set_admin dist admin new_admin
    ok (l, record s { distributors = put dk dist' s.distributors })
  run now (Call.clawback dk vault receiver) l s = do
    dist ← load dk s.distributors
    (l', dist') ←
        Admin.clawback tp now l
          (record { distributor = dist; token_vault = vault; clawback_receiver = receiver })
    ok (l', record s { distributors = put dk dist' s.distributors })
  run now (Call.claim c) l s = run_claim now c l s

-- The claims of a call, for the log of a history.
abbrev pub claims_of : Call → List ClaimCall → List ClaimCall
claims_of (Call.new_distributor ctx locker root max_total max_nodes start) log = log
claims_of (Call.set_clawback_receiver dk new_account admin) log = log
claims_of (Call.set_admin dk admin new_admin) log = log
claims_of (Call.clawback dk vault receiver) log = log
claims_of (Call.claim c) log = c ∷ log

module _ (tp : TokenProgram) (hashv : Hashv) (pda : FindProgramAddress) where
  -- Any history of the program from given accounts, with the claims that succeeded, the last one
  -- first. Between its instructions there may be any of programs/met-voter, and other programs may
  -- change the ledger.
  pub data History (s : Accounts) : Accounts → List ClaimCall → Type 0 where
    start : History s s []
    call :
        {t u : Accounts} {log : List ClaimCall} (now : ℤ) (c : Call) (l : tp.Ledger)
        (l' : tp.Ledger)
        → History s t log
        → run tp hashv pda now c l t ≡ ok (l', u)
        → History s u (claims_of c log)
    voter :
        {t : Accounts} {log : List ClaimCall} {v : Voter.Vaults} (now : ℤ) (c : Voter.Call)
        (l l' : tp.Ledger)
        → History s t log
        → Voter.run tp pda now c l t.voter ≡ ok (l', v)
        → History s (record t { voter = v }) log
