-- ===== src/Distributor/Admin.antt =====
-- programs/merkle-distributor/src/instructions: new_distributor.rs, set_admin.rs,
-- set_clawback_receiver.rs and clawback.rs.
use wagmi.Prelude.{ℕ, true, false, ℤ, pos, ◌==◌, not, leb_ℤ, checked_add_i64}
use wagmi.Chain.{
  Pubkey, Account, Result, ok, ◌>>=◌, ◌>>◌, anchor, constraint_token_mint, distributor,
  arithmetic_error, insufficient_clawback_delay, same_admin, unauthorized, same_clawback_receiver,
  clawback_already_claimed, clawback_before_start, invariant, unwrap_opt, has_one, TokenProgram,
  init_associated, open_token_account, transfer_tokens,
}
use wagmi.Chain.Address.{Seeds, FindProgramAddress, seeds_match}
use wagmi.Chain.Hashing.{Hash}
use wagmi.Distributor.State.{MerkleDistributor}

-- `SECONDS_PER_DAY`.
abbrev pub seconds_per_day : ℤ
seconds_per_day = pos 86400

-- The accounts of `new_distributor`; the base and the admin sign. The vault is the associated token
-- account of the distributor, which is created first.
pub record NewDistributor : Type 0 where
  pub base : Pubkey
  pub distributor : Pubkey
  pub mint : Pubkey
  pub admin : Pubkey
  pub clawback_receiver : Pubkey

-- The accounts of `clawback`; anyone signs.
pub record Clawback : Type 0 where
  pub distributor : Account MerkleDistributor
  pub token_vault : Pubkey
  pub clawback_receiver : Pubkey

module _ (tp : TokenProgram) where
  -- `token::mint = mint`, of a token account that exists.
  abbrev pub has_mint : tp.Ledger → Pubkey → Pubkey → Result (Unit {0})
  has_mint ledger account mint = do
    open_token_account tp ledger account
    invariant ((tp.account ledger account).mint == mint) (anchor constraint_token_mint)

  -- `handle_new_distributor`, at the address to be initialised.
  unfoldable pub new_distributor :
      FindProgramAddress
      → ℤ
      → tp.Ledger
      → NewDistributor
      → Pubkey
      → Hash
      → ℕ
      → ℕ
      → ℤ
      → Result (tp.Ledger × MerkleDistributor)
  new_distributor pda now ledger ctx locker root max_total_claim max_num_nodes start = do
    seeds_match pda (Seeds.distributor ctx.base) ctx.distributor
    ledger' ← init_associated tp ledger ctx.distributor ctx.mint
    has_mint ledger' ctx.clawback_receiver ctx.mint
    earliest ← unwrap_opt (checked_add_i64 now seconds_per_day) (distributor arithmetic_error)
    invariant (leb_ℤ earliest start) (distributor insufficient_clawback_delay)
    ok (
      ledger',
      record {
        base = ctx.base;
        bump = (pda (Seeds.distributor ctx.base)).1;
        token_vault = tp.associated_address ctx.distributor ctx.mint;
        root = root;
        mint = ctx.mint;
        max_total_claim = max_total_claim;
        max_num_nodes = max_num_nodes;
        total_amount_claimed = 0;
        num_nodes_claimed = 0;
        locker = locker;
        admin = ctx.admin;
        clawback_start_ts = start;
        clawback_receiver = ctx.clawback_receiver;
        clawed_back = false;
      },
    )

  -- `handle_set_clawback_receiver`; the admin signs.
  unfoldable pub set_clawback_receiver :
      tp.Ledger → Account MerkleDistributor → Pubkey → Pubkey → Result MerkleDistributor
  set_clawback_receiver ledger ctx new_clawback_account admin = do
    has_mint ledger new_clawback_account ctx.info.mint
    invariant (admin == ctx.info.admin) (distributor unauthorized)
    invariant (not (ctx.info.clawback_receiver == new_clawback_account))
        (distributor same_clawback_receiver)
    ok (record (ctx.info) { clawback_receiver = new_clawback_account })

  -- `handle_clawback`: all that is left in the vault.
  unfoldable pub clawback : ℤ → tp.Ledger → Clawback → Result (tp.Ledger × MerkleDistributor)
  clawback now ledger ctx = do
    let dist = ctx.distributor.info
    has_one dist.token_vault ctx.token_vault
    has_one dist.clawback_receiver ctx.clawback_receiver
    invariant (not dist.clawed_back) (distributor clawback_already_claimed)
    invariant (leb_ℤ dist.clawback_start_ts now) (distributor clawback_before_start)
    ledger' ←
        transfer_tokens tp ledger ctx.token_vault ctx.clawback_receiver ctx.distributor.key
          (tp.account ledger ctx.token_vault).amount
    ok (ledger', record dist { clawed_back = true })

-- `handle_set_admin`; the admin signs.
unfoldable pub set_admin : Account MerkleDistributor → Pubkey → Pubkey → Result MerkleDistributor
set_admin ctx admin new_admin = do
  invariant (admin == ctx.info.admin) (distributor unauthorized)
  invariant (not (admin == new_admin)) (distributor same_admin)
  ok (record (ctx.info) { admin = new_admin })
