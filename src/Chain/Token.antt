-- ===== src/Chain/Token.antt =====
-- The SPL token program, which the programs call and the repository does not contain: an interface
-- with the documented effects of a transfer and of opening and closing an account. Only an account
-- of the native mint may be closed while it holds something.
use wagmi.Prelude.{ℕ, Bool, ◌+◌, ◌≡◌, ◌≢◌, true, false, Option, some, arith}
use wagmi.Chain.Errors.{token, anchor, account_not_initialized, Result, ok}
use wagmi.Chain.Vipers.{Pubkey, unwrap_opt, invariant}

-- The fields of a token account that the programs read.
pub record TokenAccount : Type 0 where
  pub owner : Pubkey
  pub mint : Pubkey
  pub amount : ℕ

pub record TokenProgram : Type 1 where
  pub Ledger : Type 0
  pub account : Ledger → Pubkey → TokenAccount
  -- whether a token account is at the address
  pub is_open : Ledger → Pubkey → Bool
  -- the mint of wrapped SOL
  pub native_mint : Pubkey
  -- from, to, authority, amount
  pub transfer : Ledger → Pubkey → Pubkey → Pubkey → ℕ → Option Ledger
  -- `get_associated_token_address`: owner, mint
  pub associated_address : Pubkey → Pubkey → Pubkey
  -- the creation of an associated token account: owner, mint
  pub create_associated : Ledger → Pubkey → Pubkey → Option Ledger
  pub create_associated_opens :
      (l : Ledger) (owner mint : Pubkey) {l' : Ledger}
      → create_associated l owner mint ≡ some l'
      → (is_open l (associated_address owner mint) ≡ false)
        × (is_open l' (associated_address owner mint) ≡ true)
  pub create_associated_others :
      (l : Ledger) (owner mint k : Pubkey) {l' : Ledger}
      → k ≢ associated_address owner mint
      → create_associated l owner mint ≡ some l'
      → account l' k ≡ account l k
  pub transfer_takes :
      (l : Ledger) (f t a : Pubkey) (n : ℕ) {l' : Ledger}
      → f ≢ t
      → transfer l f t a n ≡ some l'
      → (account l f).amount ≡ (account l' f).amount + n
  pub transfer_gives :
      (l : Ledger) (f t a : Pubkey) (n : ℕ) {l' : Ledger}
      → f ≢ t
      → transfer l f t a n ≡ some l'
      → (account l' t).amount ≡ (account l t).amount + n
  pub transfer_others :
      (l : Ledger) (f t a k : Pubkey) (n : ℕ) {l' : Ledger}
      → k ≢ f
      → k ≢ t
      → transfer l f t a n ≡ some l'
      → account l' k ≡ account l k
  pub transfer_mint :
      (l : Ledger) (f t a k : Pubkey) (n : ℕ) {l' : Ledger}
      → transfer l f t a n ≡ some l'
      → (account l' k).mint ≡ (account l k).mint
  -- account, authority
  pub close_account : Ledger → Pubkey → Pubkey → Option Ledger
  pub close_account_empty :
      (l : Ledger) (k a : Pubkey) {l' : Ledger}
      → (account l k).mint ≢ native_mint
      → close_account l k a ≡ some l'
      → ((account l k).amount ≡ 0) × ((account l' k).amount ≡ 0)
  pub close_account_others :
      (l : Ledger) (k a j : Pubkey) {l' : Ledger}
      → j ≢ k
      → close_account l k a ≡ some l'
      → account l' j ≡ account l j

-- `Account<'info, TokenAccount>`: the token account that is passed exists.
abbrev pub open_token_account : (tp : TokenProgram) → tp.Ledger → Pubkey → Result (Unit {0})
open_token_account tp l account = invariant (tp.is_open l account) (anchor account_not_initialized)

-- `init` with `associated_token::mint` and `associated_token::authority`.
abbrev pub init_associated : (tp : TokenProgram) → tp.Ledger → Pubkey → Pubkey → Result tp.Ledger
init_associated tp l owner mint = unwrap_opt (tp.create_associated l owner mint) token

-- `token::transfer(..)?`
abbrev pub transfer_tokens :
    (tp : TokenProgram) → tp.Ledger → Pubkey → Pubkey → Pubkey → ℕ → Result tp.Ledger
transfer_tokens tp l from to authority amount =
    unwrap_opt (tp.transfer l from to authority amount) token

-- `token::close_account(..)?`
abbrev pub close_token_account :
    (tp : TokenProgram) → tp.Ledger → Pubkey → Pubkey → Result tp.Ledger
close_token_account tp l account authority = unwrap_opt (tp.close_account l account authority) token

-- What a transfer between two accounts moves.
abbrev pub Moves : (tp : TokenProgram) → tp.Ledger → tp.Ledger → Pubkey → Pubkey → ℕ → Type 0
Moves tp l l' from to amount =
    ((tp.account l from).amount ≡ (tp.account l' from).amount + amount)
    × ((tp.account l' to).amount ≡ (tp.account l to).amount + amount)

pub transfer_tokens-Moves :
    (tp : TokenProgram) (l : tp.Ledger) (f t a : Pubkey) (n : ℕ) {l' : tp.Ledger}
    → f ≢ t
    → transfer_tokens tp l f t a n ≡ ok l'
    → Moves tp l l' f t n
transfer_tokens-Moves tp l f t a n {l' = l'} ne h =
    ground
      (arith, tp.transfer_takes l f t a n {l' = l'} ne, tp.transfer_gives l f t a n {l' = l'} ne)
