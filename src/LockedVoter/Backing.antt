-- ===== src/LockedVoter/Backing.antt =====
-- The effects of the instructions of programs/locked-voter on the stores of accounts, and the sums
-- that they keep: the supply of a locker over its escrows, and the partial amount of an escrow over
-- its partial unstakings.
use wagmi.Prelude.{
  ℕ, ◌+◌, ◌≡◌, Option, none, some, arith, find, put, close, total, total-put, total-put_new,
  total-close, find-put, find-close, IsDistinct, put-IsDistinct, close-IsDistinct, ◌==◌,
  if◌then◌else◌, ==→eq,
}
use wagmi.Chain.{Pubkey, TokenProgram}
use wagmi.Chain.Address.{Seeds, FindProgramAddress}
use wagmi.LockedVoter.State.{Locker, Escrow, PartialUnstaking}
use wagmi.LockedVoter.Program.{Vaults}

-- What an escrow holds for a locker, and what a partial unstaking holds for an escrow.
abbrev pub held : Pubkey → Escrow → ℕ
held lk e = if e.locker == lk then e.amount + e.partial_unstaking_amount else 0

abbrev pub leaving : Pubkey → PartialUnstaking → ℕ
leaving ek u = if u.escrow == ek then u.amount else 0

abbrev pub supply_of : Option Locker → ℕ
supply_of none = 0
supply_of (some l) = l.locked_supply

abbrev pub partial_of : Option Escrow → ℕ
partial_of none = 0
partial_of (some e) = e.partial_unstaking_amount

pub record IsBacked (s : Vaults) : Type 0 where
  pub supply : (lk : Pubkey) → supply_of (find lk s.lockers) ≡ total (held lk) s.escrows
  pub partial : (ek : Pubkey) → partial_of (find ek s.escrows) ≡ total (leaving ek) s.unstakings
  pub distinct : IsDistinct s.escrows

-- What no instruction changes: the mint of a locker, and the locker, the owner and the token account of
-- an escrow.
abbrev pub SameMint : Locker → Locker → Type 0
SameMint l l' = l'.token_mint ≡ l.token_mint

abbrev pub KeepsMint : Option Locker → Locker → Type 0
KeepsMint none l' = Unit
KeepsMint (some l) l' = SameMint l l'

abbrev pub SameHolder : Escrow → Escrow → Type 0
SameHolder e e' = (e'.locker ≡ e.locker) × (e'.owner ≡ e.owner) × (e'.tokens ≡ e.tokens)

-- A new escrow of a locker.
abbrev pub IsOpened : TokenProgram → FindProgramAddress → Pubkey → Pubkey → Locker → Escrow → Type 0
IsOpened tp pda lk ek l e =
    (e.locker ≡ lk)
    × (ek ≡ (pda (Seeds.escrow lk e.owner)).0)
    × (e.tokens ≡ tp.associated_address ek l.token_mint)

-- What an instruction did to the accounts.
pub data Effect (tp : TokenProgram) (pda : FindProgramAddress) (s u : Vaults) : Type 0 where
  locker_written :
      (lk : Pubkey) (l : Locker)
      → supply_of (find lk s.lockers) ≡ l.locked_supply
      → KeepsMint (find lk s.lockers) l
      → u ≡ record s { lockers = put lk l s.lockers }
      → Effect tp pda s u
  escrow_created :
      (lk ek : Pubkey) (l l' : Locker) (e : Escrow)
      → find lk s.lockers ≡ some l
      → find ek s.escrows ≡ none
      → l'.locked_supply ≡ l.locked_supply
      → (e.amount ≡ 0) × (e.partial_unstaking_amount ≡ 0)
      → (SameMint l l') × (IsOpened tp pda lk ek l e)
      → u ≡ record s { lockers = put lk l' s.lockers; escrows = put ek e s.escrows }
      → Effect tp pda s u
  escrow_written :
      (ek : Pubkey) (e e' : Escrow)
      → find ek s.escrows ≡ some e
      → (e'.locker ≡ e.locker)
        × (e'.amount ≡ e.amount)
        × (e'.partial_unstaking_amount ≡ e.partial_unstaking_amount)
      → SameHolder e e'
      → u ≡ record s { escrows = put ek e' s.escrows }
      → Effect tp pda s u
  deposited :
      (lk ek : Pubkey) (l l' : Locker) (e e' : Escrow) (n : ℕ)
      → find lk s.lockers ≡ some l
      → find ek s.escrows ≡ some e
      → (e.locker ≡ lk) × (e'.locker ≡ lk)
      → l'.locked_supply ≡ l.locked_supply + n
      → (e'.amount ≡ e.amount + n) × (e'.partial_unstaking_amount ≡ e.partial_unstaking_amount)
      → (SameMint l l') × (SameHolder e e')
      → u ≡ record s { lockers = put lk l' s.lockers; escrows = put ek e' s.escrows }
      → Effect tp pda s u
  withdrawn :
      (lk ek : Pubkey) (l l' : Locker) (e : Escrow)
      → find lk s.lockers ≡ some l
      → find ek s.escrows ≡ some e
      → (e.locker ≡ lk) × (e.partial_unstaking_amount ≡ 0)
      → l.locked_supply ≡ l'.locked_supply + e.amount
      → SameMint l l'
      → u ≡ record s { lockers = put lk l' s.lockers; escrows = close ek s.escrows }
      → Effect tp pda s u
  opened :
      (ek uk : Pubkey) (e e' : Escrow) (x : PartialUnstaking)
      → find ek s.escrows ≡ some e
      → find uk s.unstakings ≡ none
      → (e'.locker ≡ e.locker) × (x.escrow ≡ ek)
      → (e.amount ≡ e'.amount + x.amount)
        × (e'.partial_unstaking_amount ≡ e.partial_unstaking_amount + x.amount)
      → SameHolder e e'
      → u ≡ record s { escrows = put ek e' s.escrows; unstakings = put uk x s.unstakings }
      → Effect tp pda s u
  merged :
      (ek uk : Pubkey) (e e' : Escrow) (x : PartialUnstaking)
      → find ek s.escrows ≡ some e
      → find uk s.unstakings ≡ some x
      → (e'.locker ≡ e.locker) × (x.escrow ≡ ek)
      → (e'.amount ≡ e.amount + x.amount)
        × (e.partial_unstaking_amount ≡ e'.partial_unstaking_amount + x.amount)
      → SameHolder e e'
      → u ≡ record s { escrows = put ek e' s.escrows; unstakings = close uk s.unstakings }
      → Effect tp pda s u
  paid_out :
      (lk ek uk : Pubkey) (l l' : Locker) (e e' : Escrow) (x : PartialUnstaking)
      → find lk s.lockers ≡ some l
      → find ek s.escrows ≡ some e
      → find uk s.unstakings ≡ some x
      → (e.locker ≡ lk) × (e'.locker ≡ lk) × (x.escrow ≡ ek)
      → l.locked_supply ≡ l'.locked_supply + x.amount
      → (e'.amount ≡ e.amount)
        × (e.partial_unstaking_amount ≡ e'.partial_unstaking_amount + x.amount)
      → (SameMint l l') × (SameHolder e e')
      → u ≡ record s {
        lockers = put lk l' s.lockers;
        escrows = put ek e' s.escrows;
        unstakings = close uk s.unstakings;
      }
      → Effect tp pda s u

pub Effect-IsBacked :
    {tp : TokenProgram} {pda : FindProgramAddress} {s u : Vaults}
    → Effect tp pda s u
    → IsBacked s
    → IsBacked u
Effect-IsBacked {s} (locker_written lk l e kept eq) b = rw eq (record {
  supply = λ k. ground (arith, b.supply k, find-put lk k l s.lockers, ==→eq lk k);
  partial = b.partial;
  distinct = b.distinct;
})
Effect-IsBacked {s} (escrow_created lk ek l l' e fl fe same new kept eq) b = rw eq (record {
  supply = λ k. ground (
    arith,
    b.supply k,
    find-put lk k l' s.lockers,
    ==→eq lk k,
    total-put_new (held k) ek e s.escrows fe,
  );
  partial = λ k. ground (arith, b.partial k, find-put ek k e s.escrows, ==→eq ek k);
  distinct = put-IsDistinct ek e s.escrows b.distinct;
})
Effect-IsBacked {s} (escrow_written ek e e' fe same kept eq) b = rw eq (record {
  supply = λ k. ground (arith, b.supply k, total-put (held k) ek e' {old = e} s.escrows fe);
  partial = λ k. ground (arith, b.partial k, find-put ek k e' s.escrows, ==→eq ek k);
  distinct = put-IsDistinct ek e' s.escrows b.distinct;
})
Effect-IsBacked {s} (deposited lk ek l l' e e' n fl fe own sup amt kept eq) b = rw eq (record {
  supply = λ k. ground (
    arith,
    b.supply k,
    find-put lk k l' s.lockers,
    ==→eq lk k,
    total-put (held k) ek e' {old = e} s.escrows fe,
  );
  partial = λ k. ground (arith, b.partial k, find-put ek k e' s.escrows, ==→eq ek k);
  distinct = put-IsDistinct ek e' s.escrows b.distinct;
})
Effect-IsBacked {s} (withdrawn lk ek l l' e fl fe own sup kept eq) b = rw eq (record {
  supply = λ k. ground (
    arith,
    b.supply k,
    find-put lk k l' s.lockers,
    ==→eq lk k,
    total-close (held k) ek {old = e} s.escrows fe,
  );
  partial = λ k. ground (arith, b.partial k, find-close ek k s.escrows b.distinct, ==→eq ek k);
  distinct = close-IsDistinct ek s.escrows b.distinct;
})
Effect-IsBacked {s} (opened ek uk e e' x fe fu own amt kept eq) b = rw eq (record {
  supply = λ k. ground (arith, b.supply k, total-put (held k) ek e' {old = e} s.escrows fe);
  partial = λ k. ground (
    arith,
    b.partial k,
    find-put ek k e' s.escrows,
    ==→eq ek k,
    total-put_new (leaving k) uk x s.unstakings fu,
  );
  distinct = put-IsDistinct ek e' s.escrows b.distinct;
})
Effect-IsBacked {s} (merged ek uk e e' x fe fu own amt kept eq) b = rw eq (record {
  supply = λ k. ground (arith, b.supply k, total-put (held k) ek e' {old = e} s.escrows fe);
  partial = λ k. ground (
    arith,
    b.partial k,
    find-put ek k e' s.escrows,
    ==→eq ek k,
    total-close (leaving k) uk {old = x} s.unstakings fu,
  );
  distinct = put-IsDistinct ek e' s.escrows b.distinct;
})
Effect-IsBacked {s} (paid_out lk ek uk l l' e e' x fl fe fu own sup amt kept eq) b = rw eq (record {
  supply = λ k. ground (
    arith,
    b.supply k,
    find-put lk k l' s.lockers,
    ==→eq lk k,
    total-put (held k) ek e' {old = e} s.escrows fe,
  );
  partial = λ k. ground (
    arith,
    b.partial k,
    find-put ek k e' s.escrows,
    ==→eq ek k,
    total-close (leaving k) uk {old = x} s.unstakings fu,
  );
  distinct = put-IsDistinct ek e' s.escrows b.distinct;
})
