-- ===== src/Chain/Bank.antt =====
-- A token program for tests: a ledger is a function from addresses to token accounts.
use wagmi.Prelude.{
  ℕ, ◌+◌, ◌-◌, ◌≡◌, ◌≢◌, Option, none, some, arith, ◌==◌, ◌&&◌, ◌||◌, not, leb, Bool, true, false,
  ==_refl, if◌then◌else◌,
}
use wagmi.Chain.Vipers.{Pubkey}
use wagmi.Chain.Token.{TokenAccount, TokenProgram}

abbrev pub Book : Type 0
Book = Pubkey → TokenAccount

abbrev pub moved : Book → Pubkey → Pubkey → ℕ → Book
moved book from to amount k =
    if k == from
    then record (book k) { amount = (book k).amount - amount }
    else if k == to
    then record (book k) { amount = (book k).amount + amount }
    else book k

abbrev pub book_transfer : Book → Pubkey → Pubkey → Pubkey → ℕ → Option Book
book_transfer book from to authority amount =
    if (book from).owner == authority && leb amount (book from).amount
    then some (moved book from to amount)
    else none

book_transfer-moved :
    (l : Book) (f t a : Pubkey) (n : ℕ) {l' : Book}
    → book_transfer l f t a n ≡ some l'
    → (leb n (l f).amount ≡ true) × (l' ≡ moved l f t n)
book_transfer-moved l f t a n h = ground arith

pub book_transfer-takes :
    (l : Book) (f t a : Pubkey) (n : ℕ) {l' : Book}
    → f ≢ t
    → book_transfer l f t a n ≡ some l'
    → (l f).amount ≡ (l' f).amount + n
book_transfer-takes l f t a n {l' = l'} ne h =
    let (enough, e) = book_transfer-moved l f t a n {l' = l'} h in rw e (ground arith)

pub book_transfer-gives :
    (l : Book) (f t a : Pubkey) (n : ℕ) {l' : Book}
    → f ≢ t
    → book_transfer l f t a n ≡ some l'
    → (l' t).amount ≡ (l t).amount + n
book_transfer-gives l f t a n {l' = l'} ne h =
    let (enough, e) = book_transfer-moved l f t a n {l' = l'} h in rw e (ground arith)

pub book_transfer-others :
    (l : Book) (f t a k : Pubkey) (n : ℕ) {l' : Book}
    → k ≢ f
    → k ≢ t
    → book_transfer l f t a n ≡ some l'
    → l' k ≡ l k
book_transfer-others l f t a k n {l' = l'} nf nt h =
    let (enough, e) = book_transfer-moved l f t a n {l' = l'} h in rw e (ground arith)

pub book_transfer-mint :
    (l : Book) (f t a k : Pubkey) (n : ℕ) {l' : Book}
    → book_transfer l f t a n ≡ some l'
    → (l' k).mint ≡ (l k).mint
book_transfer-mint l f t a k n {l' = l'} h =
    let (enough, e) = book_transfer-moved l f t a n {l' = l'} h in rw e (ground arith)

-- The mint whose accounts may be closed with a balance.
abbrev pub book_native : Pubkey
book_native = 1

-- A closed account reads as an empty one without an owner.
abbrev pub closed : Book → Pubkey → Book
closed book account k = if k == account then record { owner = 0; mint = 0; amount = 0 } else book k

abbrev pub book_close : Book → Pubkey → Pubkey → Option Book
book_close book account authority =
    if (book account).owner == authority
      && ((book account).mint == book_native || (book account).amount == 0)
    then some (closed book account)
    else none

pub book_close-empty :
    (l : Book) (k a : Pubkey) {l' : Book}
    → (l k).mint ≢ book_native
    → book_close l k a ≡ some l'
    → ((l k).amount ≡ 0) × ((l' k).amount ≡ 0)
book_close-empty l k a ne h = ground arith

pub book_close-others :
    (l : Book) (k a j : Pubkey) {l' : Book} → j ≢ k → book_close l k a ≡ some l' → l' j ≡ l j
book_close-others l k a j ne h = ground arith

-- The bank has one associated account for each owner.
abbrev pub book_associated : Pubkey → Pubkey → Pubkey
book_associated owner mint = 1000 + owner

abbrev pub book_open : Book → Pubkey → Bool
book_open book k = not ((book k).owner == 0)

abbrev pub opened : Book → Pubkey → Pubkey → Book
opened book owner mint k =
    if k == book_associated owner mint
    then record { owner = owner; mint = mint; amount = 0 }
    else book k

abbrev pub book_create : Book → Pubkey → Pubkey → Option Book
book_create book owner mint =
    if book_open book (book_associated owner mint) || owner == 0
    then none
    else some (opened book owner mint)

pub book_create-opens :
    (l : Book) (owner mint : Pubkey) {l' : Book}
    → book_create l owner mint ≡ some l'
    → (book_open l (book_associated owner mint) ≡ false)
      × (book_open l' (book_associated owner mint) ≡ true)
book_create-opens l owner mint h = ground (arith, ==_refl (1000 + owner))

pub book_create-others :
    (l : Book) (owner mint k : Pubkey) {l' : Book}
    → k ≢ book_associated owner mint
    → book_create l owner mint ≡ some l'
    → l' k ≡ l k
book_create-others l owner mint k ne h = ground arith

abbrev pub bank : TokenProgram
bank = record {
  Ledger = Book;
  account = λ book k. book k;
  is_open = book_open;
  native_mint = book_native;
  transfer = book_transfer;
  associated_address = book_associated;
  create_associated = book_create;
  create_associated_opens = book_create-opens;
  create_associated_others = book_create-others;
  transfer_takes = book_transfer-takes;
  transfer_gives = book_transfer-gives;
  transfer_others = book_transfer-others;
  transfer_mint = book_transfer-mint;
  close_account = book_close;
  close_account_empty = book_close-empty;
  close_account_others = book_close-others;
}
