-- ===== src/MetVoter/Program.antt =====
-- programs/met-voter/src/lib.rs: the instructions on the accounts that they name, but those that call
-- programs/govern, which write no account of this program.
use wagmi.Prelude.{ℕ, Bool, ℤ, ◌≤ℤ◌, Store, put, close, ◌≡◌}
use wagmi.Chain.{Pubkey, Account, Result, ok, ◌>>=◌, ◌>>◌, load, init, TokenProgram}
use wagmi.Chain.Address.{FindProgramAddress}
use wagmi.Govern.{Governor}
use wagmi.LockedVoter.{LockerParams}
use wagmi.MetVoter.State.{Locker, Escrow}
use wagmi.MetVoter.Escrows
use wagmi.MetVoter.Escrows.{LockChange}
use wagmi.MetVoter.Deposits

-- The accounts that the program owns.
pub record Vaults : Type 0 where
  pub lockers : Store Locker
  pub escrows : Store Escrow

-- The instructions, with the addresses that they are given: the locker, the escrow, and so on.
pub data Call : Type 0 where
  new_locker : Pubkey → Pubkey → Pubkey → Pubkey → ℤ → LockerParams → Call
  change_locker_expiration : Pubkey → Account Governor → Pubkey → ℤ → Call
  set_locker_params : Pubkey → Account Governor → Pubkey → LockerParams → Call
  new_escrow : Pubkey → Pubkey → Pubkey → Call
  set_vote_delegate : Pubkey → Pubkey → Pubkey → Call
  extend_lock_duration : Pubkey → Pubkey → Pubkey → ℤ → Call
  toggle_max_lock : Pubkey → Pubkey → Pubkey → Bool → Call
  increase_locked_amount : Pubkey → Pubkey → Pubkey → Pubkey → Pubkey → ℕ → Call
  withdraw : Pubkey → Pubkey → Pubkey → Pubkey → Pubkey → Call

abbrev pub load_change : Pubkey → Pubkey → Pubkey → Vaults → Result LockChange
load_change lk ek owner s = do
  locker ← load lk s.lockers
  escrow ← load ek s.escrows
  ok (record { locker = locker; escrow = escrow; escrow_owner = owner })

module _ (tp : TokenProgram) (pda : FindProgramAddress) where
  unfoldable pub run : ℤ → Call → tp.Ledger → Vaults → Result (tp.Ledger × Vaults)
  run now (Call.new_locker base lk mint governor expiration params) l s = do
    init lk s.lockers
    locker ← Escrows.new_locker pda now base lk mint governor expiration params
    ok (l, record s { lockers = put lk locker s.lockers })
  run now (Call.change_locker_expiration lk governor smart_wallet expiration) l s = do
    locker ← load lk s.lockers
    locker' ← Escrows.change_locker_expiration now locker governor smart_wallet expiration
    ok (l, record s { lockers = put lk locker' s.lockers })
  run now (Call.set_locker_params lk governor smart_wallet params) l s = do
    locker ← load lk s.lockers
    locker' ← Escrows.set_locker_params locker governor smart_wallet params
    ok (l, record s { lockers = put lk locker' s.lockers })
  run now (Call.new_escrow lk ek owner) l s = do
    locker ← load lk s.lockers
    init ek s.escrows
    (locker', escrow) ← Escrows.new_escrow tp pda locker ek owner
    ok (l, record s { lockers = put lk locker' s.lockers; escrows = put ek escrow s.escrows })
  run now (Call.set_vote_delegate ek owner delegate) l s = do
    escrow ← load ek s.escrows
    escrow' ← Escrows.set_vote_delegate escrow owner delegate
    ok (l, record s { escrows = put ek escrow' s.escrows })
  run now (Call.extend_lock_duration lk ek owner duration) l s = do
    ctx ← load_change lk ek owner s
    escrow ← Escrows.extend_lock_duration now ctx duration
    ok (l, record s { escrows = put ek escrow s.escrows })
  run now (Call.toggle_max_lock lk ek owner is_max_lock) l s = do
    ctx ← load_change lk ek owner s
    escrow ← Escrows.toggle_max_lock now ctx is_max_lock
    ok (l, record s { escrows = put ek escrow s.escrows })
  run now (Call.increase_locked_amount lk ek tokens payer source amount) l s = do
    locker ← load lk s.lockers
    escrow ← load ek s.escrows
    (l', locker', escrow') ←
        Deposits.increase_locked_amount tp now l
          (record {
            locker = locker;
            escrow = escrow;
            escrow_tokens = tokens;
            payer = payer;
            source_tokens = source;
          })
          amount
    ok (l', record s { lockers = put lk locker' s.lockers; escrows = put ek escrow' s.escrows })
  run now (Call.withdraw lk ek owner tokens destination) l s = do
    locker ← load lk s.lockers
    escrow ← load ek s.escrows
    (l', locker') ← Deposits.withdraw tp now l (record {
      locker = locker;
      escrow = escrow;
      escrow_owner = owner;
      escrow_tokens = tokens;
      destination_tokens = destination;
    })
    ok (l', record s { lockers = put lk locker' s.lockers; escrows = close ek s.escrows })

  -- A history of the program, from one time on the clock to a time at which the last instruction
  -- ran. The clock never goes back, and between the instructions other programs may change the
  -- ledger.
  pub data History (began : ℤ) (l : tp.Ledger) (s : Vaults) : ℤ → tp.Ledger → Vaults → Type 0 where
    start : History began l s began l s
    call :
        {m : tp.Ledger} {t : Vaults} {n : tp.Ledger} {u : Vaults} {past : ℤ} (now : ℤ) (c : Call)
        → History began l s past m t
        → past ≤ℤ now
        → run now c m t ≡ ok (n, u)
        → History began l s now n u
    elsewhere :
        {m : tp.Ledger} {t : Vaults} {past : ℤ} (n : tp.Ledger)
        → History began l s past m t
        → History began l s past n t
