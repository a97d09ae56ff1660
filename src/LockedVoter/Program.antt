-- ===== src/LockedVoter/Program.antt =====
-- programs/locked-voter/src/lib.rs: the instructions on the accounts that they name, but those that
-- call programs/govern, which write no account of this program.
use wagmi.Prelude.{ℕ, Bool, ℤ, Store, put, close, ◌≡◌}
use wagmi.Chain.{Pubkey, Account, Result, ok, ◌>>=◌, ◌>>◌, load, init, TokenProgram}
use wagmi.Chain.Address.{FindProgramAddress}
use wagmi.Govern.{Governor}
use wagmi.LockedVoter.State.{Locker, LockerParams, Escrow, PartialUnstaking}
use wagmi.LockedVoter.Escrows
use wagmi.LockedVoter.Escrows.{LockChange}
use wagmi.LockedVoter.Deposits
use wagmi.LockedVoter.Unstaking

-- The accounts that the program owns.
pub record Vaults : Type 0 where
  pub lockers : Store Locker
  pub escrows : Store Escrow
  pub unstakings : Store PartialUnstaking

-- The instructions, with the addresses that they are given: the locker, the escrow, and so on.
pub data Call : Type 0 where
  new_locker : Pubkey → Pubkey → Pubkey → Pubkey → LockerParams → Call
  set_locker_params : Pubkey → Account Governor → Pubkey → LockerParams → Call
  new_escrow : Pubkey → Pubkey → Pubkey → Call
  set_vote_delegate : Pubkey → Pubkey → Pubkey → Call
  extend_lock_duration : Pubkey → Pubkey → Pubkey → ℤ → Call
  toggle_max_lock : Pubkey → Pubkey → Pubkey → Bool → Call
  increase_locked_amount : Pubkey → Pubkey → Pubkey → Pubkey → Pubkey → ℕ → Call
  withdraw : Pubkey → Pubkey → Pubkey → Pubkey → Pubkey → Call
  open_partial_unstaking : Pubkey → Pubkey → Pubkey → Pubkey → ℕ → ℕ → Call
  merge_partial_unstaking : Pubkey → Pubkey → Pubkey → Pubkey → Call
  withdraw_partial_unstaking : Pubkey → Pubkey → Pubkey → Pubkey → Pubkey → Pubkey → Call

abbrev pub load_change : Pubkey → Pubkey → Pubkey → Vaults → Result LockChange
load_change lk ek owner s = do
  locker ← load lk s.lockers
  escrow ← load ek s.escrows
  ok (record { locker = locker; escrow = escrow; escrow_owner = owner })

module _ (tp : TokenProgram) (pda : FindProgramAddress) where
  unfoldable pub run : ℤ → Call → tp.Ledger → Vaults → Result (tp.Ledger × Vaults)
  run now (Call.new_locker base lk mint governor params) l s = do
    init lk s.lockers
    locker ← Escrows.new_locker pda base lk mint governor params
    ok (l, record s { lockers = put lk locker s.lockers })
  run now (Call.set_locker_params lk governor smart_wallet params) l s = do
    locker ← load lk s.lockers
    locker' ← Escrows.set_locker_params locker governor smart_wallet params
    ok (l, record s { lockers = put lk locker' s.lockers })
  run now (Call.new_escrow lk ek owner) l s = do
    locker ← load lk s.lockers
    init ek s.escrows
    (locker', escrow) ← Escrows.new_escrow tp pda locker ek owner
    ok (l, record s { lockers = put lk locker' s.lockers; escrows = put ek escrow s.escrows })
  run now (Call.set_vote_delegate ek owner delegate) l s = do
    escrow ← load ek s.escrows
    escrow' ← Escrows.set_vote_delegate escrow owner delegate
    ok (l, record s { escrows = put ek escrow' s.escrows })
  run now (Call.extend_lock_duration lk ek owner duration) l s = do
    ctx ← load_change lk ek owner s
    escrow ← Escrows.extend_lock_duration now ctx duration
    ok (l, record s { escrows = put ek escrow s.escrows })
  run now (Call.toggle_max_lock lk ek owner is_max_lock) l s = do
    ctx ← load_change lk ek owner s
    escrow ← Escrows.toggle_max_lock now ctx is_max_lock
    ok (l, record s { escrows = put ek escrow s.escrows })
  run now (Call.increase_locked_amount lk ek tokens payer source amount) l s = do
    locker ← load lk s.lockers
    escrow ← load ek s.escrows
    (l', locker', escrow') ←
        Deposits.increase_locked_amount tp now l
          (record {
            locker = locker;
            escrow = escrow;
            escrow_tokens = tokens;
            payer = payer;
            source_tokens = source;
          })
          amount
    ok (l', record s { lockers = put lk locker' s.lockers; escrows = put ek escrow' s.escrows })
  run now (Call.withdraw lk ek owner tokens destination) l s = do
    locker ← load lk s.lockers
    escrow ← load ek s.escrows
    (l', locker') ← Deposits.withdraw tp now l (record {
      locker = locker;
      escrow = escrow;
      escrow_owner = owner;
      escrow_tokens = tokens;
      destination_tokens = destination;
    })
    ok (l', record s { lockers = put lk locker' s.lockers; escrows = close ek s.escrows })
  run now (Call.open_partial_unstaking lk ek uk owner amount memo) l s = do
    locker ← load lk s.lockers
    escrow ← load ek s.escrows
    init uk s.unstakings
    (escrow', unstaking) ←
        Unstaking.open_partial_unstaking now
          (record { locker = locker; escrow = escrow; owner = owner }) amount memo
    ok (
      l,
      record s { escrows = put ek escrow' s.escrows; unstakings = put uk unstaking s.unstakings },
    )
  run now (Call.merge_partial_unstaking lk ek uk owner) l s = do
    locker ← load lk s.lockers
    escrow ← load ek s.escrows
    unstaking ← load uk s.unstakings
    escrow' ←
        Unstaking.merge_partial_unstaking now
          (record { locker = locker; escrow = escrow; partial_unstake = unstaking; owner = owner })
    ok (l, record s { escrows = put ek escrow' s.escrows; unstakings = close uk s.unstakings })
  run now (Call.withdraw_partial_unstaking lk ek uk owner tokens destination) l s = do
    locker ← load lk s.lockers
    escrow ← load ek s.escrows
    unstaking ← load uk s.unstakings
    (l', locker', escrow') ← Unstaking.withdraw_partial_unstaking tp now l (record {
      locker = locker;
      escrow = escrow;
      partial_unstake = unstaking;
      owner = owner;
      escrow_tokens = tokens;
      destination_tokens = destination;
    })
    ok (
      l',
      record s {
        lockers = put lk locker' s.lockers;
        escrows = put ek escrow' s.escrows;
        unstakings = close uk s.unstakings;
      },
    )

  -- A history of the program. Between its instructions other programs may change the ledger.
  pub data History : tp.Ledger → Vaults → tp.Ledger → Vaults → Type 0 where
    start : {l : tp.Ledger} {s : Vaults} → History l s l s
    call :
        {l m : tp.Ledger} {s t : Vaults} {n : tp.Ledger} {u : Vaults} (now : ℤ) (c : Call)
        → History l s m t
        → run now c m t ≡ ok (n, u)
        → History l s n u
    elsewhere : {l m : tp.Ledger} {s t : Vaults} (n : tp.Ledger) → History l s m t → History l s n t
