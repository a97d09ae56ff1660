-- ===== src/LockedVoter/Amounts.antt =====
-- What each instruction of programs/locked-voter does to the amounts, the mint and the holder.
use wagmi.Prelude.{ℕ, ◌+◌, ◌≡◌, Bool, some, arith, ℤ, find, ==→eq}
use wagmi.Chain.{Pubkey, Account, ok, TokenProgram}
use wagmi.Chain.Address.{Seeds, FindProgramAddress}
use wagmi.Govern.{Governor}
use wagmi.LockedVoter.State.{
  Locker, LockerParams, Escrow, PartialUnstaking, accumulate_partial_unstaking_amount,
  merge_partial_unstaking_amount, withdraw_partial_unstaking_amount,
}
use wagmi.LockedVoter.Escrows
use wagmi.LockedVoter.Deposits
use wagmi.LockedVoter.Unstaking
use wagmi.LockedVoter.Backing.{SameMint, SameHolder, IsOpened}
use wagmi.LockedVoter.Program.{Vaults, load_change}

pub new_locker-supply :
    (pda : FindProgramAddress) (base lk mint governor : Pubkey) (params : LockerParams) {l : Locker}
    → Escrows.new_locker pda base lk mint governor params ≡ ok l
    → l.locked_supply ≡ 0
unfolding Escrows.new_locker
new_locker-supply pda base lk mint governor params h = ground arith

pub set_locker_params-supply :
    (locker : Account Locker) (governor : Account Governor) (wallet : Pubkey)
    (params : LockerParams) {l : Locker}
    → Escrows.set_locker_params locker governor wallet params ≡ ok l
    → (locker.info.locked_supply ≡ l.locked_supply) × SameMint locker.info l
unfolding Escrows.set_locker_params
set_locker_params-supply locker governor wallet params h = ground arith

pub new_escrow-empty :
    (tp : TokenProgram) (pda : FindProgramAddress) (locker : Account Locker) (ek owner : Pubkey)
    {l : Locker} {e : Escrow}
    → Escrows.new_escrow tp pda locker ek owner ≡ ok (l, e)
    → (l.locked_supply ≡ locker.info.locked_supply)
      × (e.amount ≡ 0)
      × (e.partial_unstaking_amount ≡ 0)
      × SameMint locker.info l
      × IsOpened tp pda locker.key ek locker.info e
unfolding Escrows.new_escrow
new_escrow-empty tp pda locker ek owner h =
    ground (arith, ==→eq (pda (Seeds.escrow locker.key owner)).0 ek)

-- What an instruction that only changes the lock leaves alone.
abbrev pub Keeps : Escrow → Escrow → Type 0
Keeps e e' =
    (e'.locker ≡ e.locker)
    × (e'.amount ≡ e.amount)
    × (e'.partial_unstaking_amount ≡ e.partial_unstaking_amount)
    × SameHolder e e'

pub set_vote_delegate-Keeps :
    (escrow : Account Escrow) (owner delegate : Pubkey) {e : Escrow}
    → Escrows.set_vote_delegate escrow owner delegate ≡ ok e
    → Keeps escrow.info e
unfolding Escrows.set_vote_delegate
set_vote_delegate-Keeps escrow owner delegate h = ground arith

pub extend_lock_duration-Keeps :
    (now : ℤ) (ctx : Escrows.LockChange) (duration : ℤ) {e : Escrow}
    → Escrows.extend_lock_duration now ctx duration ≡ ok e
    → Keeps ctx.escrow.info e
unfolding Escrows.extend_lock_duration
extend_lock_duration-Keeps now ctx duration h = ground arith

pub toggle_max_lock-Keeps :
    (now : ℤ) (ctx : Escrows.LockChange) (b : Bool) {e : Escrow}
    → Escrows.toggle_max_lock now ctx b ≡ ok e
    → Keeps ctx.escrow.info e
unfolding Escrows.toggle_max_lock
toggle_max_lock-Keeps now ctx b h = ground arith

pub load_change-eq-ok :
    (lk ek owner : Pubkey) (s : Vaults) {ctx : Escrows.LockChange}
    → load_change lk ek owner s ≡ ok ctx
    → find ek s.escrows ≡ some ctx.escrow.info
load_change-eq-ok lk ek owner s h = ground arith

pub increase-amounts :
    (tp : TokenProgram) (now : ℤ) (l : tp.Ledger) (ctx : Deposits.IncreaseLockedAmount) (n : ℕ)
    {l' : tp.Ledger} {locker : Locker} {e : Escrow}
    → Deposits.increase_locked_amount tp now l ctx n ≡ ok (l', locker, e)
    → ((ctx.escrow.info.locker ≡ ctx.locker.key) × (e.locker ≡ ctx.locker.key))
      × (locker.locked_supply ≡ ctx.locker.info.locked_supply + n)
      × (e.amount ≡ ctx.escrow.info.amount + n)
      × (e.partial_unstaking_amount ≡ ctx.escrow.info.partial_unstaking_amount)
      × SameMint ctx.locker.info locker
      × SameHolder ctx.escrow.info e
unfolding Deposits.increase_locked_amount
increase-amounts tp now l ctx n h = ground arith

pub withdraw-amounts :
    (tp : TokenProgram) (now : ℤ) (l : tp.Ledger) (ctx : Deposits.Withdraw) {l' : tp.Ledger}
    {locker : Locker}
    → Deposits.withdraw tp now l ctx ≡ ok (l', locker)
    → ((ctx.escrow.info.locker ≡ ctx.locker.key) × (ctx.escrow.info.partial_unstaking_amount ≡ 0))
      × (ctx.locker.info.locked_supply ≡ locker.locked_supply + ctx.escrow.info.amount)
      × SameMint ctx.locker.info locker
unfolding Deposits.withdraw
withdraw-amounts tp now l ctx h = ground arith

pub open-amounts :
    (now : ℤ) (ctx : Unstaking.OpenPartialUnstaking) (n memo : ℕ) {e : Escrow}
    {x : PartialUnstaking}
    → Unstaking.open_partial_unstaking now ctx n memo ≡ ok (e, x)
    → ((e.locker ≡ ctx.escrow.info.locker) × (x.escrow ≡ ctx.escrow.key))
      × (ctx.escrow.info.amount ≡ e.amount + x.amount)
      × (e.partial_unstaking_amount ≡ ctx.escrow.info.partial_unstaking_amount + x.amount)
      × SameHolder ctx.escrow.info e
unfolding Unstaking.open_partial_unstaking accumulate_partial_unstaking_amount
open-amounts now ctx n memo h = ground arith

pub merge-amounts :
    (now : ℤ) (ctx : Unstaking.MergePartialUnstaking) {e : Escrow}
    → Unstaking.merge_partial_unstaking now ctx ≡ ok e
    → let x = ctx.partial_unstake.info in
      ((e.locker ≡ ctx.escrow.info.locker) × (x.escrow ≡ ctx.escrow.key))
      × (e.amount ≡ ctx.escrow.info.amount + x.amount)
      × (ctx.escrow.info.partial_unstaking_amount ≡ e.partial_unstaking_amount + x.amount)
      × SameHolder ctx.escrow.info e
unfolding Unstaking.merge_partial_unstaking merge_partial_unstaking_amount
merge-amounts now ctx h = ground arith

pub withdraw_partial-amounts :
    (tp : TokenProgram) (now : ℤ) (l : tp.Ledger) (ctx : Unstaking.WithdrawPartialUnstaking)
    {l' : tp.Ledger} {locker : Locker} {e : Escrow}
    → Unstaking.withdraw_partial_unstaking tp now l ctx ≡ ok (l', locker, e)
    → let x = ctx.partial_unstake.info in
      ((ctx.escrow.info.locker ≡ ctx.locker.key)
        × (e.locker ≡ ctx.locker.key)
        × (x.escrow ≡ ctx.escrow.key))
      × (ctx.locker.info.locked_supply ≡ locker.locked_supply + x.amount)
      × (e.amount ≡ ctx.escrow.info.amount)
      × (ctx.escrow.info.partial_unstaking_amount ≡ e.partial_unstaking_amount + x.amount)
      × SameMint ctx.locker.info locker
      × SameHolder ctx.escrow.info e
unfolding Unstaking.withdraw_partial_unstaking withdraw_partial_unstaking_amount
withdraw_partial-amounts tp now l ctx h = ground arith
