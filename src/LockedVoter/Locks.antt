-- ===== src/LockedVoter/Locks.antt =====
-- The lock of an escrow under `extend_lock_duration` and `toggle_max_lock` of programs/locked-voter.
use wagmi.Prelude.{◌≡◌, Bool, if◌then◌else◌, true, false, arith, ℤ, pos, ◌+ℤ◌, ◌≤ℤ◌}
use wagmi.Chain.{ok}
use wagmi.LockedVoter.State.{Locker, Escrow}
use wagmi.LockedVoter.Escrows.{LockChange, extend_lock_duration, toggle_max_lock}

-- The end of a lock as an obligation of the owner: under max lock the tokens stay at least as long
-- as a lock of the full duration that starts now.
abbrev pub lock_end : ℤ → Locker → Escrow → ℤ
lock_end now locker escrow =
    if escrow.is_max_lock
    then now +ℤ pos locker.params.max_stake_duration
    else escrow.escrow_ends_at

-- A successful `extend_lock_duration` does not shorten the lock: it starts now, lasts for the
-- duration asked, which is within the limits of the locker, and ends no sooner than before;
-- nothing else of the escrow changes. The owner called it, and the escrow is not under max lock.
pub extend_lock_duration-lengthens :
    (now duration : ℤ) (ctx : LockChange) {e : Escrow}
    → extend_lock_duration now ctx duration ≡ ok e
    → (ctx.escrow.info.escrow_ends_at ≤ℤ e.escrow_ends_at)
      × (e ≡ record (ctx.escrow.info) { escrow_started_at = now; escrow_ends_at = now +ℤ duration })
      × (pos ctx.locker.info.params.min_stake_duration ≤ℤ duration)
      × (duration ≤ℤ pos ctx.locker.info.params.max_stake_duration)
      × (ctx.escrow_owner ≡ ctx.escrow.info.owner)
      × (ctx.escrow.info.is_max_lock ≡ false)
unfolding extend_lock_duration
extend_lock_duration-lengthens now duration ctx h = ground arith

-- A successful `toggle_max_lock` sets max lock as asked. An escrow that was under max lock keeps
-- its lock end as an obligation: out of max lock, its lock ends the full duration from now. One
-- that was not under max lock keeps the end of its lock. Amounts and owner stay.
pub toggle_max_lock-lock_end :
    (now : ℤ) (ctx : LockChange) (b : Bool) {e : Escrow}
    → toggle_max_lock now ctx b ≡ ok e
    → (e.is_max_lock ≡ b)
      × (ctx.escrow.info.is_max_lock ≡ true
          → lock_end now ctx.locker.info e ≡ lock_end now ctx.locker.info ctx.escrow.info)
      × (ctx.escrow.info.is_max_lock ≡ false → e.escrow_ends_at ≡ ctx.escrow.info.escrow_ends_at)
      × (e.amount ≡ ctx.escrow.info.amount)
      × (e.partial_unstaking_amount ≡ ctx.escrow.info.partial_unstaking_amount)
      × (e.owner ≡ ctx.escrow.info.owner)
unfolding toggle_max_lock
toggle_max_lock-lock_end now ctx b h = ground arith
