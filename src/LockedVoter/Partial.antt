-- ===== src/LockedVoter/Partial.antt =====
-- Partial unstakings of programs/locked-voter: when they expire, and merging them back.
use wagmi.Prelude.{
  +ℤ_parts, sym, ap, ◌∙◌, inl, inr, Option-cases, as_i64, ℕ, ◌-◌, ◌+◌, ◌≤◌, ◌<◌, ◌≡◌, some, arith,
  ℤ, pos, ◌+ℤ◌, ◌<ℤ◌, -ℤ_parts, i64_bound, u64_mod,
}
use wagmi.Chain.{Pubkey, ok}
use wagmi.LockedVoter.State.{
  Locker, Escrow, PartialUnstaking, get_remaining_duration_until_expiration,
  accumulate_partial_unstaking_amount, merge_partial_unstaking_amount,
}
use wagmi.LockedVoter.Unstaking.{
  OpenPartialUnstaking, open_partial_unstaking, merge_partial_unstaking,
}
use wagmi.LockedVoter.Locks.{lock_end}

remaining-lock_end :
    (now : ℤ) (l : Locker) (e : Escrow) {d : ℕ}
    → l.params.max_stake_duration < i64_bound
    → get_remaining_duration_until_expiration e now l ≡ some d
    → 0 < d
    → (now +ℤ as_i64 d ≡ lock_end now l e) × (now <ℤ lock_end now l e)
unfolding get_remaining_duration_until_expiration
remaining-lock_end now l e {d} small h some_time = ground (
  arith,
  -ℤ_parts e.escrow_ends_at now,
  +ℤ_parts now (pos d),
  +ℤ_parts now (pos l.params.max_stake_duration),
)

-- What a successful opening says.
record Opened (now : ℤ) (ctx : OpenPartialUnstaking) (amount : ℕ) (e : Escrow)
    (u : PartialUnstaking) : Type 0 where
  duration : ℕ
  remaining :
      get_remaining_duration_until_expiration ctx.escrow.info now ctx.locker.info ≡ some duration
  some_time : 0 < duration
  some_amount : 0 < amount
  owned : ctx.escrow.info.owner ≡ ctx.owner
  at_locker : ctx.escrow.info.locker ≡ ctx.locker.key
  covered : amount ≤ ctx.escrow.info.amount
  of_escrow : u.escrow ≡ ctx.escrow.key
  amount_kept : u.amount ≡ amount
  expires : u.expiration ≡ now +ℤ as_i64 duration
  moved : e ≡ record (ctx.escrow.info) {
    amount = ctx.escrow.info.amount - amount;
    partial_unstaking_amount = ctx.escrow.info.partial_unstaking_amount + amount;
  }

open_partial_unstaking-Opened :
    (now : ℤ) (ctx : OpenPartialUnstaking) (amount memo : ℕ) {e : Escrow} {u : PartialUnstaking}
    → open_partial_unstaking now ctx amount memo ≡ ok (e, u)
    → Opened now ctx amount e u
unfolding open_partial_unstaking accumulate_partial_unstaking_amount
open_partial_unstaking-Opened now ctx amount memo h =
    elim (Option-cases
      (get_remaining_duration_until_expiration ctx.escrow.info now ctx.locker.info)) [
        | inl e ↦ ground arith
        | inr (d, e) ↦ record {
          duration = d;
          remaining = e;
          some_time = ground arith;
          some_amount = ground arith;
          owned = ground arith;
          at_locker = ground arith;
          covered = ground arith;
          of_escrow = ground arith;
          amount_kept = ground arith;
          expires = ground arith;
          moved = ground arith;
        }
      ]

-- For a locker whose maximum duration is below 2^63, a successful `open_partial_unstaking` is by
-- the owner and moves a positive amount out of the locked amount; it expires, in the future,
-- exactly when the lock would have ended: at the end of the lock, or under max lock a full
-- duration from now.
pub open_partial_unstaking-waits :
    (now : ℤ) (ctx : OpenPartialUnstaking) (amount memo : ℕ) {e : Escrow} {u : PartialUnstaking}
    → ctx.locker.info.params.max_stake_duration < i64_bound
    → open_partial_unstaking now ctx amount memo ≡ ok (e, u)
    → let old = ctx.escrow.info in
      (0 < amount)
      × (ctx.owner ≡ old.owner)
      × (u.amount ≡ amount)
      × (u.expiration ≡ lock_end now ctx.locker.info old)
      × (now <ℤ u.expiration)
      × (old.amount ≡ e.amount + amount)
      × (e.partial_unstaking_amount ≡ old.partial_unstaking_amount + amount)
open_partial_unstaking-waits now ctx amount memo small h =
    let o = open_partial_unstaking-Opened now ctx amount memo h in
    let (ends, future) =
      remaining-lock_end now ctx.locker.info ctx.escrow.info small o.remaining o.some_time in
    (
      o.some_amount,
      sym o.owned,
      o.amount_kept,
      o.expires ∙ ends,
      rw (o.expires, ends) future,
      omega (arith, o.covered, ap (λ (x : Escrow). x.amount) o.moved),
      ap (λ (x : Escrow). x.partial_unstaking_amount) o.moved,
    )

merge-opened :
    (now : ℤ) (ctx : OpenPartialUnstaking) (amount d : ℕ) (pk : Pubkey) (u : PartialUnstaking)
    → ctx.escrow.info.amount < u64_mod
    → ctx.escrow.info.owner ≡ ctx.owner
    → ctx.escrow.info.locker ≡ ctx.locker.key
    → u.escrow ≡ ctx.escrow.key
    → u.amount ≡ amount
    → amount ≤ ctx.escrow.info.amount
    → get_remaining_duration_until_expiration ctx.escrow.info now ctx.locker.info ≡ some d
    → ctx.locker.info.params.min_stake_duration ≤ d
    → merge_partial_unstaking now (record {
      locker = ctx.locker;
      escrow = record {
        key = ctx.escrow.key;
        info = record (ctx.escrow.info) {
          amount = ctx.escrow.info.amount - amount;
          partial_unstaking_amount = ctx.escrow.info.partial_unstaking_amount + amount;
        };
      };
      partial_unstake = record { key = pk; info = u };
      owner = ctx.owner;
    })
      ≡ ok ctx.escrow.info
unfolding merge_partial_unstaking merge_partial_unstaking_amount
    get_remaining_duration_until_expiration
merge-opened now ctx amount d pk u w o k b a c r m = ground arith

-- Merging what was just opened restores the escrow: where opening succeeds and the remaining lock is at
-- least the minimum duration, merging the new partial unstaking at the same time succeeds and gives the
-- escrow back as it was, if its amount is below 2^64.
pub open_merge_partial_unstaking :
    (now : ℤ) (ctx : OpenPartialUnstaking) (amount memo : ℕ) (pk : Pubkey) {e : Escrow}
    {u : PartialUnstaking} {d : ℕ}
    → ctx.escrow.info.amount < u64_mod
    → get_remaining_duration_until_expiration ctx.escrow.info now ctx.locker.info ≡ some d
    → ctx.locker.info.params.min_stake_duration ≤ d
    → open_partial_unstaking now ctx amount memo ≡ ok (e, u)
    → merge_partial_unstaking now (record {
      locker = ctx.locker;
      escrow = record { key = ctx.escrow.key; info = e };
      partial_unstake = record { key = pk; info = u };
      owner = ctx.owner;
    })
      ≡ ok ctx.escrow.info
open_merge_partial_unstaking now ctx amount memo pk {e} {u} {d} w r m h =
    let o = open_partial_unstaking-Opened now ctx amount memo h in
    rw o.moved (
      merge-opened now ctx amount d pk u w o.owned o.at_locker o.of_escrow o.amount_kept o.covered r
        m)
