-- ===== src/LockedVoter/Exit.antt =====
-- The exit from programs/locked-voter after the end of a lock.
use wagmi.Prelude.{
  ◌-◌, ◌≤◌, ◌<◌, ◌≡◌, ◌≢◌, refl, arith, some, true, false, ℤ, ◌≤ℤ◌, find, put, close,
  measure-le-total, ltb, ==_refl, if◌then◌else◌,
}
use wagmi.Chain.{Pubkey, ok, first_step, load-of_find, TokenProgram}
use wagmi.Chain.Address.{FindProgramAddress}
use wagmi.LockedVoter.State.{Locker, Escrow}
use wagmi.LockedVoter.Deposits
use wagmi.LockedVoter.Program.{Vaults, Call, run, History}
use wagmi.LockedVoter.Backing.{IsBacked, held}
use wagmi.LockedVoter.Supply.{History-IsBacked}

-- What an owner has waited for: the end of the lock, without max lock and partial unstakings.
pub record IsUnlocked (now : ℤ) (e : Escrow) : Type 0 where
  pub over : e.escrow_ends_at ≤ℤ now
  pub free : e.is_max_lock ≡ false
  pub whole : e.partial_unstaking_amount ≡ 0

-- The token accounts of a payment exist.
abbrev pub AreOpen : (tp : TokenProgram) → tp.Ledger → Pubkey → Pubkey → Type 0
AreOpen tp l from to = (tp.is_open l from ≡ true) × (tp.is_open l to ≡ true)

module _ (tp : TokenProgram) where
  withdraw-succeeds :
      (now : ℤ) (l : tp.Ledger) (lk ek destination : Pubkey) (k : Locker) (e : Escrow)
      {paid : tp.Ledger}
      → IsUnlocked now e
      → AreOpen tp l e.tokens destination
      → e.locker ≡ lk
      → e.tokens ≢ destination
      → e.amount ≤ k.locked_supply
      → (0 < e.amount → tp.transfer l e.tokens destination ek e.amount ≡ some paid)
      → (l' : tp.Ledger) × (Deposits.withdraw tp now l (record {
        locker = record { key = lk; info = k };
        escrow = record { key = ek; info = e };
        escrow_owner = e.owner;
        escrow_tokens = e.tokens;
        destination_tokens = destination;
      })
          ≡ ok (l', record k { locked_supply = k.locked_supply - e.amount }))
  unfolding Deposits.withdraw
  withdraw-succeeds now l lk ek destination k e {paid} u (there, here) own apart enough pays = (
    if ltb 0 e.amount then paid else l,
    ground (arith, ==_refl e.tokens, ==_refl e.owner, ==_refl lk),
  )

-- The supply of a locker covers each of its escrows.
supply-covers :
    {s : Vaults} (ek : Pubkey) {k : Locker} {e : Escrow}
    → IsBacked s
    → find ek s.escrows ≡ some e
    → find e.locker s.lockers ≡ some k
    → e.amount ≤ k.locked_supply
supply-covers {s = s} ek {k} {e} b fe fk = ground (
  arith,
  b.supply e.locker,
  ==_refl e.locker,
  measure-le-total (held e.locker) ek {v = e} s.escrows fe,
)

module _ (tp : TokenProgram) (pda : FindProgramAddress) where
  run-withdraw :
      (now : ℤ) (l : tp.Ledger) (s : Vaults) (lk ek owner tokens destination : Pubkey)
      {k k' : Locker} {e : Escrow} {l' : tp.Ledger}
      → find lk s.lockers ≡ some k
      → find ek s.escrows ≡ some e
      → Deposits.withdraw tp now l (record {
        locker = record { key = lk; info = k };
        escrow = record { key = ek; info = e };
        escrow_owner = owner;
        escrow_tokens = tokens;
        destination_tokens = destination;
      })
        ≡ ok (l', k')
      → run tp pda now (Call.withdraw lk ek owner tokens destination) l s
        ≡ ok (l', record s { lockers = put lk k' s.lockers; escrows = close ek s.escrows })
  unfolding run
  run-withdraw now l s lk ek owner tokens destination fk fe done =
      first_step _ _ (load-of_find lk s.lockers fk)
        (first_step _ _ (load-of_find ek s.escrows fe) (first_step _ _ done refl))

  -- Let a history begin where the accounts are backed, and let it reach an escrow of an existing
  -- locker whose lock is over, without max lock and partial unstakings. Let the token accounts of
  -- the escrow and of the payment's destination exist. If the token program makes the payment to a
  -- destination other than the escrow's own token account, where there is something to pay, then
  -- the owner's `withdraw` succeeds and the escrow is closed.
  pub History-owner_exits :
      {l0 : tp.Ledger} {s0 : Vaults} {l : tp.Ledger} {s : Vaults} (now : ℤ)
      (ek destination : Pubkey) {k : Locker} {e : Escrow} {paid : tp.Ledger}
      → History tp pda l0 s0 l s
      → IsBacked s0
      → find ek s.escrows ≡ some e
      → find e.locker s.lockers ≡ some k
      → IsUnlocked now e
      → AreOpen tp l e.tokens destination
      → e.tokens ≢ destination
      → (0 < e.amount → tp.transfer l e.tokens destination ek e.amount ≡ some paid)
      → (l' : tp.Ledger) × (u : Vaults) × (run tp pda now
            (Call.withdraw e.locker ek e.owner e.tokens destination)
            l
            s
          ≡ ok (l', u))
        × (u.escrows ≡ close ek s.escrows)
  History-owner_exits {l = l} {s = s} now ek destination {k} {e} {paid} h backed fe fk u opened
        apart pays =
      let b = History-IsBacked tp pda h backed in
      let (l', done) =
        withdraw-succeeds tp now l e.locker ek destination k e {paid = paid} u opened refl apart
          (supply-covers ek b fe fk) pays in
      (l', _, run-withdraw now l s e.locker ek e.owner e.tokens destination fk fe done, refl)
