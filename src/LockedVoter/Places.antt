-- ===== src/LockedVoter/Places.antt =====
-- Where programs/locked-voter keeps the escrow of an owner and its tokens.
use wagmi.Prelude.{
  ◌≡◌, ◌∙◌, sym, ap, subst, inl, inr, Option, none, some, Store, find, put, close, find-put,
  find-close, IsDistinct, Bool-cases, ◌==◌, ==→eq, ==_refl,
}
use wagmi.Chain.{Pubkey, TokenProgram}
use wagmi.Chain.Address.{Seeds, FindProgramAddress}
use wagmi.LockedVoter.State.{Locker, Escrow}
use wagmi.LockedVoter.Backing.{SameMint, KeepsMint, SameHolder, Effect, IsBacked}
use wagmi.LockedVoter.Supply.{run-Effect, History-IsBacked}
use wagmi.LockedVoter.Program.{Vaults, History}

module _ (tp : TokenProgram) (pda : FindProgramAddress) where
  -- The tokens of an escrow, of a locker that exists.
  abbrev pub TokensFit : Option Locker → Pubkey → Pubkey → Type 0
  TokensFit none ek tokens = ⊥
  TokensFit (some k) ek tokens = tokens ≡ tp.associated_address ek k.token_mint

  abbrev pub PlacedIn : Store Locker → Pubkey → Option Escrow → Type 0
  PlacedIn lockers ek none = Unit
  PlacedIn lockers ek (some e) =
      (ek ≡ (pda (Seeds.escrow e.locker e.owner)).0) × TokensFit (find e.locker lockers) ek e.tokens

  -- Each escrow is at the address of its locker and owner, and keeps its tokens in its associated
  -- account of the mint of the locker, which exists.
  abbrev pub IsPlaced : Vaults → Type 0
  IsPlaced s = (ek : Pubkey) → PlacedIn s.lockers ek (find ek s.escrows)

module _ (tp : TokenProgram) (pda : FindProgramAddress) where
  TokensFit-kept :
      (o : Option Locker) (l : Locker) (ek tokens : Pubkey)
      → KeepsMint o l
      → TokensFit tp pda o ek tokens
      → tokens ≡ tp.associated_address ek l.token_mint
  TokensFit-kept none l ek tokens kept fit = absurd fit
  TokensFit-kept (some k) l ek tokens kept fit = fit ∙ ap (tp.associated_address ek) (sym kept)

  -- A locker is written.
  PlacedIn-locker :
      (lockers : Store Locker) (lk : Pubkey) (l : Locker) (ek : Pubkey) (o : Option Escrow)
      → KeepsMint (find lk lockers) l
      → PlacedIn tp pda lockers ek o
      → PlacedIn tp pda (put lk l lockers) ek o
  PlacedIn-locker lockers lk l ek none kept p = tt
  PlacedIn-locker lockers lk l ek (some e) kept p = (
    p.0,
    rw (find-put lk e.locker l lockers) (elim (Bool-cases (lk == e.locker)) [
      | inl here ↦ rw here (
          TokensFit-kept (find e.locker lockers) l ek e.tokens
            (subst (λ j. KeepsMint (find j lockers) l) (==→eq lk e.locker here) kept) p.1)
      | inr other ↦ rw other p.1
    ]),
  )

  PlacedIn-SameHolder :
      (lockers : Store Locker) (ek : Pubkey) (e e' : Escrow)
      → SameHolder e e'
      → PlacedIn tp pda lockers ek (some e)
      → PlacedIn tp pda lockers ek (some e')
  PlacedIn-SameHolder lockers ek e e' (locker, owner, tokens) p =
      (rw (locker, owner) p.0, rw (locker, tokens) p.1)

  KeepsMint-found :
      (lockers : Store Locker) (lk : Pubkey) {l : Locker} (l' : Locker)
      → find lk lockers ≡ some l
      → SameMint l l'
      → KeepsMint (find lk lockers) l'
  KeepsMint-found lockers lk l' fl same = rw fl same

  -- An escrow is written.
  PlacedIn-put :
      (lockers : Store Locker) (escrows : Store Escrow) (ek : Pubkey) (e : Escrow) (j : Pubkey)
      → PlacedIn tp pda lockers ek (some e)
      → PlacedIn tp pda lockers j (find j escrows)
      → PlacedIn tp pda lockers j (find j (put ek e escrows))
  PlacedIn-put lockers escrows ek e j new old =
      rw (find-put ek j e escrows) (elim (Bool-cases (ek == j)) [
        | inl here ↦ rw here (subst (λ x. PlacedIn tp pda lockers x (some e)) (==→eq ek j here) new)
        | inr other ↦ rw other old
      ])

  PlacedIn-close :
      (lockers : Store Locker) (escrows : Store Escrow) (ek j : Pubkey)
      → IsDistinct escrows
      → PlacedIn tp pda lockers j (find j escrows)
      → PlacedIn tp pda lockers j (find j (close ek escrows))
  PlacedIn-close lockers escrows ek j d old =
      rw (find-close ek j escrows d)
        (elim (Bool-cases (ek == j)) [ inl here ↦ rw here tt | inr other ↦ rw other old ])

  -- An escrow of the store is written with the same holder.
  PlacedIn-again :
      (s : Vaults) (ek : Pubkey) {e : Escrow} (e' : Escrow) (j : Pubkey)
      → IsPlaced tp pda s
      → find ek s.escrows ≡ some e
      → SameHolder e e'
      → PlacedIn tp pda s.lockers j (find j (put ek e' s.escrows))
  PlacedIn-again s ek {e} e' j p fe same =
      PlacedIn-put s.lockers s.escrows ek e' j
        (PlacedIn-SameHolder s.lockers ek e e' same
          (subst (PlacedIn tp pda s.lockers ek) fe (p ek)))
        (p j)

  Effect-IsPlaced :
      {s u : Vaults}
      → Effect tp pda s u
      → IsDistinct s.escrows
      → IsPlaced tp pda s
      → IsPlaced tp pda u
  Effect-IsPlaced {s} (Effect.locker_written lk l e kept eq) d p j =
      rw eq (PlacedIn-locker s.lockers lk l j (find j s.escrows) kept (p j))
  Effect-IsPlaced {s} (Effect.escrow_created lk ek l l' e fl fe same new kept eq) d p j =
      let (mint, (own, at, tokens)) = kept in
      rw eq (
        PlacedIn-put (put lk l' s.lockers) s.escrows ek e j
          (rw own at, rw (own, find-put lk lk l' s.lockers, ==_refl lk, mint) tokens)
          (PlacedIn-locker s.lockers lk l' j (find j s.escrows)
            (KeepsMint-found s.lockers lk l' fl mint) (p j)))
  Effect-IsPlaced {s} (Effect.escrow_written ek e e' fe same kept eq) d p j =
      rw eq (PlacedIn-again s ek e' j p fe kept)
  Effect-IsPlaced {s} (Effect.deposited lk ek l l' e e' n fl fe own sup amt kept eq) d p j = rw eq (
      PlacedIn-locker s.lockers lk l' j (find j (put ek e' s.escrows))
        (KeepsMint-found s.lockers lk l' fl kept.0) (PlacedIn-again s ek e' j p fe kept.1))
  Effect-IsPlaced {s} (Effect.withdrawn lk ek l l' e fl fe own sup kept eq) d p j = rw eq (
      PlacedIn-locker s.lockers lk l' j (find j (close ek s.escrows))
        (KeepsMint-found s.lockers lk l' fl kept) (PlacedIn-close s.lockers s.escrows ek j d (p j)))
  Effect-IsPlaced {s} (Effect.opened ek uk e e' x fe fu own amt kept eq) d p j =
      rw eq (PlacedIn-again s ek e' j p fe kept)
  Effect-IsPlaced {s} (Effect.merged ek uk e e' x fe fu own amt kept eq) d p j =
      rw eq (PlacedIn-again s ek e' j p fe kept)
  Effect-IsPlaced {s} (Effect.paid_out lk ek uk l l' e e' x fl fe fu own sup amt kept eq) d p j =
      rw eq (
        PlacedIn-locker s.lockers lk l' j (find j (put ek e' s.escrows))
          (KeepsMint-found s.lockers lk l' fl kept.0) (PlacedIn-again s ek e' j p fe kept.1))

  -- Any history keeps each escrow at its address, with its tokens in its associated account.
  pub History-IsPlaced :
      {l : tp.Ledger} {s : Vaults} {l' : tp.Ledger} {u : Vaults}
      → History tp pda l s l' u
      → IsBacked s
      → IsPlaced tp pda s
      → IsPlaced tp pda u
  History-IsPlaced History.start b p = p
  History-IsPlaced (History.elsewhere n h) b p = History-IsPlaced h b p
  History-IsPlaced (History.call {m = m} {t = t} now c h e) b p =
      Effect-IsPlaced (run-Effect tp pda now c m t e) (History-IsBacked tp pda h b).distinct
        (History-IsPlaced h b p)
