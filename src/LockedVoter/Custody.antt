-- ===== src/LockedVoter/Custody.antt =====
-- The tokens that enter and leave an escrow of programs/locked-voter.
use wagmi.Prelude.{ℕ, ◌-◌, ◌+◌, ◌≤◌, ◌<◌, ◌≡◌, ◌≢◌, false, arith, ℤ, ◌≤ℤ◌}
use wagmi.Chain.{Pubkey, ok, TokenProgram, Moves, transfer_tokens, transfer_tokens-Moves}
use wagmi.LockedVoter.State.{Locker, Escrow, withdraw_partial_unstaking_amount}
use wagmi.LockedVoter.Deposits.{
  IncreaseLockedAmount, increase_locked_amount, Withdraw, withdraw, release_tokens,
}
use wagmi.LockedVoter.Unstaking.{WithdrawPartialUnstaking, withdraw_partial_unstaking}

module _ (tp : TokenProgram) where
  release_tokens-Moves :
      (l : tp.Ledger) (f t a : Pubkey) (n : ℕ) {l' : tp.Ledger}
      → f ≢ t
      → release_tokens tp l f t a n ≡ ok l'
      → Moves tp l l' f t n
  release_tokens-Moves l f t a n {l' = l'} ne h =
      ground (arith, transfer_tokens-Moves tp l f t a n {l' = l'} ne)

  withdraw-shape :
      (now : ℤ) (l : tp.Ledger) (ctx : Withdraw) {l' : tp.Ledger} {locker : Locker}
      → withdraw tp now l ctx ≡ ok (l', locker)
      → let e = ctx.escrow.info in
        (ctx.escrow_owner ≡ e.owner)
        × (e.is_max_lock ≡ false)
        × (e.escrow_ends_at ≤ℤ now)
        × (e.partial_unstaking_amount ≡ 0)
        × (e.tokens ≢ ctx.destination_tokens)
        × (release_tokens tp l e.tokens ctx.destination_tokens ctx.escrow.key e.amount ≡ ok l')
        × (ctx.locker.info.locked_supply ≡ locker.locked_supply + e.amount)
  unfolding withdraw
  withdraw-shape now l ctx h = ground arith

  -- A successful `withdraw` is called by the owner of the escrow, after the end of its lock, out
  -- of max lock and with no partial amount; the destination receives the amount of the escrow, its
  -- token account loses it, and the supply of the locker falls by it.
  pub withdraw-releases :
      (now : ℤ) (l : tp.Ledger) (ctx : Withdraw) {l' : tp.Ledger} {locker : Locker}
      → withdraw tp now l ctx ≡ ok (l', locker)
      → let e = ctx.escrow.info in
        (ctx.escrow_owner ≡ e.owner)
        × (e.is_max_lock ≡ false)
        × (e.escrow_ends_at ≤ℤ now)
        × (e.partial_unstaking_amount ≡ 0)
        × Moves tp l l' e.tokens ctx.destination_tokens e.amount
        × (ctx.locker.info.locked_supply ≡ locker.locked_supply + e.amount)
  withdraw-releases now l ctx h =
      let (owner, free, over, none_open, ne, paid, supply) = withdraw-shape now l ctx h in
      (
        owner,
        free,
        over,
        none_open,
        release_tokens-Moves l ctx.escrow.info.tokens ctx.destination_tokens ctx.escrow.key
            ctx.escrow.info.amount ne paid,
        supply,
      )

  increase_locked_amount-shape :
      (now : ℤ) (l : tp.Ledger) (ctx : IncreaseLockedAmount) (amount : ℕ) {l' : tp.Ledger}
      {locker : Locker} {e : Escrow}
      → increase_locked_amount tp now l ctx amount ≡ ok (l', locker, e)
      → let old = ctx.escrow.info in
        (0 < amount)
        × ((tp.account l ctx.source_tokens).owner ≡ ctx.payer)
        × ((tp.account l ctx.source_tokens).mint ≡ ctx.locker.info.token_mint)
        × (ctx.source_tokens ≢ old.tokens)
        × (transfer_tokens tp l ctx.source_tokens old.tokens ctx.payer amount ≡ ok l')
        × (e ≡ record old { amount = old.amount + amount })
        × (locker
            ≡ record (ctx.locker.info) { locked_supply = ctx.locker.info.locked_supply + amount })
  unfolding increase_locked_amount
  increase_locked_amount-shape now l ctx amount h = ground arith

  -- A deposit is a positive amount that the payer gives from its own tokens of the locker's mint: the
  -- source loses it, the token account of the escrow gains it, and it is added to the escrow and to
  -- the supply of the locker; nothing else of the two accounts changes.
  pub increase_locked_amount-deposits :
      (now : ℤ) (l : tp.Ledger) (ctx : IncreaseLockedAmount) (amount : ℕ) {l' : tp.Ledger}
      {locker : Locker} {e : Escrow}
      → increase_locked_amount tp now l ctx amount ≡ ok (l', locker, e)
      → let old = ctx.escrow.info in
        (0 < amount)
        × ((tp.account l ctx.source_tokens).owner ≡ ctx.payer)
        × ((tp.account l ctx.source_tokens).mint ≡ ctx.locker.info.token_mint)
        × Moves tp l l' ctx.source_tokens old.tokens amount
        × (e ≡ record old { amount = old.amount + amount })
        × (locker
            ≡ record (ctx.locker.info) { locked_supply = ctx.locker.info.locked_supply + amount })
  increase_locked_amount-deposits now l ctx amount h =
      let (some_amount, owner, mint, ne, paid, escrow, locker) =
        increase_locked_amount-shape now l ctx amount h in
      (
        some_amount,
        owner,
        mint,
        transfer_tokens-Moves tp l ctx.source_tokens ctx.escrow.info.tokens ctx.payer amount ne
            paid,
        escrow,
        locker,
      )

  withdraw_partial_unstaking-shape :
      (now : ℤ) (l : tp.Ledger) (ctx : WithdrawPartialUnstaking) {l' : tp.Ledger} {locker : Locker}
      {e : Escrow}
      → withdraw_partial_unstaking tp now l ctx ≡ ok (l', locker, e)
      → let old = ctx.escrow.info in
        let paid = ctx.partial_unstake.info.amount in
        (ctx.owner ≡ old.owner)
        × (ctx.partial_unstake.info.escrow ≡ ctx.escrow.key)
        × (ctx.partial_unstake.info.expiration ≤ℤ now)
        × (old.tokens ≢ ctx.destination_tokens)
        × (release_tokens tp l old.tokens ctx.destination_tokens ctx.escrow.key paid ≡ ok l')
        × (paid ≤ old.partial_unstaking_amount)
        × (e ≡ record old { partial_unstaking_amount = old.partial_unstaking_amount - paid })
        × (ctx.locker.info.locked_supply ≡ locker.locked_supply + paid)
  unfolding withdraw_partial_unstaking withdraw_partial_unstaking_amount
  withdraw_partial_unstaking-shape now l ctx h = ground arith

  -- A partial unstaking pays its amount out of the escrow's tokens only when the owner signs, and not
  -- before its expiration; of the escrow only the partial amount changes, which falls by the amount
  -- paid, and so does the supply of the locker.
  pub withdraw_partial_unstaking-releases :
      (now : ℤ) (l : tp.Ledger) (ctx : WithdrawPartialUnstaking) {l' : tp.Ledger} {locker : Locker}
      {e : Escrow}
      → withdraw_partial_unstaking tp now l ctx ≡ ok (l', locker, e)
      → let old = ctx.escrow.info in
        let paid = ctx.partial_unstake.info.amount in
        (ctx.owner ≡ old.owner)
        × (ctx.partial_unstake.info.escrow ≡ ctx.escrow.key)
        × (ctx.partial_unstake.info.expiration ≤ℤ now)
        × Moves tp l l' old.tokens ctx.destination_tokens paid
        × (paid ≤ old.partial_unstaking_amount)
        × (e ≡ record old { partial_unstaking_amount = old.partial_unstaking_amount - paid })
        × (ctx.locker.info.locked_supply ≡ locker.locked_supply + paid)
  withdraw_partial_unstaking-releases now l ctx h =
      let (owner, own, over, ne, paid, enough, escrow, supply) =
        withdraw_partial_unstaking-shape now l ctx h in
      (
        owner,
        own,
        over,
        release_tokens-Moves l ctx.escrow.info.tokens ctx.destination_tokens ctx.escrow.key
            ctx.partial_unstake.info.amount ne paid,
        enough,
        escrow,
        supply,
      )
