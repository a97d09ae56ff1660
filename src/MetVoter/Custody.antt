-- ===== src/MetVoter/Custody.antt =====
-- The tokens that leave an escrow of programs/met-voter.
use wagmi.Prelude.{ℕ, ◌+◌, ◌<◌, ◌≡◌, ◌≢◌, sym, ◌∙◌, inl, inr, arith, false, ℤ, ◌≤ℤ◌}
use wagmi.Chain.{
  Pubkey, Error, Result-cases, ok, err, TokenProgram, close_token_account, transfer_tokens-Moves,
}
use wagmi.LockedVoter.{release_tokens}
use wagmi.MetVoter.State.{Locker}
use wagmi.MetVoter.Deposits.{Withdraw, withdraw, validate_withdraw}
use wagmi.MetVoter.Embedding.{withdraw-steps}

module _ (tp : TokenProgram) where
  close-balance :
      (l : tp.Ledger) (k a : Pubkey) {l' : tp.Ledger}
      → (tp.account l k).mint ≢ tp.native_mint
      → close_token_account tp l k a ≡ ok l'
      → ((tp.account l k).amount ≡ 0) × ((tp.account l' k).amount ≡ 0)
  close-balance l k a {l' = l'} ne h = ground (arith, tp.close_account_empty l k a {l' = l'} ne)

  close-others :
      (l : tp.Ledger) (k a j : Pubkey) {l' : tp.Ledger}
      → j ≢ k
      → close_token_account tp l k a ≡ ok l'
      → (tp.account l' j).amount ≡ (tp.account l j).amount
  close-others l k a j {l' = l'} ne h = ground (arith, tp.close_account_others l k a j {l' = l'} ne)

  release-Moves :
      (l : tp.Ledger) (f t a : Pubkey) (n : ℕ) {l' : tp.Ledger}
      → f ≢ t
      → release_tokens tp l f t a n ≡ ok l'
      → ((tp.account l f).amount ≡ (tp.account l' f).amount + n)
        × ((tp.account l' t).amount ≡ (tp.account l t).amount + n)
  release-Moves l f t a n {l' = l'} ne h =
      ground (arith, transfer_tokens-Moves tp l f t a n {l' = l'} ne)

  release-mint :
      (l : tp.Ledger) (f t a k : Pubkey) (n : ℕ) {l' : tp.Ledger}
      → release_tokens tp l f t a n ≡ ok l'
      → (tp.account l' k).mint ≡ (tp.account l k).mint
  release-mint l f t a k n {l' = l'} h = ground (arith, tp.transfer_mint l f t a k n {l' = l'})

  validate_withdraw-says :
      (now : ℤ) (l : tp.Ledger) (ctx : Withdraw)
      → validate_withdraw tp now l ctx ≡ ok tt
      → (ctx.escrow_tokens ≢ ctx.destination_tokens)
        × (ctx.escrow.info.owner ≡ ctx.escrow_owner)
        × (ctx.locker.info.expiration ≤ℤ now)
        × (ctx.escrow.info.is_max_lock ≡ false)
        × (ctx.escrow.info.escrow_ends_at ≤ℤ now)
  validate_withdraw-says now l ctx h = ground arith

  -- Let the token account of the escrow be of another mint than the native one. A `withdraw` that
  -- succeeds runs after the launch of the token and the end of the lock, without
  -- max lock, for the owner of the escrow. The token account of the escrow held exactly the amount
  -- of the escrow and is empty afterwards, the destination has this amount more, and the supply of
  -- the locker this amount less.
  pub withdraw-empties :
      (now : ℤ) (l : tp.Ledger) (ctx : Withdraw) {l' : tp.Ledger} {locker : Locker}
      → (tp.account l ctx.escrow_tokens).mint ≢ tp.native_mint
      → withdraw tp now l ctx ≡ ok (l', locker)
      → ((ctx.locker.info.expiration ≤ℤ now)
          × (ctx.escrow.info.escrow_ends_at ≤ℤ now)
          × (ctx.escrow.info.is_max_lock ≡ false)
          × (ctx.escrow.info.owner ≡ ctx.escrow_owner))
        × ((tp.account l ctx.escrow_tokens).amount ≡ ctx.escrow.info.amount)
        × ((tp.account l' ctx.escrow_tokens).amount ≡ 0)
        × ((tp.account l' ctx.destination_tokens).amount
            ≡ (tp.account l ctx.destination_tokens).amount + ctx.escrow.info.amount)
        × (ctx.locker.info.locked_supply ≡ locker.locked_supply + ctx.escrow.info.amount)
  withdraw-empties now l ctx {l' = l'} ne h =
      let (paid, valid, pays, closes, supply, same) = withdraw-steps tp now l ctx h in
      let (apart, owner, launched, free, over) = validate_withdraw-says now l ctx valid in
      let (gone, arrived) =
        release-Moves l ctx.escrow_tokens ctx.destination_tokens ctx.escrow.key
          ctx.escrow.info.amount {l' = paid} apart pays in
      let kept =
        release-mint l ctx.escrow_tokens ctx.destination_tokens ctx.escrow.key ctx.escrow_tokens
          ctx.escrow.info.amount {l' = paid} pays in
      let (nothing, empty) =
        close-balance paid ctx.escrow_tokens ctx.escrow.key (λ e. ne (sym kept ∙ e)) closes in
      let rest =
        close-others paid ctx.escrow_tokens ctx.escrow.key ctx.destination_tokens
          (λ e. apart (sym e)) closes in
      ((launched, over, free, owner), omega arith, empty, omega arith, ground arith)

  -- If the token account that is passed for an escrow is of another mint than the native one
  -- (wrapped SOL) and holds more than the amount of the escrow, `withdraw` fails: the token program
  -- refuses to close an account of such a mint that is not empty.
  pub withdraw-donated :
      (now : ℤ) (l : tp.Ledger) (ctx : Withdraw)
      → (tp.account l ctx.escrow_tokens).mint ≢ tp.native_mint
      → ctx.escrow.info.amount < (tp.account l ctx.escrow_tokens).amount
      → (reason : Error) × (withdraw tp now l ctx ≡ err reason)
  withdraw-donated now l ctx ne more = elim (Result-cases (withdraw tp now l ctx)) [
    | inl failed ↦ failed
    | inr (done, h) ↦
        let (_, exactly, _, _, _) =
          withdraw-empties now l ctx {l' = done.0} {locker = done.1} ne h in
        absurd (omega (arith, exactly, more))
  ]
