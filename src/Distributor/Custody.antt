-- ===== src/Distributor/Custody.antt =====
-- The tokens of programs/merkle-distributor: claims and clawback.
use wagmi.Prelude.{
  ℕ, ◌+◌, ◌<◌, ◌≡◌, ◌≢◌, ◌∙◌, refl, sym, ap, arith, Bool-cases, inl, inr, true, some, ℤ, List, find,
  find-put, ◌==◌, ==→eq,
}
use wagmi.Chain.{Pubkey, ok, TokenProgram, Moves, transfer_tokens, transfer_tokens-Moves}
use wagmi.Chain.Address.{Seeds, FindProgramAddress}
use wagmi.Chain.Hashing.{Hash, Hashv}
use wagmi.MetVoter.{IncreaseLockedAmount, increase_locked_amount, Locker, Escrow}
use wagmi.Distributor.State.{MerkleDistributor}
use wagmi.Distributor.MerkleProof.{leaf_hash, verify}
use wagmi.Distributor.Claims.{Claim, Claimed, claim}
use wagmi.Distributor.Program.{Accounts, ClaimCall, History}
use wagmi.Distributor.Accounting.{claimed_nodes}
use wagmi.Distributor.Effects.{Effect, Counts, claim-says, run-Effect}

module _ (tp : TokenProgram) where
  increase-shape :
      (now : ℤ) (l : tp.Ledger) (ctx : IncreaseLockedAmount) (amount : ℕ) {l' : tp.Ledger}
      {locker : Locker} {e : Escrow}
      → increase_locked_amount tp now l ctx amount ≡ ok (l', locker, e)
      → let old = ctx.escrow.info in
        (0 < amount)
        × (ctx.source_tokens ≢ old.tokens)
        × (transfer_tokens tp l ctx.source_tokens old.tokens ctx.payer amount ≡ ok l')
        × (e ≡ record old { amount = old.amount + amount })
        × (locker
            ≡ record (ctx.locker.info) { locked_supply = ctx.locker.info.locked_supply + amount })
  unfolding increase_locked_amount
  increase-shape now l ctx amount h = ground arith

module _ (tp : TokenProgram) (hashv : Hashv) (pda : FindProgramAddress) where
  -- A `claim` that succeeds has a proof for the index, the claimant and the amount under the root of
  -- the distributor, which is not clawed back; it moves this positive amount from the vault to the
  -- token account of the claimant's escrow, adds it to the escrow and to the supply of the locker,
  -- and counts one claim of it within the limits.
  pub claim-locks :
      (now : ℤ) (l : tp.Ledger) (ctx : Claim) (index amount : ℕ) (proof : List Hash)
      {done : Claimed tp.Ledger}
      → claim tp hashv pda now l ctx index amount proof ≡ ok done
      → let old = ctx.escrow.info in
        (verify hashv proof ctx.distributor.info.root (leaf_hash hashv index ctx.claimant amount)
          ≡ true)
        × (ctx.escrow.key ≡ (pda (Seeds.met_escrow ctx.locker.key ctx.claimant)).0)
        × (0 < amount)
        × Moves tp l done.ledger ctx.token_vault old.tokens amount
        × (done.escrow ≡ record old { amount = old.amount + amount })
        × (done.locker
            ≡ record (ctx.locker.info) { locked_supply = ctx.locker.info.locked_supply + amount })
        × Counts amount ctx.distributor.info done.distributor
  claim-locks now l ctx index amount proof {done = done} h =
      let ((_, own, proved), counts, _, locked, _) =
        claim-says tp hashv pda now l ctx index amount proof {done = done} h in
      let (positive, ne, paid, escrow, locker) =
        increase-shape tp now l _ amount {l' = done.ledger} {locker = done.locker} {e = done.escrow}
          locked in
      (
        proved,
        own,
        positive,
        transfer_tokens-Moves tp l ctx.token_vault ctx.escrow.info.tokens ctx.distributor.key amount
            {l' = done.ledger} ne paid,
        escrow,
        locker,
        counts,
      )

-- A distributor that is clawed back.
abbrev IsClosed : Pubkey → Accounts → Type 0
IsClosed dk s = (d : MerkleDistributor) × (find dk s.distributors ≡ some d) × (d.clawed_back ≡ true)

module _ (pda : FindProgramAddress) where
  -- A step keeps a distributor clawed back, and is no claim of it.
  Effect-IsClosed :
      {hashv : Hashv} {s u : Accounts} {log log' : List ClaimCall} (dk : Pubkey)
      → Effect hashv pda s u log log'
      → IsClosed dk s
      → IsClosed dk u × (claimed_nodes dk log' ≡ claimed_nodes dk log)
  Effect-IsClosed {s} dk (Effect.created k new fresh zero eq same) (d, found, back) =
      ((d, rw eq (ground (arith, find-put k dk new s.distributors, ==→eq k dk)), back), refl)
  Effect-IsClosed {s} dk (Effect.written k d0 d' fk kept eq same) (d, found, back) =
      elim (Bool-cases (k == dk)) [
        | inl hit ↦
            let found0 = ap (λ i. find i s.distributors) (sym (==→eq k dk hit)) ∙ fk in
            ((d', rw eq (ground (arith, find-put k dk d' s.distributors)), ground arith), refl)
        | inr miss ↦ ((d, rw eq (ground (arith, find-put k dk d' s.distributors)), back), refl)
      ]
  Effect-IsClosed {s} dk (Effect.claimed c d0 d' st fc free counts is proves eq same)
        (d, found, back) =
      elim (Bool-cases (c.distributor == dk)) [
        | inl hit ↦
            let found0 = ap (λ i. find i s.distributors) (sym (==→eq c.distributor dk hit)) ∙ fc in
            absurd (ground arith)
        | inr miss ↦ (
          (d, rw eq (ground (arith, find-put c.distributor dk d' s.distributors)), back),
          ground arith,
        )
      ]

module _ (tp : TokenProgram) (hashv : Hashv) (pda : FindProgramAddress) where
  History-IsClosed :
      {s u : Accounts} {log : List ClaimCall} (dk : Pubkey)
      → History tp hashv pda s u log
      → IsClosed dk s
      → IsClosed dk u × (claimed_nodes dk log ≡ 0)
  History-IsClosed dk History.start closed = (closed, refl)
  History-IsClosed dk (History.call {t = t} {log = log} now c l l' h e) closed =
      let (still, zero) = History-IsClosed dk h closed in
      let (after, same) =
        Effect-IsClosed pda dk (run-Effect tp hashv pda now c l t log {l' = l'} e) still in
      (after, same ∙ zero)
  History-IsClosed dk (History.voter now c l l' h e) closed = History-IsClosed dk h closed

  -- Once a distributor is clawed back it stays so, and no claim of it succeeds in any history that
  -- follows.
  pub History-clawed_back :
      {s u : Accounts} {log : List ClaimCall} (dk : Pubkey) {d : MerkleDistributor}
      → History tp hashv pda s u log
      → find dk s.distributors ≡ some d
      → d.clawed_back ≡ true
      → ((d' : MerkleDistributor) × (find dk u.distributors ≡ some d') × (d'.clawed_back ≡ true))
        × (claimed_nodes dk log ≡ 0)
  History-clawed_back dk {d} h found back = History-IsClosed dk h (d, found, back)
