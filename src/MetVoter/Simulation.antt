-- ===== src/MetVoter/Simulation.antt =====
-- The stores of programs/met-voter as stores of programs/locked-voter: what is read and written.
use wagmi.Prelude.{
  ◌≡◌, sym, ap, ◌∙◌, arith, [], Store, put, close, map_values, find-map_values,
  find-map_values-none, put-map_values, close-map_values,
}
use wagmi.Chain.{
  Pubkey, Account, Result, ok, >>=-eq-ok, ok-injective, load, init, load-eq-ok, init-eq-ok,
  TokenProgram,
}
use wagmi.LockedVoter.Program as Locked
use wagmi.MetVoter.State.{Locker, Escrow}
use wagmi.MetVoter.Escrows
use wagmi.MetVoter.Program.{Vaults, load_change}
use wagmi.MetVoter.Embedding.{at_key, embed_locker, embed_escrow, embed_change}

abbrev pub embed : Vaults → Locked.Vaults
embed s = record {
  lockers = map_values embed_locker s.lockers;
  escrows = map_values embed_escrow s.escrows;
  unstakings = [];
}

pub load-embed {ℓ κ} :
    {T : Type ℓ} {U : Type κ} (f : T → U) (k : Pubkey) (m : Store T) {a : Account T}
    → load k m ≡ ok a
    → load k (map_values f m) ≡ ok (at_key f a)
load-embed f k m {a = a} h =
    let (key, found) = load-eq-ok k m h in ground (arith, find-map_values f k m {v = a.info} found)

pub init-embed {ℓ κ} :
    {T : Type ℓ} {U : Type κ} (f : T → U) (k : Pubkey) (m : Store T)
    → init k m ≡ ok tt
    → init k (map_values f m) ≡ ok tt
init-embed f k m h = ground (arith, find-map_values-none f k m (init-eq-ok k m h))

pub load_change-embed :
    (lk ek owner : Pubkey) (s : Vaults) {ctx : Escrows.LockChange}
    → load_change lk ek owner s ≡ ok ctx
    → Locked.load_change lk ek owner (embed s) ≡ ok (embed_change ctx)
load_change-embed lk ek owner s h =
    let (locker, e, h1) = >>=-eq-ok (load lk s.lockers) _ h in
    let (escrow, e', h2) = >>=-eq-ok (load ek s.escrows) _ h1 in
    ground (arith, load-embed embed_locker lk s.lockers e, load-embed embed_escrow ek s.escrows e')

-- The end of an instruction of either program.
abbrev pub ended {ℓ κ} : {L : Type ℓ} {V : Type κ} → L → V → Result (L × V)
ended l s = ok (l, s)

pub ended-injective {ℓ κ} :
    {L : Type ℓ} {V : Type κ} {l l' : L} {s t : V} → ended l s ≡ ended l' t → (l ≡ l') × (s ≡ t)
ended-injective h = (ap (λ r. r.0) (sym (ok-injective h)), ap (λ r. r.1) (sym (ok-injective h)))

-- What a step writes, embedded.
embed-end :
    (tp : TokenProgram) {l l' : tp.Ledger} {t u : Vaults}
    → ended l t ≡ ended l' u
    → ended l (embed t) ≡ ended l' (embed u)
embed-end tp h = ap (λ r. ended r.0 (embed r.1)) (sym (ok-injective h))

pub locker-embed :
    (tp : TokenProgram) (lk : Pubkey) (k : Locker) (s : Vaults) {l l' : tp.Ledger} {u : Vaults}
    → ended l (record s { lockers = put lk k s.lockers }) ≡ ended l' u
    → ended l (record (embed s) { lockers = put lk (embed_locker k) (embed s).lockers })
      ≡ ended l' (embed u)
locker-embed tp lk k s {l = l} h =
    ap (λ m. ended l (record (embed s) { lockers = m }))
      (put-map_values embed_locker lk k s.lockers)
    ∙ embed-end tp h

pub escrow-embed :
    (tp : TokenProgram) (ek : Pubkey) (e : Escrow) (s : Vaults) {l l' : tp.Ledger} {u : Vaults}
    → ended l (record s { escrows = put ek e s.escrows }) ≡ ended l' u
    → ended l (record (embed s) { escrows = put ek (embed_escrow e) (embed s).escrows })
      ≡ ended l' (embed u)
escrow-embed tp ek e s {l = l} h =
    ap (λ m. ended l (record (embed s) { escrows = m }))
      (put-map_values embed_escrow ek e s.escrows)
    ∙ embed-end tp h

pub both-embed :
    (tp : TokenProgram) (lk ek : Pubkey) (k : Locker) (e : Escrow) (s : Vaults) {l l' : tp.Ledger}
    {u : Vaults}
    → ended l (record s { lockers = put lk k s.lockers; escrows = put ek e s.escrows }) ≡ ended l' u
    → ended l (record (embed s) {
      lockers = put lk (embed_locker k) (embed s).lockers;
      escrows = put ek (embed_escrow e) (embed s).escrows;
    })
      ≡ ended l' (embed u)
both-embed tp lk ek k e s {l = l} h =
    ap
      (λ m.
        ended l
          (record (embed s) { lockers = m; escrows = put ek (embed_escrow e) (embed s).escrows }))
      (put-map_values embed_locker lk k s.lockers)
    ∙ escrow-embed tp ek e (record s { lockers = put lk k s.lockers }) h

pub closed-embed :
    (tp : TokenProgram) (lk ek : Pubkey) (k : Locker) (s : Vaults) {l l' : tp.Ledger} {u : Vaults}
    → ended l (record s { lockers = put lk k s.lockers; escrows = close ek s.escrows }) ≡ ended l' u
    → ended l (record (embed s) {
      lockers = put lk (embed_locker k) (embed s).lockers;
      escrows = close ek (embed s).escrows;
    })
      ≡ ended l' (embed u)
closed-embed tp lk ek k s {l = l} h =
    ap (λ m. ended l (record (embed s) { lockers = m; escrows = close ek (embed s).escrows }))
      (put-map_values embed_locker lk k s.lockers)
    ∙ ap
        (λ m. ended l (record (embed s) {
          lockers = map_values embed_locker (put lk k s.lockers);
          escrows = m;
        }))
        (close-map_values embed_escrow ek s.escrows)
    ∙ embed-end tp h
