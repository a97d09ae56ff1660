-- ===== src/Cli/DistributorTool/SettingUp.antt =====
-- What the instructions that prepare a claim of cli/merkle_distributor leave alone.
use wagmi.Prelude.{◌≡◌, ◌∙◌, refl, sym, ap, subst, arith, ℤ, List, [], ◌∷◌}
use wagmi.Chain.{Pubkey, ok, >>=-eq-ok, ok-injective, TokenProgram, init_associated}
use wagmi.Chain.Address.{FindProgramAddress}
use wagmi.Chain.Hashing.{Hashv}
use wagmi.MetVoter.Program as Voter
use wagmi.Distributor.{MerkleDistributor}
use wagmi.Distributor.Program.{Accounts, ClaimCall, History}
use wagmi.Cli.DistributorTool.Commands.{TokenClient, Instruction}
use wagmi.Cli.DistributorTool.Requests.{set_up}
use wagmi.Cli.DistributorTool.Sending.{perform, send}

-- The instructions that prepare an escrow.
abbrev Prepares : Instruction → Type 0
Prepares (Instruction.new_escrow locker escrow owner) = Unit
Prepares (Instruction.create_associated payer owner mint) = Unit
Prepares (Instruction.mint_to mint account authority amount) = ⊥
Prepares (Instruction.transfer from to authority amount) = ⊥
Prepares (Instruction.call c) = ⊥

abbrev AllPrepare : List Instruction → Type 0
AllPrepare [] = Unit
AllPrepare (i ∷ is) = Prepares i × AllPrepare is

-- What preparing an escrow leaves alone.
abbrev Prepared :
    (tp : TokenProgram)
    → Hashv
    → FindProgramAddress
    → Accounts
    → List ClaimCall
    → Accounts
    → Accounts
    → Type 0
Prepared tp hashv pda s log u t =
    History tp hashv pda s t log
    × (t.distributors ≡ u.distributors)
    × (t.claim_statuses ≡ u.claim_statuses)

Prepared-of :
    (tp : TokenProgram) (hashv : Hashv) (pda : FindProgramAddress) (s u : Accounts) {v t : Accounts}
    (log : List ClaimCall)
    → t ≡ v
    → Prepared tp hashv pda s log u v
    → Prepared tp hashv pda s log u t
Prepared-of tp hashv pda s u log e x = subst (λ q. Prepared tp hashv pda s log u q) (sym e) x

module _ (tp : TokenProgram) (tc : TokenClient tp) (hashv : Hashv) (pda : FindProgramAddress)
    (now : ℤ) where
  perform-Prepared :
      (i : Instruction) (l : tp.Ledger) {s u : Accounts} {log : List ClaimCall}
      {p : tp.Ledger × Accounts}
      → Prepares i
      → History tp hashv pda s u log
      → perform tp tc hashv pda now i l u ≡ ok p
      → Prepared tp hashv pda s log u p.1
  unfolding perform
  perform-Prepared (Instruction.new_escrow locker escrow owner) l {s} {u} {log} can h e =
      let ((l', v), e', is) =
        >>=-eq-ok (Voter.run tp pda now (Voter.Call.new_escrow locker escrow owner) l u.voter) _
          e in
      Prepared-of tp hashv pda s u log (ap (λ x. x.1) (ok-injective is))
        ((History.voter now (Voter.Call.new_escrow locker escrow owner) l l' h e'), refl, refl)
  perform-Prepared (Instruction.create_associated payer owner mint) l {s} {u} {log} can h e =
      let (l', _, is) = >>=-eq-ok (init_associated tp l owner mint) _ e in
      Prepared-of tp hashv pda s u log (ap (λ x. x.1) (ok-injective is)) (h, refl, refl)
  perform-Prepared (Instruction.mint_to mint account authority amount) l can h e = absurd can
  perform-Prepared (Instruction.transfer from to authority amount) l can h e = absurd can
  perform-Prepared (Instruction.call c) l can h e = absurd can

  pub send-Prepared :
      (is : List Instruction) (l : tp.Ledger) {s u : Accounts} {log : List ClaimCall}
      {p : tp.Ledger × Accounts}
      → AllPrepare is
      → History tp hashv pda s u log
      → send tp tc hashv pda now is l u ≡ ok p
      → Prepared tp hashv pda s log u p.1
  send-Prepared [] l {s} {u} {log} can h e =
      Prepared-of tp hashv pda s u log (ap (λ x. x.1) (ok-injective e)) (h, refl, refl)
  send-Prepared (i ∷ is) l {s} {u} {log} {p} (can, rest) h e =
      let (q, e', next) = >>=-eq-ok (perform tp tc hashv pda now i l u) _ e in
      let (h', same, same') = perform-Prepared i l can h e' in
      let (h'', kept, kept') = send-Prepared is q.0 {p = p} rest h' next in
      (h'', kept ∙ same, kept' ∙ same')

pub set_up-AllPrepare :
    (tp : TokenProgram) (tc : TokenClient tp) (hashv : Hashv) (pda : FindProgramAddress)
    (payer : Pubkey) (l : tp.Ledger) (s : Accounts) (d : MerkleDistributor) (escrow : Pubkey)
    → AllPrepare (set_up tp tc hashv pda payer l s d escrow)
set_up-AllPrepare tp tc hashv pda payer l s d escrow = ground arith
