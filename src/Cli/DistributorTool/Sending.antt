-- ===== src/Cli/DistributorTool/Sending.antt =====
-- The transactions of cli/merkle_distributor on the chain: all instructions, or none.
use wagmi.Prelude.{◌≡◌, ◌∙◌, ap, sym, ℤ, List, [], ◌∷◌, ◌++◌}
use wagmi.Chain.{
  token, Result, ok, ◌>>=◌, >>=-eq-ok, ok-injective, first_step, unwrap_opt, TokenProgram,
  transfer_tokens, init_associated,
}
use wagmi.Chain.Address.{FindProgramAddress}
use wagmi.Chain.Hashing.{Hashv}
use wagmi.MetVoter.Program as Voter
use wagmi.Distributor.Program.{Accounts, run}
use wagmi.Cli.DistributorTool.Commands.{Instruction, TokenClient}

module _ (tp : TokenProgram) (tc : TokenClient tp) (hashv : Hashv) (pda : FindProgramAddress)
    (now : ℤ) where
  -- An instruction, by the program that it names.
  unfoldable pub perform : Instruction → tp.Ledger → Accounts → Result (tp.Ledger × Accounts)
  perform (Instruction.new_escrow locker escrow owner) l s = do
    (l', v) ← Voter.run tp pda now (Voter.Call.new_escrow locker escrow owner) l s.voter
    ok (l', record s { voter = v })
  perform (Instruction.create_associated payer owner mint) l s = do
    l' ← init_associated tp l owner mint
    ok (l', s)
  perform (Instruction.mint_to mint account authority amount) l s = do
    l' ← unwrap_opt (tc.mint_to l mint account authority amount) token
    ok (l', s)
  perform (Instruction.transfer from to authority amount) l s = do
    l' ← transfer_tokens tp l from to authority amount
    ok (l', s)
  perform (Instruction.call c) l s = run tp hashv pda now c l s

  abbrev pub send : List Instruction → tp.Ledger → Accounts → Result (tp.Ledger × Accounts)
  send [] l s = ok (l, s)
  send (i ∷ is) l s = do (l', s') ← perform i l s; send is l' s'

module _ (tp : TokenProgram) (tc : TokenClient tp) (hashv : Hashv) (pda : FindProgramAddress)
    (now : ℤ) where
  -- A transaction in two parts.
  pub send-append :
      (is js : List Instruction) (l : tp.Ledger) (s : Accounts) {l' : tp.Ledger} {s' : Accounts}
      → send tp tc hashv pda now is l s ≡ ok (l', s')
      → send tp tc hashv pda now (is ++ js) l s ≡ send tp tc hashv pda now js l' s'
  send-append [] js l s {l'} {s'} h =
      let same = ok-injective h in ap (λ p. send tp tc hashv pda now js p.0 p.1) (sym same)
  send-append (i ∷ is) js l s {l'} {s'} h =
      let (p, e, h1) = >>=-eq-ok (perform tp tc hashv pda now i l s) _ h in
      first_step (perform tp tc hashv pda now i l s) _ e
        (send-append is js p.0 p.1 {l' = l'} {s' = s'} h1)

  -- A transaction of one instruction.
  pub send_one :
      (i : Instruction) (is : List Instruction) (l : tp.Ledger) (s : Accounts)
      {r : tp.Ledger × Accounts}
      → is ≡ (i ∷ [])
      → send tp tc hashv pda now is l s ≡ ok r
      → perform tp tc hashv pda now i l s ≡ ok r
  send_one i is l s only h =
      let (p, e, h1) =
        >>=-eq-ok (perform tp tc hashv pda now i l s) _
          (ap (λ x. send tp tc hashv pda now x l s) (sym only) ∙ h) in
      e ∙ h1
