-- ===== src/Distributor/Roots.antt =====
-- The claims of a history of programs/merkle-distributor under the root of their distributor.
use wagmi.Prelude.{
  ◌≡◌, ◌∙◌, sym, ap, subst, arith, true, some, List, [], ◌∷◌, find, find-put, ◌==◌, ==→eq, ==_refl,
  Bool-cases, inl, inr,
}
use wagmi.Chain.{Pubkey, TokenProgram}
use wagmi.Chain.Address.{FindProgramAddress}
use wagmi.Chain.Hashing.{Hash, Hashv}
use wagmi.Distributor.State.{MerkleDistributor}
use wagmi.Distributor.MerkleProof.{leaf_hash, verify}
use wagmi.Distributor.Program.{Accounts, ClaimCall, History}
use wagmi.Distributor.Effects.{Effect, run-Effect}
use wagmi.Distributor.Accounting.{IsAccounted, History-IsAccounted, claimed_nodes, nodes_of}

-- Every claim of a distributor has a proof under a root.
abbrev pub AreProved : Hashv → Pubkey → Hash → List ClaimCall → Type 0
AreProved hashv dk root [] = Unit
AreProved hashv dk root (c ∷ log) =
    (c.distributor ≡ dk
      → verify hashv c.proof root (leaf_hash hashv c.index c.claimant c.amount) ≡ true)
    × AreProved hashv dk root log

module _ (hashv : Hashv) where
  unclaimed-AreProved :
      (dk : Pubkey) (root : Hash) (log : List ClaimCall)
      → claimed_nodes dk log ≡ 0
      → AreProved hashv dk root log
  unclaimed-AreProved dk root [] e = tt
  unclaimed-AreProved dk root (c ∷ log) e =
      (λ same. absurd (ground (arith, ==_refl dk)), unclaimed-AreProved dk root log (ground arith))

  Effect-AreProved :
      {pda : FindProgramAddress} {s u : Accounts} {log log' : List ClaimCall}
      → Effect hashv pda s u log log'
      → IsAccounted pda s log
      → ((k : Pubkey) (x : MerkleDistributor)
          → find k s.distributors ≡ some x
          → AreProved hashv k x.root log)
      → (dk : Pubkey) (d : MerkleDistributor) → find dk u.distributors ≡ some d
      → AreProved hashv dk d.root log'
  Effect-AreProved {s = s} {log = log} (Effect.created k new fresh zero eq same) a before dk d
        found =
      elim (Bool-cases (k == dk)) [
        | inl hit ↦ unclaimed-AreProved dk d.root log (
            sym (a.nodes dk)
            ∙ ap nodes_of (ap (λ i. find i s.distributors) (sym (==→eq k dk hit)) ∙ fresh))
        | inr miss ↦ before dk d (ground (arith, find-put k dk new s.distributors, ap (find dk) eq))
      ]
  Effect-AreProved {s = s} {log = log} (Effect.written k old new fk kept eq same) a before dk d
        found =
      elim (Bool-cases (k == dk)) [
        | inl hit ↦
            let d_is : d ≡ new =
              ground (arith, find-put k dk new s.distributors, ap (find dk) eq) in
            let root_is : old.root ≡ d.root = ground arith in
            let at = ap (λ i. find i s.distributors) (sym (==→eq k dk hit)) ∙ fk in
            subst (λ r. AreProved hashv dk r log) root_is (before dk old at)
        | inr miss ↦ before dk d (ground (arith, find-put k dk new s.distributors, ap (find dk) eq))
      ]
  Effect-AreProved {s = s} {log = log}
        (Effect.claimed c old new st fc free counts is (ok_proof, kept, _, _) eq same) a before dk d
        found =
      elim (Bool-cases (c.distributor == dk)) [
        | inl hit ↦
            let key = ==→eq c.distributor dk hit in
            let d_is : d ≡ new =
              ground (arith, find-put c.distributor dk new s.distributors, ap (find dk) eq) in
            let root_is : old.root ≡ d.root = ground arith in
            let at = ap (λ i. find i s.distributors) (sym key) ∙ fc in
            (
              λ mine.
                  subst
                    (λ r.
                      verify hashv c.proof r (leaf_hash hashv c.index c.claimant c.amount) ≡ true)
                    root_is ok_proof,
              subst (λ r. AreProved hashv dk r log) root_is (before dk old at),
            )
        | inr miss ↦ (
          λ mine. absurd (ground (arith, ==_refl dk)),
          before dk d
              (ground (arith, find-put c.distributor dk new s.distributors, ap (find dk) eq)),
        )
      ]

module _ (tp : TokenProgram) (hashv : Hashv) (pda : FindProgramAddress) where
  pub History-AreProved :
      {s u : Accounts} {log : List ClaimCall}
      → History tp hashv pda s u log
      → s.distributors ≡ []
      → (dk : Pubkey) (d : MerkleDistributor) → find dk u.distributors ≡ some d
      → AreProved hashv dk d.root log
  History-AreProved History.start empty dk d found = tt
  History-AreProved (History.call {t = t} {log = log} now c l l' h e) empty dk d found =
      Effect-AreProved hashv (run-Effect tp hashv pda now c l t log {l' = l'} e)
        (History-IsAccounted tp hashv pda h empty) (History-AreProved h empty) dk d found
  History-AreProved (History.voter now c l l' h e) empty dk d found =
      History-AreProved h empty dk d found
