-- ===== src/Cli/VoterTool/Stakers.antt =====
-- The list of `get_stakers` of cli/locked-voter against the supply of the locker.
use wagmi.Prelude.{
  ℕ, ◌+◌, ◌≡◌, arith, some, ◌==◌, if◌then◌else◌, List, [], ◌∷◌, Store, find, total, sym, ap, ◌∙◌,
}
use wagmi.Chain.{Pubkey, TokenProgram}
use wagmi.Chain.Address.{FindProgramAddress}
use wagmi.LockedVoter.{Locker, Escrow}
use wagmi.LockedVoter.Program.{Vaults, History}
use wagmi.LockedVoter.Backing.{IsBacked, held, supply_of}
use wagmi.LockedVoter.Supply.{History-IsBacked}
use wagmi.Cli.VoterTool.Commands.{View}
use wagmi.Cli.VoterTool.Requests.{stakers, get_stakers}

-- The sum of the amounts of the lines.
abbrev pub listed : List (Pubkey × Pubkey × ℕ) → ℕ
listed [] = 0
listed (line ∷ lines) = line.2 + listed lines

-- What is on its way out of the escrows of a locker.
abbrev pub leaving_of : Pubkey → Escrow → ℕ
leaving_of locker e = if e.locker == locker then e.partial_unstaking_amount else 0

stakers-total :
    (lk : Pubkey) (m : Store Escrow)
    → total (held lk) m ≡ listed (stakers lk m) + total (leaving_of lk) m
stakers-total lk [] = omega arith
stakers-total lk ((k, e) ∷ m) = ground (arith, stakers-total lk m)

-- After any history from accounts whose sums agree, the amounts that the command lists for a locker
-- that exists, and the parts that are on their way out of its escrows, add up to the locked supply.
pub get_stakers-supply :
    (tp : TokenProgram) (pda : FindProgramAddress) (payer : Pubkey) {l0 : tp.Ledger} {s0 : Vaults}
    {l : tp.Ledger} (v : View) (lk : Pubkey) {k : Locker}
    → History tp pda l0 s0 l v.vaults
    → IsBacked s0
    → find lk v.vaults.lockers ≡ some k
    → listed (get_stakers tp pda payer v lk) + total (leaving_of lk) v.vaults.escrows
      ≡ k.locked_supply
get_stakers-supply tp pda payer v lk h backed found =
    sym (stakers-total lk v.vaults.escrows)
    ∙ sym ((History-IsBacked tp pda h backed).supply lk)
    ∙ ap supply_of found
