-- ===== src/Cli/VoterTool/Tests.antt =====
-- The commands of cli/locked-voter on the locker 70, where user 11 has locked 300 tokens.
use wagmi.Prelude.{
  ◌+◌, ◌≡◌, refl, arith, inl, inr, [], ◌∷◌, pos, ◌==◌, if◌then◌else◌, find, close, total,
  Bool-cases, ==→eq, subst,
}
use wagmi.Chain.{ok}
use wagmi.Chain.Bank.{bank, Book, moved}
use wagmi.Chain.Address.{Seeds, FindProgramAddress}
use wagmi.Chain.Pairing.{pairing, pairing-injective}
use wagmi.LockedVoter.{Locker, Escrow, default_escrow, default_locker}
use wagmi.LockedVoter.Program.{Vaults, Call, History, run}
use wagmi.LockedVoter.Backing.{IsBacked}
use wagmi.LockedVoter.Places.{IsPlaced, PlacedIn}
use wagmi.LockedVoter.Exit.{IsUnlocked}
use wagmi.Cli.VoterTool.Commands.{Command, View, Instruction}
use wagmi.Cli.VoterTool.Requests.{main, get_stakers}
use wagmi.Cli.VoterTool.Leaving.{EscrowsApart, withdraw-exits}
use wagmi.Cli.VoterTool.Stakers.{listed, leaving_of, get_stakers-supply}

abbrev addresses : FindProgramAddress
addresses (Seeds.locker base) = (70, 255)
addresses (Seeds.governor base) = (80, 255)
addresses (Seeds.escrow locker owner) = (1000 + pairing locker owner, 255)
addresses _ = (7, 255)

addresses-EscrowsApart : EscrowsApart addresses
addresses-EscrowsApart j k a b e = pairing-injective j a k b (omega (arith, e))

abbrev locker : Locker
locker = record default_locker {
  token_mint = 60;
  locked_supply = 300;
  total_escrow = 1;
  governor = 80;
}

abbrev escrow : Escrow
escrow = record default_escrow {
  locker = 70;
  owner = 11;
  tokens = 6981;
  amount = 200;
  escrow_started_at = pos 100;
  escrow_ends_at = pos 600;
}

abbrev book : Book
book k =
    if k == 6981
    then record { owner = 5981; mint = 60; amount = 300 }
    else record { owner = 11; mint = 60; amount = 100 }

abbrev view : View
view = record {
  vaults = record {
    lockers = (70, record locker { locked_supply = 200 }) ∷ [];
    escrows = (5981, escrow) ∷ [];
    unstakings = [];
  };
  votes = [];
}

view-IsBacked : IsBacked view.vaults
view-IsBacked = record {
  supply = λ lk. ground arith;
  partial = λ ek. ground arith;
  distinct = (refl, tt);
}

view-IsPlaced : IsPlaced bank addresses view.vaults
view-IsPlaced ek = elim (Bool-cases (5981 == ek)) [
  | inl here ↦
      subst (λ j. PlacedIn bank addresses view.vaults.lockers j (find j view.vaults.escrows))
        (==→eq 5981 ek here) (refl, refl)
  | inr other ↦ rw other tt
]

escrow-IsUnlocked : IsUnlocked (pos 600) escrow
escrow-IsUnlocked = record { over = omega arith; free = refl; whole = refl }

withdraw-exits_example :
    (c : Call) × (l : Book) × (u : Vaults) × (main bank addresses 11 view 12 (Command.withdraw 9)
      ≡ ok (Instruction.call c ∷ []))
    × (run bank addresses (pos 600) c book view.vaults ≡ ok (l, u))
    × (u.escrows ≡ close 5981 view.vaults.escrows)
withdraw-exits_example =
    withdraw-exits bank addresses addresses-EscrowsApart {s0 = view.vaults} {l = book} view
      (pos 600) 11 12 9 {k = record locker { locked_supply = 200 }} {e = escrow}
      {paid = moved book 6981 1011 200} History.start view-IsBacked view-IsPlaced refl refl
      escrow-IsUnlocked (refl, refl) (omega arith) (λ some_amount. refl)

get_stakers-supply_example :
    listed (get_stakers bank addresses 11 view 70) + total (leaving_of 70) view.vaults.escrows ≡ 200
get_stakers-supply_example =
    get_stakers-supply bank addresses 11 {s0 = view.vaults} {l = book} view 70
      {k = record locker { locked_supply = 200 }} History.start view-IsBacked refl
