-- ===== src/LockedVoter/Tests/Supply.antt =====
-- A history of programs/locked-voter: a part of an escrow is opened and paid out.
use wagmi.Prelude.{◌≡◌, close, refl, arith, [], ◌∷◌, pos, ◌==◌, if◌then◌else◌}
use wagmi.Chain.Bank.{bank, Book, moved}
use wagmi.Chain.Address.{FindProgramAddress}
use wagmi.LockedVoter.State.{Locker, Escrow, PartialUnstaking, default_escrow, default_locker}
use wagmi.LockedVoter.Program.{Vaults, Call, History, run}
use wagmi.LockedVoter.Backing.{IsBacked}
use wagmi.LockedVoter.Supply.{History-IsBacked}

abbrev addresses : FindProgramAddress
addresses seeds = (7, 254)

abbrev locker : Locker
locker = record default_locker {
  token_mint = 60;
  locked_supply = 300;
  total_escrow = 1;
  params = record {
    max_stake_vote_multiplier = 10;
    min_stake_duration = 10;
    max_stake_duration = 1000;
    proposal_activation_min_votes = 0;
  };
}

abbrev escrow : Escrow
escrow = record default_escrow {
  locker = 70;
  owner = 11;
  tokens = 1071;
  amount = 300;
  escrow_started_at = pos 100;
  escrow_ends_at = pos 600;
}

abbrev part : PartialUnstaking
part = record { escrow = 71; amount = 100; expiration = pos 600; memo = 0 }

abbrev before : Vaults
before = record { lockers = (70, locker) ∷ []; escrows = (71, escrow) ∷ []; unstakings = [] }

abbrev divided : Vaults
divided = record {
  lockers = (70, locker) ∷ [];
  escrows = (71, record escrow { amount = 200; partial_unstaking_amount = 100 }) ∷ [];
  unstakings = (90, part) ∷ [];
}

abbrev after : Vaults
after = record {
  lockers = (70, record locker { locked_supply = 200 }) ∷ [];
  escrows = (71, record escrow { amount = 200 }) ∷ [];
  unstakings = [];
}

abbrev book : Book
book k =
    if k == 1071
    then record { owner = 71; mint = 60; amount = 300 }
    else record { owner = 11; mint = 60; amount = 100 }

before-IsBacked : IsBacked before
before-IsBacked = record {
  supply = λ lk. ground arith;
  partial = λ ek. ground arith;
  distinct = (refl, tt);
}

opening : History bank addresses book before book divided
unfolding run wagmi.LockedVoter.open_partial_unstaking
    wagmi.LockedVoter.get_remaining_duration_until_expiration
    wagmi.LockedVoter.accumulate_partial_unstaking_amount wagmi.Prelude.◌+ℤ◌ wagmi.Prelude.◌-ℤ◌
opening = History.call (pos 400) (Call.open_partial_unstaking 70 71 90 11 100 0) History.start refl

paying : History bank addresses book before (moved book 1071 2000 100) after
unfolding run wagmi.LockedVoter.Unstaking.withdraw_partial_unstaking
    wagmi.LockedVoter.State.withdraw_partial_unstaking_amount
paying = History.call (pos 600) (Call.withdraw_partial_unstaking 70 71 90 11 1071 2000) opening refl

History-IsBacked_example : IsBacked after
History-IsBacked_example = History-IsBacked bank addresses paying before-IsBacked
