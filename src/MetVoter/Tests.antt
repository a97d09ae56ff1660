-- ===== src/MetVoter/Tests.antt =====
-- An escrow of 300 tokens of a locker (programs/met-voter) whose token was launched at 50.
mod Casting
use wagmi.Prelude.{ℕ, ◌≡◌, refl, arith, some, [], ◌∷◌, pos, ◌==◌, if◌then◌else◌, find}
use wagmi.Chain.{Error, ok, err}
use wagmi.Chain.Bank.{bank, Book, moved, closed}
use wagmi.Chain.Address.{FindProgramAddress}
use wagmi.LockedVoter.Program as Locked
use wagmi.MetVoter.State.{Phase, Locker, Escrow, default_escrow, default_locker}
use wagmi.MetVoter.VoterPower.{get_current_phase}
use wagmi.MetVoter.Deposits.{Withdraw, withdraw}
use wagmi.MetVoter.Program.{Vaults, Call, History, run}
use wagmi.MetVoter.Refinement.{Shared, IsLaunched, LockedStep, run-refines}
use wagmi.MetVoter.Phases.{History-launched}
use wagmi.MetVoter.Custody.{withdraw-donated}

abbrev addresses : FindProgramAddress
addresses seeds = (7, 254)

abbrev locker : Locker
locker = record default_locker {
  token_mint = 60;
  locked_supply = 500;
  total_escrow = 1;
  expiration = pos 50;
  params = record {
    max_stake_vote_multiplier = 10;
    min_stake_duration = 10;
    max_stake_duration = 1000;
    proposal_activation_min_votes = 0;
  };
}

abbrev escrow : Escrow
escrow = record default_escrow {
  locker = 70;
  owner = 11;
  tokens = 1071;
  amount = 300;
  escrow_started_at = pos 100;
  escrow_ends_at = pos 600;
}

abbrev before : Vaults
before = record { lockers = (70, locker) ∷ []; escrows = (71, escrow) ∷ [] }

abbrev after : Vaults
after = record { lockers = (70, record locker { locked_supply = 200 }) ∷ []; escrows = [] }

-- The escrow's token account, and the others.
abbrev book : ℕ → Book
book amount k =
    if k == 1071
    then record { owner = 71; mint = 60; amount = amount }
    else record { owner = 11; mint = 60; amount = 100 }

abbrev paid : Book
paid = closed (moved (book 300) 1071 2000 300) 1071

abbrev leave : Withdraw
leave = record {
  locker = record { key = 70; info = locker };
  escrow = record { key = 71; info = escrow };
  escrow_owner = 11;
  escrow_tokens = 1071;
  destination_tokens = 2000;
}

withdraw-donated_example :
    (reason : Error) × (withdraw bank (pos 600) (book 301) leave ≡ err reason)
withdraw-donated_example =
    withdraw-donated bank (pos 600) (book 301) leave (omega arith) (omega arith)

leaving :
    run bank addresses (pos 600) (Call.withdraw 70 71 11 1071 2000) (book 300) before
    ≡ ok (paid, after)
unfolding run withdraw
leaving = refl

before-IsLaunched : IsLaunched (pos 600) before
before-IsLaunched lk k found = ground arith

run-refines_example :
    LockedStep bank addresses
      (pos 600)
      (Locked.Call.withdraw 70 71 11 1071 2000)
      (book 300)
      before
      paid
      after
run-refines_example =
    run-refines bank addresses (pos 600) (book 300) before (Shared.withdraw 70 71 11 1071 2000)
      before-IsLaunched leaving

left : History bank addresses (pos 100) (book 300) before (pos 600) paid after
left = History.call (pos 600) (Call.withdraw 70 71 11 1071 2000) History.start (omega arith) leaving

History-launched_example :
    (k : Locker) × (find 70 after.lockers ≡ some k)
    × (k.expiration ≡ pos 50)
    × (get_current_phase k (pos 600) ≡ Phase.token_launch_phase)
History-launched_example = History-launched bank addresses 70 {k = locker} left refl (omega arith)
