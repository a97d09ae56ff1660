-- ===== src/SmartWallet/Tests.antt =====
-- A wallet with three owners, a threshold of two and a minimum delay of a hundred seconds
-- (programs/smart-wallet): its transactions at work.
mod Proposing
use wagmi.Prelude.{
  ℕ, ◌+◌, ◌<◌, ◌≤◌, ◌≡◌, ◌≢◌, refl, arith, Bool, true, false, Option, none, some, List, [], ◌∷◌, ℤ,
  pos, negsuc, ◌+ℤ◌, ◌≤ℤ◌, length, get_elem?, set, if◌then◌else◌, inl, find, put,
}
use wagmi.Chain.{Account, ok, err, smart_wallet, owner_set_changed, already_executed}
use wagmi.Chain.Pairing.{pairing}
use wagmi.Chain.Address.{Seeds, FindProgramAddress}
use wagmi.SmartWallet.{
  SmartWallet, Transaction, CreateTransaction, Approve, Auth, burn, num_signers, position,
  set_owners, set_approval, create_transaction_with_timelock, validate_execute_transaction,
}
use wagmi.SmartWallet.Program.{Wallets, Run, Call, process}
use wagmi.SmartWallet.Invariant.{Fits}
use wagmi.SmartWallet.Effects.{GrowsAt}
use wagmi.SmartWallet.Consistency.{IsConsistent}
use wagmi.SmartWallet.History.{Run-AllGrow, Run-IsConsistent}
use wagmi.SmartWallet.Rules.{
  set_approval-num_signers, set_owners-retires, execute_once, Run-timelock,
}

abbrev pub addresses : FindProgramAddress
addresses (Seeds.transaction wallet index) = (1000 + pairing wallet index, 255)
addresses _ = (7, 254)

abbrev pub wallet : SmartWallet
wallet = record {
  base = 1;
  bump = 254;
  threshold = 2;
  minimum_delay = pos 100;
  grace_period = pos 1000;
  max_owners = 5;
  owner_set_seqno = 0;
  num_transactions = 0;
  owners = 10 ∷ 20 ∷ 30 ∷ [];
}

abbrev pub proposed : Transaction
proposed = record {
  smart_wallet = 7;
  index = 0;
  bump = 255;
  proposer = 20;
  instructions = [];
  signers = false ∷ true ∷ false ∷ [];
  owner_set_seqno = 0;
  eta = pos 600;
  executor = 0;
  executed_at = negsuc 0;
  created_at = pos 500;
}

abbrev counted : SmartWallet
counted = record wallet { num_transactions = 1 }

abbrev pub approved : Transaction
approved = record proposed { signers = true ∷ true ∷ false ∷ [] }

abbrev pub execution : Approve
execution = record {
  wallet = record { key = 7; info = counted };
  transaction = record { key = 1056; info = approved };
  owner = 30;
}

pub execution-ok : validate_execute_transaction (pos 650) execution ≡ ok tt
unfolding validate_execute_transaction ◌+ℤ◌
execution-ok = refl

abbrev next : Approve
next = record execution {
  transaction = record { key = 1056; info = burn (pos 650) execution };
  owner = 30;
}

abbrev signed_again : Transaction
signed_again = record (burn (pos 650) execution) { signers = true ∷ true ∷ true ∷ [] }

signed_again-ok : set_approval true next ≡ ok signed_again
unfolding set_approval wagmi.SmartWallet.write_signer
signed_again-ok = refl

execute_once_example :
    validate_execute_transaction
      (pos 700)
      (record next { transaction = record { key = 1056; info = signed_again }; owner = 10 })
    ≡ err (smart_wallet already_executed)
execute_once_example =
    execute_once (pos 650) (pos 700) true execution next 10 {tx = signed_again} (omega arith)
      execution-ok refl refl signed_again-ok

abbrev change : Auth
change = record { wallet = record { key = 7; info = counted }; is_signer = true }

abbrev reduced : SmartWallet
reduced = record counted { owners = 10 ∷ 40 ∷ []; threshold = 1; owner_set_seqno = 1 }

change-ok : set_owners change (10 ∷ 40 ∷ []) ≡ ok reduced
unfolding set_owners
change-ok = refl

proposed-Fits : Fits counted proposed
unfolding ◌+ℤ◌
proposed-Fits = record {
  seqno_past = omega arith;
  signers_sized = λ e. refl;
  index_past = omega arith;
  delayed = λ e. omega arith;
  on_time = inl refl;
}

set_owners-retires_example :
    let ctx : Approve = record {
      wallet = record { key = 7; info = reduced };
      transaction = record { key = 1056; info = proposed };
      owner = 10;
    } in
    (set_approval true ctx ≡ err (smart_wallet owner_set_changed))
    × (validate_execute_transaction (pos 650) ctx ≡ err (smart_wallet owner_set_changed))
set_owners-retires_example =
    set_owners-retires change (10 ∷ 40 ∷ []) (record { key = 1056; info = proposed }) 10 true
      (pos 650) {w' = reduced} change-ok refl proposed-Fits

-- A history: propose, approve, execute.
abbrev pub at_start : Wallets
at_start = record { wallets = (7, wallet) ∷ []; transactions = [] }

abbrev pub after_proposal : Wallets
after_proposal = record { wallets = (7, counted) ∷ []; transactions = (1056, proposed) ∷ [] }

abbrev pub after_approval : Wallets
after_approval = record { wallets = (7, counted) ∷ []; transactions = (1056, approved) ∷ [] }

abbrev at_end : Wallets
at_end = record {
  wallets = (7, counted) ∷ [];
  transactions = (1056, burn (pos 650) execution) ∷ [];
}

pub at_start-IsConsistent : IsConsistent at_start
at_start-IsConsistent = record { fits = λ x. tt; distinct = tt }

proposing : Run addresses at_start after_proposal
unfolding process create_transaction_with_timelock ◌+ℤ◌ wagmi.Prelude.◌-ℤ◌
    wagmi.SmartWallet.write_signer
proposing =
    Run.call (pos 500) (Call.create_transaction_with_timelock 7 1056 20 [] (pos 600)) Run.start refl

approving : Run addresses at_start after_approval
unfolding process set_approval wagmi.SmartWallet.write_signer
approving = Run.call (pos 550) (Call.approve 7 1056 10) proposing refl

history : Run addresses at_start at_end
history = Run.execute (pos 650) 7 1056 30 execution approving refl execution-ok Run.start

Run-IsConsistent_example : IsConsistent at_end
Run-IsConsistent_example = Run-IsConsistent history at_start-IsConsistent

Run-timelock_example : pos 500 +ℤ pos 100 ≤ℤ pos 650
Run-timelock_example =
    Run-timelock {u = at_end} 1056 {tx = burn (pos 650) execution} {w = counted} history
      at_start-IsConsistent refl refl (λ e. ground arith) (λ e. ground arith)

Run-AllGrow_example : GrowsAt (some wallet) (some counted)
Run-AllGrow_example = Run-AllGrow history 7
