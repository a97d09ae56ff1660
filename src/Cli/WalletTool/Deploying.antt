-- ===== src/Cli/WalletTool/Deploying.antt =====
-- A wallet that cli/smartwallet creates, and its command `verify`.
use wagmi.Prelude.{
  ℕ, ◌+◌, ◌≤◌, ◌<◌, ◌≡◌, ◌∙◌, refl, arith, ℤ, pos, leb_ℤ, ltb_ℤ, true, none, some, List, [], ◌∷◌,
  ◌++◌, length, length-append, find, put, find-put, ==_refl,
}
use wagmi.Chain.{Pubkey, ok, first_step, init-of_none}
use wagmi.Chain.Address.{Seeds, FindProgramAddress}
use wagmi.SmartWallet.{SmartWallet, max_delay_seconds, default_grace_period}
use wagmi.SmartWallet as Owners
use wagmi.SmartWallet.Program.{Wallets, Call, process}
use wagmi.Cli.Client.{ProgramIds, InstructionData, fetch-of_find, same_keys_refl}
use wagmi.Cli.WalletTool.Commands.{Command, View, Instruction}
use wagmi.Cli.WalletTool.Requests.{main, smart_wallet_of, governor_of, create_smart_wallet, verify}

-- The wallet that is made.
abbrev created : FindProgramAddress → Pubkey → ℕ → ℕ → ℤ → List Pubkey → SmartWallet
created pda base max_owners threshold delay owners = record {
  base = base;
  bump = (pda (Seeds.smart_wallet base)).1;
  threshold = threshold;
  minimum_delay = delay;
  grace_period = default_grace_period;
  max_owners = max_owners;
  owner_set_seqno = 0;
  num_transactions = 0;
  owners = owners ++ governor_of pda base ∷ [];
}

abbrev creation : FindProgramAddress → Pubkey → ℕ → ℕ → ℤ → List Pubkey → Call
creation pda base max_owners threshold delay owners =
    Call.create_smart_wallet base (smart_wallet_of pda base) max_owners
      (owners ++ governor_of pda base ∷ []) threshold delay

create_smart_wallet-created :
    (pda : FindProgramAddress) (base : Pubkey) (max_owners threshold : ℕ) (delay : ℤ)
    (owners : List Pubkey)
    → length owners + 1 ≤ max_owners
    → leb_ℤ (pos 0) delay ≡ true
    → ltb_ℤ delay max_delay_seconds ≡ true
    → Owners.create_smart_wallet pda base
        (smart_wallet_of pda base)
        max_owners
        (owners ++ governor_of pda base ∷ [])
        threshold
        delay
      ≡ ok (created pda base max_owners threshold delay owners)
unfolding Owners.create_smart_wallet
create_smart_wallet-created pda base max_owners threshold delay owners room positive short =
    ground
      (arith, ==_refl (smart_wallet_of pda base), length-append owners (governor_of pda base ∷ []))

process-creation :
    (pda : FindProgramAddress) (now : ℤ) (base : Pubkey) (max_owners threshold : ℕ) (delay : ℤ)
    (owners : List Pubkey) (s : Wallets)
    → length owners + 1 ≤ max_owners
    → leb_ℤ (pos 0) delay ≡ true
    → ltb_ℤ delay max_delay_seconds ≡ true
    → find (smart_wallet_of pda base) s.wallets ≡ none
    → process pda now (creation pda base max_owners threshold delay owners) s
      ≡ ok (record s {
        wallets =
            put
              (smart_wallet_of pda base)
              (created pda base max_owners threshold delay owners)
              s.wallets;
      })
unfolding process
process-creation pda now base max_owners threshold delay owners s room positive short fresh =
    first_step _ _ (init-of_none _ s.wallets fresh) (
      first_step _ _
        (create_smart_wallet-created pda base max_owners threshold delay owners room positive short)
        refl)

verify-created :
    (pda : FindProgramAddress) (ids : ProgramIds) (code : InstructionData) (payer : Pubkey)
    (v : View) (base : Pubkey) (max_owners threshold : ℕ) (delay : ℤ) (owners : List Pubkey)
    → find (smart_wallet_of pda base) v.wallets.wallets
      ≡ some (created pda base max_owners threshold delay owners)
    → verify pda ids code payer v base max_owners threshold delay owners ≡ ok tt
unfolding verify
verify-created pda ids code payer v base max_owners threshold delay owners found =
    first_step _ _ (fetch-of_find _ v.wallets.wallets found) (
      ground (
        arith,
        ==_refl max_owners,
        ==_refl threshold,
        length-append owners (governor_of pda base ∷ []),
        same_keys_refl (owners ++ governor_of pda base ∷ []),
      ))

-- With room for the owners and the governor, at most 255 owners, a delay that is not negative and is
-- below the highest, and no wallet at the address yet: the command to create a wallet sends one
-- instruction, this instruction succeeds, and then the command `verify` with
-- the same arguments and any base keypair accepts the wallet.
pub create_smart_wallet-verifies :
    (pda : FindProgramAddress) (ids : ProgramIds) (code : InstructionData) (payer : Pubkey)
    (v : View) (base keypair : Pubkey) (now : ℤ) (max_owners threshold : ℕ) (delay : ℤ)
    (owners : List Pubkey)
    → length owners + 1 ≤ max_owners
    → max_owners < 256
    → leb_ℤ (pos 0) delay ≡ true
    → ltb_ℤ delay max_delay_seconds ≡ true
    → find (smart_wallet_of pda base) v.wallets.wallets ≡ none
    → (c : Call) × (s : Wallets) × (main pda ids code payer v base
          (Command.create_smart_wallet max_owners threshold delay owners)
        ≡ ok (Instruction.call c ∷ []))
      × (process pda now c v.wallets ≡ ok s)
      × (main pda ids code payer
            (record v { wallets = s })
            keypair
            (Command.verify base max_owners threshold delay owners)
          ≡ ok [])
unfolding main create_smart_wallet
create_smart_wallet-verifies pda ids code payer v base keypair now max_owners threshold delay owners
      room small positive short fresh =
    let k = smart_wallet_of pda base in
    let w = created pda base max_owners threshold delay owners in
    let s : Wallets = record (v.wallets) { wallets = put k w v.wallets.wallets } in
    (
      creation pda base max_owners threshold delay owners,
      s,
      ground (arith, length-append owners (governor_of pda base ∷ [])),
      process-creation pda now base max_owners threshold delay owners v.wallets room positive short
          fresh,
      first_step _ _
          (verify-created pda ids code payer (record v { wallets = s }) base max_owners threshold
            delay owners (find-put k k w v.wallets.wallets ∙ ground (arith, ==_refl k)))
          refl,
    )
