-- ===== src/Stellar/Pool/Deposits.antt =====
-- A deposit mints, approves and deposits, in that order and of one amount; and what a user with a
-- Privy wallet cannot do.
use mathlib.Core.Path.{subst}
use cred_bridge.Prelude.{
  ℕ, ◌+◌, [], ◌∷◌, String, ◌≡◌, ◌⊎◌, inl, inr, refl, Option, none, some, Option-cases, or_else,
  truthy,
}
use cred_bridge.Result.{ok}
use cred_bridge.Result.Rules.{
  Ensures, Ensures-pure, Ensures-bind, Ensures-lift, Ensures-or_throw, Ensures-if_present,
  Ensures-weaken, Ensures-returned, Refuses, Ensures-Refuses,
}
use cred_bridge.Schema.{User}
use cred_bridge.Pix.Signature.{Integer}
use cred_bridge.Env.{Env, DatabaseLaws}
use cred_bridge.Stellar.Sdk.{address, i128, u32, Sdk, ledgers}
use cred_bridge.Stellar.Net.{Net, setting, ContractConfig, configured}
use cred_bridge.Stellar.Net.Rules.{Ensures-ask}
use cred_bridge.Stellar.Submit.Polling.{IsMonotone}
use cred_bridge.Stellar.Submit.Invocation.{Invoked, invocation, invoke_contract-Ensures}
use cred_bridge.Stellar.Wallets.{Wallet}
use cred_bridge.Stellar.Wallets.Custody.{IsUser, Held, ensure_custodial_wallet_for_user-Ensures}
use cred_bridge.Stellar.Contracts.{charge_investor}
use cred_bridge.Stellar.Contracts.Charges.{no_row, privy_wallet-Ensures, charge_investor-refused}
use cred_bridge.Stellar.Pool.{
  pool_config, live_until, deposit_steps, deposit_to_pool, withdraw_steps, withdraw_from_pool,
}

both_there :
    {A B : Type 0} (o : Option A) (o' : Option B) (a : A) (b : B)
    → o ≡ some a
    → o' ≡ some b
    → (elim o as (λ _. Option (A × B)) [
      | none ↦ none
      | some x ↦ elim o' as (λ _. Option (A × B)) [ none ↦ none | some y ↦ some (x, y) ]
    ])
      ≡ some (a, b)
both_there none o' a b h k = cc
both_there (some x) none a b h k = cc
both_there (some x) (some y) a b h k = cc

module _ (e : Env) (sdk : Sdk e) where
  -- The pool's contract or the platform's credentials are not set.
  abbrev pub HasNoPool : Type 0
  HasNoPool = (setting e "STELLAR_POOL_CONTRACT_ID" ≡ none) ⊎ (configured e sdk ≡ none)

  abbrev pub HasPool : String → ContractConfig sdk → Type 0
  HasPool pool c = (setting e "STELLAR_POOL_CONTRACT_ID" ≡ some pool) × (configured e sdk ≡ some c)

  HasPool-pool_config :
      (pool : String) (c : ContractConfig sdk) → HasPool pool c → pool_config e sdk ≡ some (pool, c)
  HasPool-pool_config pool c (is, has) = both_there _ _ pool c is has

  pool_or_not : HasNoPool ⊎ ((pool : String) × (c : ContractConfig sdk) × HasPool pool c)
  pool_or_not = elim (Option-cases (setting e "STELLAR_POOL_CONTRACT_ID")) [
    | inl unset ↦ inl (inl unset)
    | inr (pool, set) ↦ elim (Option-cases (configured e sdk)) [
      | inl unset ↦ inl (inr unset)
      | inr (c, has) ↦ inr (pool, c, (set, has))
    ]
  ]

  -- The mint to the investor, signed by the platform, the approval of the pool and the deposit, both
  -- signed by the investor, each confirmed before the next is begun, and all of one amount.
  abbrev pub Deposited :
      String → String → ContractConfig sdk → String → e.Number → Net e → String → Net e → Type 0
  Deposited pool brlt c id amount_brl n hash s =
      (user : User e.Number) × IsUser e sdk id user n.world
      × (wallet : Wallet sdk) × (key : sdk.Keypair) × (wallet.keypair ≡ some key)
      × (amount : Integer) × (sdk.big_round (e.mul amount_brl (e.of_nat 10000000)) ≡ ok amount)
      × (held : Net e) × Held e sdk user wallet n.world held.world
      × (minted : Net e) × (mint : String) × Invoked e sdk c.platform_keypair
          (invocation e sdk c.platform_keypair brlt "mint" (
            address (sdk.public_key c.platform_keypair)
            ∷ address wallet.public_key
            ∷ i128 amount
            ∷ []))
          held mint minted
      × (latest : Option ℕ) × (sdk.latest_ledger minted.requests ≡ ok latest)
      × (listed : Net e) × (listed ≡ record minted { requests = ledgers ∷ minted.requests })
      × (approved : Net e) × (approval : String) × Invoked e sdk key
          (invocation e sdk key brlt "approve" (
            address wallet.public_key
            ∷ address pool
            ∷ i128 amount
            ∷ u32 (or_else latest 3000000 + 100000)
            ∷ []))
          listed approval approved
      × Invoked e sdk key
          (invocation e sdk key pool "deposit" (address wallet.public_key ∷ i128 amount ∷ []))
          approved hash s

  live_until-Ensures :
      (n : Net e)
      → Ensures
          (live_until e sdk)
          n
          (λ ledger s.
            (latest : Option ℕ) × (sdk.latest_ledger n.requests ≡ ok latest)
            × (ledger ≡ or_else latest 3000000 + 100000)
            × (s ≡ record n { requests = ledgers ∷ n.requests }))
          (λ _ _. Unit {0})
  unfolding live_until
  live_until-Ensures n =
      Ensures-bind _ _ _
        (Ensures-ask e _ _ _ (λ latest is. Ensures-pure _ _ (latest, is, refl, refl)) (λ _ _. tt))

  module _ (laws : DatabaseLaws e) where
    deposit_steps-Deposited :
        (pool brlt : String) (c : ContractConfig sdk) (id : String) (amount_brl : e.Number)
        (n : Net e)
        → IsMonotone e
        → Ensures
            (deposit_steps e sdk pool brlt c id amount_brl)
            n
            (Deposited pool brlt c id amount_brl n)
            (λ _ _. Unit {0})
    unfolding deposit_steps
    deposit_steps-Deposited pool brlt c id amount_brl n mono = Ensures-bind _ _ _ (
        Ensures-weaken _ _ (ensure_custodial_wallet_for_user-Ensures e sdk laws id n)
          (λ wallet held (user, found, _, has). Ensures-bind _ _ _ (
            Ensures-or_throw _ _ _
              (λ key owns. Ensures-bind _ _ _ (
                Ensures-lift _ _
                  (λ amount is. Ensures-bind _ _ _ (
                    Ensures-weaken _ _ (invoke_contract-Ensures e sdk _ _ _ _ _ mono)
                      (λ mint minted did_mint. Ensures-bind _ _ _ (
                        Ensures-weaken _ _ (live_until-Ensures _)
                          (λ ledger listed (latest, read, until, did_list). Ensures-bind _ _ _ (
                            Ensures-weaken _ _ (invoke_contract-Ensures e sdk _ _ _ _ _ mono)
                              (λ approval approved did_approve.
                                Ensures-weaken _ _ (invoke_contract-Ensures e sdk _ _ _ _ _ mono)
                                  (λ hash s did_deposit. (
                                    user,
                                    found,
                                    wallet,
                                    key,
                                    owns,
                                    amount,
                                    is,
                                    held,
                                    has,
                                    minted,
                                    mint,
                                    did_mint,
                                    latest,
                                    read,
                                    listed,
                                    did_list,
                                    approved,
                                    approval,
                                    subst
                                        (λ l.
                                          Invoked e sdk key
                                            (invocation e sdk key brlt "approve" (
                                              address wallet.public_key
                                              ∷ address pool
                                              ∷ i128 amount
                                              ∷ u32 l
                                              ∷ []))
                                            listed approval approved)
                                        until did_approve,
                                    did_deposit,
                                  ))
                                  (λ _ _ _. tt))
                              (λ _ _ _. tt)))
                          (λ _ _ _. tt)))
                      (λ _ _ _. tt)))
                  (λ _ _. tt)))
              (λ _. tt)))
          (λ _ _ _. tt))

    -- A deposit that returns a hash, with the pool, the credentials and BRLT configured, under the laws
    -- of the database client and on a clock that does not run backwards: the amount, in units of 1e-7,
    -- was minted for the investor's wallet by the platform, then the pool was approved for it by the
    -- investor, up to a hundred thousand ledgers on, then it was deposited by the investor under that
    -- hash, each call confirmed before the next.
    pub deposit_to_pool-Deposited :
        (pool brlt : String) (c : ContractConfig sdk) (id : String) (amount_brl : e.Number)
        (n s : Net e) (hash : String)
        → IsMonotone e
        → HasPool pool c
        → setting e "STELLAR_BRLT_TOKEN_ID" ≡ some brlt
        → deposit_to_pool e sdk id amount_brl n ≡ (ok hash, s)
        → Deposited pool brlt c id amount_brl n hash s
    unfolding deposit_to_pool
    deposit_to_pool-Deposited pool brlt c id amount_brl n s hash mono is has ran =
        Ensures-returned _ _ _ _
          (Ensures-if_present (pool, c) _ _ _ _ (HasPool-pool_config pool c is)
            (Ensures-if_present brlt _ _ _ _ has
              (deposit_steps-Deposited pool brlt c id amount_brl n mono)))
          ran

  withdraw_steps-refused :
      (pool id : String) (amount : e.Number) (linked : String) (user : User e.Number) (n : Net e)
      → IsUser e sdk id user n.world
      → truthy user.privy_stellar_wallet_address ≡ some linked
      → Ensures (withdraw_steps e sdk pool id amount) n (λ _ _. ⊥) (λ _ s. s ≡ n)
  unfolding withdraw_steps
  withdraw_steps-refused pool id amount linked user n found privy = Ensures-bind _ _ _ (
      Ensures-weaken _ _ (privy_wallet-Ensures e sdk id linked user n found privy)
        (λ wallet s (keyless, same).
          Ensures-bind _ _ _
            (Ensures-or_throw _ _ _ (λ key has. absurd (no_row e sdk key keyless has)) (λ _. same)))
        (λ _ _ same. same))

  deposit_steps-refused :
      (pool brlt : String) (c : ContractConfig sdk) (id : String) (amount : e.Number)
      (linked : String) (user : User e.Number) (n : Net e)
      → IsUser e sdk id user n.world
      → truthy user.privy_stellar_wallet_address ≡ some linked
      → Ensures (deposit_steps e sdk pool brlt c id amount) n (λ _ _. ⊥) (λ _ s. s ≡ n)
  unfolding deposit_steps
  deposit_steps-refused pool brlt c id amount linked user n found privy = Ensures-bind _ _ _ (
      Ensures-weaken _ _ (privy_wallet-Ensures e sdk id linked user n found privy)
        (λ wallet s (keyless, same).
          Ensures-bind _ _ _
            (Ensures-or_throw _ _ _ (λ key has. absurd (no_row e sdk key keyless has)) (λ _. same)))
        (λ _ _ same. same))

  withdraw_from_pool-refused :
      (id : String) (amount : e.Number) (linked : String) (user : User e.Number) (n : Net e)
      → IsUser e sdk id user n.world
      → truthy user.privy_stellar_wallet_address ≡ some linked
      → HasNoPool ⊎ Refuses (withdraw_from_pool e sdk id amount) n
  unfolding withdraw_from_pool
  withdraw_from_pool-refused id amount linked user n found privy = elim pool_or_not [
    | inl unset ↦ inl unset
    | inr (pool, c, set) ↦ inr (
        Ensures-Refuses _ _ (
          Ensures-if_present (pool, c) _ _ _ _ (HasPool-pool_config pool c set)
            (withdraw_steps-refused pool id amount linked user n found privy)))
  ]

  deposit_to_pool-refused :
      (id : String) (amount : e.Number) (linked : String) (user : User e.Number) (n : Net e)
      → IsUser e sdk id user n.world
      → truthy user.privy_stellar_wallet_address ≡ some linked
      → (HasNoPool ⊎ (setting e "STELLAR_BRLT_TOKEN_ID" ≡ none))
        ⊎ Refuses (deposit_to_pool e sdk id amount) n
  unfolding deposit_to_pool
  deposit_to_pool-refused id amount linked user n found privy = elim pool_or_not [
    | inl unset ↦ inl (inl unset)
    | inr (pool, c, set) ↦ elim (Option-cases (setting e "STELLAR_BRLT_TOKEN_ID")) [
      | inl unset ↦ inl (inr unset)
      | inr (brlt, has) ↦ inr (
          Ensures-Refuses _ _ (
            Ensures-if_present (pool, c) _ _ _ _ (HasPool-pool_config pool c set)
              (Ensures-if_present brlt _ _ _ _ has
                (deposit_steps-refused pool brlt c id amount linked user n found privy))))
    ]
  ]

  -- For a user with a Privy linked the service signs nothing, whatever is configured: a charge
  -- throws; a withdrawal from the pool throws, or the pool or the credentials are not set; and a
  -- deposit into it throws, or one of these or BRLT is not set. Where they throw, they have made no
  -- request and written to no table.
  pub privy_user-Refuses :
      (id : String) (amount : e.Number) (memo linked : String) (user : User e.Number) (n : Net e)
      → IsUser e sdk id user n.world
      → truthy user.privy_stellar_wallet_address ≡ some linked
      → Refuses (charge_investor e sdk id amount memo) n
        × (HasNoPool ⊎ Refuses (withdraw_from_pool e sdk id amount) n)
        × ((HasNoPool ⊎ (setting e "STELLAR_BRLT_TOKEN_ID" ≡ none))
            ⊎ Refuses (deposit_to_pool e sdk id amount) n)
  privy_user-Refuses id amount memo linked user n found privy = (
    Ensures-Refuses _ _ (charge_investor-refused e sdk id amount memo linked user n found privy),
    withdraw_from_pool-refused id amount linked user n found privy,
    deposit_to_pool-refused id amount linked user n found privy,
  )
