-- ===== src/Stellar/Contracts/Charges.antt =====
-- A charge of an investor pays the platform from the investor's own custodial wallet, or not at all.
use mathlib.Core.Path.{subst}
use cred_bridge.Prelude.{String, ◌≡◌, refl, sym, ap, ◌∙◌, inl, inr, Option, none, some, List, ◌∷◌}
use cred_bridge.Result.{ok}
use cred_bridge.Result.Rules.{
  Ensures, Ensures-bind, Ensures-or_throw, Ensures-throw, Ensures-try_catch, Ensures-weaken,
  Ensures-throw_if, Ensures-if_some, Ensures-pure, Ensures-returned,
}
use cred_bridge.Schema.{User}
use cred_bridge.Env.{Env, DatabaseLaws}
use cred_bridge.Env.Lookup.{some_eq}
use cred_bridge.World.{World, users}
use cred_bridge.World.Rules.{Ensures-find_unique}
use cred_bridge.Stellar.Bytes.{slice_to}
use cred_bridge.Stellar.Sdk.{
  Operation, payment, Tx, signed, Request, load_account, submit_transaction, Sdk,
}
use cred_bridge.Stellar.Net.{Net, ContractConfig, configured, require_contract_config}
use cred_bridge.Stellar.Net.Rules.{Ensures-ask, Ensures-on_world}
use cred_bridge.Stellar.Submit.{build, sign, tx_timeout_seconds, submit_with_detail}
use cred_bridge.Stellar.Wallets.{
  Wallet, tesouro, submit_operation, ensure_custodial_wallet_for_user,
}
use cred_bridge.Stellar.Wallets.Custody.{
  IsUser, Held, Derived, ensure_custodial_wallet_for_user-Ensures,
}
use cred_bridge.Stellar.Contracts.{charge_investor}
use cred_bridge.Prelude.{truthy}

module _ (e : Env) (sdk : Sdk e) where
  -- The last request is the transaction, signed by its source; Horizon answered with the hash.
  abbrev pub Submitted : Tx → String → Net e → Type 0
  Submitted tx hash s =
      (before : List Request) × (s.requests
        ≡ submit_transaction (signed (sign tx.source tx)) ∷ load_account tx.source ∷ before)
      × (sdk.submitted (load_account tx.source ∷ before) (signed (sign tx.source tx)) ≡ ok hash)

  submit_with_detail-Ensures :
      (tx : Tx) (label : String) (n : Net e) {Q : String → Net e → Type 0}
      → ((hash : String)
          → sdk.submitted n.requests (signed tx) ≡ ok hash
          → Q hash (record n { requests = submit_transaction (signed tx) ∷ n.requests }))
      → Ensures (submit_with_detail e sdk tx label) n Q (λ _ s. s.world ≡ n.world)
  unfolding submit_with_detail
  submit_with_detail-Ensures tx label n q =
      Ensures-try_catch _ _ _ (Ensures-ask e _ _ _ q (λ _ _. Ensures-throw _ _ refl))

  submit_operation-Ensures :
      (signer : sdk.Keypair) (operation : Operation) (memo : Option String) (label : String)
      (n : Net e)
      → Ensures
          (submit_operation e sdk signer operation memo label)
          n
          (λ hash s.
            Submitted (build (sdk.public_key signer) operation memo tx_timeout_seconds) hash s
            × (s.world ≡ n.world))
          (λ _ s. s.world ≡ n.world)
  unfolding submit_operation
  submit_operation-Ensures signer operation memo label n = Ensures-bind _ _ _ (
      Ensures-ask e _ _ _
        (λ _ _. submit_with_detail-Ensures _ _ _ (λ hash is. ((_, refl, is), refl))) (λ _ _. refl))

  -- What a charge that returned has done: the investor has no Privy wallet, and the payment from
  -- the wallet derived for them to the platform's was signed by that wallet's key and accepted.
  abbrev pub Charged : String → e.Number → String → Net e → String → Net e → Type 0
  Charged id amount memo n hash s =
      (c : ContractConfig sdk) × (configured e sdk ≡ some c)
      × (user : User e.Number) × IsUser e sdk id user n.world
      × (truthy user.privy_stellar_wallet_address ≡ none)
      × (wallet : Wallet sdk) × Derived e sdk user wallet n.world s.world
      × Submitted
          (build wallet.public_key
            (payment (sdk.public_key c.platform_keypair) tesouro (e.to_fixed amount 7))
            (some (slice_to 28 memo)) tx_timeout_seconds)
          hash s

  no_key : {A : Type 0} {o : Option A} (a : A) → o ≡ none → o ≡ some a → ⊥
  no_key a h k = cc

  -- The key that a derived wallet comes with is the one of its address.
  key_of :
      (user : User e.Number) (wallet : Wallet sdk) (key : sdk.Keypair) (w v : World e)
      → wallet.keypair ≡ some key
      → Derived e sdk user wallet w v
      → sdk.public_key key ≡ wallet.public_key
  key_of user wallet key w v has (derived, address, _, _) =
      ap sdk.public_key (some_eq _ _ (sym has ∙ derived)) ∙ sym address

  payment-Charged :
      (id : String) (amount : e.Number) (memo : String) (n s : Net e) (c : ContractConfig sdk)
      (wallet : Wallet sdk) (key : sdk.Keypair) (user : User e.Number)
      → configured e sdk ≡ some c
      → wallet.keypair ≡ some key
      → IsUser e sdk id user n.world
      → Held e sdk user wallet n.world s.world
      → (hash : String) (t : Net e)
      → Submitted
          (build
            (sdk.public_key key)
            (payment (sdk.public_key c.platform_keypair) tesouro (e.to_fixed amount 7))
            (some (slice_to 28 memo))
            tx_timeout_seconds)
          hash
          t
      → t.world ≡ s.world
      → Charged id amount memo n hash t
  payment-Charged id amount memo n s c wallet key user is has found (inl (privy, keyless, kept))
        hash t sent world =
      absurd (no_key key keyless has)
  payment-Charged id amount memo n s c wallet key user is has found (inr (custodial, held)) hash t
        sent world =
      (
        c,
        is,
        user,
        found,
        custodial,
        wallet,
        subst (Derived e sdk user wallet n.world) (sym world) held,
        subst
            (λ source.
              Submitted
                (build source
                  (payment (sdk.public_key c.platform_keypair) tesouro (e.to_fixed amount 7))
                  (some (slice_to 28 memo)) tx_timeout_seconds)
                hash t)
            (key_of user wallet key _ _ has held) sent,
      )

  module _ (laws : DatabaseLaws e) where
    charge_investor-Ensures :
        (id : String) (amount : e.Number) (memo : String) (n : Net e)
        → Ensures
            (charge_investor e sdk id amount memo)
            n
            (Charged id amount memo n)
            (λ _ _. Unit {0})
    unfolding charge_investor require_contract_config
    charge_investor-Ensures id amount memo n = Ensures-bind _ _ _ (
        Ensures-or_throw _ _ _
          (λ c is. Ensures-bind _ _ _ (
            Ensures-weaken _ _ (ensure_custodial_wallet_for_user-Ensures e sdk laws id n)
              (λ wallet s (user, found, _, held). Ensures-bind _ _ _ (
                Ensures-or_throw _ _ _
                  (λ key has.
                    Ensures-weaken _ _ (submit_operation-Ensures _ _ _ _ _)
                      (λ hash t (sent, world).
                        payment-Charged id amount memo n s c wallet key user is has found held hash
                          t sent world)
                      (λ _ _ _. tt))
                  (λ _. tt)))
              (λ _ _ _. tt)))
          (λ _. tt))

    -- A charge that returns a hash, under the laws of the database client: the platform is
    -- configured, the investor exists and has no Privy address, and the last request is a payment in
    -- TESOURO of the amount, to seven places, from the wallet derived for the investor to the
    -- platform's, with the memo cut to 28 characters, signed by the investor's key and accepted
    -- under that hash; the tables are as before, but that the investor's address is stored.
    pub charge_investor-Charged :
        (id : String) (amount : e.Number) (memo : String) (n s : Net e) (hash : String)
        → charge_investor e sdk id amount memo n ≡ (ok hash, s)
        → Charged id amount memo n hash s
    charge_investor-Charged id amount memo n s hash ran =
        Ensures-returned _ _ _ _ (charge_investor-Ensures id amount memo n) ran

  pub no_row : {A : Type 0} {o : Option A} (a : A) → o ≡ none → o ≡ some a → ⊥
  no_row a h k = cc

  pub privy_wallet-Ensures :
      (id address : String) (user : User e.Number) (n : Net e)
      → IsUser e sdk id user n.world
      → truthy user.privy_stellar_wallet_address ≡ some address
      → Ensures
          (ensure_custodial_wallet_for_user e sdk id)
          n
          (λ wallet s. (wallet.keypair ≡ none) × (s ≡ n))
          (λ _ s. s ≡ n)
  unfolding ensure_custodial_wallet_for_user
  privy_wallet-Ensures id address user n found privy = Ensures-bind _ _ _ (
      Ensures-throw_if _ _ _ (λ _. refl)
        (λ _. Ensures-bind _ _ _ (
          Ensures-on_world e _ _ (
            Ensures-find_unique e (users e) _ _ (
              Ensures-bind _ _ _ (
                Ensures-or_throw _ _ _
                  (λ user' found'.
                    Ensures-if_some _ _ _ _ (λ _ _. Ensures-pure _ _ (refl, refl))
                      (λ absent. absurd (
                        no_row address
                          (ap (λ u. truthy u.privy_stellar_wallet_address)
                              (some_eq _ _ (sym found ∙ found'))
                            ∙ absent)
                          privy)))
                  (λ _. refl)))))))

  pub charge_investor-refused :
      (id : String) (amount : e.Number) (memo address : String) (user : User e.Number) (n : Net e)
      → IsUser e sdk id user n.world
      → truthy user.privy_stellar_wallet_address ≡ some address
      → Ensures (charge_investor e sdk id amount memo) n (λ _ _. ⊥) (λ _ s. s ≡ n)
  unfolding charge_investor require_contract_config
  charge_investor-refused id amount memo address user n found privy = Ensures-bind _ _ _ (
      Ensures-or_throw _ _ _
        (λ c is. Ensures-bind _ _ _ (
          Ensures-weaken _ _ (privy_wallet-Ensures id address user n found privy)
            (λ wallet s (keyless, same).
              Ensures-bind _ _ _
                (Ensures-or_throw _ _ _ (λ key has. absurd (no_row key keyless has)) (λ _. same)))
            (λ _ _ same. same)))
        (λ _. refl))
