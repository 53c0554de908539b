-- ===== src/Stellar/Wallets/Custody.antt =====
-- Which wallet the Stellar service holds for a user: it never takes the place of a Privy wallet.
use mathlib.Core.Path.{subst}
use cred_bridge.Prelude.{
  read_truthy, same_text, String, ◌≡◌, ◌≢◌, refl, sym, ap, ◌∙◌, ◌⊎◌, inl, inr, true, false, not,
  Option, none, some, truthy, or_else, is_some,
}
use cred_bridge.Result.{◌>>◌}
use cred_bridge.Result.Rules.{
  Post, Ensures, Ensures-pure, Ensures-bind, Ensures-or_throw, Ensures-throw_if, Ensures-when,
  Ensures-if_some, Ensures-weaken,
}
use cred_bridge.Result.Preserves.{Ensures-kept}
use cred_bridge.Schema.{User}
use cred_bridge.Env.{Env, DatabaseLaws}
use cred_bridge.Env.Lookup.{some_eq, find-update_self, find-update_ne, update_found}
use cred_bridge.World.{World, users, update}
use cred_bridge.World.Rules.{Ensures-find_unique, Ensures-update}
use cred_bridge.Stellar.Sdk.{Sdk}
use cred_bridge.Stellar.Net.{Net, on_world}
use cred_bridge.Stellar.Net.Rules.{Ensures-on_world}
use cred_bridge.Stellar.Wallets.{
  Wallet, wallet_secret, persist_wallet, derived_wallet, ensure_custodial_wallet_for_user,
  ensure_funded,
}
use cred_bridge.Stellar.Wallets.Funding.{ensure_funded-HasWorld}

module _ (e : Env) (sdk : Sdk e) where
  abbrev pub IsUser : String → User e.Number → World e → Type 0
  IsUser id user w = e.find_unique (users e).key id w.users ≡ some user

  -- Only this user's row may have changed, and in it only the stored address.
  abbrev pub Persisted : User e.Number → String → World e → World e → Type 0
  Persisted user public_key w v =
      (v ≡ record w { users = v.users })
      × IsUser user.id (record user { stellar_wallet_id = some public_key }) v
      × ((j : String)
          → user.id ≢ j
          → e.find_unique (users e).key j v.users ≡ e.find_unique (users e).key j w.users)

  abbrev pub derived_key : User e.Number → sdk.Keypair
  derived_key user = sdk.derive (wallet_secret e) (or_else user.google_id user.id)

  -- The wallet is the one that is derived for the user, whose stored address is that wallet's, or
  -- was absent and now is.
  abbrev pub Derived : User e.Number → Wallet sdk → World e → World e → Type 0
  Derived user wallet w v =
      (wallet.keypair ≡ some (derived_key user))
      × (wallet.public_key ≡ sdk.public_key (derived_key user))
      × ((truthy user.stellar_wallet_id ≡ none) ⊎ (user.stellar_wallet_id ≡ some wallet.public_key))
      × Persisted user wallet.public_key w v

  abbrev pub Held : User e.Number → Wallet sdk → World e → World e → Type 0
  Held user wallet w v =
      ((truthy user.privy_stellar_wallet_address ≡ some wallet.public_key)
        × (wallet.keypair ≡ none)
        × (v ≡ w))
      ⊎ ((truthy user.privy_stellar_wallet_address ≡ none) × Derived user wallet w v)

  known : (o : Option String) → not (is_some o) ≡ false → (s : String) × (o ≡ some s)
  known none h = cc
  known (some s) h = (s, refl)

  unknown : (o : Option String) → not (is_some o) ≡ true → o ≡ none
  unknown none h = refl
  unknown (some s) h = cc

  no_wallet : {o : Option String} (s : String) → o ≡ none → o ≡ some s → ⊥
  no_wallet s h k = cc

  already-Persisted :
      (user : User e.Number) (pk : String) (w : World e)
      → IsUser user.id user w
      → user.stellar_wallet_id ≡ some pk
      → Persisted user pk w w
  already-Persisted user pk w found h =
      (refl, found ∙ ap (λ o. some (record user { stellar_wallet_id = o })) h, λ j _. refl)

  module _ (laws : DatabaseLaws e) where
    stored-Persisted :
        (user : User e.Number) (pk : String) (n : Net e)
        → IsUser user.id user n.world
        → Ensures
            (on_world e
              (update e (users e) user.id (λ u. record u { stellar_wallet_id = some pk })))
            n
            (λ _ s. Persisted user pk n.world s.world)
            (λ _ s. s.world ≡ n.world)
    stored-Persisted user pk n found = Ensures-on_world e _ _ (
        Ensures-update e (users e) _ _ _
          (λ r t wrote. (
            refl,
            find-update_self e laws (users e).key _ _ _ _ _ (λ _. refl) wrote
                ∙ ap some (update_found e laws (users e).key _ user _ _ _ _ found wrote),
            λ j ne. find-update_ne e laws (users e).key _ j _ _ _ _ ne (λ _. refl) wrote,
          ))
          (λ x _. refl))

    -- The stored address of the user, where there is one, is that of the derived wallet.
    abbrev Matches : User e.Number → Type 0
    Matches user =
        (pk : String)
        → truthy user.stellar_wallet_id ≡ some pk
        → pk ≡ sdk.public_key (derived_key user)

    persist_wallet-Derived :
        (user : User e.Number) (n : Net e)
        → IsUser user.id user n.world
        → Matches user
        → Ensures
            (persist_wallet e sdk user (derived_key user))
            n
            (λ wallet s. Derived user wallet n.world s.world)
            (λ _ s. s.world ≡ n.world)
    unfolding persist_wallet
    persist_wallet-Derived user n found same = Ensures-bind _ _ _ (
        Ensures-when _ _ _
          (λ absent. Ensures-bind _ _ _ (
            Ensures-weaken _ _ (stored-Persisted user _ n found)
              (λ _ s new.
                Ensures-pure _ _ (Ensures-pure _ _ (refl, refl, inl (unknown _ absent), new)))
              (λ _ _ same. same)))
          (λ present. Ensures-pure _ _ (
            let (pk, is) = known _ present in
            let at : user.stellar_wallet_id ≡ some (sdk.public_key (derived_key user)) =
              read_truthy _ _ is ∙ ap some (same pk is) in
            (refl, refl, inr at, already-Persisted user _ _ found at))))

    -- A step that leaves the tables alone does not matter to the last one.
    funded-Derived :
        (user : User e.Number) (n : Net e)
        → IsUser user.id user n.world
        → Matches user
        → Ensures
            (ensure_funded e sdk (sdk.public_key (derived_key user))
              >> persist_wallet e sdk user (derived_key user))
            n
            (λ wallet s. Derived user wallet n.world s.world)
            (λ _ s. s.world ≡ n.world)
    funded-Derived user n found same = Ensures-bind _ _ _ (
        Ensures-weaken _ _ (Ensures-kept _ _ (ensure_funded-HasWorld e sdk n.world _) refl)
          (λ _ s is.
            subst
              (λ v.
                Ensures (persist_wallet e sdk user (derived_key user)) s
                  (λ wallet s'. Derived user wallet v s'.world) (λ _ s'. s'.world ≡ v))
              is (persist_wallet-Derived user s (subst (IsUser user.id user) (sym is) found) same))
          (λ _ s is. is))

    derived_wallet-Derived :
        (user : User e.Number) (n : Net e)
        → IsUser user.id user n.world
        → Ensures
            (derived_wallet e sdk user)
            n
            (λ wallet s. Derived user wallet n.world s.world)
            (λ _ s. s.world ≡ n.world)
    unfolding derived_wallet
    derived_wallet-Derived user n found = Ensures-bind _ _ _ (
        Ensures-if_some _ _ _ _
          (λ pk is.
            Ensures-throw_if _ _ _ (λ _. refl)
              (λ same.
                funded-Derived user n found
                  (λ pk' is'. some_eq _ _ (sym is' ∙ is) ∙ same_text _ _ same)))
          (λ none.
            Ensures-pure _ _ (funded-Derived user n found (λ pk is. absurd (no_wallet _ none is)))))

    pub ensure_custodial_wallet_for_user-Ensures :
        (id : String) (n : Net e)
        → Ensures
            (ensure_custodial_wallet_for_user e sdk id)
            n
            (λ wallet s.
              (user : User e.Number) × IsUser id user n.world
              × (user.id ≡ id)
              × Held user wallet n.world s.world)
            (λ _ s. s.world ≡ n.world)
    unfolding ensure_custodial_wallet_for_user
    ensure_custodial_wallet_for_user-Ensures id n = Ensures-bind _ _ _ (
        Ensures-throw_if _ _ _ (λ _. refl)
          (λ _. Ensures-bind _ _ _ (
            Ensures-on_world e _ _ (
              Ensures-find_unique e (users e) _ _ (
                Ensures-bind _ _ _ (
                  Ensures-or_throw _ _ _
                    (λ user found.
                      let is : user.id ≡ id =
                        some_eq _ _ (laws.find_has_key (users e).key id n.world.users user found) in
                      Ensures-if_some _ _ _ _
                        (λ address privy.
                          Ensures-pure _ _ (user, found, is, inl (privy, refl, refl)))
                        (λ custodial.
                          Ensures-weaken _ _
                            (derived_wallet-Derived user n
                              (subst (λ k. IsUser k user n.world) (sym is) found))
                            (λ _ s held. (user, found, is, inr (custodial, held)))
                            (λ _ s same. same)))
                    (λ _. refl)))))))

    -- The wallet of a user, under the laws of the database client. Where it is returned the user
    -- exists; a user with a Privy address gets that address and no key, and nothing is written; any
    -- other gets the wallet derived for them, the address stored for them before, if any, is that
    -- wallet's and is stored now, and no other row is changed. Where it throws no table is changed.
    pub ensure_custodial_wallet_for_user-Held :
        (id : String) (n : Net e)
        → Post
            (λ wallet s.
              (user : User e.Number) × IsUser id user n.world
              × (user.id ≡ id)
              × Held user wallet n.world s.world)
            (λ _ s. s.world ≡ n.world)
            (ensure_custodial_wallet_for_user e sdk id n).0
            (ensure_custodial_wallet_for_user e sdk id n).1
    ensure_custodial_wallet_for_user-Held id n = (ensure_custodial_wallet_for_user-Ensures id n).at
