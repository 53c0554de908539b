-- ===== src/Stellar/Wallets.antt =====
-- apps/api/src/shared/blockchain/stellar.service.ts: custodial wallets, their funding and payments.
pub mod Funding
pub mod Custody
use cred_bridge.Prelude.{
  String, Bool, true, false, not, ◌||◌, ◌&&◌, Option, none, some, ◌==◌, truthy, coalesce, or_else,
  is_some, concat,
}
use cred_bridge.Result.{
  Error, pure, throw, or_throw, throw_if, branch, when, if_some, try_catch, message, ◌>>=◌, ◌>>◌,
}
use cred_bridge.Schema.{User}
use cred_bridge.Env.{Env}
use cred_bridge.World.{users, find_unique, update}
use cred_bridge.Stellar.Sdk.{
  Operation, payment, create_account, change_trust, Tx, Account, Sdk, load_account,
}
use cred_bridge.Stellar.Net.{N, ask, on_world, setting, ContractConfig, require_contract_config}
use cred_bridge.Stellar.Submit.{plain_error, build, sign, tx_timeout_seconds, submit_with_detail}

abbrev pub tesouro : String
tesouro = "TESOURO:GC3CW7EDYRTWQ635VDIGY6S4ZUF5L6TQ7AA4MWS7LEQDBLUSZXV7UPS4"

abbrev pub native_asset : String
native_asset = "native"

-- `{ publicKey, keypair }`
pub record Wallet {e : Env} (sdk : Sdk e) : Type 0 where
  pub public_key : String
  pub keypair : Option sdk.Keypair

module _ (e : Env) where
  abbrev pub is_mainnet : Bool
  is_mainnet = elim (e.config "STELLAR_NETWORK") [ none ↦ false | some n ↦ n == "mainnet" ]

  abbrev pub wallet_secret : String
  wallet_secret = or_else (e.config "STELLAR_WALLET_SECRET") ""

module _ (e : Env) (sdk : Sdk e) where
  -- Builds, signs and submits a transaction of one operation to Horizon.
  unfoldable pub submit_operation : sdk.Keypair → Operation → Option String → String → N e String
  unfolding submit_with_detail
  submit_operation signer operation memo label = do
    let key : String = sdk.public_key signer
    ask e (λ rs. sdk.account rs key) (load_account key)
    submit_with_detail e sdk (sign key (build key operation memo tx_timeout_seconds)) label

  -- `destinationAccount`, `null` where it cannot be loaded
  unfoldable pub find_account : String → N e (Option Account)
  find_account address =
      try_catch
        (do
          account ← ask e (λ rs. sdk.account rs address) (load_account address)
          pure (some account))
        (λ x. pure none)

  abbrev pub xlm_balance : Account → e.Number
  xlm_balance account = e.to_number (or_else account.xlm "0")

  -- The funding of an account that exists.
  unfoldable pub top_up : sdk.Keypair → String → e.Number → e.Number → N e (Option String)
  unfolding submit_operation
  top_up platform destination target balance =
      branch (is_mainnet e || sdk.le (e.to_number "1.0") balance) (pure none) (
        branch (sdk.le (e.sub target balance) (e.to_number "0")) (pure none) (do
          hash ←
              submit_operation platform
                (payment destination native_asset (e.to_fixed (e.sub target balance) 7)) none
                "fundAccountFromPlatform"
          pure (some hash)))

  unfoldable pub create_funded : sdk.Keypair → String → String → N e (Option String)
  unfolding submit_operation
  create_funded platform destination starting_balance = do
    throw_if (is_mainnet e) (
        plain_error
          (concat "Mainnet wallet creation for " (concat destination " requires manual funding")))
    hash ←
        submit_operation platform (create_account destination starting_balance) none
          "fundAccountFromPlatform"
    pure (some hash)

  unfoldable pub fund_account_from_platform : String → String → N e (Option String)
  unfolding require_contract_config find_account top_up create_funded
  fund_account_from_platform destination starting_balance = do
    c ← require_contract_config e sdk
    found ← find_account destination
    if_some found
        (λ account.
          top_up c.platform_keypair destination (e.to_number starting_balance)
            (xlm_balance account))
        (create_funded c.platform_keypair destination starting_balance)

  -- `establishTesourTrustline`: a failure is only logged.
  unfoldable pub establish_tesouro_trustline : sdk.Keypair → N e (Unit {0})
  unfolding submit_operation
  establish_tesouro_trustline keypair =
      try_catch
        (do submit_operation keypair (change_trust tesouro) none "changeTrust:TESOURO"; pure tt)
        (λ x. pure tt)

  unfoldable pub create_custodial_wallet : String → N e String
  unfolding fund_account_from_platform establish_tesouro_trustline
  create_custodial_wallet google_id = do
    throw_if (wallet_secret e == "") (plain_error "STELLAR_WALLET_SECRET not configured")
    let keypair : sdk.Keypair = sdk.derive (wallet_secret e) google_id
    let public_key : String = sdk.public_key keypair
    found ← find_account public_key
    is_new ←
        if_some found (λ _. pure false)
          (try_catch (do fund_account_from_platform public_key "5.0"; pure true) (λ x. pure false))
    when is_new (establish_tesouro_trustline keypair)
    pure public_key

  abbrev pub wallet_mismatch : String → String → String → Error
  wallet_mismatch user_id stored derived = plain_error (
      concat "Wallet mismatch for user "
        (concat user_id (concat " — stored " (concat stored (concat " vs derived " derived)))))

  -- Loads the account of a derived wallet, or funds it.
  unfoldable pub ensure_funded : String → N e (Unit {0})
  unfolding fund_account_from_platform
  ensure_funded public_key =
      try_catch (do ask e (λ rs. sdk.account rs public_key) (load_account public_key); pure tt)
        (λ _.
          try_catch (do fund_account_from_platform public_key "5.0"; pure tt)
            (λ x. throw (
              plain_error (
                concat "Platform funding failed for custodial wallet "
                  (concat public_key (concat ": " (message x)))))))

  -- Stores the address of a derived wallet where none is stored.
  unfoldable pub persist_wallet : User e.Number → sdk.Keypair → N e (Wallet sdk)
  persist_wallet user keypair = do
    when (not (is_some (truthy user.stellar_wallet_id))) (do
      on_world e (
          update e (users e) user.id
            (λ u. record u { stellar_wallet_id = some (sdk.public_key keypair) }))
      pure tt)
    pure (record { public_key = sdk.public_key keypair; keypair = some keypair })

  -- The wallet that is derived for a user without a Privy wallet.
  unfoldable pub derived_wallet : User e.Number → N e (Wallet sdk)
  unfolding ensure_funded persist_wallet
  derived_wallet user = do
    let keypair : sdk.Keypair = sdk.derive (wallet_secret e) (or_else user.google_id user.id)
    let public_key : String = sdk.public_key keypair
    if_some (truthy user.stellar_wallet_id)
        (λ stored.
          throw_if (not (stored == public_key)) (wallet_mismatch user.id stored public_key))
        (pure tt)
    ensure_funded public_key
    persist_wallet user keypair

  unfoldable pub ensure_custodial_wallet_for_user : String → N e (Wallet sdk)
  unfolding derived_wallet
  ensure_custodial_wallet_for_user user_id = do
    throw_if (wallet_secret e == "") (plain_error "STELLAR_WALLET_SECRET not configured")
    found ← on_world e (find_unique e (users e) user_id)
    user ← or_throw found (plain_error (concat "User " (concat user_id " not found")))
    if_some (truthy user.privy_stellar_wallet_address)
        (λ address. pure (record { public_key = address; keypair = none })) (derived_wallet user)
