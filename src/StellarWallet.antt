-- ===== src/StellarWallet.antt =====
-- apps/api/src/modules/stellar-wallet/stellar-wallet.service.ts: which wallet stands for a user.
use cred_bridge.Prelude.{String, Option, none, some, truthy}
use cred_bridge.Result.{not_found, bad_request, pure, or_throw, if_some, ◌>>=◌}
use cred_bridge.Schema.{User}
use cred_bridge.Ports.{get_brlt_balance}
use cred_bridge.Env.{Env}
use cred_bridge.World.{M, users, send, find_unique}
use cred_bridge.Authorizations.{ready_wallet}

pub record WalletInfo : Type 0 where
  pub contract_id : String
  pub passkey_id : Option String
  pub wallet_type : Option String
  pub wallet_status : Option String

-- The ready Privy wallet, or else the older one. In `getBalance` an empty id counts as none.
abbrev pub current_wallet : {N : Type 0} → Option (User N) → Option String
current_wallet none = none
current_wallet (some user) = elim (ready_wallet (some user)) [
  | some address ↦ some address
  | none ↦ truthy user.stellar_wallet_id
]

abbrev pub wallet_info : {N : Type 0} → User N → Option WalletInfo
wallet_info user = elim (ready_wallet (some user)) [
  | some address ↦ some (record {
    contract_id = address;
    passkey_id = none;
    wallet_type = some "privy_stellar";
    wallet_status = user.privy_wallet_status;
  })
  | none ↦ elim (truthy user.stellar_wallet_id) [
    | none ↦ none
    | some wallet_id ↦ some (record {
      contract_id = wallet_id;
      passkey_id = user.passkey_id;
      wallet_type = user.wallet_type;
      wallet_status = user.wallet_status;
    })
  ]
]

module _ (e : Env) where
  unfoldable pub create_wallet : String → M e String
  create_wallet user_id = do
    found ← find_unique e (users e) user_id
    user ← or_throw found (not_found "User not found")
    or_throw (current_wallet (some user)) (bad_request "Privy Stellar wallet is required")

  unfoldable pub get_wallet : String → M e (Option WalletInfo)
  get_wallet user_id = do
    found ← find_unique e (users e) user_id
    pure (elim found [ none ↦ none | some user ↦ wallet_info user ])

  unfoldable pub get_balance : String → M e (Option e.Number)
  get_balance user_id = do
    found ← find_unique e (users e) user_id
    if_some (current_wallet found)
        (λ address. do balance ← send e e.balance (get_brlt_balance address); pure (some balance))
        (pure none)
