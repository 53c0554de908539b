-- ===== src/Stellar/Wallets/Funding.antt =====
-- The payments and the funding of wallets leave the tables alone.
use cred_bridge.Prelude.{String, Option}
use cred_bridge.Result.Preserves.{Preserves, preserves_rules}
use cred_bridge.Env.{Env}
use cred_bridge.World.{World}
use cred_bridge.Stellar.Sdk.{Operation, Tx, Sdk}
use cred_bridge.Stellar.Net.Preserves.{HasWorld, net_rules}
use cred_bridge.Stellar.Submit.{submit_with_detail}
use cred_bridge.Stellar.Wallets.{
  submit_operation, find_account, top_up, create_funded, fund_account_from_platform, ensure_funded,
}

module _ (e : Env) (sdk : Sdk e) (w : World e) where
  submit_with_detail-HasWorld :
      (tx : Tx) (label : String) → Preserves (HasWorld e w) (submit_with_detail e sdk tx label)
  unfolding submit_with_detail
  submit_with_detail-HasWorld tx label = search (preserves_rules, net_rules)

  submit_operation-HasWorld :
      (signer : sdk.Keypair) (operation : Operation) (memo : Option String) (label : String)
      → Preserves (HasWorld e w) (submit_operation e sdk signer operation memo label)
  unfolding submit_operation
  submit_operation-HasWorld signer operation memo label =
      search (preserves_rules, net_rules, submit_with_detail-HasWorld)

  find_account-HasWorld : (address : String) → Preserves (HasWorld e w) (find_account e sdk address)
  unfolding find_account
  find_account-HasWorld address = search (preserves_rules, net_rules)

  top_up-HasWorld :
      (platform : sdk.Keypair) (destination : String) (target balance : e.Number)
      → Preserves (HasWorld e w) (top_up e sdk platform destination target balance)
  unfolding top_up
  top_up-HasWorld platform destination target balance =
      search (preserves_rules, net_rules, submit_operation-HasWorld)

  create_funded-HasWorld :
      (platform : sdk.Keypair) (destination starting_balance : String)
      → Preserves (HasWorld e w) (create_funded e sdk platform destination starting_balance)
  unfolding create_funded
  create_funded-HasWorld platform destination starting_balance =
      search (preserves_rules, net_rules, submit_operation-HasWorld)

  fund_account_from_platform-HasWorld :
      (destination starting_balance : String)
      → Preserves (HasWorld e w) (fund_account_from_platform e sdk destination starting_balance)
  unfolding fund_account_from_platform
  fund_account_from_platform-HasWorld destination starting_balance =
      search
        (preserves_rules, net_rules, find_account-HasWorld, top_up-HasWorld, create_funded-HasWorld)

  pub ensure_funded-HasWorld :
      (public_key : String) → Preserves (HasWorld e w) (ensure_funded e sdk public_key)
  unfolding ensure_funded
  ensure_funded-HasWorld public_key =
      search (preserves_rules, net_rules, fund_account_from_platform-HasWorld)
