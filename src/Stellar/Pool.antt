-- ===== src/Stellar/Pool.antt =====
-- apps/api/src/shared/blockchain/stellar.service.ts: the contracts of the pool and of BRLT, called
-- with the keys of the platform or of a custodial wallet.
pub mod Deposits
use cred_bridge.Prelude.{ℕ, ◌+◌, String, Option, none, some, List, [], ◌∷◌, or_else, concat}
use cred_bridge.Result.{Error, failure, pure, throw, lift, or_throw, if_some, ◌>>=◌, ◌>>◌}
use cred_bridge.Pix.Signature.{Integer, positive}
use cred_bridge.Env.{Env}
use cred_bridge.Stellar.Bytes.{to_bytes32}
use cred_bridge.Stellar.Sdk.{ScVal, address, i128, u64, u32, bytes, Sdk, ledgers}
use cred_bridge.Stellar.Net.{
  N, ask, setting, now, ContractConfig, configured, require_contract_config,
}
use cred_bridge.Stellar.Submit.{plain_error, invoke_contract}
use cred_bridge.Stellar.Wallets.{Wallet, ensure_custodial_wallet_for_user}

-- `BuyTokenizedInvoiceInput`
pub record BuyTokenizedInvoiceInput (N : Type 0) : Type 0 where
  pub seller_address : String
  pub invoice_key : String
  pub xml_hash : String
  pub value : N

module _ (e : Env) (sdk : Sdk e) where
  -- `BigInt(Math.round(amount * 10_000_000))`
  abbrev pub stroops : e.Number → N e Integer
  stroops amount = lift (sdk.big_round (e.mul amount (e.of_nat 10000000)))

  -- The hash that stands for a transaction where the pool is not configured.
  abbrev pub mock_hash : String → N e String
  mock_hash prefix = do time ← now e; pure (concat prefix (e.to_fixed (e.of_nat time) 0))

  abbrev pub no_keypair : String → Error
  no_keypair user_id = plain_error (
      concat "Custodial keypair for investor "
        (concat user_id " not available to sign transaction"))

  -- The pool's contract and the configuration, where both are set.
  abbrev pub pool_config : Option (String × ContractConfig sdk)
  pool_config = elim (setting e "STELLAR_POOL_CONTRACT_ID") [
    | none ↦ none
    | some pool ↦ elim (configured e sdk) [ none ↦ none | some c ↦ some (pool, c) ]
  ]

  -- `currentLedger + 100000`
  unfoldable pub live_until : N e ℕ
  live_until = do latest ← ask e sdk.latest_ledger ledgers; pure (or_else latest 3000000 + 100000)

  abbrev pub mint_args : ContractConfig sdk → String → Integer → List ScVal
  mint_args c to amount =
      address (sdk.public_key c.platform_keypair) ∷ address to ∷ i128 amount ∷ []

  abbrev pub approve_args : String → String → Integer → ℕ → List ScVal
  approve_args investor pool amount ledger =
      address investor ∷ address pool ∷ i128 amount ∷ u32 ledger ∷ []

  abbrev pub deposit_args : String → Integer → List ScVal
  deposit_args investor amount = address investor ∷ i128 amount ∷ []

  -- What follows once the pool, BRLT and the credentials are there: the mint, the approval and the
  -- deposit.
  unfoldable pub deposit_steps :
      String → String → ContractConfig sdk → String → e.Number → N e String
  unfolding ensure_custodial_wallet_for_user invoke_contract live_until
  deposit_steps pool brlt c investor_user_id amount_brl = do
    wallet ← ensure_custodial_wallet_for_user e sdk investor_user_id
    keypair ← or_throw wallet.keypair (no_keypair investor_user_id)
    amount ← stroops amount_brl
    invoke_contract e sdk c.platform_keypair brlt "mint" (mint_args c wallet.public_key amount)
    ledger ← live_until
    invoke_contract e sdk keypair brlt "approve" (approve_args wallet.public_key pool amount ledger)
    invoke_contract e sdk keypair pool "deposit" (deposit_args wallet.public_key amount)

  unfoldable pub deposit_to_pool : String → e.Number → N e String
  unfolding deposit_steps
  deposit_to_pool investor_user_id amount_brl =
      if_some pool_config
        (λ (pool, c).
          if_some (setting e "STELLAR_BRLT_TOKEN_ID")
            (λ brlt. deposit_steps pool brlt c investor_user_id amount_brl)
            (mock_hash "stellar-mock-pool-deposit-"))
        (mock_hash "stellar-mock-pool-deposit-")

  unfoldable pub withdraw_steps : String → String → e.Number → N e String
  unfolding ensure_custodial_wallet_for_user invoke_contract
  withdraw_steps pool investor_user_id share_amount = do
    wallet ← ensure_custodial_wallet_for_user e sdk investor_user_id
    keypair ← or_throw wallet.keypair (no_keypair investor_user_id)
    shares ← stroops share_amount
    invoke_contract e sdk keypair pool "withdraw" (address wallet.public_key ∷ i128 shares ∷ [])

  unfoldable pub withdraw_from_pool : String → e.Number → N e String
  unfolding withdraw_steps
  withdraw_from_pool investor_user_id share_amount =
      if_some pool_config (λ (pool, c). withdraw_steps pool investor_user_id share_amount)
        (mock_hash "stellar-mock-pool-withdraw-")

  abbrev pub settle_args : ContractConfig sdk → String → Integer → List ScVal
  settle_args c invoice_hash amount =
      address (sdk.public_key c.platform_keypair)
      ∷ bytes (to_bytes32 (some invoice_hash))
      ∷ i128 amount
      ∷ []

  unfoldable pub settle_invoice_in_pool : String → e.Number → N e String
  unfolding invoke_contract
  settle_invoice_in_pool invoice_hash advance_amount_brl =
      if_some pool_config
        (λ (pool, c). do
          amount ← stroops advance_amount_brl
          invoke_contract e sdk c.platform_keypair pool "settle_invoice_in_pool"
              (settle_args c invoice_hash amount))
        (mock_hash "stellar-mock-pool-settlement-")

  abbrev pub buy_args :
      ContractConfig sdk → BuyTokenizedInvoiceInput e.Number → Integer → List ScVal
  buy_args c input amount =
      address (sdk.public_key c.platform_keypair)
      ∷ address input.seller_address
      ∷ bytes (to_bytes32 (some input.xml_hash))
      ∷ i128 amount
      ∷ i128 amount
      ∷ i128 (positive 100)
      ∷ u64 (positive 1800000000)
      ∷ []

  unfoldable pub buy_tokenized_invoice_in_pool : BuyTokenizedInvoiceInput e.Number → N e String
  unfolding require_contract_config invoke_contract
  buy_tokenized_invoice_in_pool input = do
    c ← require_contract_config e sdk
    pool ←
        or_throw (setting e "STELLAR_POOL_CONTRACT_ID")
          (plain_error "STELLAR_POOL_CONTRACT_ID not configured")
    amount ← stroops input.value
    invoke_contract e sdk c.platform_keypair pool "buy_tokenized_invoice" (buy_args c input amount)

  unfoldable pub mint_brlt : String → e.Number → N e String
  unfolding require_contract_config invoke_contract
  mint_brlt to_address amount_brl = do
    c ← require_contract_config e sdk
    brlt ←
        or_throw (setting e "STELLAR_BRLT_TOKEN_ID")
          (plain_error "STELLAR_BRLT_TOKEN_ID not configured")
    amount ← stroops amount_brl
    invoke_contract e sdk c.platform_keypair brlt "mint" (mint_args c to_address amount)
