-- ===== src/Stellar/Contracts/Tokens.antt =====
-- stellar.service.ts: tokenizeNfe and the wallet of the owner of the receivable.
use cred_bridge.Prelude.{String, ◌≡◌, some, List, [], ◌∷◌}
use cred_bridge.Result.{ok}
use cred_bridge.Pix.Signature.{Integer}
use cred_bridge.Env.{Env}
use cred_bridge.World.{users}
use cred_bridge.Stellar.Sdk.{ScVal, string, address, i128, u64, bytes, Sdk}
use cred_bridge.Stellar.Net.{Net, ContractConfig, configured}
use cred_bridge.Stellar.Submit.Invocation.{Invoked, invocation}
use cred_bridge.Stellar.Contracts.{TokenizeNfeInput, pme_address, invoice_hash}

module _ (e : Env) (sdk : Sdk e) where
  -- The arguments of the contract: the key, the value in cents, the due date in seconds, the hash
  -- of the invoice or else of the key, the owner's wallet and the platform's.
  abbrev pub token_args :
      ContractConfig sdk → TokenizeNfeInput e.Number → Integer → String → List ScVal
  token_args c input cents owner =
      string input.key
      ∷ i128 cents
      ∷ u64 (sdk.unix_seconds input.due_date)
      ∷ bytes (invoice_hash e sdk input.xml_hash input.key)
      ∷ address owner
      ∷ address (sdk.public_key c.platform_keypair)
      ∷ []

  -- The platform had the contract make the token, for the stored wallet of the owner.
  abbrev pub Tokenized : TokenizeNfeInput e.Number → Net e → String → Net e → Type 0
  Tokenized input n hash s =
      (c : ContractConfig sdk) × (configured e sdk ≡ some c)
      × (owner : String) × (pme_address
            (e.find_unique (users e).key input.owner_user_id n.world.users)
          ≡ some owner)
      × (cents : Integer) × (sdk.big_round (e.mul input.value (e.of_nat 100)) ≡ ok cents)
      × Invoked e sdk c.platform_keypair
          (invocation e sdk c.platform_keypair c.contract_id "tokenize_nfe"
            (token_args c input cents owner))
          n hash s
