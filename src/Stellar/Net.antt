-- ===== src/Stellar/Net.antt =====
-- The state of the Stellar service: the tables, the requests that have left the process (the newest
-- first) and the milliseconds that it has waited; and its actions.
pub mod Rules
pub mod Preserves
use cred_bridge.Prelude.{ℕ, ◌+◌, String, Option, none, some, List, ◌∷◌, truthy}
use cred_bridge.Result.{Result, ok, err, Exec, failure, or_throw, pure, ◌>>=◌}
use cred_bridge.Env.{Env}
use cred_bridge.World.{World, M}
use cred_bridge.Stellar.Sdk.{Request, Sdk}

pub record Net (e : Env) : Type 0 where
  pub world : World e
  pub requests : List Request
  pub slept : ℕ

abbrev pub N : Env → Type 0 → Type 0
N e = Exec (Net e)

-- `requireContractConfig`, with the platform's keys and the contract of the invoices.
pub record ContractConfig {e : Env} (sdk : Sdk e) : Type 0 where
  pub platform_keypair : sdk.Keypair
  pub contract_id : String

module _ (e : Env) where
  -- A query or a write of the database.
  pub on_world : {A : Type 0} → M e A → N e A
  on_world m n = let (r, w) = m n.world in (r, record n { world = w })

  pub ask : {A : Type 0} → (List Request → Result A) → Request → N e A
  ask reply request n = (reply n.requests, record n { requests = request ∷ n.requests })

  -- `Date.now()`: the process has waited for what it has slept.
  pub now : N e ℕ
  now n = (
    ok (e.clock n.world.ticks + n.slept),
    record n { world = record n.world { ticks = n.world.ticks + 1 } },
  )

  -- `await new Promise((r) => setTimeout(r, ms))`
  pub sleep : ℕ → N e (Unit {0})
  sleep ms n = (ok tt, record n { slept = n.slept + ms })

  -- Opens the actions above.
  unfoldable pub net_actions : Unit {0}
  unfolding on_world ask now sleep
  net_actions = tt

  -- `process.env.NAME`, where it counts as true
  abbrev pub setting : String → Option String
  setting name = truthy (e.config name)

  module _ (sdk : Sdk e) where
    -- The constructor sets the server, the keys and the contract, or none of them.
    abbrev pub configured : Option (ContractConfig sdk)
    configured = elim (setting "STELLAR_RPC_URL") [
      | none ↦ none
      | some url ↦ elim (setting "STELLAR_SECRET_KEY") [
        | none ↦ none
        | some secret ↦ elim (setting "STELLAR_NFE_CONTRACT_ID") [
          | none ↦ none
          | some id ↦ some (record { platform_keypair = sdk.from_secret secret; contract_id = id })
        ]
      ]
    ]

    unfoldable pub require_contract_config : N e (ContractConfig sdk)
    require_contract_config = or_throw configured (
        failure "Error"
          "Stellar contract not configured — set STELLAR_RPC_URL, STELLAR_SECRET_KEY, STELLAR_NFE_CONTRACT_ID")
