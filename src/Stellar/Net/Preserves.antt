-- ===== src/Stellar/Net/Preserves.antt =====
-- What the actions of the Stellar service keep: the tables.
use cred_bridge.Prelude.{◌≡◌, List}
use cred_bridge.Result.{Result}
use cred_bridge.Result.Preserves.{Preserves}
use cred_bridge.Env.{Env}
use cred_bridge.World.{World}
use cred_bridge.Stellar.Sdk.{Request, Sdk}
use cred_bridge.Stellar.Net.{Net, ask, require_contract_config}
use cred_bridge.Result.Preserves.{Preserves-or_throw}

module _ (e : Env) (w : World e) where
  -- The tables are those.
  abbrev pub HasWorld : Net e → Type 0
  HasWorld n = n.world ≡ w

  pub Preserves-ask :
      {A : Type 0} (reply : List Request → Result A) (request : Request)
      → Preserves HasWorld (ask e reply request)
  unfolding ask
  Preserves-ask reply request = record { at = λ n h. h }

  pub Preserves-require_contract_config :
      (sdk : Sdk e) → Preserves HasWorld (require_contract_config e sdk)
  unfolding require_contract_config
  Preserves-require_contract_config sdk = Preserves-or_throw _ _

  pub ruleset net_rules = (Preserves-ask, Preserves-require_contract_config)
