-- ===== src/Tests/StellarWitnesses.antt =====
-- The properties of the Stellar service at concrete inputs.
use cred_bridge.Prelude.{
  ◌⊎◌, ◌+◌, ℕ, zero, suc, All, arith, true, String, ◌≡◌, ◌≤◌, refl, some, none, List, [], ◌∷◌,
  length,
}
use cred_bridge.Result.{ok}
use cred_bridge.Result.Rules.{Post, Refuses}
use cred_bridge.Schema.{User}
use cred_bridge.Tests.World.{env, env-DatabaseLaws, ana}
use cred_bridge.Tests.Chain.{sdk, net, env-IsMonotone}
use cred_bridge.Tests.Store.{lookup, rewrite}
use cred_bridge.World.{actions}
use cred_bridge.Stellar.Sdk.{success}
use cred_bridge.Stellar.Net.{setting, Net, ContractConfig, net_actions}
use cred_bridge.Stellar.Bytes.{to_bytes32, hex_text, zeros}
use cred_bridge.Stellar.Bytes.RoundTrip.{
  IsByte, stops_at, to_bytes32-hex_text, to_bytes32_at_most, to_bytes32_short,
}
use cred_bridge.Stellar.Submit.{wait_for_confirmation, invoke_contract}
use cred_bridge.Stellar.Submit.Polling.{
  time_of, Answered, Failed, Polled, wait_for_confirmation-Polled,
}
use cred_bridge.Stellar.Submit.Invocation.{Invoked, NotInvoked, invocation, invoke_contract-Invoked}
use cred_bridge.Stellar.Wallets.{ensure_custodial_wallet_for_user}
use cred_bridge.Stellar.Wallets.Custody.{IsUser, Held, ensure_custodial_wallet_for_user-Held}
use cred_bridge.Stellar.Contracts.{charge_investor, TokenizeNfeInput}
use cred_bridge.Stellar.Contracts.Charges.{Charged, charge_investor-Charged}
use cred_bridge.Stellar.Pool.{deposit_to_pool, withdraw_from_pool}
use cred_bridge.Stellar.Pool.Deposits.{
  HasNoPool, Deposited, deposit_to_pool-Deposited, privy_user-Refuses,
}
use cred_bridge.Stellar.Client.{submit_signed_tx}
use cred_bridge.Stellar.Client.Signatures.{Sponsored, NotSponsored, submit_signed_tx-Sponsored}
use cred_bridge.Result.{◌>>=◌}

wait_for_confirmation-Polled_example :
    Post
      (λ _ s. Answered env sdk "sent" success s × Polled env sdk 30 "sent" net s)
      (λ x s. Failed env sdk (time_of env net + 60000) "sent" x s × Polled env sdk 30 "sent" net s)
      (wait_for_confirmation env sdk "sent" net).0
      (wait_for_confirmation env sdk "sent" net).1
wait_for_confirmation-Polled_example =
    wait_for_confirmation-Polled env sdk "sent" net env-IsMonotone

zeros-IsByte : (n : ℕ) → All IsByte (zeros n)
zeros-IsByte zero = tt
zeros-IsByte (suc n) = (omega arith, zeros-IsByte n)

abbrev a_hash : List ℕ
a_hash = 171 ∷ 5 ∷ zeros 30

to_bytes32-hex_text_example : to_bytes32 (some (hex_text a_hash)) ≡ a_hash
to_bytes32-hex_text_example =
    to_bytes32-hex_text a_hash refl (omega arith, (omega arith, zeros-IsByte 30))

to_bytes32_at_most_example : length (to_bytes32 (some "invoice")) ≤ 32
to_bytes32_at_most_example = to_bytes32_at_most (some "invoice")

abbrev an_id : String
an_id = "0b9a2c1d-77aa-4b1e-9f00-5a5a5a5a5a5a"

stops_at_dash : stops_at 8 an_id ≡ true
unfolding stops_at
stops_at_dash = refl

to_bytes32_short_example : length (to_bytes32 (some an_id)) ≤ 4
to_bytes32_short_example = to_bytes32_short an_id stops_at_dash

invoke_contract-Invoked_example :
    Post
      (Invoked env sdk "platform" (invocation env sdk "platform" "pool" "pause" []) net)
      (λ _ s. NotInvoked env sdk "platform" (invocation env sdk "platform" "pool" "pause" []) net s)
      (invoke_contract env sdk "platform" "pool" "pause" [] net).0
      (invoke_contract env sdk "platform" "pool" "pause" [] net).1
invoke_contract-Invoked_example =
    invoke_contract-Invoked env sdk "platform" "pool" "pause" [] net env-IsMonotone

ensure_custodial_wallet_for_user-Held_example :
    Post
      (λ wallet s.
        (user : User ℕ) × IsUser env sdk "ivo" user net.world
        × (user.id ≡ "ivo")
        × Held env sdk user wallet net.world s.world)
      (λ _ s. s.world ≡ net.world)
      (ensure_custodial_wallet_for_user env sdk "ivo" net).0
      (ensure_custodial_wallet_for_user env sdk "ivo" net).1
ensure_custodial_wallet_for_user-Held_example =
    ensure_custodial_wallet_for_user-Held env sdk env-DatabaseLaws "ivo" net

abbrev after_charge : Net env
after_charge = (charge_investor env sdk "ivo" 50 "memo" net).1

charges : charge_investor env sdk "ivo" 50 "memo" net ≡ (ok "submitted", after_charge)
unfolding charge_investor ◌>>=◌ actions net_actions lookup rewrite
charges = refl

charge_investor-Charged_example : Charged env sdk "ivo" 50 "memo" net "submitted" after_charge
charge_investor-Charged_example =
    charge_investor-Charged env sdk env-DatabaseLaws "ivo" 50 "memo" net after_charge "submitted"
      charges

abbrev a_config : ContractConfig sdk
a_config = record { platform_keypair = "platform"; contract_id = "nfe" }

abbrev after_deposit : Net env
after_deposit = (deposit_to_pool env sdk "ivo" 50 net).1

deposits : deposit_to_pool env sdk "ivo" 50 net ≡ (ok "sent", after_deposit)
unfolding deposit_to_pool ◌>>=◌ actions net_actions lookup rewrite
deposits = refl

deposit_to_pool-Deposited_example :
    Deposited env sdk "pool" "brlt" a_config "ivo" 50 net "sent" after_deposit
deposit_to_pool-Deposited_example =
    deposit_to_pool-Deposited env sdk env-DatabaseLaws "pool" "brlt" a_config "ivo" 50 net
      after_deposit "sent" env-IsMonotone (refl, refl) refl deposits

is_ana : IsUser env sdk "ana" ana net.world
unfolding lookup
is_ana = refl

privy_user-Refuses_example :
    Refuses (charge_investor env sdk "ana" 50 "memo") net
    × (HasNoPool env sdk ⊎ Refuses (withdraw_from_pool env sdk "ana" 50) net)
    × ((HasNoPool env sdk ⊎ (setting env "STELLAR_BRLT_TOKEN_ID" ≡ none))
        ⊎ Refuses (deposit_to_pool env sdk "ana" 50) net)
privy_user-Refuses_example = privy_user-Refuses env sdk "ana" 50 "memo" "GANA" ana net is_ana refl

submit_signed_tx-Sponsored_example :
    Post
      (Sponsored env sdk "xdr" "GANA" "0x00" net)
      (λ _ s. NotSponsored env sdk "xdr" "GANA" "0x00" net s)
      (submit_signed_tx env sdk "xdr" "GANA" "0x00" net).0
      (submit_signed_tx env sdk "xdr" "GANA" "0x00" net).1
submit_signed_tx-Sponsored_example =
    submit_signed_tx-Sponsored env sdk "xdr" "GANA" "0x00" net env-IsMonotone

abbrev an_invoice : TokenizeNfeInput ℕ
an_invoice = record {
  key = "invoice";
  value = 100;
  due_date = 0;
  xml_hash = none;
  owner_user_id = "ana";
}
