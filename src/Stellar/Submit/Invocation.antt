-- ===== src/Stellar/Submit/Invocation.antt =====
-- What a transaction that was sent, and an invocation of a contract, have done.
use cred_bridge.Prelude.{ℕ, ◌≤◌, String, ◌≡◌, refl, ◌∙◌, ap, ◌⊎◌, inl, inr, Option, none, List, ◌∷◌}
use cred_bridge.Result.{Error, ok}
use cred_bridge.Result.Rules.{
  Post, Ensures, Ensures-pure, Ensures-throw, Ensures-if_some, Ensures-bind, Ensures-weaken,
}
use cred_bridge.Env.{Env}
use cred_bridge.World.{World}
use cred_bridge.Stellar.Sdk.{
  ScVal, contract_call, Request, load_account, simulate_transaction, send_transaction, Tx, Envelope,
  signed, Simulation, simulated, not_simulated, Sent, success, Sdk,
}
use cred_bridge.Stellar.Net.{Net}
use cred_bridge.Stellar.Net.Rules.{Ensures-ask}
use cred_bridge.Stellar.Submit.{
  build, assemble, sign, tx_timeout_seconds, accept_simulation, send_and_wait, invoke_contract,
}
use cred_bridge.Stellar.Submit.Polling.{IsMonotone, polls, Answered, wait_for_confirmation-Ensures}

module _ (e : Env) where
  -- The tables are as before: only the clock may have been read.
  abbrev pub SameTables : Net e → Net e → Type 0
  SameTables n s = s.world ≡ record n.world { ticks = s.world.ticks }

  pub SameTables-trans : (n t s : Net e) → SameTables n t → SameTables t s → SameTables n s
  SameTables-trans n t s p q = q ∙ ap {A = World e} (λ w. record w { ticks = s.world.ticks }) p

module _ (e : Env) (sdk : Sdk e) where
  -- The envelope was sent after the requests of `before`, accepted, and seen to succeed under the
  -- hash that the answer gave.
  abbrev pub Confirmed : Envelope → List Request → String → Net e → Type 0
  Confirmed envelope before hash s =
      ((k : ℕ) × (k ≤ 30) × (s.requests ≡ polls k hash (send_transaction envelope ∷ before)))
      × Answered e sdk hash success s
      × ((sent : Sent) × (sdk.sent before envelope ≡ ok sent)
          × (sent.rejected ≡ none)
          × (sent.hash ≡ hash))

  module _ {Q : Option sdk.Value → Net e → Type 0} {E : Error → Net e → Type 0} where
    pub accept_simulation-Ensures :
        (label : String) (a : Simulation sdk.Value) (n : Net e)
        → ((v : Option sdk.Value) → a ≡ simulated v → Q v n)
        → ((x : Error) → E x n)
        → Ensures (accept_simulation e sdk label a) n Q E
    accept_simulation-Ensures label (simulated v) n q f = Ensures-pure _ _ (q v refl)
    accept_simulation-Ensures label (not_simulated text) n q f = Ensures-throw _ _ (f _)

  pub send_and_wait-Ensures :
      (envelope : Envelope) (label : String) (n : Net e)
      → IsMonotone e
      → Ensures
          (send_and_wait e sdk envelope label)
          n
          (λ hash s. Confirmed envelope n.requests hash s × SameTables e n s)
          (λ _ s. SameTables e n s)
  unfolding send_and_wait
  send_and_wait-Ensures envelope label n mono = Ensures-bind _ _ _ (
      Ensures-ask e _ _ _
        (λ sent is. Ensures-bind _ _ _ (
          Ensures-if_some _ _ _ _ (λ _ _. Ensures-throw _ _ refl)
            (λ accepted. Ensures-pure _ _ (
              Ensures-bind _ _ _ (
                Ensures-weaken _ _ (wait_for_confirmation-Ensures e sdk _ _ mono)
                  (λ _ s (answer, (k, few, requests, world)).
                    Ensures-pure _ _
                      (((k, few, requests), answer, (sent, is, accepted, refl)), world))
                  (λ _ s (_, (k, few, requests, world)). world))))))
        (λ _ _. refl))

  -- The transaction of an invocation, before it is assembled.
  abbrev pub invocation : sdk.Keypair → String → String → List ScVal → Tx
  invocation signer contract_id method args =
      build (sdk.public_key signer) (contract_call contract_id method args) none tx_timeout_seconds

  -- The requests before an invocation sends anything.
  abbrev pub prepared : sdk.Keypair → Tx → List Request → List Request
  prepared signer tx before =
      simulate_transaction tx ∷ load_account (sdk.public_key signer) ∷ before

  -- The invocation's transaction was simulated with success.
  abbrev pub WasSimulated : sdk.Keypair → Tx → List Request → Type 0
  WasSimulated signer tx before =
      (v : Option sdk.Value) × (sdk.simulation (load_account (sdk.public_key signer) ∷ before) tx
        ≡ ok (simulated v))

  -- The source's account was loaded and the transaction simulated with success; then the assembled
  -- transaction, signed by the source, was sent once and confirmed.
  abbrev pub Invoked : sdk.Keypair → Tx → Net e → String → Net e → Type 0
  Invoked signer tx n hash s =
      WasSimulated signer tx n.requests
      × Confirmed (signed (sign (sdk.public_key signer) (assemble tx)))
          (prepared signer tx n.requests) hash s
      × SameTables e n s

  -- Where an invocation fails nothing was sent, unless its simulation had succeeded.
  abbrev pub NotInvoked : sdk.Keypair → Tx → Net e → Net e → Type 0
  NotInvoked signer tx n s =
      (WasSimulated signer tx n.requests
        ⊎ ((s.requests ≡ load_account (sdk.public_key signer) ∷ n.requests)
            ⊎ (s.requests ≡ prepared signer tx n.requests)))
      × SameTables e n s

  pub invoke_contract-Ensures :
      (signer : sdk.Keypair) (contract_id method : String) (args : List ScVal) (n : Net e)
      → IsMonotone e
      → Ensures
          (invoke_contract e sdk signer contract_id method args)
          n
          (Invoked signer (invocation signer contract_id method args) n)
          (λ _ s. NotInvoked signer (invocation signer contract_id method args) n s)
  unfolding invoke_contract
  invoke_contract-Ensures signer contract_id method args n mono = Ensures-bind _ _ _ (
      Ensures-ask e _ _ _
        (λ _ _. Ensures-bind _ _ _ (
          Ensures-ask e _ _ _
            (λ answer is. Ensures-bind _ _ _ (
              accept_simulation-Ensures _ answer _
                (λ v good.
                  Ensures-weaken _ _ (send_and_wait-Ensures _ _ _ mono)
                    (λ hash s (sent, world). ((v, is ∙ ap ok good), sent, world))
                    (λ _ s world. (inl (v, is ∙ ap ok good), world)))
                (λ _. (inr (inr refl), refl))))
            (λ _ _. (inr (inr refl), refl))))
        (λ _ _. (inr (inl refl), refl)))

  -- An invocation of a contract on a clock that does not run backwards. Where it returns a hash, the
  -- signer's account was loaded, the call was simulated with success, the assembled transaction was
  -- sent once, signed by that signer, and accepted under the hash, and the last of at most thirty
  -- questions for that hash was answered by success; no other request was made. Where it throws,
  -- nothing was sent unless the simulation had succeeded. The tables stay as they were.
  pub invoke_contract-Invoked :
      (signer : sdk.Keypair) (contract_id method : String) (args : List ScVal) (n : Net e)
      → IsMonotone e
      → Post
          (Invoked signer (invocation signer contract_id method args) n)
          (λ _ s. NotInvoked signer (invocation signer contract_id method args) n s)
          (invoke_contract e sdk signer contract_id method args n).0
          (invoke_contract e sdk signer contract_id method args n).1
  invoke_contract-Invoked signer contract_id method args n mono =
      (invoke_contract-Ensures signer contract_id method args n mono).at
