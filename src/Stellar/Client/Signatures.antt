-- ===== src/Stellar/Client/Signatures.antt =====
-- A transaction that a user's wallet has signed is sent only where the signature is genuine.
use cred_bridge.Prelude.{ℕ, String, ◌≡◌, refl, ◌∙◌, ap, ◌⊎◌, inl, inr, true, some, List, unrefuted}
use cred_bridge.Result.{ok}
use cred_bridge.Result.Rules.{
  Post, Ensures, Ensures-bind, Ensures-lift, Ensures-or_throw, Ensures-throw_if, Ensures-weaken,
}
use cred_bridge.Authorizations.Hex.{strip_0x}
use cred_bridge.Env.{Env}
use cred_bridge.Stellar.Bytes.{hex_bytes}
use cred_bridge.Stellar.Sdk.{fee_bump, Sdk}
use cred_bridge.Stellar.Net.{Net, ContractConfig, configured, require_contract_config}
use cred_bridge.Stellar.Submit.Polling.{IsMonotone}
use cred_bridge.Stellar.Submit.Invocation.{SameTables, Confirmed, send_and_wait-Ensures}
use cred_bridge.Stellar.Client.{submit_signed_tx}

module _ (e : Env) (sdk : Sdk e) where
  -- The bytes of a signature in hexadecimal.
  abbrev pub signature_bytes : String → List ℕ
  signature_bytes hex = hex_bytes (strip_0x hex)

  -- The text is that of a transaction, and the signature one of its hash by the key.
  abbrev pub IsSigned : String → String → String → String → Type 0
  IsSigned xdr key signature inner =
      (sdk.from_xdr xdr ≡ ok inner) × (sdk.verify inner key (signature_bytes signature) ≡ ok true)

  -- The signed transaction was sent, within a fee bump that the platform pays for, and confirmed.
  abbrev pub Sponsored : String → String → String → Net e → String → Net e → Type 0
  Sponsored xdr key signature n hash s =
      (c : ContractConfig sdk) × (configured e sdk ≡ some c)
      × (inner : String) × IsSigned xdr key signature inner
      × Confirmed e sdk
          (fee_bump (sdk.public_key c.platform_keypair)
            (sdk.add_decorated_signature inner key (signature_bytes signature)))
          n.requests hash s
      × SameTables e n s

  -- Where it throws nothing was done, unless the signature is genuine.
  abbrev pub NotSponsored : String → String → String → Net e → Net e → Type 0
  NotSponsored xdr key signature n s =
      (s ≡ n) ⊎ (((inner : String) × IsSigned xdr key signature inner) × SameTables e n s)

  submit_signed_tx-Ensures :
      (xdr key signature : String) (n : Net e)
      → IsMonotone e
      → Ensures
          (submit_signed_tx e sdk xdr key signature)
          n
          (Sponsored xdr key signature n)
          (λ _ s. NotSponsored xdr key signature n s)
  unfolding submit_signed_tx require_contract_config
  submit_signed_tx-Ensures xdr key signature n mono = Ensures-bind _ _ _ (
      Ensures-or_throw _ _ _
        (λ _ _. Ensures-bind _ _ _ (
          Ensures-or_throw _ _ _
            (λ c is. Ensures-bind _ _ _ (
              Ensures-lift _ _
                (λ inner read. Ensures-bind _ _ _ (
                  Ensures-lift _ _
                    (λ valid verified. Ensures-bind _ _ _ (
                      Ensures-throw_if _ _ _ (λ _. inl refl)
                        (λ genuine.
                          let signed : IsSigned xdr key signature inner =
                            (read, verified ∙ ap ok (unrefuted valid genuine)) in
                          Ensures-weaken _ _ (send_and_wait-Ensures e sdk _ _ _ mono)
                            (λ hash s (sent, world). (c, is, inner, signed, sent, world))
                            (λ _ s world. inr ((inner, signed), world)))))
                    (λ _ _. inl refl)))
                (λ _ _. inl refl)))
            (λ _. inl refl)))
        (λ _. inl refl))

  -- A transaction that came back from a user's wallet, on a clock that does not run backwards. Where
  -- a hash is returned, the platform is configured, the signature is one of that transaction by the
  -- given key, and the transaction with this signature was sent once, in a fee bump of the
  -- platform's, and confirmed under that hash; no other request was made. Where it throws, nothing
  -- at all was done unless the signature was genuine. The tables stay as they were.
  pub submit_signed_tx-Sponsored :
      (xdr key signature : String) (n : Net e)
      → IsMonotone e
      → Post
          (Sponsored xdr key signature n)
          (λ _ s. NotSponsored xdr key signature n s)
          (submit_signed_tx e sdk xdr key signature n).0
          (submit_signed_tx e sdk xdr key signature n).1
  submit_signed_tx-Sponsored xdr key signature n mono =
      (submit_signed_tx-Ensures xdr key signature n mono).at
