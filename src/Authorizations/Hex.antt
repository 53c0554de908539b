-- ===== src/Authorizations/Hex.antt =====
-- The private helpers of apps/api/src/modules/financial-authorizations/
-- financial-authorizations.service.ts that read a wallet's signature.
use Prim.Native.Char.{Char, code}
use Prim.Native.String.{[], ◌∷◌}
use cred_bridge.Prelude.{
  ℕ, suc, ◌*◌, String, Bool, true, false, not, ◌&&◌, ◌||◌, Option, none, some, leb, eqb, ◌==◌,
  if◌then◌else◌,
}
use cred_bridge.Result.{
  Error, Result, ok, err, authorization, authorization_invalid, pure, or_throw, throw_if, ◌>>=◌,
  ◌>>◌,
}
use cred_bridge.Schema.{Json, Fields, str}
use cred_bridge.Env.{Env}
use cred_bridge.World.{M}
use cred_bridge.Pix.Orders.{field}

-- `[0-9a-fA-F]`
abbrev pub is_hex_digit : Char → Bool
is_hex_digit c =
    leb 48 (code c) && leb (code c) 57
    || leb 97 (code c) && leb (code c) 102
    || leb 65 (code c) && leb (code c) 70

unfoldable pub all_hex : String → Bool
all_hex [] = true
all_hex (c ∷ s) = is_hex_digit c && all_hex s

-- `/^[0-9a-fA-F]+$/`
unfoldable pub is_hex : String → Bool
unfolding all_hex
is_hex s = not (s == "") && all_hex s

unfoldable pub text_length : String → ℕ
text_length [] = 0
text_length (c ∷ s) = suc (text_length s)

-- `s.startsWith('0x') ? s.slice(2) : s`
unfoldable pub strip_0x : String → String
strip_0x [] = []
strip_0x (a ∷ []) = a ∷ []
strip_0x (a ∷ b ∷ s) = if a ∷ b ∷ [] == "0x" then s else a ∷ b ∷ s

abbrev pub is_text : {N : Type 0} → Option (Json N) → String → Bool
is_text none s = false
is_text (some (str t)) s = t == s
is_text (some _) s = false

-- `isNonEmptyString` and the value
abbrev pub non_empty_text : {N : Type 0} → Option (Json N) → Option String
non_empty_text none = none
non_empty_text (some (str t)) = if t == "" then none else some t
non_empty_text (some _) = none

abbrev pub invalid_signature : Error
invalid_signature = authorization authorization_invalid "Privy signature is invalid"

module _ (e : Env) where
  unfoldable pub read_privy_raw_hash_signature : Fields e.Number → String → M e String
  unfolding strip_0x
  read_privy_raw_hash_signature assertion wallet_id = do
    throw_if
        (not (is_text (field "type" assertion) "privy_raw_hash")
          || not (is_text (field "address" assertion) wallet_id))
        invalid_signature
    signature ← or_throw (non_empty_text (field "signature" assertion)) invalid_signature
    pure (strip_0x signature)

  -- The bytes are kept as their hexadecimal text.
  unfoldable pub read_hex_bytes : String → ℕ → M e String
  unfolding is_hex text_length
  read_hex_bytes value byte_length = do
    throw_if (not (is_hex value) || not (eqb (text_length value) (byte_length * 2)))
        invalid_signature
    pure value

  -- An error of the key pair counts as a refusal.
  abbrev pub verified : Result Bool → Bool
  verified (ok b) = b
  verified (err x) = false

  unfoldable pub verify_privy_raw_hash_signature :
      Option String → String → Fields e.Number → String → M e (Unit {0})
  unfolding read_privy_raw_hash_signature read_hex_bytes
  verify_privy_raw_hash_signature address wallet_id assertion expected_payload_hash = do
    wallet ← or_throw address invalid_signature
    throw_if (wallet == "" || not (wallet == wallet_id)) invalid_signature
    signature ← read_privy_raw_hash_signature assertion wallet_id
    payload_hash_bytes ← read_hex_bytes expected_payload_hash 32
    signature_bytes ← read_hex_bytes signature 64
    throw_if (not (verified (e.keypair_verify wallet_id payload_hash_bytes signature_bytes)))
        (authorization authorization_invalid "Privy signature verification failed")
