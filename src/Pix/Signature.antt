-- ===== src/Pix/Signature.antt =====
-- apps/api/src/modules/pix/pix-signature.ts, and the webhook endpoint of pix.controller.ts.
pub mod Genuine
pub mod Endpoint
use Prim.Native.Char.{Char, code}
use Prim.Native.String.{[], ◌∷◌}
use cred_bridge.Prelude.{
  ℕ, ◌+◌, ◌-◌, ◌*◌, ◌/◌, String, Bool, false, not, ◌&&◌, ◌||◌, Option, none, some, ltb, leb, eqb,
  ◌==◌, truthy, or_else, concat, if◌then◌else◌,
}
use cred_bridge.Result.{
  Result, ok, err, failure, unauthorized, pure, lift, throw_if, when, branch, if_some, ◌>>=◌, ◌>>◌,
}
use cred_bridge.Env.{Env}
use cred_bridge.World.{M, now}
use cred_bridge.Pix.Dto.{PixWebhookDto, PixCollectionWebhookDto}
use cred_bridge.Pix.Callbacks.{process_pix_order_callback}
use cred_bridge.Pix.Collections.{process_collection_callback}

abbrev pub is_digit : Char → Bool
is_digit c = leb 48 (code c) && leb (code c) 57

-- The white space that `parseInt` skips.
abbrev pub is_space : Char → Bool
is_space c =
    leb 9 (code c) && leb (code c) 13
    || eqb (code c) 32
    || eqb (code c) 160
    || eqb (code c) 5760
    || leb 8192 (code c) && leb (code c) 8202
    || eqb (code c) 8232
    || eqb (code c) 8233
    || eqb (code c) 8239
    || eqb (code c) 8287
    || eqb (code c) 12288
    || eqb (code c) 65279

-- The digits at the front, read after others: `none` only where there is none at all.
unfoldable pub read_digits : Option ℕ → String → Option ℕ
read_digits n [] = n
read_digits n (c ∷ s) =
    let rest = read_digits (some (or_else n 0 * 10 + (code c - 48))) s in
    if is_digit c then rest else n

-- An integer of JavaScript, as `parseInt` returns it.
pub data Integer : Type 0 where
  positive negative : ℕ → Integer

abbrev pub signed : (ℕ → Integer) → Option ℕ → Option Integer
signed sign none = none
signed sign (some n) = some (sign n)

unfoldable pub parse_signed : String → Option Integer
unfolding read_digits
parse_signed [] = none
parse_signed (c ∷ s) =
    if eqb (code c) 45
    then signed negative (read_digits none s)
    else if eqb (code c) 43
    then signed positive (read_digits none s)
    else signed positive (read_digits none (c ∷ s))

-- `parseInt(s, 10)`: `none` is NaN.
unfoldable pub parse_int : String → Option Integer
unfolding parse_signed
parse_int [] = none
parse_int (c ∷ s) = let rest = parse_int s in if is_space c then rest else parse_signed (c ∷ s)

-- `Math.abs(now - t)`
unfoldable pub distance : ℕ → Integer → ℕ
distance now (positive t) = if leb t now then now - t else t - now
distance now (negative t) = now + t

-- `s.length`: UTF-16 units.
unfoldable pub utf16_length : String → ℕ
utf16_length [] = 0
utf16_length (c ∷ s) = (if ltb (code c) 65536 then 1 else 2) + utf16_length s

-- `Buffer.from(s).length`: bytes of UTF-8.
unfoldable pub utf8_length : String → ℕ
utf8_length [] = 0
utf8_length (c ∷ s) =
    (if ltb (code c) 128
      then 1
      else if ltb (code c) 2048
      then 2
      else if ltb (code c) 65536
      then 3
      else 4)
    + utf8_length s

-- `crypto.timingSafeEqual(Buffer.from(a), Buffer.from(b))`, which throws on buffers of two lengths.
unfoldable pub timing_safe_equal : String → String → Result Bool
unfolding utf8_length
timing_safe_equal a b =
    if eqb (utf8_length a) (utf8_length b)
    then ok (a == b)
    else err (failure "RangeError" "Input buffers must have the same byte length")

-- The body of a callback: its field `type` is COLLECTION, or it is not.
pub data WebhookBody (N : Type 0) : Type 0 where
  collection : PixCollectionWebhookDto N → WebhookBody N
  order : PixWebhookDto N → WebhookBody N

module _ (e : Env) where
  -- The header that the microservice sends with this body at this time.
  unfoldable pub expected_header : String → String → String → String
  expected_header secret timestamp raw_body =
      concat "sha256=" (e.hmac_sha256_hex secret (concat timestamp (concat "." raw_body)))

  -- The comparison at the end of `verifyPixCallbackSignature`.
  unfoldable pub compare_signature : String → String → Result Bool
  unfolding utf16_length timing_safe_equal
  compare_signature signature expected =
      if not (eqb (utf16_length signature) (utf16_length expected))
      then ok false
      else timing_safe_equal signature expected

  -- Past the tests of the headers: the clock, and the comparison.
  unfoldable pub verify_at : String → String → String → String → e.Number → Integer → M e Bool
  unfolding compare_signature distance expected_header
  verify_at raw_body signature timestamp secret max_skew_seconds timestamp_seconds = do
    now_ms ← now e
    branch (e.lt max_skew_seconds (e.of_nat (distance (now_ms / 1000) timestamp_seconds)))
        (pure false)
        (lift (compare_signature signature (expected_header secret timestamp raw_body)))

  unfoldable pub verify_pix_callback_signature :
      String → Option String → Option String → String → e.Number → M e Bool
  unfolding verify_at parse_int
  verify_pix_callback_signature raw_body signature_header timestamp_header secret max_skew =
      if_some (truthy signature_header)
        (λ signature.
          if_some (truthy timestamp_header)
            (λ timestamp.
              if_some (parse_int timestamp) (verify_at raw_body signature timestamp secret max_skew)
                (pure false))
            (pure false))
        (pure false)

  unfoldable pub webhook_secret : String
  webhook_secret = or_else (e.config "PIX_WEBHOOK_SECRET") ""

  unfoldable pub process_body : WebhookBody e.Number → M e (Unit {0})
  process_body (collection dto) = process_collection_callback e dto
  process_body (order dto) = process_pix_order_callback e dto

  -- The check of the signature, which is made only with a secret and a raw body.
  unfoldable pub check_signature : Option String → Option String → Option String → M e (Unit {0})
  unfolding webhook_secret verify_pix_callback_signature
  check_signature none signature_header timestamp_header = pure tt
  check_signature (some raw_body) signature_header timestamp_header =
      when (not (webhook_secret == "")) (do
        is_valid ←
            verify_pix_callback_signature raw_body signature_header timestamp_header webhook_secret
              (e.to_number (or_else (e.config "PIX_WEBHOOK_MAX_SKEW_SECONDS") "300"))
        throw_if (not is_valid) (unauthorized "Assinatura do webhook Pix inválida"))

  -- `receivePixWebhook`; the answer is always `{ status: 'ok' }`.
  unfoldable pub receive_pix_webhook :
      Option String → Option String → Option String → WebhookBody e.Number → M e (Unit {0})
  unfolding check_signature process_body
  receive_pix_webhook raw_body signature_header timestamp_header body = do
    check_signature raw_body signature_header timestamp_header
    process_body body
