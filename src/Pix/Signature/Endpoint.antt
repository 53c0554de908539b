-- ===== src/Pix/Signature/Endpoint.antt =====
-- pix.controller.ts: what becomes of a callback at the endpoint, checked or not.
use cred_bridge.Prelude.{
  unrefuted, ◌⊎◌, inl, inr, Bool-cases, ◌+◌, String, ◌≡◌, refl, ◌∙◌, Bool, true, false, not, Option,
  none, some, ◌==◌, or_else,
}
use cred_bridge.Result.{Result, ok, err, ◌>>=◌}
use cred_bridge.Result.Rules.{
  Post, Ensures, Ensures-bind, Ensures-when, Ensures-throw_if, Ensures-weaken, bind_returned,
  when_set, passed,
}
use cred_bridge.Env.{Env}
use cred_bridge.World.{World}
use cred_bridge.World.Rules.{SameButTicks}
use cred_bridge.Pix.Signature.{
  verify_pix_callback_signature, check_signature, receive_pix_webhook, process_body, WebhookBody,
}
use cred_bridge.Pix.Signature.Genuine.{
  IsGenuine, verified-IsGenuine, genuine_verified, verify_pix_callback_signature-IsGenuine,
}

says_true : (r : Result Bool) → (r ≡ ok true) ⊎ (¬ (r ≡ ok true))
says_true (ok true) = inl refl
says_true (ok false) = inr (λ h. cc)
says_true (err x) = inr (λ h. cc)

module _ (e : Env) where
  -- `PIX_WEBHOOK_SECRET`, empty where it is not set.
  abbrev pub configured_secret : String
  configured_secret = or_else (e.config "PIX_WEBHOOK_SECRET") ""

  -- `PIX_WEBHOOK_MAX_SKEW_SECONDS`
  abbrev pub configured_skew : e.Number
  configured_skew = e.to_number (or_else (e.config "PIX_WEBHOOK_MAX_SKEW_SECONDS") "300")

  -- Genuine under the settings.
  abbrev pub IsVouched : String → Option String → Option String → World e → Type 0
  IsVouched raw_body sh th w = IsGenuine e raw_body sh th configured_secret configured_skew w

  no_text : (b : Bool) → b ≡ false → not b ≡ false → ⊥
  no_text b h k = cc

  check_signature-refuses :
      (raw_body : String) (sh th : Option String) (w : World e)
      → (configured_secret == "") ≡ false
      → ¬ IsVouched raw_body sh th w
      → Ensures (check_signature e (some raw_body) sh th) w (λ _ _. ⊥) (λ _. SameButTicks e w)
  unfolding check_signature
  check_signature-refuses raw_body sh th w set forged =
      Ensures-when _ _ _
        (λ _. Ensures-bind _ _ _ (
          Ensures-weaken _ _
            (verified-IsGenuine e raw_body sh th configured_secret configured_skew w)
            (λ b s (genuine, same).
              Ensures-throw_if _ _ _ (λ _. same) (λ yes. forged (genuine (unrefuted b yes))))
            (λ _ s same. same)))
        (λ unset. no_text _ set unset)

  check_signature-passes :
      (raw_body : String) (sh th : Option String) (w : World e)
      → (configured_secret == "") ≡ false
      → IsVouched raw_body sh th w
      → check_signature e (some raw_body) sh th w ≡ (ok tt, record w { ticks = w.ticks + 1 })
  unfolding check_signature
  check_signature-passes raw_body sh th w set genuine =
      when_set _ _ _ set
      ∙ bind_returned _ _ _ _ _
          (genuine_verified e raw_body sh th configured_secret configured_skew w genuine)
      ∙ passed _ _

  -- A callback is genuine or not: the verification decides it.
  verdict :
      (raw_body : String) (sh th : Option String) (w : World e)
      → IsVouched raw_body sh th w ⊎ (¬ IsVouched raw_body sh th w)
  verdict raw_body sh th w =
      let m = verify_pix_callback_signature e raw_body sh th configured_secret configured_skew in
      let decided =
        verify_pix_callback_signature-IsGenuine e raw_body sh th configured_secret configured_skew
          w in
      elim (says_true (m w).0) [
        | inl accepted ↦ inl (decided.0 accepted)
        | inr rejected ↦ inr (λ genuine. rejected (decided.1 genuine))
      ]

  -- The request carries no raw body, or no secret is set.
  abbrev pub IsUnchecked : Option String → Type 0
  IsUnchecked raw_body = (raw_body ≡ none) ⊎ ((configured_secret == "") ≡ true)

  abbrev pub IsChecked : Option String → String → Type 0
  IsChecked raw_body text = (raw_body ≡ some text) × ((configured_secret == "") ≡ false)

  -- What becomes of a callback that is checked.
  abbrev pub IsJudged :
      String
      → Option String
      → Option String
      → Option String
      → WebhookBody e.Number
      → World e
      → Type 0
  IsJudged text raw_body sh th body w =
      (IsVouched text sh th w
        × (receive_pix_webhook e raw_body sh th body w
            ≡ process_body e body (record w { ticks = w.ticks + 1 })))
      ⊎ ((¬ IsVouched text sh th w)
          × Post (λ _ _. ⊥) (λ _. SameButTicks e w) (receive_pix_webhook e raw_body sh th body w).0
              (receive_pix_webhook e raw_body sh th body w).1)

  checked-IsJudged :
      (text : String) (sh th : Option String) (body : WebhookBody e.Number) (w : World e)
      → (configured_secret == "") ≡ false
      → IsJudged text (some text) sh th body w
  unfolding receive_pix_webhook
  checked-IsJudged text sh th body w set = elim (verdict text sh th w) [
    | inl genuine ↦
        inl (genuine, bind_returned _ _ _ _ _ (check_signature-passes text sh th w set genuine))
    | inr forged ↦ inr (
      forged,
      (Ensures-bind _ _ _ (
          Ensures-weaken _ _ (check_signature-refuses text sh th w set forged)
            (λ _ _ never. elim never [ ]) (λ _ s same. same))).at,
    )
  ]

  unchecked_processed :
      (text : String) (sh th : Option String) (body : WebhookBody e.Number) (w : World e)
      → (configured_secret == "") ≡ true
      → receive_pix_webhook e (some text) sh th body w ≡ process_body e body w
  unfolding receive_pix_webhook check_signature ◌>>=◌
  unchecked_processed text sh th body w unset = rw unset

  unread_processed :
      (sh th : Option String) (body : WebhookBody e.Number) (w : World e)
      → receive_pix_webhook e none sh th body w ≡ process_body e body w
  unfolding receive_pix_webhook check_signature ◌>>=◌
  unread_processed sh th body w = refl

  -- Every callback falls under one of three cases. Where the request carries no raw body, or the
  -- secret is unset or empty, it is processed whatever its headers. Where there is a raw body and a
  -- secret, it is processed, one clock reading later, if it is genuine for them; if it is not, it is
  -- refused, and neither a table nor the list of calls is touched.
  pub callback_decided :
      (raw_body sh th : Option String) (body : WebhookBody e.Number) (w : World e)
      → (IsUnchecked raw_body
          × (receive_pix_webhook e raw_body sh th body w ≡ process_body e body w))
        ⊎ ((text : String) × IsChecked raw_body text × IsJudged text raw_body sh th body w)
  callback_decided none sh th body w = inl (inl refl, unread_processed sh th body w)
  callback_decided (some text) sh th body w = elim (Bool-cases (configured_secret == "")) [
    | inl unset ↦ inl (inr unset, unchecked_processed text sh th body w unset)
    | inr set ↦ inr (text, (refl, set), checked-IsJudged text sh th body w set)
  ]
