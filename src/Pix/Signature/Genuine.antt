-- ===== src/Pix/Signature/Genuine.antt =====
-- pix-signature.ts: which headers the verification of a callback accepts.
use cred_bridge.Prelude.{
  ℕ, sym, ◌⊎◌, inl, inr, leb, concat, Bool-cases, ◌+◌, ◌/◌, ◌↔◌, String, ◌≡◌, refl, ap, ◌∙◌, true,
  false, Option, some, truthy, arith, eq_iff, str_refl,
}
use cred_bridge.Result.{ok, ◌>>=◌}
use cred_bridge.Result.Rules.{
  Ensures, Ensures-pure, Ensures-bind, Ensures-branch, Ensures-lift, Ensures-if_some,
  Ensures-returned,
}
use cred_bridge.Env.{Env}
use cred_bridge.World.{World, actions}
use cred_bridge.World.Rules.{SameButTicks, Ensures-now}
use cred_bridge.Pix.Signature.{
  Integer, positive, negative, parse_int, distance, timing_safe_equal, expected_header,
  compare_signature, verify_pix_callback_signature,
}

true_is_not_false : false ≡ true → ⊥
true_is_not_false h = cc

refused : (A : Type 0) → false ≡ true → A
refused A h = elim (true_is_not_false h) [ ]

-- So many seconds lie between the time now and an integer.
abbrev pub IsApart : ℕ → ℕ → Integer → Type 0
IsApart d time (positive t) = (d + t ≡ time) ⊎ (d + time ≡ t)
IsApart d time (negative t) = d ≡ time + t

distance-IsApart : (time : ℕ) (t : Integer) → IsApart (distance time t) time t
unfolding distance
distance-IsApart time (positive t) = elim (Bool-cases (leb t time)) [
  | inl before ↦ inl (ground arith)
  | inr after ↦ inr (ground arith)
]
distance-IsApart time (negative t) = refl

IsApart-distance : (d time : ℕ) (t : Integer) → IsApart d time t → d ≡ distance time t
unfolding distance
IsApart-distance d time (positive t) (inl h) = ground arith
IsApart-distance d time (positive t) (inr h) = ground arith
IsApart-distance d time (negative t) h = h

module _ (e : Env) where
  -- The headers stand for this body: both are there, the timestamp is an integer and no more seconds
  -- away from the clock than allowed, and the signature is the HMAC, under the secret, of the
  -- timestamp, a dot and the body.
  abbrev pub IsGenuine :
      String → Option String → Option String → String → e.Number → World e → Type 0
  IsGenuine raw_body signature_header timestamp_header secret max_skew w =
      (signature : String) × (timestamp : String) × (seconds : Integer) × (apart : ℕ) × (truthy
          signature_header
        ≡ some signature)
      × (truthy timestamp_header ≡ some timestamp)
      × (parse_int timestamp ≡ some seconds)
      × IsApart apart (e.clock w.ticks / 1000) seconds
      × (e.lt max_skew (e.of_nat apart) ≡ false)
      × (signature
          ≡ concat "sha256=" (e.hmac_sha256_hex secret (concat timestamp (concat "." raw_body))))

  same_text : (a b : String) → compare_signature e a b ≡ ok true → a ≡ b
  unfolding compare_signature timing_safe_equal
  same_text a b h = (eq_iff a b).0 (ground arith)

  compare_self : (a : String) → compare_signature e a a ≡ ok true
  unfolding compare_signature timing_safe_equal
  compare_self a = ground (arith, str_refl a)

  pub verified-IsGenuine :
      (raw_body : String) (sh th : Option String) (secret : String) (max_skew : e.Number)
      (w : World e)
      → Ensures
          (verify_pix_callback_signature e raw_body sh th secret max_skew)
          w
          (λ b s. (b ≡ true → IsGenuine raw_body sh th secret max_skew w) × SameButTicks e w s)
          (λ _. SameButTicks e w)
  unfolding verify_pix_callback_signature expected_header
  verified-IsGenuine raw_body sh th secret max_skew w =
      Ensures-if_some _ _ _ _
        (λ signature is_signature.
          Ensures-if_some _ _ _ _
            (λ timestamp is_timestamp.
              Ensures-if_some _ _ _ _
                (λ seconds is_seconds. Ensures-bind _ _ _ (
                  Ensures-now e _ (
                    Ensures-branch _ _ _ _ (λ _. Ensures-pure _ _ (refused _, refl))
                      (λ near.
                        Ensures-lift _ _
                          (λ b compared. (
                            (λ yes. (
                              signature,
                              timestamp,
                              seconds,
                              _,
                              is_signature,
                              is_timestamp,
                              is_seconds,
                              distance-IsApart _ seconds,
                              near,
                              same_text signature _ (compared ∙ ap ok yes),
                            )),
                            refl,
                          ))
                          (λ x _. refl)))))
                (λ _. Ensures-pure _ _ (refused _, refl)))
            (λ _. Ensures-pure _ _ (refused _, refl)))
        (λ _. Ensures-pure _ _ (refused _, refl))

  pub genuine_verified :
      (raw_body : String) (sh th : Option String) (secret : String) (max_skew : e.Number)
      (w : World e)
      → IsGenuine raw_body sh th secret max_skew w
      → verify_pix_callback_signature e raw_body sh th secret max_skew w
        ≡ (ok true, record w { ticks = w.ticks + 1 })
  unfolding verify_pix_callback_signature ◌>>=◌ actions expected_header
  genuine_verified raw_body sh th secret max_skew w
        (signature, timestamp, seconds, d, is_s, is_t, is_n, apart, near, same) =
      let close =
        ap (λ k. e.lt max_skew (e.of_nat k)) (sym (IsApart-distance _ _ seconds apart)) ∙ near in
      rw (is_s, is_t, is_n, close, same, compare_self (expected_header e secret timestamp raw_body))

  -- `verifyPixCallbackSignature`, given a raw body, answers true exactly for a genuine callback: both
  -- headers are there and not empty, the timestamp reads as an integer, it lies no more seconds before
  -- or after the clock than the skew allows, and the signature is "sha256=" and the HMAC, under the
  -- secret, of the timestamp, a dot and the raw body.
  pub verify_pix_callback_signature-IsGenuine :
      (raw_body : String) (sh th : Option String) (secret : String) (max_skew : e.Number)
      (w : World e)
      → ((verify_pix_callback_signature e raw_body sh th secret max_skew w).0 ≡ ok true)
        ↔ IsGenuine raw_body sh th secret max_skew w
  verify_pix_callback_signature-IsGenuine raw_body sh th secret max_skew w =
      let m = verify_pix_callback_signature e raw_body sh th secret max_skew in
      (
        (λ yes.
            (Ensures-returned m w (m w).1 true (verified-IsGenuine raw_body sh th secret max_skew w)
                (ap (λ r. (r, (m w).1)) yes)).0
              refl),
        (λ genuine. ap (λ o. o.0) (genuine_verified raw_body sh th secret max_skew w genuine)),
      )
