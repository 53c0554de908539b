-- ===== src/Authorizations/Verification.antt =====
-- An authorization is verified only by the wallet's signature over its payload.
use cred_bridge.Prelude.{
  ℕ, String, ◌≡◌, refl, sym, ap, ◌∙◌, Bool, true, false, not, Option, none, some, ◌==◌, ◌||◌,
  if◌then◌else◌, is_some, ltb, unrefuted, eq_iff, arith,
}
use cred_bridge.Result.{ok, err, Result}
use cred_bridge.Result.Rules.{
  Post, Ensures, Ensures-pure, Ensures-bind, Ensures-or_throw, Ensures-throw_if, Ensures-weaken,
}
use cred_bridge.Schema.{Fields, FinancialAuthorization, User}
use cred_bridge.Env.{Env, DatabaseLaws}
use cred_bridge.Env.Lookup.{find-update_self, update_found, some_eq}
use cred_bridge.World.{World, users, authorizations}
use cred_bridge.World.Rules.{Ensures-now, Ensures-find_unique, Ensures-update, Ensures-audit_create}
use cred_bridge.Authorizations.{VerifyDto, of_user, check_assertion, verify}
use cred_bridge.Authorizations.Hex.{
  non_empty_text, strip_0x, verified, verify_privy_raw_hash_signature,
}
use cred_bridge.Pix.Orders.{field}

module _ (e : Env) where
  -- The assertion carries a signature that the wallet's key accepts for the hash.
  abbrev pub IsSigned : Option String → String → Fields e.Number → String → Type 0
  IsSigned address wallet assertion hash =
      (text : String) × (address ≡ some wallet)
      × (non_empty_text (field "signature" assertion) ≡ some text)
      × (e.keypair_verify wallet hash (strip_0x text) ≡ ok true)

  accepted : (r : Result Bool) → not (verified e r) ≡ false → r ≡ ok true
  accepted (ok true) h = refl
  accepted (ok false) h = cc
  accepted (err x) h = cc

  same_wallet : (a b : String) (empty : Bool) → (empty || not (a == b)) ≡ false → a ≡ b
  same_wallet a b empty h = (eq_iff a b).0 (ground arith)

  verify_privy_raw_hash_signature-IsSigned :
      (address : Option String) (wallet : String) (assertion : Fields e.Number) (hash : String)
      (w : World e)
      → Ensures
          (verify_privy_raw_hash_signature e address wallet assertion hash)
          w
          (λ _ s. IsSigned address wallet assertion hash × (s ≡ w))
          (λ _ s. s ≡ w)
  unfolding verify_privy_raw_hash_signature
  verify_privy_raw_hash_signature-IsSigned address wallet assertion hash w = Ensures-bind _ _ _ (
      Ensures-or_throw _ _ _
        (λ a is_a. Ensures-bind _ _ _ (
          Ensures-throw_if _ _ _ (λ _. refl)
            (λ own. Ensures-bind _ _ _ (
              Ensures-bind _ _ _ (
                Ensures-throw_if _ _ _ (λ _. refl)
                  (λ _. Ensures-bind _ _ _ (
                    Ensures-or_throw _ _ _
                      (λ text has. Ensures-pure _ _ (
                        Ensures-bind _ _ _ (
                          Ensures-bind _ _ _ (
                            Ensures-throw_if _ _ _ (λ _. refl)
                              (λ _. Ensures-pure _ _ (
                                Ensures-bind _ _ _ (
                                  Ensures-bind _ _ _ (
                                    Ensures-throw_if _ _ _ (λ _. refl)
                                      (λ _. Ensures-pure _ _ (
                                        Ensures-throw_if _ _ _ (λ _. refl)
                                          (λ good. (
                                            (
                                              text,
                                              is_a ∙ ap some (same_wallet a wallet _ own),
                                              has,
                                              accepted _ good,
                                            ),
                                            refl,
                                          ))))))))))))
                      (λ _. refl))))))))
        (λ _. refl))

  abbrev pub address_of : Option (User e.Number) → Option String
  address_of owner = elim owner [ none ↦ none | some user ↦ user.privy_stellar_wallet_address ]

  -- The authorization was the user's, open and signed, and is stored as verified.
  abbrev pub Verified : String → VerifyDto e.Number → World e → World e → Type 0
  Verified user_id dto w s =
      (a : FinancialAuthorization e.Number) × (time : ℕ) × (e.find_unique (authorizations e).key
          dto.authorization_id w.authorizations
        ≡ some a)
      × (a.user_id ≡ user_id)
      × (is_some a.consumed_at ≡ false)
      × (ltb a.expires_at (e.clock w.ticks) ≡ false)
      × (a.payload_hash ≡ dto.payload_hash)
      × IsSigned (address_of (e.find_unique (users e).key a.user_id w.users)) a.wallet_id
          dto.assertion a.payload_hash
      × (e.find_unique (authorizations e).key dto.authorization_id s.authorizations
          ≡ some (record a { signature = some dto.assertion; verified_at = some (e.clock time) }))

  own_row :
      (user_id : String) (b a : FinancialAuthorization e.Number) (own : Bool)
      → (b.user_id == user_id) ≡ own
      → (if own then some b else none) ≡ some a
      → (some b ≡ some a) × (a.user_id ≡ user_id)
  own_row user_id b a true is h =
      (h, sym (ap (λ x. x.user_id) (some_eq b a h)) ∙ (eq_iff b.user_id user_id).0 is)
  own_row user_id b a false is h = cc

  of_user-eq_some :
      (user_id : String) (o : Option (FinancialAuthorization e.Number))
      (a : FinancialAuthorization e.Number)
      → of_user e user_id o ≡ some a
      → (o ≡ some a) × (a.user_id ≡ user_id)
  of_user-eq_some user_id none a h = cc
  of_user-eq_some user_id (some b) a h = own_row user_id b a (b.user_id == user_id) refl h

module _ (e : Env) (laws : DatabaseLaws e) where
  -- The write of the row that was read under this key.
  row_stored :
      (k : String) (a : FinancialAuthorization e.Number)
      (f : FinancialAuthorization e.Number → FinancialAuthorization e.Number)
      (before rows t : e.Rows (FinancialAuthorization e.Number))
      (r : FinancialAuthorization e.Number)
      → ((x : FinancialAuthorization e.Number) → some (f x).id ≡ some x.id)
      → e.find_unique (authorizations e).key k before ≡ some a
      → rows ≡ before
      → e.update (authorizations e).key a.id f rows ≡ ok (r, t)
      → e.find_unique (authorizations e).key k t ≡ some (f a)
  row_stored k a f before rows t r keeps was same wrote =
      let id = some_eq _ _ (laws.find_has_key (authorizations e).key k before a was) in
      let is =
        update_found e laws (authorizations e).key a.id a f rows t r
          (ap (λ j. e.find_unique (authorizations e).key j rows) id
            ∙ ap (λ l. e.find_unique (authorizations e).key k l) same
            ∙ was)
          wrote in
      ap (λ j. e.find_unique (authorizations e).key j t) (sym id)
      ∙ find-update_self e laws (authorizations e).key a.id f rows t r keeps wrote
      ∙ ap some is

  verify-Ensures :
      (user_id : String) (dto : VerifyDto e.Number) (w : World e)
      → Ensures
          (verify e user_id dto)
          w
          (λ _ s. Verified e user_id dto w s × (s.calls ≡ w.calls))
          (λ _ s. s.calls ≡ w.calls)
  unfolding verify check_assertion
  verify-Ensures user_id dto w = Ensures-bind _ _ _ (
      Ensures-bind _ _ _ (
        Ensures-find_unique e (authorizations e) _ _ (
          Ensures-bind _ _ _ (
            Ensures-or_throw _ _ _
              (λ a found. Ensures-bind _ _ _ (
                Ensures-find_unique e (users e) _ _ (
                  Ensures-bind _ _ _ (
                    Ensures-throw_if _ _ _ (λ _. refl)
                      (λ unused. Ensures-bind _ _ _ (
                        Ensures-now e _ (
                          Ensures-bind _ _ _ (
                            Ensures-throw_if _ _ _ (λ _. refl)
                              (λ in_time. Ensures-bind _ _ _ (
                                Ensures-throw_if _ _ _ (λ _. refl)
                                  (λ same_hash. Ensures-bind _ _ _ (
                                    Ensures-weaken _ _
                                      (verify_privy_raw_hash_signature-IsSigned e _ _ _ _ _)
                                      (λ _ s (signed, same). Ensures-pure _ _ (
                                        Ensures-bind _ _ _ (
                                          Ensures-now e _ (
                                            Ensures-bind _ _ _ (
                                              Ensures-update e (authorizations e) _ _ _
                                                (λ r t wrote. Ensures-bind _ _ _ (
                                                  Ensures-audit_create e _ _ _ _ _ _ _
                                                    (λ logs. Ensures-pure _ _ (
                                                      let (was, own) =
                                                        of_user-eq_some e user_id _ a found in
                                                      (
                                                        (
                                                          a,
                                                          s.ticks,
                                                          was,
                                                          own,
                                                          unused,
                                                          in_time,
                                                          (eq_iff a.payload_hash dto.payload_hash).0
                                                            (unrefuted _ same_hash),
                                                          signed,
                                                          row_stored dto.authorization_id a _ _ _ _
                                                            _ (λ y. refl) was
                                                            (ap (λ v. v.authorizations) same) wrote,
                                                        ),
                                                        ap (λ v. v.calls) same,
                                                      )))
                                                    (λ x. ap (λ v. v.calls) same)))
                                                (λ x _. ap (λ v. v.calls) same))))))
                                      (λ x s same. ap (λ v. v.calls) same)))))))))))))
              (λ _. refl)))))

  -- An authorization is verified only by its wallet: when `verify` returns, the authorization that was
  -- named is the user's, was not consumed, had not expired at the clock reading that was taken, and
  -- has the payload hash of the request; the wallet that it names is its owner's, and that wallet's
  -- key accepts the signature of the assertion for the hash; and it is stored as verified, otherwise
  -- as it was. Whether it returns or refuses, no call leaves the process.
  pub verify-Verified :
      (user_id : String) (dto : VerifyDto e.Number) (w : World e)
      → Post
          (λ _ s. Verified e user_id dto w s × (s.calls ≡ w.calls))
          (λ _ s. s.calls ≡ w.calls)
          (verify e user_id dto w).0
          (verify e user_id dto w).1
  verify-Verified user_id dto w = (verify-Ensures user_id dto w).at
