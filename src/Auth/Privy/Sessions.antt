-- ===== src/Auth/Privy/Sessions.antt =====
-- A Privy session is opened only for the one user that both tokens name, and links their wallet alone.
use mathlib.Core.Path.{subst}
use cred_bridge.Prelude.{
  ℕ, Option, String, ◌≡◌, refl, sym, ap, ◌∙◌, ◌⊎◌, inl, inr, none, some, List, ◌∷◌, read_truthy,
  same_text,
}
use cred_bridge.Result.{Error, ok, unauthorized, pure, ◌>>=◌}
use cred_bridge.Result.Rules.{
  Post, Ensures, Ensures-pure, Ensures-throw, Ensures-bind, Ensures-or_throw, Ensures-throw_if,
  Ensures-if_some, Ensures-try_catch, Ensures-when, Ensures-weaken,
}
use cred_bridge.Schema.{User}
use cred_bridge.Ports.{fund_account_from_platform}
use cred_bridge.Env.{Env, DatabaseLaws}
use cred_bridge.World.{World, users, update}
use cred_bridge.World.Rules.{
  SameButTicks, UserChanged, Ensures-find_unique_by, Ensures-send_off, Ensures-update_user,
}
use cred_bridge.Auth.Clients.{AuthClients, LinkedAccount}
use cred_bridge.Auth.Clients.Rules.{Ensures-query}
use cred_bridge.Auth.{email_of, issue_token}
use cred_bridge.Auth.Passwords.{IssuedFor, issue_token-IssuedFor}
use cred_bridge.Auth.Privy.Linked.{IsFirst, HasEmail, HasWallet, linked_email, linked_wallet}
use cred_bridge.Auth.Privy.{
  VerifiedPrivySession, PrivySession, session_of, unauthorized_only, privy_fields, check_session,
  verify_session, link_user, privy_session,
}

module _ (e : Env) (clients : AuthClients) where
  -- Both tokens name the user of Privy; of their accounts, the first with an email address has, in
  -- lower case, the email, and the first with a Stellar wallet of Privy has the wallet.
  abbrev pub Vouched : String → String → VerifiedPrivySession → Type 0
  Vouched access_token identity_token identity =
      ((t : ℕ) × (clients.verify_access_token t access_token ≡ ok (some identity.privy_user_id)))
      × ((t : ℕ) × (clients.verify_identity_token t identity_token
            ≡ ok (some identity.privy_user_id)))
      × ((t : ℕ) × (accounts : List LinkedAccount) × (address : String) × (clients.linked_accounts t
              identity.privy_user_id
            ≡ ok accounts)
          × IsFirst HasEmail accounts address
          × (identity.email ≡ clients.to_lower_case address)
          × IsFirst HasWallet accounts identity.stellar_wallet_address)

  lowered :
      (found : Option String) (text : String)
      → (elim found as (λ _. Option String) [
        | none ↦ none
        | some address ↦ some (clients.to_lower_case address)
      ])
        ≡ some text
      → (address : String) × (found ≡ some address) × (text ≡ clients.to_lower_case address)
  lowered none text h = cc
  lowered (some address) text h = (address, refl, cc)

  abbrev pub IsUnauthorized : Error → Type 0
  IsUnauthorized x = (m : String) × (x ≡ unauthorized m)

  is_unauthorized : (x : Error) → IsUnauthorized (unauthorized_only x)
  is_unauthorized (unauthorized m) = (m, refl)
  is_unauthorized x = (_, refl)

  check_session-Vouched :
      (access_token identity_token : String) (w : World e)
      → Ensures
          (check_session e clients access_token identity_token)
          w
          (λ identity s. Vouched access_token identity_token identity × SameButTicks e w s)
          (λ _ s. SameButTicks e w s)
  unfolding check_session
  check_session-Vouched access_token identity_token w = Ensures-bind _ _ _ (
      Ensures-query e _ _
        (λ claims said. Ensures-bind _ _ _ (
          Ensures-query e _ _
            (λ identity named. Ensures-bind _ _ _ (
              Ensures-or_throw _ _ _
                (λ claimed is. Ensures-bind _ _ _ (
                  Ensures-or_throw _ _ _
                    (λ identified is'. Ensures-bind _ _ _ (
                      Ensures-throw_if _ _ _ (λ _. refl)
                        (λ same. Ensures-bind _ _ _ (
                          Ensures-query e _ _
                            (λ accounts listed. Ensures-bind _ _ _ (
                              Ensures-or_throw _ _ _
                                (λ address has. Ensures-bind _ _ _ (
                                  Ensures-or_throw _ _ _
                                    (λ stellar owns.
                                      let (raw, named_first, is_lower) =
                                        lowered _ _ (read_truthy _ _ has) in
                                      Ensures-pure _ _ (
                                        (
                                          (_, said ∙ ap ok (read_truthy _ _ is)),
                                          (
                                            _,
                                            named
                                                ∙ ap ok (
                                                    read_truthy _ _ is'
                                                    ∙ ap some (sym (same_text _ _ same))),
                                          ),
                                          (
                                            _,
                                            accounts,
                                            raw,
                                            listed,
                                            linked_email accounts raw named_first,
                                            is_lower,
                                            linked_wallet accounts stellar owns,
                                          ),
                                        ),
                                        refl,
                                      ))
                                    (λ _. refl)))
                                (λ _. refl)))
                            (λ _ _. refl)))))
                    (λ _. refl)))
                (λ _. refl)))
            (λ _ _. refl)))
        (λ _ _. refl))

  verify_session-Vouched :
      (access_token identity_token : String) (w : World e)
      → Ensures
          (verify_session e clients access_token identity_token)
          w
          (λ identity s. Vouched access_token identity_token identity × SameButTicks e w s)
          (λ x s. IsUnauthorized x × SameButTicks e w s)
  unfolding verify_session
  verify_session-Vouched access_token identity_token w = Ensures-bind _ _ _ (
      Ensures-throw_if _ _ _ (λ _. ((_, refl), refl))
        (λ _. Ensures-try_catch _ _ _ (
          Ensures-weaken _ _ (check_session-Vouched access_token identity_token w) (λ _ s has. has)
            (λ x s same. Ensures-throw _ _ (is_unauthorized x, same)))))

  -- The user was found by the id of Privy, or, where nobody has it, by the email.
  abbrev pub FoundBy : VerifiedPrivySession → User e.Number → World e → Type 0
  FoundBy identity user w =
      (e.find_unique (λ u. u.privy_user_id) identity.privy_user_id w.users ≡ some user)
      ⊎ ((e.find_unique (λ u. u.privy_user_id) identity.privy_user_id w.users ≡ none)
          × (e.find_unique email_of identity.email w.users ≡ some user))

  -- The user as before but for the provider, Privy's id, and the wallet, which is ready.
  abbrev pub with_wallet : VerifiedPrivySession → User e.Number → User e.Number
  with_wallet identity old = record old {
    provider = "privy";
    privy_user_id = some identity.privy_user_id;
    privy_stellar_wallet_address = some identity.stellar_wallet_address;
    privy_wallet_status = some "ready";
  }

  -- The row of the user that was found has taken the identity's id and wallet, and nothing else of
  -- the tables has changed.
  abbrev pub TookIdentity : VerifiedPrivySession → User e.Number → World e → World e → Type 0
  TookIdentity identity old w s =
      ((user : User e.Number) × FoundBy identity user w × (old.id ≡ user.id))
      × UserChanged e old (with_wallet identity old) w s

  module _ (laws : DatabaseLaws e) where
    taken :
        (identity : VerifiedPrivySession) (user : User e.Number) (w : World e)
        → FoundBy identity user w
        → Ensures
            (update e (users e) user.id (privy_fields identity))
            w
            (λ new s.
              (old : User e.Number) × (new ≡ with_wallet identity old)
              × TookIdentity identity old w s)
            (λ _ s. s ≡ w)
    taken identity user w found =
        Ensures-update_user e laws user.id (privy_fields identity) w (λ _. refl)
          (λ old s is wrote. (old, refl, ((user, found, is), wrote))) (λ _. refl)

    link_user-TookIdentity :
        (identity : VerifiedPrivySession) (w : World e)
        → Ensures
            (link_user e clients identity)
            w
            (λ new s.
              (old : User e.Number) × (new ≡ with_wallet identity old)
              × TookIdentity identity old w s)
            (λ _ s. s ≡ w)
    unfolding link_user
    link_user-TookIdentity identity w = Ensures-bind _ _ _ (
        Ensures-find_unique_by e (users e) _ _ _ (
          Ensures-if_some _ _ _ _ (λ user found. taken identity user w (inl found))
            (λ unknown. Ensures-bind _ _ _ (
              Ensures-find_unique_by e (users e) _ _ _ (
                Ensures-bind _ _ _ (
                  Ensures-or_throw _ _ _
                    (λ user found. taken identity user w (inr (unknown, found))) (λ _. refl)))))))

  -- The funding of the wallet was asked for, or nothing was done.
  abbrev pub Funded : VerifiedPrivySession → World e → World e → Type 0
  Funded identity linked called =
      (called ≡ linked)
      ⊎ (called ≡ record linked {
        calls = fund_account_from_platform identity.stellar_wallet_address "1.0" ∷ linked.calls;
      })

  -- Both tokens vouch for an identity, which a known user has taken; beyond that, the wallet's
  -- funding may have been asked for, and nobody waits for it.
  abbrev pub Linked :
      String → String → VerifiedPrivySession → User e.Number → World e → World e → Type 0
  Linked access_token identity_token identity old w s =
      Vouched access_token identity_token identity
      × (before : World e) × SameButTicks e w before
      × (linked : World e) × TookIdentity identity old before linked
      × (called : World e) × Funded identity linked called
      × SameButTicks e called s

  -- The session's token was signed for the user that took the identity.
  abbrev pub Opened : String → String → PrivySession → World e → World e → Type 0
  Opened access_token identity_token session w s =
      (identity : VerifiedPrivySession) × (old : User e.Number) × Linked access_token identity_token
        identity old w s
      × IssuedFor e clients (with_wallet identity old) session.token
      × (session.privy_stellar_wallet_address ≡ some identity.stellar_wallet_address)

  abbrev pub NotOpened : String → String → World e → World e → Type 0
  NotOpened access_token identity_token w s =
      SameButTicks e w s
      ⊎ ((identity : VerifiedPrivySession) × (old : User e.Number) × Linked access_token
            identity_token identity old w s)

  same_back : (w v s : World e) → SameButTicks e w v → s ≡ v → SameButTicks e w s
  same_back w v s same back = subst (SameButTicks e w) (sym back) same

  -- The last step: the token of the user that was linked.
  issued-Opened :
      (access_token identity_token : String) (identity : VerifiedPrivySession)
      (new old : User e.Number) (w before linked called : World e)
      → new ≡ with_wallet identity old
      → Vouched access_token identity_token identity
      → SameButTicks e w before
      → TookIdentity identity old before linked
      → Funded identity linked called
      → Ensures
          (issue_token e clients new >>= λ token. pure (session_of token new))
          called
          (λ session s. Opened access_token identity_token session w s)
          (λ _ s. NotOpened access_token identity_token w s)
  issued-Opened access_token identity_token identity new old w before linked called is vouched same
        took funded =
      Ensures-bind _ _ _ (
        Ensures-weaken _ _ (issue_token-IssuedFor e clients new called)
          (λ token s (issued, last). Ensures-pure _ _ (
            identity,
            old,
            (vouched, before, same, linked, took, called, funded, last),
            subst (λ u. IssuedFor e clients u token) is issued,
            ap (λ u. u.privy_stellar_wallet_address) is,
          ))
          (λ _ s (_, last).
            inr (identity, old, (vouched, before, same, linked, took, called, funded, last))))

  module _ (laws : DatabaseLaws e) where
    privy_session-Ensures :
        (access_token identity_token : String) (w : World e)
        → Ensures
            (privy_session e clients access_token identity_token)
            w
            (λ session s. Opened access_token identity_token session w s)
            (λ _ s. NotOpened access_token identity_token w s)
    unfolding privy_session
    privy_session-Ensures access_token identity_token w = Ensures-bind _ _ _ (
        Ensures-weaken _ _ (verify_session-Vouched access_token identity_token w)
          (λ identity before (vouched, same). Ensures-bind _ _ _ (
            Ensures-weaken _ _ (link_user-TookIdentity laws identity before)
              (λ new linked (old, is, took). Ensures-bind _ _ _ (
                Ensures-when _ _ _
                  (λ _. Ensures-send_off e _ _ _ (
                    issued-Opened _ _ identity new old w before linked _ is vouched same took
                      (inr refl)))
                  (λ _.
                    issued-Opened _ _ identity new old w before linked _ is vouched same took
                      (inl refl))))
              (λ _ s back. inl (same_back w before s same back))))
          (λ _ s (_, same). inl same))

    -- The exchange of two Privy tokens for a session, under the laws of the database client. Where
    -- it returns, both tokens name the same user of Privy; a user who was already stored with that
    -- Privy id or, if nobody was, with the email, in lower case, of that user's first account with an
    -- address has the provider "privy", that Privy id and, as ready, the wallet of the first Stellar
    -- wallet account of Privy, and keeps id, email, role and every other column; no other row of any
    -- table has changed and none was added; the token was signed for that user; at most one call was
    -- made, for the funding of that wallet. Where it throws, the same holds but for the token, or
    -- neither a table nor the calls changed.
    pub privy_session-Opened :
        (access_token identity_token : String) (w : World e)
        → Post
            (λ session s. Opened access_token identity_token session w s)
            (λ _ s. NotOpened access_token identity_token w s)
            (privy_session e clients access_token identity_token w).0
            (privy_session e clients access_token identity_token w).1
    privy_session-Opened access_token identity_token w =
        (privy_session-Ensures access_token identity_token w).at
