-- ===== src/Auth/Passwords.antt =====
-- A password opens an account only where its hash accepts it, and the one it was registered with does.
use cred_bridge.Prelude.{
  ℕ, ◌+◌, ◌==◌, eq_iff, inl, inr, Bool-cases, String, ◌≡◌, refl, sym, ap, ◌∙◌, Bool, true, false,
  not, Option, none, some, truthy, or_else, is_some, unrefuted,
}
use cred_bridge.Result.{Error, ok, err}
use cred_bridge.Result.Rules.{
  Post, Ensures, Ensures-found, Ensures-pure, Ensures-bind, Ensures-or_throw, Ensures-throw_if,
  Ensures-returned, Ensures-weaken,
}
use cred_bridge.Schema.{User}
use cred_bridge.Env.{Env, DatabaseLaws}
use cred_bridge.Env.Lookup.{find-create_self}
use cred_bridge.World.{World, users}
use cred_bridge.World.Rules.{
  SameButTicks, SameButTicks-trans, Ensures-find_unique_by, Ensures-fresh_id, Ensures-create,
}
use cred_bridge.Auth.Clients.{AuthClients, PasswordLaws}
use cred_bridge.Auth.Clients.Rules.{Ensures-query}
use cred_bridge.Auth.{
  RegisterDto, LoginDto, IssuedToken, email_of, payload_of, users_by_email, new_account,
  issue_token, register, login,
}

absent : {A : Type 0} (o : Option A) → is_some o ≡ false → o ≡ none
absent none h = refl
absent (some a) h = cc

ok_eq : {A : Type 0} (a b : A) → ok a ≡ ok b → a ≡ b
ok_eq a b h = cc

not_failed : {A : Type 0} (a : A) (x : Error) → ok a ≡ err x → ⊥
not_failed a x h = cc

module _ (e : Env) (clients : AuthClients) where
  accepted : (b : Bool) → true ≡ b → not b ≡ true → ⊥
  accepted true h k = cc
  accepted false h k = cc

  -- The token names the user, and was signed for them.
  abbrev pub IssuedFor : User e.Number → IssuedToken → Type 0
  IssuedFor user token =
      (token.user ≡ payload_of user)
      × (tick : ℕ) × (clients.sign_token tick (payload_of user) ≡ ok token.access_token)

  pub issue_token-IssuedFor :
      (user : User e.Number) (w : World e)
      → Ensures
          (issue_token e clients user)
          w
          (λ token s. IssuedFor user token × SameButTicks e w s)
          (λ x s.
            ((tick : ℕ) × (clients.sign_token tick (payload_of user) ≡ err x)) × SameButTicks e w s)
  unfolding issue_token
  issue_token-IssuedFor user w = Ensures-bind _ _ _ (
      Ensures-query e _ _ (λ token is. Ensures-pure _ _ ((refl, w.ticks, is), refl))
        (λ x is. ((w.ticks, is), refl)))

  issue_token-again :
      (user : User e.Number) (w v : World e)
      → SameButTicks e w v
      → Ensures
          (issue_token e clients user)
          v
          (λ token s. IssuedFor user token × SameButTicks e w s)
          (λ x s.
            ((tick : ℕ) × (clients.sign_token tick (payload_of user) ≡ err x)) × SameButTicks e w s)
  issue_token-again user w v same =
      Ensures-weaken _ _ (issue_token-IssuedFor user v)
        (λ token s (issued, more). (issued, SameButTicks-trans e w v s same more))
        (λ x s (failed, more). (failed, SameButTicks-trans e w v s same more))

  -- The user of an email, whose stored hash accepts the password.
  abbrev pub Accepts : LoginDto → User e.Number → World e → Type 0
  Accepts dto user w =
      (e.find_unique email_of dto.email w.users ≡ some user)
      × (hash : String) × (truthy user.password_hash ≡ some hash)
      × (clients.compare_password dto.password hash ≡ ok true)

  login-Ensures :
      (dto : LoginDto) (w : World e)
      → Ensures
          (login e clients dto)
          w
          (λ token s.
            ((user : User e.Number) × Accepts dto user w × IssuedFor user token)
            × SameButTicks e w s)
          (λ _ s. SameButTicks e w s)
  unfolding login
  login-Ensures dto w = Ensures-bind _ _ _ (
      Ensures-find_unique_by e (users e) _ _ _ (
        Ensures-bind _ _ _ (
          Ensures-or_throw _ _ _
            (λ user found. Ensures-bind _ _ _ (
              Ensures-or_throw _ _ _
                (λ hash has. Ensures-bind _ _ _ (
                  Ensures-query e _ _
                    (λ valid says. Ensures-bind _ _ _ (
                      Ensures-throw_if _ _ _ (λ _. refl)
                        (λ genuine.
                          Ensures-weaken _ _ (issue_token-IssuedFor user _)
                            (λ token s (issued, same). (
                              (
                                user,
                                (found, hash, has, says ∙ ap ok (unrefuted valid genuine)),
                                issued,
                              ),
                              same,
                            ))
                            (λ _ s (_, same). same))))
                    (λ _ _. refl)))
                (λ _. refl)))
            (λ _. refl))))

  -- A sign-in by password. Where it returns a token, the email is that of a user whose stored hash
  -- accepts the password, and the token was signed for this user's id, email and role. Neither a
  -- table nor the list of calls changes, whether it returns or throws.
  pub login-IssuedFor :
      (dto : LoginDto) (w : World e)
      → Post
          (λ token s.
            ((user : User e.Number) × Accepts dto user w × IssuedFor user token)
            × SameButTicks e w s)
          (λ _ s. SameButTicks e w s)
          (login e clients dto w).0
          (login e clients dto w).1
  login-IssuedFor dto w = (login-Ensures dto w).at

  login-accepted :
      (dto : LoginDto) (user : User e.Number) (w : World e)
      → Accepts dto user w
      → Ensures
          (login e clients dto)
          w
          (λ token s. IssuedFor user token × SameButTicks e w s)
          (λ x s.
            ((tick : ℕ) × (clients.sign_token tick (payload_of user) ≡ err x)) × SameButTicks e w s)
  unfolding login
  login-accepted dto user w (found, hash, has, says) = Ensures-bind _ _ _ (
      Ensures-find_unique_by e (users e) _ _ _ (
        Ensures-bind _ _ _ (
          Ensures-found user _ _ _ found (
            Ensures-bind _ _ _ (
              Ensures-found hash _ _ _ has (
                Ensures-bind _ _ _ (
                  Ensures-query e _ _
                    (λ valid is. Ensures-bind _ _ _ (
                      Ensures-throw_if _ _ _
                        (λ refused. absurd (accepted valid (ok_eq _ _ (sym says ∙ is)) refused))
                        (λ _. issue_token-again user w _ refl)))
                    (λ x failed. absurd (not_failed _ _ (sym says ∙ failed))))))))))

  module _ (laws : DatabaseLaws e) (passwords : PasswordLaws clients) where
    -- The user that a registration has made.
    abbrev pub Registered : RegisterDto → User e.Number → World e → World e → Type 0
    Registered dto user w s =
        (e.find_unique email_of dto.email w.users ≡ none)
        × (e.find_unique email_of dto.email s.users ≡ some user)
        × (user.email ≡ dto.email)
        × (user.role ≡ some (or_else dto.role "pme"))
        × ((hash : String) × (truthy user.password_hash ≡ some hash)
            × (clients.compare_password dto.password hash ≡ ok true))

    hash_truthy :
        (tick : ℕ) (password hash : String)
        → clients.hash_password tick password ≡ ok hash
        → truthy (some hash) ≡ some hash
    hash_truthy tick password hash h = elim (Bool-cases (hash == "")) [
      | inl empty ↦
          absurd (passwords.hash_not_empty tick password (h ∙ ap ok ((eq_iff hash "").0 empty)))
      | inr full ↦ rw full
    ]

    register-Registered :
        (dto : RegisterDto) (w : World e)
        → Ensures
            (register e clients dto)
            w
            (λ token s. (user : User e.Number) × Registered dto user w s × IssuedFor user token)
            (λ _ _. Unit {0})
    unfolding register
    register-Registered dto w = Ensures-bind _ _ _ (
        Ensures-find_unique_by e (users e) _ _ _ (
          Ensures-bind _ _ _ (
            Ensures-throw_if _ _ _ (λ _. tt)
              (λ free. Ensures-bind _ _ _ (
                Ensures-query e _ _
                  (λ hash made. Ensures-bind _ _ _ (
                    Ensures-fresh_id e _ (
                      Ensures-bind _ _ _ (
                        Ensures-create e (users_by_email e) _ _
                          (λ t wrote.
                            Ensures-weaken _ _
                              (issue_token-IssuedFor (new_account (e.uuid (w.ticks + 1)) dto hash)
                                _)
                              (λ token s (issued, same). (
                                new_account _ dto hash,
                                (
                                  absent _ free,
                                  ap (λ (v : World e). e.find_unique email_of dto.email v.users)
                                        same
                                      ∙ find-create_self e laws email_of _ _ _ _ refl wrote,
                                  refl,
                                  refl,
                                  (hash, hash_truthy _ _ _ made, passwords.hash_accepts _ _ _ made),
                                ),
                                issued,
                              ))
                              (λ _ _ _. tt))
                          (λ _ _. tt)))))
                  (λ _ _. tt))))))

    -- A registration and a sign-in with the same email and password, under the laws of the database
    -- client and of bcrypt. After a registration that returned a token, the email was free and is
    -- that of a user now, with the role that was asked for, or pme, and the token names them; a
    -- sign-in returns a token that names the same user, or throws what the signing of that token
    -- threw, and changes neither a table nor the list of calls.
    pub login-register :
        (dto : RegisterDto) (w s : World e) (token : IssuedToken)
        → register e clients dto w ≡ (ok token, s)
        → (user : User e.Number) × Registered dto user w s
          × IssuedFor user token
          × Post
              (λ again t. IssuedFor user again × SameButTicks e s t)
              (λ x t.
                ((tick : ℕ) × (clients.sign_token tick (payload_of user) ≡ err x))
                × SameButTicks e s t)
              (login e clients (record { email = dto.email; password = dto.password }) s).0
              (login e clients (record { email = dto.email; password = dto.password }) s).1
    login-register dto w s token ran =
        let (user, (free, found, address, role, (hash, has, accepts)), issued) =
          Ensures-returned _ _ _ _ (register-Registered dto w) ran in
        (
          user,
          (free, found, address, role, (hash, has, accepts)),
          issued,
          (login-accepted _ user s (found, hash, has, accepts)).at,
        )
