-- ===== src/Auth/Changes.antt =====
-- auth.service.ts: changePassword, and what it does to the rows of the users.
use mathlib.Core.Path.{subst}
use cred_bridge.Prelude.{◌+◌, String, ◌≡◌, refl, sym, ap, ◌∙◌, some, true, truthy, unrefuted}
use cred_bridge.Result.{ok}
use cred_bridge.Result.Rules.{
  Post, Ensures, Ensures-bind, Ensures-or_throw, Ensures-throw_if, Ensures-pure,
}
use cred_bridge.Schema.{User}
use cred_bridge.Env.{Env, DatabaseLaws}
use cred_bridge.Env.Lookup.{some_eq}
use cred_bridge.World.{World, users}
use cred_bridge.World.Rules.{SameButTicks, UserChanged, Ensures-find_unique, Ensures-update_user}
use cred_bridge.Auth.Clients.{AuthClients, PasswordLaws}
use cred_bridge.Auth.Clients.Rules.{Ensures-query}
use cred_bridge.Auth.Accounts.{ChangePasswordDto, change_password}

module _ (e : Env) (clients : AuthClients) where
  -- The user of the id, whose stored hash accepts the password.
  abbrev pub Knows : String → String → User e.Number → World e → Type 0
  Knows id password user w =
      (e.find_unique (users e).key id w.users ≡ some user)
      × (hash : String) × (truthy user.password_hash ≡ some hash)
      × (clients.compare_password password hash ≡ ok true)

  -- The current password was the user's; the user's hash, and nothing else, is one now that accepts
  -- the new password.
  abbrev pub Changed : String → ChangePasswordDto → World e → World e → Type 0
  Changed id dto w s =
      (user : User e.Number) × Knows id dto.current_password user w
      × (hash : String) × (clients.compare_password dto.new_password hash ≡ ok true)
      × (v : World e) × SameButTicks e w v
      × UserChanged e user (record user { password_hash = some hash }) v s

  -- The row that was read is the row that is written.
  same_user :
      (id : String) (user old : User e.Number) (w : World e)
      → e.find_unique (users e).key id w.users ≡ some user
      → e.find_unique (users e).key old.id w.users ≡ some old
      → old.id ≡ id
      → old ≡ user
  same_user id user old w found was is =
      some_eq _ _ (sym was ∙ ap (λ k. e.find_unique (users e).key k w.users) is ∙ found)

  module _ (laws : DatabaseLaws e) (passwords : PasswordLaws clients) where
    change_password-Ensures :
        (id : String) (dto : ChangePasswordDto) (w : World e)
        → Ensures
            (change_password e clients id dto)
            w
            (λ _ s. Changed id dto w s)
            (λ _ s. SameButTicks e w s)
    unfolding change_password
    change_password-Ensures id dto w = Ensures-bind _ _ _ (
        Ensures-find_unique e (users e) _ _ (
          Ensures-bind _ _ _ (
            Ensures-or_throw _ _ _
              (λ user found. Ensures-bind _ _ _ (
                Ensures-or_throw _ _ _
                  (λ hash has. Ensures-bind _ _ _ (
                    Ensures-query e _ _
                      (λ valid says. Ensures-bind _ _ _ (
                        Ensures-throw_if _ _ _ (λ _. refl)
                          (λ genuine. Ensures-bind _ _ _ (
                            Ensures-query e _ _
                              (λ new_hash made. Ensures-bind _ _ _ (
                                Ensures-update_user e laws id _ _ (λ _. refl)
                                  (λ old s is wrote. Ensures-pure _ _ (
                                    user,
                                    (found, hash, has, says ∙ ap ok (unrefuted valid genuine)),
                                    new_hash,
                                    passwords.hash_accepts _ _ _ made,
                                    _,
                                    refl,
                                    subst
                                        (λ u.
                                          UserChanged e u
                                            (record u { password_hash = some new_hash })
                                            (record w { ticks = w.ticks + 1 + 1 }) s)
                                        (same_user id user old w found wrote.1 is) wrote,
                                  ))
                                  (λ _. refl)))
                              (λ _ _. refl)))))
                      (λ _ _. refl)))
                  (λ _. refl)))
              (λ _. refl))))

    -- A change of a password, under the laws of the database client and of bcrypt. Where it returns,
    -- the stored hash of the user of the id accepted the current password; the user's hash is one now
    -- that accepts the new password; every other column of the user, every other row and the list of
    -- calls are as before. Where it throws, neither a table nor the calls have changed.
    pub change_password-Changed :
        (id : String) (dto : ChangePasswordDto) (w : World e)
        → Post
            (λ _ s. Changed id dto w s)
            (λ _ s. SameButTicks e w s)
            (change_password e clients id dto w).0
            (change_password e clients id dto w).1
    change_password-Changed id dto w = (change_password-Ensures id dto w).at
