-- ===== src/Auth/Roles.antt =====
-- A user's role is chosen once.
use cred_bridge.Prelude.{String, ◌≡◌, refl, sym, ap, ◌∙◌, ◌⊎◌, inl, inr, none, some, truthy}
use cred_bridge.Result.{ok}
use cred_bridge.Result.Rules.{
  Ensures, Ensures-bind, Ensures-found, Ensures-or_throw, Ensures-if_some, Ensures-if_present,
  Ensures-throw, Ensures-weaken, Ensures-returned, Refuses, Ensures-Refuses,
}
use cred_bridge.Schema.{User}
use cred_bridge.Env.{Env, DatabaseLaws}
use cred_bridge.Env.Lookup.{some_eq}
use cred_bridge.World.{World, users}
use cred_bridge.World.Rules.{SameButTicks, UserChanged, Ensures-find_unique, Ensures-update_user}
use cred_bridge.Auth.Clients.{AuthClients}
use cred_bridge.Auth.{IssuedToken}
use cred_bridge.Auth.Accounts.{set_role}
use cred_bridge.Auth.Passwords.{IssuedFor, issue_token-IssuedFor}

module _ (e : Env) (clients : AuthClients) where
  -- The user had no role, has this one now and keeps everything else.
  abbrev pub RoleSet : String → String → IssuedToken → World e → World e → Type 0
  RoleSet id role token w s =
      (old : User e.Number) × (old.id ≡ id)
      × (truthy old.role ≡ none)
      × (v : World e) × UserChanged e old (record old { role = some role }) w v
      × SameButTicks e v s
      × IssuedFor e clients (record old { role = some role }) token

  -- What a call of `setRole` that throws may have done.
  abbrev pub RoleNotSet : String → String → World e → World e → Type 0
  RoleNotSet id role w s =
      (s ≡ w)
      ⊎ ((old : User e.Number) × (old.id ≡ id)
          × (v : World e) × UserChanged e old (record old { role = some role }) w v
          × SameButTicks e v s)

  -- The row that was read is the row that is written.
  roleless :
      (id : String) (user old : User e.Number) (w : World e)
      → e.find_unique (users e).key id w.users ≡ some user
      → e.find_unique (users e).key old.id w.users ≡ some old
      → old.id ≡ id
      → truthy user.role ≡ none
      → truthy old.role ≡ none
  roleless id user old w found was is free =
      ap (λ (u : User e.Number). truthy u.role)
        (some_eq _ _ (sym was ∙ ap (λ k. e.find_unique (users e).key k w.users) is ∙ found))
      ∙ free

  module _ (laws : DatabaseLaws e) where
    set_role-Ensures :
        (id role : String) (w : World e)
        → Ensures
            (set_role e clients id role)
            w
            (λ token s. RoleSet id role token w s)
            (λ _ s. RoleNotSet id role w s)
    unfolding set_role
    set_role-Ensures id role w = Ensures-bind _ _ _ (
        Ensures-find_unique e (users e) _ _ (
          Ensures-bind _ _ _ (
            Ensures-or_throw _ _ _
              (λ user found.
                Ensures-if_some _ _ _ _ (λ _ _. Ensures-throw _ _ (inl refl))
                  (λ free. Ensures-bind _ _ _ (
                    Ensures-update_user e laws id (λ u. record u { role = some role }) w (λ _. refl)
                      (λ old v is wrote.
                        Ensures-weaken _ _
                          (issue_token-IssuedFor e clients (record old { role = some role }) v)
                          (λ token s (issued, same). (
                            old,
                            is,
                            roleless id user old w found (wrote.1) is free,
                            v,
                            wrote,
                            same,
                            issued,
                          ))
                          (λ _ s (_, same). inr (old, is, v, wrote, same)))
                      (λ _. inl refl))))
              (λ _. inl refl))))

    set_role-refused :
        (id other : String) (user : User e.Number) (role : String) (w : World e)
        → e.find_unique (users e).key id w.users ≡ some user
        → truthy user.role ≡ some role
        → Ensures (set_role e clients id other) w (λ _ _. ⊥) (λ _ s. s ≡ w)
    unfolding set_role
    set_role-refused id other user role w found has = Ensures-bind _ _ _ (
        Ensures-find_unique e (users e) _ _ (
          Ensures-bind _ _ _ (
            Ensures-found user _ _ _ found
              (Ensures-if_present role _ _ _ _ has (Ensures-throw _ _ refl)))))

    -- A role is chosen once, under the laws of the database client: after a call of setRole that
    -- returned a token, for a role that is not the empty text, the user has that role, who had none
    -- stored that counts; no other column of theirs and no other user has changed, the token names
    -- the user with the role, and every further setRole for them throws and changes nothing.
    pub role_chosen_once :
        (id role other : String) (token : IssuedToken) (w s : World e)
        → truthy (some role) ≡ some role
        → set_role e clients id role w ≡ (ok token, s)
        → RoleSet id role token w s × Refuses (set_role e clients id other) s
    role_chosen_once id role other token w s full ran =
        let (old, is, none_yet, v, wrote, same, issued) =
          Ensures-returned _ _ _ _ (set_role-Ensures id role w) ran in
        let (_, _, now, _) = wrote in
        let there : e.find_unique (users e).key id s.users
            ≡ some (record old { role = some role }) =
          ap (λ (u : World e). e.find_unique (users e).key id u.users) same
          ∙ ap (λ k. e.find_unique (users e).key k v.users) (sym is)
          ∙ now in
        (
          (old, is, none_yet, v, wrote, same, issued),
          Ensures-Refuses _ _
              (set_role-refused id other (record old { role = some role }) role s there full),
        )
