-- ===== src/Tests/AuthWitnesses.antt =====
-- The properties of the sign-in, of sequences of callbacks and of the replies to errors at concrete
-- inputs.
use cred_bridge.Prelude.{
  Bool, false, eq_iff, ap, ◌==◌, ℕ, String, ◌≤◌, ◌≡◌, refl, ◌⊎◌, ◌++◌, none, some, List, [], ◌∷◌,
  true,
}
use cred_bridge.Result.{Result, ok, err, ◌>>=◌}
use cred_bridge.Result.Rules.{Post, Refuses}
use cred_bridge.Schema.{User, new_user}
use cred_bridge.World.{World, actions}
use cred_bridge.World.Rules.{SameButTicks}
use cred_bridge.Env.{Env}
use cred_bridge.Pix.Callbacks.Deliveries.{Delivery, order, deliver, deliver_all, event_counts_once}
use cred_bridge.Stellar.Bytes.RoundTrip.{cons_not_empty}
use cred_bridge.Auth.Clients.{AuthClients, PasswordLaws, google_oauth, wallet, query}
use cred_bridge.Auth.{IssuedToken, RegisterDto, LoginDto, payload_of, register, login}
use cred_bridge.Auth.Accounts.{set_role, ChangePasswordDto, change_password}
use cred_bridge.Auth.Changes.{Changed, change_password-Changed}
use cred_bridge.Auth.Passwords.{IssuedFor, Accepts, Registered, login-IssuedFor, login-register}
use cred_bridge.Auth.Privy.{privy_session}
use cred_bridge.Auth.Privy.Sessions.{Opened, NotOpened, privy_session-Opened}
use cred_bridge.Auth.Roles.{RoleSet, role_chosen_once}
use cred_bridge.ExceptionFilter.{Exception, http, text, value, message_of, catch_exception}
use cred_bridge.ExceptionFilter.Leaks.{nothing_leaks}
use cred_bridge.Tests.Store.{lookup, insert, rewrite}
use cred_bridge.Tests.World.{env, env-DatabaseLaws, world, callback, nth_id}

-- A hash is its password behind a letter; every token names Ana's account at Privy.
abbrev clients : AuthClients
clients = record {
  hash_password = λ tick password. ok (String.◌∷◌ "h" password);
  compare_password = λ password hash. ok (String.◌∷◌ "h" password == hash);
  sign_token = λ tick payload. ok "token";
  verify_id_token = λ tick token audience. ok none;
  verify_access_token = λ tick token. ok (some "privy-ana");
  verify_identity_token = λ tick token. ok (some "privy-ana");
  linked_accounts =
      λ tick id. ok (google_oauth "ana@example.com" ∷ wallet "stellar" "privy" "GNEW" ∷ []);
  to_lower_case = λ s. s;
}

same_hash : (a b : String) → ◌≡◌ {A = Result String} (ok a) (ok b) → a ≡ b
same_hash a b h = cc

both : (b : Bool) → b ≡ false → b ≡ true → ⊥
both true h k = cc
both false h k = cc

clients-PasswordLaws : PasswordLaws clients
clients-PasswordLaws = record {
  hash_not_empty =
      λ tick password h. both _ (cons_not_empty "h" password) ((eq_iff _ "").1 (same_hash _ _ h));
  hash_accepts = λ tick password hash h. ap ok ((eq_iff _ hash).1 (same_hash _ _ h));
}

abbrev registration : RegisterDto
registration = record { email = "bob@example.com"; password = "correct horse"; role = none }

abbrev credentials : LoginDto
credentials = record { email = "bob@example.com"; password = "correct horse" }

abbrev after_register : World env
after_register = (register env clients registration world).1

abbrev first_token : IssuedToken
first_token = record {
  access_token = "token";
  user = record { sub = nth_id 1; email = "bob@example.com"; role = some "pme" };
}

registers : register env clients registration world ≡ (ok first_token, after_register)
unfolding register ◌>>=◌ actions query lookup insert nth_id
registers = refl

login-register_example :
    (user : User ℕ) × Registered env clients env-DatabaseLaws clients-PasswordLaws registration user
      world after_register
    × IssuedFor env clients user first_token
    × Post
        (λ again t. IssuedFor env clients user again × SameButTicks env after_register t)
        (λ x t.
          ((tick : ℕ) × (clients.sign_token tick (payload_of user) ≡ err x))
          × SameButTicks env after_register t)
        (login env clients credentials after_register).0
        (login env clients credentials after_register).1
login-register_example =
    login-register env clients env-DatabaseLaws clients-PasswordLaws registration world
      after_register first_token registers

login-IssuedFor_example :
    Post
      (λ token s.
        ((user : User ℕ) × Accepts env clients credentials user after_register
          × IssuedFor env clients user token)
        × SameButTicks env after_register s)
      (λ _ s. SameButTicks env after_register s)
      (login env clients credentials after_register).0
      (login env clients credentials after_register).1
login-IssuedFor_example = login-IssuedFor env clients credentials after_register

privy_session-Opened_example :
    Post
      (λ session s. Opened env clients "access" "identity" session world s)
      (λ _ s. NotOpened env clients "access" "identity" world s)
      (privy_session env clients "access" "identity" world).0
      (privy_session env clients "access" "identity" world).1
privy_session-Opened_example =
    privy_session-Opened env clients env-DatabaseLaws "access" "identity" world

abbrev unassigned : World env
unassigned = record world { users = new_user "bob" "bob@example.com" "privy" ∷ [] }

abbrev after_role : World env
after_role = (set_role env clients "bob" "investor" unassigned).1

abbrev role_token : IssuedToken
role_token = record {
  access_token = "token";
  user = record { sub = "bob"; email = "bob@example.com"; role = some "investor" };
}

sets_role : set_role env clients "bob" "investor" unassigned ≡ (ok role_token, after_role)
unfolding set_role ◌>>=◌ actions query lookup rewrite
sets_role = refl

role_chosen_once_example :
    RoleSet env clients "bob" "investor" role_token unassigned after_role
    × Refuses (set_role env clients "bob" "pme") after_role
role_chosen_once_example =
    role_chosen_once env clients env-DatabaseLaws "bob" "investor" "pme" role_token unassigned
      after_role refl sets_role

event_counts_once_example :
    SameButTicks env world (deliver env (order callback) world)
    ⊎ ((before after : List (Delivery env))
        → deliver_all env (before ++ (order callback ∷ after)) (deliver env (order callback) world)
          ≡ deliver_all env (before ++ after) (deliver env (order callback) world))
event_counts_once_example =
    event_counts_once env env-DatabaseLaws (order callback) (order callback) world refl

abbrev production : Env
production = record env { config = λ key. some "production" }

abbrev broken : Exception
broken = http 500 (text "connection to 10.0.0.7 refused") "" none

nothing_leaks_example :
    (500 ≤ 500 → catch_exception production broken ≡ catch_exception production value)
    × (message_of broken ≡ message_of value
        → catch_exception production broken ≡ catch_exception production value)
nothing_leaks_example = nothing_leaks production refl broken value refl

abbrev with_password : World env
with_password = record world {
  users =
      record (new_user "bob" "bob@example.com" "email") { password_hash = some "hcorrect horse" }
      ∷ [];
}

abbrev new_password : ChangePasswordDto
new_password = record { current_password = "correct horse"; new_password = "battery staple" }

change_password-Changed_example :
    Post
      (λ _ s. Changed env clients "bob" new_password with_password s)
      (λ _ s. SameButTicks env with_password s)
      (change_password env clients "bob" new_password with_password).0
      (change_password env clients "bob" new_password with_password).1
change_password-Changed_example =
    change_password-Changed env clients env-DatabaseLaws clients-PasswordLaws "bob" new_password
      with_password

changes_password : (change_password env clients "bob" new_password with_password).0 ≡ ok tt
unfolding change_password ◌>>=◌ actions query lookup rewrite
changes_password = refl
