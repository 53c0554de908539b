-- ===== src/Auth/Clients/Rules.antt =====
-- What a question to a client of the sign-in ensures.
use cred_bridge.Prelude.{ℕ, ◌+◌, ◌≡◌}
use cred_bridge.Result.{Error, Result, ok, err}
use cred_bridge.Result.Rules.{result-Post, Ensures}
use cred_bridge.Env.{Env}
use cred_bridge.World.{World}
use cred_bridge.Auth.Clients.{query}

module _ (e : Env) {A : Type 0} {Q : A → World e → Type 0} {E : Error → World e → Type 0} where
  pub Ensures-query :
      (answer : ℕ → Result A) (w : World e)
      → ((a : A) → answer w.ticks ≡ ok a → Q a (record w { ticks = w.ticks + 1 }))
      → ((x : Error) → answer w.ticks ≡ err x → E x (record w { ticks = w.ticks + 1 }))
      → Ensures (query e answer) w Q E
  unfolding query
  Ensures-query answer w q f = record {
    at = result-Post Q E (answer w.ticks) (record w { ticks = w.ticks + 1 }) q f;
  }
