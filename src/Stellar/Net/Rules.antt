-- ===== src/Stellar/Net/Rules.antt =====
-- What the actions of the Stellar service ensure.
use cred_bridge.Prelude.{ℕ, ◌+◌, ◌≡◌, List, ◌∷◌}
use cred_bridge.Result.{Error, Result, ok, err}
use cred_bridge.Result.Rules.{Post, result-Post, Ensures}
use cred_bridge.Env.{Env}
use cred_bridge.World.{World, M}
use cred_bridge.Stellar.Sdk.{Request}
use cred_bridge.Stellar.Net.{Net, on_world, ask, now, sleep}

module _ (e : Env) where
  module _ {A : Type 0} (Q : A → Net e → Type 0) (E : Error → Net e → Type 0) where
    moved-Post :
        (r : Result A) (w : World e) (n : Net e)
        → Post (λ a v. Q a (record n { world = v })) (λ x v. E x (record n { world = v })) r w
        → Post Q E r (record n { world = w })
    moved-Post (ok a) w n q = q
    moved-Post (err x) w n q = q

  module _ {A : Type 0} {Q : A → Net e → Type 0} {E : Error → Net e → Type 0} where
    pub Ensures-ask :
        (reply : List Request → Result A) (request : Request) (n : Net e)
        → ((a : A) → reply n.requests ≡ ok a → Q a (record n { requests = request ∷ n.requests }))
        → ((x : Error)
            → reply n.requests ≡ err x
            → E x (record n { requests = request ∷ n.requests }))
        → Ensures (ask e reply request) n Q E
    unfolding ask
    Ensures-ask reply request n q f = record {
      at = result-Post Q E (reply n.requests) (record n { requests = request ∷ n.requests }) q f;
    }

    -- What a query ensures of the tables, it ensures here.
    pub Ensures-on_world :
        (m : M e A) (n : Net e)
        → Ensures m n.world
            (λ a v. Q a (record n { world = v }))
            (λ x v. E x (record n { world = v }))
        → Ensures (on_world e m) n Q E
    unfolding on_world
    Ensures-on_world m n q = record { at = moved-Post Q E (m n.world).0 (m n.world).1 n q.at }

  pub Ensures-now :
      {Q : ℕ → Net e → Type 0} {E : Error → Net e → Type 0} (n : Net e)
      → Q
          (e.clock n.world.ticks + n.slept)
          (record n { world = record n.world { ticks = n.world.ticks + 1 } })
      → Ensures (now e) n Q E
  unfolding now
  Ensures-now n q = record { at = q }

  pub Ensures-sleep :
      {Q : Unit {0} → Net e → Type 0} {E : Error → Net e → Type 0} (ms : ℕ) (n : Net e)
      → Q tt (record n { slept = n.slept + ms })
      → Ensures (sleep e ms) n Q E
  unfolding sleep
  Ensures-sleep ms n q = record { at = q }
