-- ===== src/World/Preserves.antt =====
-- What the actions on the shared state keep: an invariant that does not look at what they write.
use cred_bridge.Prelude.{ℕ, String, Bool, Option, List}
use cred_bridge.Result.{Result, ok, err}
use cred_bridge.Result.Preserves.{Preserves, Preserves-bind, Preserves-pure}
use cred_bridge.Schema.{Fields}
use cred_bridge.Ports.{Call}
use cred_bridge.Env.{Env}
use cred_bridge.World.{
  World, Table, audit_logs, now, fresh_id, send, find_unique, find_unique_by, find_many, create,
  update, update_many, audit_create,
}

module _ (e : Env) where
  -- `P` does not look at the table.
  abbrev pub Ignores : {R : Type 0} → Table e R → (World e → Type 0) → Type 0
  Ignores {R} table P = (t : e.Rows R) (w : World e) → P w → P (table.set t w)

  abbrev pub IgnoresTicks : (World e → Type 0) → Type 0
  IgnoresTicks P = (n : ℕ) (w : World e) → P w → P (record w { ticks = n })

  abbrev pub IgnoresCalls : (World e → Type 0) → Type 0
  IgnoresCalls P = (c : List (Call e.Number)) (w : World e) → P w → P (record w { calls = c })

  module _ {P : World e → Type 0} where
    pub Preserves-now : IgnoresTicks P → Preserves P (now e)
    unfolding now
    Preserves-now i = record { at = λ w h. i _ w h }

    pub Preserves-fresh_id : IgnoresTicks P → Preserves P (fresh_id e)
    unfolding fresh_id
    Preserves-fresh_id i = record { at = λ w h. i _ w h }

    pub Preserves-send :
        {A : Type 0} (reply : List (Call e.Number) → Call e.Number → Result A) (c : Call e.Number)
        → IgnoresCalls P
        → Preserves P (send e reply c)
    unfolding send
    Preserves-send reply c i = record { at = λ w h. i _ w h }

    module _ {R : Type 0} (table : Table e R) where
      pub Preserves-find_unique : (k : String) → Preserves P (find_unique e table k)
      unfolding find_unique
      Preserves-find_unique k = record { at = λ w h. h }

      pub Preserves-find_unique_by :
          (col : R → Option String) (k : String) → Preserves P (find_unique_by e table col k)
      unfolding find_unique_by
      Preserves-find_unique_by col k = record { at = λ w h. h }

      pub Preserves-find_many : (p : R → Bool) → Preserves P (find_many e table p)
      unfolding find_many
      Preserves-find_many p = record { at = λ w h. h }

      module _ (ignores : Ignores table P) where
        created-state :
            (r : R) (w : World e) (o : Result (e.Rows R))
            → P w
            → P
                (elim o as (λ _. Result R × World e) [
                  | ok t ↦ (ok r, table.set t w)
                  | err x ↦ (err x, w)
                ]).1
        created-state r w (ok t) h = ignores t w h
        created-state r w (err x) h = h

        pub Preserves-create : (r : R) → Preserves P (create e table r)
        unfolding create
        Preserves-create r = record {
          at = λ w h. created-state r w (e.create table.key r (table.get w)) h;
        }

        updated-state :
            {A : Type 0} (w : World e) (o : Result (A × e.Rows R))
            → P w
            → P
                (elim o as (λ _. Result A × World e) [
                  | ok (a, t) ↦ (ok a, table.set t w)
                  | err x ↦ (err x, w)
                ]).1
        updated-state w (ok (a, t)) h = ignores t w h
        updated-state w (err x) h = h

        pub Preserves-update : (k : String) (f : R → R) → Preserves P (update e table k f)
        unfolding update
        Preserves-update k f = record {
          at = λ w h. updated-state w (e.update table.key k f (table.get w)) h;
        }

        pub Preserves-update_many :
            (k : String) (p : R → Bool) (f : R → R) → Preserves P (update_many e table k p f)
        unfolding update_many
        Preserves-update_many k p f = record {
          at = λ w h. updated-state w (e.update_many table.key k p f (table.get w)) h;
        }

    pub Preserves-audit_create :
        (event entity_id entity_type user_id : String) (tx_hash : Option String)
        (metadata : Fields e.Number)
        → IgnoresTicks P
        → Ignores (audit_logs e) P
        → Preserves P (audit_create e event entity_id entity_type user_id tx_hash metadata)
    unfolding audit_create
    Preserves-audit_create event entity_id entity_type user_id tx_hash metadata ticks logs =
        Preserves-bind _ _ (Preserves-fresh_id ticks) (λ id.
          Preserves-bind _ _ (Preserves-create (audit_logs e) logs _) (λ r. Preserves-pure tt))

pub ruleset world_rules = (
  Preserves-now, Preserves-fresh_id, Preserves-send, Preserves-find_unique,
  Preserves-find_unique_by, Preserves-find_many, Preserves-create, Preserves-update,
  Preserves-update_many, Preserves-audit_create,
)
