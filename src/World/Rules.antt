-- ===== src/World/Rules.antt =====
-- What each action on the shared state ensures.
use mathlib.Core.Path.{subst}
use cred_bridge.Prelude.{
  ℕ, ◌+◌, String, ◌≡◌, ◌≢◌, refl, sym, ap, ◌∙◌, some, Bool, Option, List, ◌∷◌,
}
use cred_bridge.Result.{Error, Result, ok, err}
use cred_bridge.Result.Rules.{Post, result-Post, Ensures, Ensures-bind, Ensures-pure}
use cred_bridge.Schema.{User, AuditLog, Fields}
use cred_bridge.Ports.{Call}
use cred_bridge.Env.{Env, DatabaseLaws}
use cred_bridge.Env.Lookup.{some_eq, update_old, find-update_self, find-update_ne}
use cred_bridge.World.{
  World, M, Table, users, now, fresh_id, send, send_off, transactionally, find_unique,
  find_unique_by, find_many, create, update, update_many, audit_logs, audit_create,
}

module _ (e : Env) where
  -- Of one user's row, and of that alone, the change from `old` to `new`.
  abbrev pub UserChanged : User e.Number → User e.Number → World e → World e → Type 0
  UserChanged old new w s =
      (s ≡ record w { users = s.users })
      × (e.find_unique (users e).key old.id w.users ≡ some old)
      × (e.find_unique (users e).key old.id s.users ≡ some new)
      × ((j : String)
          → old.id ≢ j
          → e.find_unique (users e).key j s.users ≡ e.find_unique (users e).key j w.users)

  -- Nothing has changed but the count of clock readings and generated ids.
  abbrev pub SameButTicks : World e → World e → Type 0
  SameButTicks w s = s ≡ record w { ticks = s.ticks }

  pub SameButTicks-trans :
      (w v s : World e) → SameButTicks w v → SameButTicks v s → SameButTicks w s
  SameButTicks-trans w v s p q = q ∙ ap {A = World e} (λ u. record u { ticks = s.ticks }) p

  -- A transaction that made no call is undone without a trace.
  pub undone :
      (w s : World e)
      → s.calls ≡ w.calls
      → SameButTicks w (record w { calls = s.calls; ticks = s.ticks })
  undone w s same = ap {B = World e} (λ cs. record w { calls = cs; ticks = s.ticks }) same

  pub Ensures-now :
      {Q : ℕ → World e → Type 0} {E : Error → World e → Type 0} (w : World e)
      → Q (e.clock w.ticks) (record w { ticks = w.ticks + 1 })
      → Ensures (now e) w Q E
  unfolding now
  Ensures-now w q = record { at = q }

  pub Ensures-fresh_id :
      {Q : String → World e → Type 0} {E : Error → World e → Type 0} (w : World e)
      → Q (e.uuid w.ticks) (record w { ticks = w.ticks + 1 })
      → Ensures (fresh_id e) w Q E
  unfolding fresh_id
  Ensures-fresh_id w q = record { at = q }

  module _ {A : Type 0} where
    transactionally-Post :
        (Q : A → World e → Type 0) (E : Error → World e → Type 0) (r : Result A) (w w' : World e)
        → Post Q (λ x s. E x (record w { calls = s.calls; ticks = s.ticks })) r w'
        → Post Q E
            (elim r as (λ _. Result A × World e) [
              | ok a ↦ (ok a, w')
              | err x ↦ (err x, record w { calls = w'.calls; ticks = w'.ticks })
            ]).0
            (elim r as (λ _. Result A × World e) [
              | ok a ↦ (ok a, w')
              | err x ↦ (err x, record w { calls = w'.calls; ticks = w'.ticks })
            ]).1
    transactionally-Post Q E (ok a) w w' q = q
    transactionally-Post Q E (err x) w w' q = q

  module _ {A : Type 0} {Q : A → World e → Type 0} {E : Error → World e → Type 0} where
    pub Ensures-send :
        (reply : List (Call e.Number) → Call e.Number → Result A) (c : Call e.Number) (w : World e)
        → ((a : A) → reply w.calls c ≡ ok a → Q a (record w { calls = c ∷ w.calls }))
        → ((x : Error) → reply w.calls c ≡ err x → E x (record w { calls = c ∷ w.calls }))
        → Ensures (send e reply c) w Q E
    unfolding send
    Ensures-send reply c w q f = record {
      at = result-Post Q E (reply w.calls c) (record w { calls = c ∷ w.calls }) q f;
    }

    pub Ensures-send_off :
        (c : Call e.Number) (a : A) (w : World e)
        → Q a (record w { calls = c ∷ w.calls })
        → Ensures (send_off e c a) w Q E
    unfolding send_off
    Ensures-send_off c a w q = record { at = q }

    -- After a throw the tables are those of the beginning; the calls stay made.
    pub Ensures-transactionally :
        (m : M e A) (w : World e)
        → Ensures m w Q (λ x s. E x (record w { calls = s.calls; ticks = s.ticks }))
        → Ensures (transactionally e m) w Q E
    unfolding transactionally
    Ensures-transactionally m w q = record { at = transactionally-Post Q E (m w).0 w (m w).1 q.at }

  module _ {R : Type 0} (table : Table e R) where
    pub Ensures-find_unique :
        {Q : Option R → World e → Type 0} {E : Error → World e → Type 0} (k : String) (w : World e)
        → Q (e.find_unique table.key k (table.get w)) w
        → Ensures (find_unique e table k) w Q E
    unfolding find_unique
    Ensures-find_unique k w q = record { at = q }

    pub Ensures-find_unique_by :
        {Q : Option R → World e → Type 0} {E : Error → World e → Type 0} (col : R → Option String)
        (k : String) (w : World e)
        → Q (e.find_unique col k (table.get w)) w
        → Ensures (find_unique_by e table col k) w Q E
    unfolding find_unique_by
    Ensures-find_unique_by col k w q = record { at = q }

    pub Ensures-find_many :
        {Q : List R → World e → Type 0} {E : Error → World e → Type 0} (p : R → Bool) (w : World e)
        → Q (e.find_many p (table.get w)) w
        → Ensures (find_many e table p) w Q E
    unfolding find_many
    Ensures-find_many p w q = record { at = q }

    create-Post :
        (Q : R → World e → Type 0) (E : Error → World e → Type 0) (r : R) (w : World e)
        (o : Result (e.Rows R))
        → ((t : e.Rows R) → o ≡ ok t → Q r (table.set t w))
        → ((x : Error) → o ≡ err x → E x w)
        → Post Q E
            (elim o as (λ _. Result R × World e) [
              | ok t ↦ (ok r, table.set t w)
              | err x ↦ (err x, w)
            ]).0
            (elim o as (λ _. Result R × World e) [
              | ok t ↦ (ok r, table.set t w)
              | err x ↦ (err x, w)
            ]).1
    create-Post Q E r w (ok t) q f = q t refl
    create-Post Q E r w (err x) q f = f x refl

    update-Post :
        (Q : R → World e → Type 0) (E : Error → World e → Type 0) (w : World e)
        (o : Result (R × e.Rows R))
        → ((r : R) (t : e.Rows R) → o ≡ ok (r, t) → Q r (table.set t w))
        → ((x : Error) → o ≡ err x → E x w)
        → Post Q E
            (elim o as (λ _. Result R × World e) [
              | ok (r, t) ↦ (ok r, table.set t w)
              | err x ↦ (err x, w)
            ]).0
            (elim o as (λ _. Result R × World e) [
              | ok (r, t) ↦ (ok r, table.set t w)
              | err x ↦ (err x, w)
            ]).1
    update-Post Q E w (ok (r, t)) q f = q r t refl
    update-Post Q E w (err x) q f = f x refl

    update_many-Post :
        (Q : ℕ → World e → Type 0) (E : Error → World e → Type 0) (w : World e)
        (o : Result (ℕ × e.Rows R))
        → ((n : ℕ) (t : e.Rows R) → o ≡ ok (n, t) → Q n (table.set t w))
        → ((x : Error) → o ≡ err x → E x w)
        → Post Q E
            (elim o as (λ _. Result ℕ × World e) [
              | ok (n, t) ↦ (ok n, table.set t w)
              | err x ↦ (err x, w)
            ]).0
            (elim o as (λ _. Result ℕ × World e) [
              | ok (n, t) ↦ (ok n, table.set t w)
              | err x ↦ (err x, w)
            ]).1
    update_many-Post Q E w (ok (n, t)) q f = q n t refl
    update_many-Post Q E w (err x) q f = f x refl

    module _ {Q : R → World e → Type 0} {E : Error → World e → Type 0} where
      pub Ensures-create :
          (r : R) (w : World e)
          → ((t : e.Rows R) → e.create table.key r (table.get w) ≡ ok t → Q r (table.set t w))
          → ((x : Error) → e.create table.key r (table.get w) ≡ err x → E x w)
          → Ensures (create e table r) w Q E
      unfolding create
      Ensures-create r w q f = record {
        at = create-Post Q E r w (e.create table.key r (table.get w)) q f;
      }

      pub Ensures-update :
          (k : String) (f : R → R) (w : World e)
          → ((r : R) (t : e.Rows R)
              → e.update table.key k f (table.get w) ≡ ok (r, t)
              → Q r (table.set t w))
          → ((x : Error) → e.update table.key k f (table.get w) ≡ err x → E x w)
          → Ensures (update e table k f) w Q E
      unfolding update
      Ensures-update k f w q g = record {
        at = update-Post Q E w (e.update table.key k f (table.get w)) q g;
      }

    module _ {Q : ℕ → World e → Type 0} {E : Error → World e → Type 0} where
      pub Ensures-update_many :
          (k : String) (p : R → Bool) (f : R → R) (w : World e)
          → ((n : ℕ) (t : e.Rows R)
              → e.update_many table.key k p f (table.get w) ≡ ok (n, t)
              → Q n (table.set t w))
          → ((x : Error) → e.update_many table.key k p f (table.get w) ≡ err x → E x w)
          → Ensures (update_many e table k p f) w Q E
      unfolding update_many
      Ensures-update_many k p f w q g = record {
        at = update_many-Post Q E w (e.update_many table.key k p f (table.get w)) q g;
      }

  module _ (laws : DatabaseLaws e) where
    -- The update of a user by id changes that row alone.
    pub Ensures-update_user :
        {Q : User e.Number → World e → Type 0} {E : Error → World e → Type 0} (id : String)
        (f : User e.Number → User e.Number) (w : World e)
        → ((u : User e.Number) → (f u).id ≡ u.id)
        → ((old : User e.Number) (s : World e)
            → old.id ≡ id
            → UserChanged old (f old) w s
            → Q (f old) s)
        → ((x : Error) → E x w)
        → Ensures (update e (users e) id f) w Q E
    Ensures-update_user {Q} {E} id f w keeps q g =
        Ensures-update (users e) id f w
          (λ r t wrote.
            let (old, was, is) = update_old e laws (users e).key id f w.users t r wrote in
            let key : old.id ≡ id =
              some_eq _ _ (laws.find_has_key (users e).key id w.users old was) in
            let now : e.find_unique (users e).key id t ≡ some (f old) =
              find-update_self e laws (users e).key id f w.users t r (λ u. ap some (keeps u)) wrote
              ∙ ap some is in
            subst (λ (u : User e.Number). Q u (record w { users = t })) (sym is)
              (q old (record w { users = t }) key
                (
                  refl,
                  ap (λ k. e.find_unique (users e).key k w.users) key ∙ was,
                  ap (λ k. e.find_unique (users e).key k t) key ∙ now,
                  λ j ne.
                      find-update_ne e laws (users e).key id j f w.users t r (λ h. ne (key ∙ h))
                        (λ u. ap some (keeps u)) wrote,
                )))
          (λ x _. g x)

  pub Ensures-audit_create :
      {Q : Unit {0} → World e → Type 0} {E : Error → World e → Type 0}
      (event entity_id entity_type user_id : String) (tx_hash : Option String)
      (metadata : Fields e.Number) (w : World e)
      → ((t : e.Rows (AuditLog e.Number)) → Q tt (record w { audit_logs = t; ticks = w.ticks + 1 }))
      → ((x : Error) → E x (record w { ticks = w.ticks + 1 }))
      → Ensures (audit_create e event entity_id entity_type user_id tx_hash metadata) w Q E
  unfolding audit_create
  Ensures-audit_create event entity_id entity_type user_id tx_hash metadata w q f =
      Ensures-bind _ _ _ (
        Ensures-fresh_id w (
          Ensures-bind _ _ _
            (Ensures-create (audit_logs e) _ _ (λ t _. Ensures-pure _ _ (q t)) (λ x _. f x))))
