-- ===== src/World.antt =====
-- The state that the handlers share: the tables, the calls that have left the process (the newest
-- first) and the number of clock readings and generated ids so far; and the handlers' actions on it.
pub mod Rules
pub mod Preserves
use cred_bridge.Prelude.{◌==◌, ℕ, ◌+◌, String, Bool, Option, some, List, ◌∷◌}
use cred_bridge.Result.{Result, ok, err, Exec, pure, ◌>>=◌, ◌>>◌}
use cred_bridge.Schema.{
  User, Receivable, Settlement, AuditLog, Investment, Transaction, PixWebhookEvent,
  ReceivableCollection, FinancialAuthorization, Fields,
}
use cred_bridge.Ports.{Call}
use cred_bridge.Env.{Env}

pub record World (e : Env) : Type 0 where
  pub users : e.Rows (User e.Number)
  pub receivables : e.Rows (Receivable e.Number)
  pub settlements : e.Rows (Settlement e.Number)
  pub audit_logs : e.Rows (AuditLog e.Number)
  pub investments : e.Rows (Investment e.Number)
  pub transactions : e.Rows (Transaction e.Number)
  pub events : e.Rows (PixWebhookEvent e.Number)
  pub collections : e.Rows (ReceivableCollection e.Number)
  pub authorizations : e.Rows (FinancialAuthorization e.Number)
  pub calls : List (Call e.Number)
  pub ticks : ℕ

abbrev pub M : Env → Type 0 → Type 0
M e = Exec (World e)

-- A table: where it stands in the state, and the unique column by which it is written.
pub record Table (e : Env) (R : Type 0) : Type 0 where
  pub get : World e → e.Rows R
  pub set : e.Rows R → World e → World e
  pub key : R → Option String

module _ (e : Env) where
  abbrev pub users : Table e (User e.Number)
  users = record { get = λ w. w.users; set = λ t w. record w { users = t }; key = λ r. some r.id }

  abbrev pub receivables : Table e (Receivable e.Number)
  receivables = record {
    get = λ w. w.receivables;
    set = λ t w. record w { receivables = t };
    key = λ r. some r.id;
  }

  abbrev pub settlements : Table e (Settlement e.Number)
  settlements = record {
    get = λ w. w.settlements;
    set = λ t w. record w { settlements = t };
    key = λ r. some r.id;
  }

  abbrev pub audit_logs : Table e (AuditLog e.Number)
  audit_logs = record {
    get = λ w. w.audit_logs;
    set = λ t w. record w { audit_logs = t };
    key = λ r. some r.id;
  }

  -- `receivableId` is unique: one investment for a receivable.
  abbrev pub investments : Table e (Investment e.Number)
  investments = record {
    get = λ w. w.investments;
    set = λ t w. record w { investments = t };
    key = λ r. some r.receivable_id;
  }

  -- The same table, written by the primary key.
  abbrev pub investments_by_id : Table e (Investment e.Number)
  investments_by_id = record {
    get = λ w. w.investments;
    set = λ t w. record w { investments = t };
    key = λ r. some r.id;
  }

  abbrev pub transactions : Table e (Transaction e.Number)
  transactions = record {
    get = λ w. w.transactions;
    set = λ t w. record w { transactions = t };
    key = λ r. some r.id;
  }

  -- `eventId` is unique: the handlers look events up by it.
  abbrev pub events : Table e (PixWebhookEvent e.Number)
  events = record {
    get = λ w. w.events;
    set = λ t w. record w { events = t };
    key = λ r. some r.event_id;
  }

  abbrev pub collections : Table e (ReceivableCollection e.Number)
  collections = record {
    get = λ w. w.collections;
    set = λ t w. record w { collections = t };
    key = λ r. some r.id;
  }

  abbrev pub authorizations : Table e (FinancialAuthorization e.Number)
  authorizations = record {
    get = λ w. w.authorizations;
    set = λ t w. record w { authorizations = t };
    key = λ r. some r.id;
  }

  -- `Date.now()`, `new Date()`
  pub now : M e ℕ
  now w = (ok (e.clock w.ticks), record w { ticks = w.ticks + 1 })

  -- `@default(uuid())`, `randomUUID()`
  pub fresh_id : M e String
  fresh_id w = (ok (e.uuid w.ticks), record w { ticks = w.ticks + 1 })

  module _ {A : Type 0} where
    pub send : (List (Call e.Number) → Call e.Number → Result A) → Call e.Number → M e A
    send reply c w = (reply w.calls c, record w { calls = c ∷ w.calls })

    -- A call that nobody waits for: what it returns or throws is only logged.
    pub send_off : Call e.Number → A → M e A
    send_off c a w = (ok a, record w { calls = c ∷ w.calls })

    -- `$transaction`: a throw takes the tables back, but no call that has left the process.
    pub transactionally : M e A → M e A
    transactionally m w =
        let (r, w') = m w in
        elim r [
          | ok a ↦ (ok a, w')
          | err x ↦ (err x, record w { calls = w'.calls; ticks = w'.ticks })
        ]

  module _ {R : Type 0} (table : Table e R) where
    -- `findUnique` by the table's key
    pub find_unique : String → M e (Option R)
    find_unique k w = (ok (e.find_unique table.key k (table.get w)), w)

    -- `findUnique` by another unique column
    pub find_unique_by : (R → Option String) → String → M e (Option R)
    find_unique_by col k w = (ok (e.find_unique col k (table.get w)), w)

    pub find_many : (R → Bool) → M e (List R)
    find_many p w = (ok (e.find_many p (table.get w)), w)

    pub create : R → M e R
    create r w = elim (e.create table.key r (table.get w)) [
      | ok t ↦ (ok r, table.set t w)
      | err x ↦ (err x, w)
    ]

    pub update : String → (R → R) → M e R
    update k f w = elim (e.update table.key k f (table.get w)) [
      | ok (r, t) ↦ (ok r, table.set t w)
      | err x ↦ (err x, w)
    ]

    pub update_many : String → (R → Bool) → (R → R) → M e ℕ
    update_many k p f w = elim (e.update_many table.key k p f (table.get w)) [
      | ok (n, t) ↦ (ok n, table.set t w)
      | err x ↦ (err x, w)
    ]

  -- Opens the actions above.
  unfoldable pub actions : Unit {0}
  unfolding now fresh_id send send_off transactionally find_unique find_unique_by find_many create
      update update_many
  actions = tt

  -- `prisma.auditLog.create`
  unfoldable pub audit_create :
      String → String → String → String → Option String → Fields e.Number → M e (Unit {0})
  audit_create event entity_id entity_type user_id tx_hash metadata = do
    id ← fresh_id
    create audit_logs (record {
      id = id;
      event = event;
      entity_id = entity_id;
      entity_type = entity_type;
      user_id = user_id;
      tx_hash = tx_hash;
      metadata = metadata;
    })
    pure tt

  unfoldable pub find_by_entity : String → M e (List (AuditLog e.Number))
  find_by_entity entity_id = find_many audit_logs (λ l. l.entity_id == entity_id)

  unfoldable pub find_by_user : String → M e (List (AuditLog e.Number))
  find_by_user user_id = find_many audit_logs (λ l. l.user_id == user_id)
