-- ===== src/Admin/Decisions.antt =====
-- An operator's decision on a transaction is taken once, and moves money only when it approves.
use cred_bridge.Prelude.{
  unrefuted, String, ◌≡◌, refl, ap, ◌∙◌, ◌⊎◌, inl, inr, true, false, some, List, ◌∷◌, ◌==◌, arith,
}
use cred_bridge.Result.{ok, err, bad_request, ◌>>=◌}
use cred_bridge.Result.Rules.{
  Post, Ensures, Ensures-pure, Ensures-throw, Ensures-bind, Ensures-branch, Ensures-or_throw,
  Ensures-throw_if, Ensures-weaken, Ensures-returned,
}
use cred_bridge.Schema.{User, Transaction}
use cred_bridge.Ports.{Call, mint_brlt, withdraw_from_pool}
use cred_bridge.Env.{Env, DatabaseLaws}
use cred_bridge.Env.Lookup.{find-update_self, update_found}
use cred_bridge.World.{World, users, transactions, actions}
use cred_bridge.World.Rules.{
  Ensures-find_unique, Ensures-update, Ensures-send, Ensures-audit_create,
}
use cred_bridge.Admin.{
  Decision, approved, rejected, any_wallet_of, awaits_approval, mint_approved, pool_action,
  record_approval, decide, approve_transaction,
}

module _ (e : Env) where
  -- The call that an approved transaction makes: a deposit mints its amount for its user's wallet, a
  -- withdrawal takes its amount out of the pool.
  abbrev pub IsPoolCall : Transaction e.Number → World e → Call e.Number → Type 0
  IsPoolCall t w c =
      (((t.type == "DEPOSIT") ≡ true)
        × (user : User e.Number) × (wallet : String) × (e.find_unique (users e).key t.user_id
              w.users
            ≡ some user)
        × (any_wallet_of user ≡ some wallet)
        × (c ≡ mint_brlt wallet t.amount))
      ⊎ (((t.type == "WITHDRAWAL") ≡ true) × (c ≡ withdraw_from_pool t.user_id t.amount))

  abbrev pub MadePoolCall : Transaction e.Number → World e → List (Call e.Number) → Type 0
  MadePoolCall t w calls = (c : Call e.Number) × IsPoolCall t w c × (calls ≡ c ∷ w.calls)

  -- The transaction as it stands after a decision.
  abbrev pub decided_status : Decision → String
  decided_status approved = "APPROVED"
  decided_status rejected = "REJECTED"

  abbrev pub Moved : Decision → Transaction e.Number → World e → List (Call e.Number) → Type 0
  Moved approved t w calls = MadePoolCall t w calls
  Moved rejected t w calls = calls ≡ w.calls

  abbrev pub IsRow : String → Transaction e.Number → e.Rows (Transaction e.Number) → Type 0
  IsRow id t rows = e.find_unique (transactions e).key id rows ≡ some t

  abbrev pub Decided :
      String
      → String
      → Decision
      → World e
      → e.Rows (Transaction e.Number)
      → List (Call e.Number)
      → Type 0
  Decided id operator d w rows calls =
      (before : Transaction e.Number) × (after : Transaction e.Number) × IsRow id before
        w.transactions
      × (awaits_approval e before ≡ true)
      × IsRow id after rows
      × (after.status ≡ decided_status d)
      × (after.approved_by ≡ some operator)
      × (after.amount ≡ before.amount)
      × Moved d before w calls

  -- A decision that fails has made no call, or that of an approved transaction that was waiting.
  abbrev pub NotDecided : String → World e → World e → Type 0
  NotDecided id w s =
      (s.calls ≡ w.calls)
      ⊎ ((t : Transaction e.Number) × IsRow id t w.transactions
          × (awaits_approval e t ≡ true)
          × MadePoolCall t w s.calls)

  pool_action-MadePoolCall :
      (t : Transaction e.Number) (w : World e)
      → Ensures
          (pool_action e t)
          w
          (λ _ s. MadePoolCall t w s.calls × (s.transactions ≡ w.transactions))
          (λ _ s. (s.calls ≡ w.calls) ⊎ MadePoolCall t w s.calls)
  unfolding pool_action mint_approved
  pool_action-MadePoolCall t w =
      Ensures-branch _ _ _ _
        (λ deposit. Ensures-bind _ _ _ (
          Ensures-find_unique e (users e) _ _ (
            Ensures-bind _ _ _ (
              Ensures-or_throw _ _ _
                (λ user found. Ensures-bind _ _ _ (
                  Ensures-or_throw _ _ _
                    (λ wallet has.
                      Ensures-send e _ _ _
                        (λ hash _. ((_, inl (deposit, user, wallet, found, has, refl), refl), refl))
                        (λ x _. inr (_, inl (deposit, user, wallet, found, has, refl), refl)))
                    (λ _. inl refl)))
                (λ _. inl refl)))))
        (λ _.
          Ensures-branch _ _ _ _
            (λ withdrawal.
              Ensures-send e _ _ _ (λ hash _. ((_, inr (withdrawal, refl), refl), refl))
                (λ x _. inr (_, inr (withdrawal, refl), refl)))
            (λ _. Ensures-throw _ _ (inl refl)))

  undone :
      (id : String) (t : Transaction e.Number) (w s : World e)
      → IsRow id t w.transactions
      → awaits_approval e t ≡ true
      → (s.calls ≡ w.calls) ⊎ MadePoolCall t w s.calls
      → NotDecided id w s
  undone id t w s found waits (inl same) = inl same
  undone id t w s found waits (inr made) = inr (t, found, waits, made)

  settled_status :
      (d : Decision) (t : Transaction e.Number)
      → t.status ≡ decided_status d
      → awaits_approval e t ≡ false
  settled_status approved t h = rw h
  settled_status rejected t h = rw h

  settled_refused :
      (id operator : String) (d : Decision) (t : Transaction e.Number) (w : World e)
      → IsRow id t w.transactions
      → awaits_approval e t ≡ false
      → approve_transaction e id operator d w
        ≡ (err (bad_request "Esta transação não está pendente de aprovação"), w)
  unfolding approve_transaction ◌>>=◌ actions
  settled_refused id operator d t w found decided = ground arith

module _ (e : Env) (laws : DatabaseLaws e) where
  -- What the write of a decision leaves.
  row-Decided :
      (id operator : String) (d : Decision) (before : Transaction e.Number) (w : World e)
      (f : Transaction e.Number → Transaction e.Number) (t t' : e.Rows (Transaction e.Number))
      (r : Transaction e.Number) (calls : List (Call e.Number))
      → t ≡ w.transactions
      → IsRow e id before w.transactions
      → awaits_approval e before ≡ true
      → ((x : Transaction e.Number)
          → f x ≡ record x {
            status = decided_status e d;
            approved_by = some operator;
            tx_hash = (f x).tx_hash;
          })
      → e.update (transactions e).key id f t ≡ ok (r, t')
      → Moved e d before w calls
      → Decided e id operator d w t' calls
  row-Decided id operator d before w f t t' r calls start found waits shape wrote moved =
      let is =
        update_found e laws (transactions e).key id before f t t' r
          (ap (λ rows. e.find_unique (transactions e).key id rows) start ∙ found) wrote
        ∙ shape before in
      (
        before,
        r,
        found,
        waits,
        find-update_self e laws (transactions e).key id f t t' r
            (λ x. ap (λ y. some y.id) (shape x)) wrote,
        ap (λ x. x.status) is,
        ap (λ x. x.approved_by) is,
        ap (λ x. x.amount) is,
        moved,
      )

  decide-Decided :
      (id operator : String) (d : Decision) (before : Transaction e.Number) (w : World e)
      → IsRow e id before w.transactions
      → awaits_approval e before ≡ true
      → Ensures
          (decide e id operator d before)
          w
          (λ _ s. Decided e id operator d w s.transactions s.calls)
          (λ _. NotDecided e id w)
  unfolding decide record_approval
  decide-Decided id operator rejected before w found waits =
      Ensures-update e (transactions e) _ _ _
        (λ r t' wrote.
          row-Decided id operator rejected before w _ _ t' r _ refl found waits (λ x. refl) wrote
            refl)
        (λ x _. inl refl)
  decide-Decided id operator approved before w found waits = Ensures-bind _ _ _ (
      Ensures-weaken _ _ (pool_action-MadePoolCall e before w)
        (λ hash s ((c, is_call, calls), same). Ensures-bind _ _ _ (
          Ensures-update e (transactions e) _ _ _
            (λ r t' wrote. Ensures-bind _ _ _ (
              Ensures-audit_create e _ _ _ _ _ _ _
                (λ logs. Ensures-pure _ _ (
                  row-Decided id operator approved before w _ _ t' r _ same found waits (λ x. refl)
                    wrote (c, is_call, calls)))
                (λ x. inr (before, found, waits, (c, is_call, calls)))))
            (λ x _. inr (before, found, waits, (c, is_call, calls)))))
        (λ x s. undone e id before w s found waits))

  approve_transaction-Ensures :
      (id operator : String) (d : Decision) (w : World e)
      → Ensures
          (approve_transaction e id operator d)
          w
          (λ _ s. Decided e id operator d w s.transactions s.calls)
          (λ _. NotDecided e id w)
  unfolding approve_transaction
  approve_transaction-Ensures id operator d w = Ensures-bind _ _ _ (
      Ensures-find_unique e (transactions e) _ _ (
        Ensures-bind _ _ _ (
          Ensures-or_throw _ _ _
            (λ t found. Ensures-bind _ _ _ (
              Ensures-throw_if _ _ _ (λ _. inl refl)
                (λ waits. decide-Decided id operator d t w found (unrefuted _ waits))))
            (λ _. inl refl))))

  -- An operator's decision does what it says: when `approveTransaction` returns, the transaction was
  -- waiting for approval, has the status of the decision and the operator's id now and its amount
  -- unchanged; an approval made exactly one call, the mint of a deposit's amount for its user's
  -- wallet or the withdrawal of the amount from the pool, and a rejection made none. When it fails,
  -- no call was made, or that of a transaction that was waiting.
  pub approve_transaction-Decided :
      (id operator : String) (d : Decision) (w : World e)
      → Post
          (λ _ s. Decided e id operator d w s.transactions s.calls)
          (λ _. NotDecided e id w)
          (approve_transaction e id operator d w).0
          (approve_transaction e id operator d w).1
  approve_transaction-Decided id operator d w = (approve_transaction-Ensures id operator d w).at

  -- A transaction is decided once: after a decision that returned, any other on the same transaction
  -- is refused and nothing changes.
  pub decided_once :
      (id operator operator' : String) (d d' : Decision) (t : Transaction e.Number) (w s : World e)
      → approve_transaction e id operator d w ≡ (ok t, s)
      → approve_transaction e id operator' d' s
        ≡ (err (bad_request "Esta transação não está pendente de aprovação"), s)
  decided_once id operator operator' d d' t w s ran =
      let (before, after, was, waits, is, status, by, amount, moved) =
        Ensures-returned _ _ _ _ (approve_transaction-Ensures id operator d w) ran in
      settled_refused e id operator' d' after s is (settled_status e d after status)
