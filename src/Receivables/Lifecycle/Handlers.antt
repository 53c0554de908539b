-- ===== src/Receivables/Lifecycle/Handlers.antt =====
-- Each operation on receivables, the operator's decisions and the settlement among them, moves
-- statuses along the steps of a receivable's life.
use cred_bridge.Prelude.{String, refl}
use cred_bridge.Result.Rules.{
  Ensures, Ensures-pure, Ensures-bind, Ensures-or_throw, Ensures-throw_if, Ensures-branch,
  Ensures-weaken,
}
use cred_bridge.Result.Preserves.{Preserves, Ensures-kept, preserves_rules}
use cred_bridge.Schema.{Receivable}
use cred_bridge.Env.{Env, DatabaseLaws}
use cred_bridge.World.{users, World, receivables}
use cred_bridge.World.Rules.{Ensures-find_unique, Ensures-send}
use cred_bridge.World.Preserves.{world_rules}
use cred_bridge.Authorizations.{Consumption, consume, check_consumption, commit_consumption}
use cred_bridge.Pix.Orders.{create_collection_order}
use cred_bridge.Receivables.{
  load, set_tokenized, set_assignment_pending, set_active, tokenize, request_assignment, assign,
  load_assignable, pay_out, start_collection, submit_assignment,
}
use cred_bridge.Settlements.{settle_open, settle_invoice}
use cred_bridge.Admin.{load_pending, approve_receivable, reject_receivable}
use cred_bridge.Receivables.Lifecycle.{
  validated, rejected, tokenized, requested, settled, Follows, Follows-refl, Reading, advance,
  guarded-Step, assignable-Step,
}

module _ (e : Env) where
  consume-Reading :
      (w : World e) (id : String) (r : Receivable e.Number) (input : Consumption)
      → Preserves (Reading e w id r) (consume e input)
  unfolding consume check_consumption commit_consumption
  consume-Reading w id r input = search (preserves_rules, world_rules) depth 20

  create_collection_order-Follows :
      (w : World e) (dto : _) → Preserves (Follows e w) (create_collection_order e dto)
  unfolding create_collection_order
  create_collection_order-Follows w dto = search (preserves_rules, world_rules) depth 9

  module _ (laws : DatabaseLaws e) where
    pub tokenize-Follows :
        (w v : World e) (id : String)
        → Follows e w v
        → Ensures (tokenize e id) v (λ _ s. Follows e w s) (λ _ s. Follows e w s)
    unfolding tokenize load set_tokenized
    tokenize-Follows w v id follows = Ensures-bind _ _ _ (
        Ensures-bind _ _ _ (
          Ensures-find_unique e (receivables e) _ _ (
            Ensures-or_throw _ _ _
              (λ r found. Ensures-bind _ _ _ (
                Ensures-throw_if _ _ _ (λ _. follows)
                  (λ guard. Ensures-bind _ _ _ (
                    Ensures-weaken _ _
                      (Ensures-kept {P = Reading e w id r} _ _
                        (search (preserves_rules, world_rules)) (follows, found))
                      (λ _ s p. Ensures-bind _ _ _ (
                        Ensures-weaken _ _
                          (Ensures-kept {P = Reading e w id r} _ _
                            (search (preserves_rules, world_rules)) p)
                          (λ _ s p. Ensures-bind _ _ _ (
                            Ensures-send e _ _ _
                              (λ hash _. Ensures-bind _ _ _ (
                                Ensures-weaken _ _
                                  (advance e laws w _ id r _ (λ _. refl) p
                                    (guarded-Step e laws r.status tokenized guard))
                                  (λ _ s done.
                                    Ensures-kept _ _ (search (preserves_rules, world_rules)) done)
                                  (λ _ s done. done)))
                              (λ _ _. p.0)))
                          (λ _ s p. p.0)))
                      (λ _ s p. p.0)))))
              (λ _. follows))))

    pub request_assignment-Follows :
        (w : World e) (id : String)
        → Ensures (request_assignment e id) w (λ _ s. Follows e w s) (λ _ s. Follows e w s)
    unfolding request_assignment load set_assignment_pending
    request_assignment-Follows w id = Ensures-bind _ _ _ (
        Ensures-bind _ _ _ (
          Ensures-find_unique e (receivables e) _ _ (
            Ensures-or_throw _ _ _
              (λ r found. Ensures-bind _ _ _ (
                Ensures-throw_if _ _ _ (λ _. Follows-refl e w)
                  (λ guard. Ensures-bind _ _ _ (
                    Ensures-weaken _ _
                      (advance e laws w w id r _ (λ _. refl) (Follows-refl e w, found)
                        (guarded-Step e laws r.status requested guard))
                      (λ _ s done. Ensures-pure _ _ done) (λ _ s done. done)))))
              (λ _. Follows-refl e w))))

    pub assign-Follows :
        (w : World e) (id grant : String)
        → Ensures (assign e id grant) w (λ _ s. Follows e w s) (λ _ s. Follows e w s)
    unfolding assign load set_active
    assign-Follows w id grant = Ensures-bind _ _ _ (
        Ensures-bind _ _ _ (
          Ensures-find_unique e (receivables e) _ _ (
            Ensures-or_throw _ _ _
              (λ r found. Ensures-bind _ _ _ (
                Ensures-throw_if _ _ _ (λ _. Follows-refl e w)
                  (λ guard. Ensures-bind _ _ _ (
                    Ensures-weaken _ _
                      (Ensures-kept _ _ (consume-Reading w id r _) (Follows-refl e w, found))
                      (λ _ s p. Ensures-bind _ _ _ (
                        Ensures-send e _ _ _
                          (λ hash _. Ensures-bind _ _ _ (
                            Ensures-weaken _ _
                              (advance e laws w _ id r _ (λ _. refl) p
                                (assignable-Step e laws r guard))
                              (λ _ s done.
                                Ensures-kept _ _ (search (preserves_rules, world_rules)) done)
                              (λ _ s done. done)))
                          (λ _ _. p.0)))
                      (λ _ s p. p.0)))))
              (λ _. Follows-refl e w))))

    pub submit_assignment-Follows :
        (w : World e) (id xdr signature : String)
        → Ensures
            (submit_assignment e id xdr signature)
            w
            (λ _ s. Follows e w s)
            (λ _ s. Follows e w s)
    unfolding submit_assignment load_assignable load pay_out set_active start_collection
    submit_assignment-Follows w id xdr signature = Ensures-bind _ _ _ (
        Ensures-bind _ _ _ (
          Ensures-bind _ _ _ (
            Ensures-find_unique e (receivables e) _ _ (
              Ensures-or_throw _ _ _
                (λ r found. Ensures-bind _ _ _ (
                  Ensures-throw_if _ _ _ (λ _. Follows-refl e w)
                    (λ guard. Ensures-bind _ _ _ (
                      Ensures-find_unique e (users e) _ _ (
                        Ensures-bind _ _ _ (
                          Ensures-or_throw _ _ _
                            (λ address _. Ensures-pure _ _ (
                              Ensures-bind _ _ _ (
                                Ensures-weaken _ _
                                  (Ensures-kept {P = Reading e w id r} _ _
                                    (search (preserves_rules, world_rules))
                                    (Follows-refl e w, found))
                                  (λ _ s p. Ensures-bind _ _ _ (
                                    Ensures-weaken _ _
                                      (Ensures-kept {P = Reading e w id r} _ _
                                        (search (preserves_rules, world_rules)) p)
                                      (λ _ s p. Ensures-bind _ _ _ (
                                        Ensures-weaken _ _
                                          (advance e laws w _ id r _ (λ _. refl) p
                                            (assignable-Step e laws r guard))
                                          (λ _ s done.
                                            Ensures-kept _ _
                                              (search
                                                (
                                                  preserves_rules, world_rules,
                                                  create_collection_order-Follows,
                                                )
                                                depth 9)
                                              done)
                                          (λ _ s done. done)))
                                      (λ _ s p. p.0)))
                                  (λ _ s p. p.0))))
                            (λ _. Follows-refl e w)))))))
                (λ _. Follows-refl e w)))))

    pub approve_receivable-Follows :
        (w : World e) (id operator : String)
        → Ensures (approve_receivable e id operator) w (λ _ s. Follows e w s) (λ _ s. Follows e w s)
    unfolding approve_receivable load_pending
    approve_receivable-Follows w id operator = Ensures-bind _ _ _ (
        Ensures-bind _ _ _ (
          Ensures-find_unique e (receivables e) _ _ (
            Ensures-bind _ _ _ (
              Ensures-or_throw _ _ _
                (λ r found. Ensures-bind _ _ _ (
                  Ensures-throw_if _ _ _ (λ _. Follows-refl e w)
                    (λ guard. Ensures-pure _ _ (
                      Ensures-bind _ _ _ (
                        Ensures-weaken _ _
                          (advance e laws w w id r _ (λ _. refl) (Follows-refl e w, found)
                            (guarded-Step e laws r.status validated guard))
                          (λ _ s done. Ensures-bind _ _ _ (
                            Ensures-weaken _ _
                              (Ensures-kept {P = Follows e w} _ _
                                (search (preserves_rules, world_rules)) done)
                              (λ _ s done. tokenize-Follows w s id done) (λ _ s done. done)))
                          (λ _ s done. done))))))
                (λ _. Follows-refl e w)))))

    pub reject_receivable-Follows :
        (w : World e) (id operator : String)
        → Ensures (reject_receivable e id operator) w (λ _ s. Follows e w s) (λ _ s. Follows e w s)
    unfolding reject_receivable load_pending
    reject_receivable-Follows w id operator = Ensures-bind _ _ _ (
        Ensures-bind _ _ _ (
          Ensures-find_unique e (receivables e) _ _ (
            Ensures-bind _ _ _ (
              Ensures-or_throw _ _ _
                (λ r found. Ensures-bind _ _ _ (
                  Ensures-throw_if _ _ _ (λ _. Follows-refl e w)
                    (λ guard. Ensures-pure _ _ (
                      Ensures-bind _ _ _ (
                        Ensures-weaken _ _
                          (advance e laws w w id r _ (λ _. refl) (Follows-refl e w, found)
                            (guarded-Step e laws r.status rejected guard))
                          (λ _ s done.
                            Ensures-kept _ _ (search (preserves_rules, world_rules)) done)
                          (λ _ s done. done))))))
                (λ _. Follows-refl e w)))))

    pub settle_invoice-Follows :
        (w : World e) (id : String)
        → Ensures (settle_invoice e id) w (λ _ s. Follows e w s) (λ _ s. Follows e w s)
    unfolding settle_invoice settle_open
    settle_invoice-Follows w id = Ensures-bind _ _ _ (
        Ensures-find_unique e (receivables e) _ _ (
          Ensures-bind _ _ _ (
            Ensures-or_throw _ _ _
              (λ r found.
                Ensures-branch _ _ _ _ (λ _. Ensures-pure _ _ (Follows-refl e w))
                  (λ _. Ensures-bind _ _ _ (
                    Ensures-send e _ _ _
                      (λ hash _. Ensures-bind _ _ _ (
                        Ensures-weaken _ _
                          (advance e laws w _ id r _ (λ _. refl) (Follows-refl e w, found) settled)
                          (λ _ s done.
                            Ensures-kept _ _ (search (preserves_rules, world_rules) depth 9) done)
                          (λ _ s done. done)))
                      (λ _ _. Follows-refl e w))))
              (λ _. Follows-refl e w))))
