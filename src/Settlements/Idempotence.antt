-- ===== src/Settlements/Idempotence.antt =====
-- A receivable is settled once.
use cred_bridge.Prelude.{String, ◌≡◌, refl, ◌∙◌, true, Option, some, arith, ◌==◌, str_refl}
use cred_bridge.Result.{ok, ◌>>=◌}
use cred_bridge.Result.Rules.{
  Ensures, Ensures-pure, Ensures-bind, Ensures-branch, Ensures-or_throw, Ensures-returned,
}
use cred_bridge.Schema.{Receivable}
use cred_bridge.Env.{Env, DatabaseLaws}
use cred_bridge.Env.Lookup.{update_old, find-update_self}
use cred_bridge.World.{World, receivables, settlements, actions}
use cred_bridge.World.Rules.{
  Ensures-now, Ensures-fresh_id, Ensures-send, Ensures-find_unique, Ensures-create, Ensures-update,
}
use cred_bridge.Settlements.{settle_open, settle_invoice}

module _ (e : Env) where
  settle_settled :
      (id : String) (r : Receivable e.Number) (w : World e)
      → e.find_unique (receivables e).key id w.receivables ≡ some r
      → (r.status == "settled") ≡ true
      → settle_invoice e id w ≡ (ok r.payment_tx_hash, w)
  unfolding settle_invoice ◌>>=◌ actions
  settle_settled id r w found settled = ground arith

module _ (e : Env) (laws : DatabaseLaws e) where
  -- A settlement that was written is the one that a later call returns.
  stored :
      (id hash : String) (r : Receivable e.Number) (t : e.Rows (Receivable e.Number)) (w : World e)
      → e.update
          (receivables e).key
          id
          (λ x. record x { status = "settled"; payment_tx_hash = some hash })
          t
        ≡ ok (r, w.receivables)
      → settle_invoice e id w ≡ (ok (some hash), w)
  stored id hash r t w wrote =
      let (old, was, new) = update_old e laws (receivables e).key id _ t _ r wrote in
      settle_settled e id r w
        (find-update_self e laws (receivables e).key id _ t _ r (λ x. refl) wrote)
        (rw new (str_refl "settled"))
      ∙ rw new

  settle_open-settled :
      (id : String) (r : Receivable e.Number) (w : World e)
      → Ensures (settle_open e id r) w (λ h s. settle_invoice e id s ≡ (ok h, s)) (λ _ _. Unit)
  unfolding settle_open
  settle_open-settled id r w = Ensures-bind _ _ _ (
      Ensures-send e e.chain _ _
        (λ hash sent. Ensures-bind _ _ _ (
          Ensures-update e (receivables e) _ _ _
            (λ r' t wrote. Ensures-bind _ _ _ (
              Ensures-now e _ (
                Ensures-bind _ _ _ (
                  Ensures-fresh_id e _ (
                    Ensures-bind _ _ _ (
                      Ensures-create e (settlements e) _ _
                        (λ t' made. Ensures-pure _ _ (stored id hash r' w.receivables _ wrote))
                        (λ x _. tt)))))))
            (λ x _. tt)))
        (λ x _. tt))

  settle_invoice-settled :
      (id : String) (w : World e)
      → Ensures (settle_invoice e id) w (λ h s. settle_invoice e id s ≡ (ok h, s)) (λ _ _. Unit)
  unfolding settle_invoice
  settle_invoice-settled id w = Ensures-bind _ _ _ (
      Ensures-find_unique e (receivables e) _ _ (
        Ensures-bind _ _ _ (
          Ensures-or_throw _ _ _
            (λ r found.
              Ensures-branch _ _ _ _
                (λ settled. Ensures-pure _ _ (settle_settled e id r w found settled))
                (λ unsettled. settle_open-settled id r w))
            (λ _. tt))))

  -- A settlement that has returned is final: asking again returns the same hash, and changes
  -- nothing: no call leaves the process and no row is written.
  pub settle_invoice-settle_invoice :
      (id : String) (w w' : World e) (h : Option String)
      → settle_invoice e id w ≡ (ok h, w')
      → settle_invoice e id w' ≡ (ok h, w')
  settle_invoice-settle_invoice id w w' h p =
      Ensures-returned _ w w' h (settle_invoice-settled id w) p
