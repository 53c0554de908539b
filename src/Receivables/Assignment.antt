-- ===== src/Receivables/Assignment.antt =====
-- An assignment submits the owner's transaction first, then pays, and only then opens the collection.
use cred_bridge.Prelude.{
  String, ◌≡◌, refl, ap, ◌∙◌, ◌⊎◌, inl, inr, Option, none, some, List, ◌∷◌, or_else, arith, ◌==◌,
  ◌||◌, not, false, eq_iff, read_truthy, Bool-cases,
}
use cred_bridge.Result.{ok, Error, ◌>>=◌}
use cred_bridge.Result.Rules.{
  Post, Ensures, Ensures-pure, Ensures-throw, Ensures-bind, Ensures-or_throw, Ensures-throw_if,
  Ensures-try_catch, Ensures-weaken,
}
use cred_bridge.Schema.{User, Receivable}
use cred_bridge.Ports.{
  Call, CreateCollectionOrder, create_collection, submit_signed_assignment,
  buy_tokenized_invoice_in_pool,
}
use cred_bridge.Env.{Env, DatabaseLaws}
use cred_bridge.Env.Lookup.{find-update_self, update_old}
use cred_bridge.World.{World, M, users, receivables, collections}
use cred_bridge.World.Rules.{
  Ensures-find_unique, Ensures-fresh_id, Ensures-create, Ensures-update, Ensures-send,
  Ensures-audit_create,
}
use cred_bridge.Pix.Orders.{create_collection_order}
use cred_bridge.Receivables.{
  privy_wallet_of, load, set_active, load_assignable, pay_out, start_collection, submit_assignment,
}

two_statuses :
    (status a b : String) → not (status == a || status == b) ≡ false → (status ≡ a) ⊎ (status ≡ b)
two_statuses status a b h = elim (Bool-cases (status == a)) [
  | inl first ↦ inl ((eq_iff _ _).0 first)
  | inr other ↦ inr ((eq_iff _ _).0 (ground arith))
]

owner_of :
    {N : Type 0} (o : Option (User N)) (wallet : String)
    → privy_wallet_of o ≡ some wallet
    → (owner : User N) × (o ≡ some owner) × (owner.privy_stellar_wallet_address ≡ some wallet)
owner_of none wallet h = cc
owner_of (some owner) wallet h = (owner, refl, read_truthy _ _ h)

module _ (e : Env) where
  -- The calls are those of before, or one order of the collection of the receivable came on top.
  abbrev pub Collected : Receivable e.Number → List (Call e.Number) → List (Call e.Number) → Type 0
  Collected x before after =
      (after ≡ before)
      ⊎ ((o : CreateCollectionOrder e.Number) × (o.receivable_id ≡ x.id)
          × (o.amount ≡ x.value)
          × (after ≡ create_collection o ∷ before))

  start_collection-Collected :
      (x : Receivable e.Number) (w : World e)
      → Ensures
          (start_collection e x)
          w
          (λ _ s. Collected x w.calls s.calls × (s.receivables ≡ w.receivables))
          (λ _ _. ⊥)
  unfolding start_collection create_collection_order
  start_collection-Collected x w = Ensures-try_catch _ _ _ (
      Ensures-bind _ _ _ (
        Ensures-bind _ _ _ (
          Ensures-fresh_id e _ (
            Ensures-bind _ _ _ (
              Ensures-create e (collections e) _ _
                (λ t made. Ensures-bind _ _ _ (
                  Ensures-audit_create e _ _ _ _ _ _ _
                    (λ logs. Ensures-try_catch _ _ _ (
                      Ensures-bind _ _ _ (
                        Ensures-send e _ _ _
                          (λ reply _.
                            Ensures-update e (collections e) _ _ _
                              (λ r t' wrote. Ensures-pure _ _ (inr (_, refl, refl, refl), refl))
                              (λ y _.
                                Ensures-throw _ _
                                  (Ensures-pure _ _ (inr (_, refl, refl, refl), refl))))
                          (λ y _.
                            Ensures-throw _ _
                              (Ensures-pure _ _ (inr (_, refl, refl, refl), refl))))))
                    (λ y. Ensures-pure _ _ (inl refl, refl))))
                (λ y _. Ensures-pure _ _ (inl refl, refl)))))))

  -- The receivable can be assigned, and its owner has a wallet.
  abbrev pub IsAssignable : String → Receivable e.Number → String → World e → Type 0
  IsAssignable id x wallet w =
      (e.find_unique (receivables e).key id w.receivables ≡ some x)
      × ((x.status ≡ "tokenized") ⊎ (x.status ≡ "assignment_pending"))
      × ((owner : User e.Number) × (e.find_unique (users e).key x.user_id w.users ≡ some owner)
          × (owner.privy_stellar_wallet_address ≡ some wallet))

  -- The two calls: the transaction that comes with the request, which nothing here looks into, and the
  -- payout of the value.
  abbrev pub owner_call : String → String → String → Call e.Number
  owner_call unsigned_xdr signature_hex wallet =
      submit_signed_assignment unsigned_xdr signature_hex wallet

  abbrev pub pay : Receivable e.Number → String → Call e.Number
  pay x wallet =
      buy_tokenized_invoice_in_pool wallet x.id
        (or_else x.document_hash "00000000000000000000000000000000") x.value

  abbrev pub Assigned : String → String → String → World e → World e → Type 0
  Assigned id xdr signature w s =
      (x : Receivable e.Number) × (wallet : String) × (after : Receivable e.Number) × IsAssignable
        id x wallet w
      × ((hash : String) × (e.chain w.calls (owner_call xdr signature wallet) ≡ ok hash))
      × ((hash : String) × (e.chain (owner_call xdr signature wallet ∷ w.calls) (pay x wallet)
            ≡ ok hash))
      × Collected x (pay x wallet ∷ owner_call xdr signature wallet ∷ w.calls) s.calls
      × (e.find_unique (receivables e).key id s.receivables ≡ some after)
      × (after.status ≡ "active")

  -- An assignment that fails: nothing was sent, or the transaction alone, or the payout behind a
  -- transaction that was taken; where the payout was refused, no receivable has changed.
  abbrev pub NotAssigned : String → String → String → World e → World e → Type 0
  NotAssigned id xdr signature w s =
      (s.calls ≡ w.calls)
      ⊎ ((x : Receivable e.Number) × (wallet : String) × IsAssignable id x wallet w
          × (((s.calls ≡ owner_call xdr signature wallet ∷ w.calls)
                × (s.receivables ≡ w.receivables))
              ⊎ (((hash : String) × (e.chain w.calls (owner_call xdr signature wallet) ≡ ok hash))
                  × Collected x (pay x wallet ∷ owner_call xdr signature wallet ∷ w.calls) s.calls
                  × ((s.receivables ≡ w.receivables)
                      ⊎ ((paid : String) × (e.chain (owner_call xdr signature wallet ∷ w.calls)
                              (pay x wallet)
                            ≡ ok paid))))))

  module _ {A : Type 0} {Q : A → World e → Type 0} {E : Error → World e → Type 0} where
    -- The checks change nothing; what follows may use what they have found.
    load_assignable-IsAssignable :
        (id : String) (w : World e) (rest : Receivable e.Number × String → M e A)
        → ((x : Receivable e.Number) (wallet : String)
            → IsAssignable id x wallet w
            → Ensures (rest (x, wallet)) w Q E)
        → ((y : Error) → E y w)
        → Ensures (load_assignable e id >>= rest) w Q E
    unfolding load_assignable load
    load_assignable-IsAssignable id w rest go fail = Ensures-bind _ _ _ (
        Ensures-bind _ _ _ (
          Ensures-bind _ _ _ (
            Ensures-find_unique e (receivables e) _ _ (
              Ensures-or_throw _ _ _
                (λ x found. Ensures-bind _ _ _ (
                  Ensures-throw_if _ _ _ (λ _. fail _)
                    (λ can. Ensures-bind _ _ _ (
                      Ensures-find_unique e (users e) _ _ (
                        Ensures-bind _ _ _ (
                          Ensures-or_throw _ _ _
                            (λ wallet has.
                              Ensures-pure _ _
                                (go x wallet (found, two_statuses _ _ _ can, owner_of _ _ has)))
                            (λ _. fail _)))))))
                (λ _. fail _)))))

module _ (e : Env) (laws : DatabaseLaws e) where
  submit_assignment-Ensures :
      (id xdr signature : String) (w : World e)
      → Ensures
          (submit_assignment e id xdr signature)
          w
          (λ _. Assigned e id xdr signature w)
          (λ _. NotAssigned e id xdr signature w)
  unfolding submit_assignment pay_out set_active
  submit_assignment-Ensures id xdr signature w =
      load_assignable-IsAssignable e id w _
        (λ x wallet can. Ensures-bind _ _ _ (
          Ensures-send e _ _ _
            (λ hash moved. Ensures-bind _ _ _ (
              Ensures-try_catch _ _ _ (
                Ensures-send e _ _ _
                  (λ pool_hash paid. Ensures-bind _ _ _ (
                    Ensures-update e (receivables e) _ _ _
                      (λ r t wrote.
                        let (old, was, is) =
                          update_old e laws (receivables e).key id _ _ t r wrote in
                        let stands =
                          find-update_self e laws (receivables e).key id _ _ t r (λ y. refl)
                            wrote in
                        Ensures-bind _ _ _ (
                          Ensures-weaken _ _ (start_collection-Collected e x _)
                            (λ _ s (collected, kept). Ensures-bind _ _ _ (
                              Ensures-audit_create e _ _ _ _ _ _ _
                                (λ logs. Ensures-pure _ _ (
                                  x,
                                  wallet,
                                  r,
                                  can,
                                  (hash, moved),
                                  (pool_hash, paid),
                                  collected,
                                  ap (λ rows. e.find_unique (receivables e).key id rows) kept
                                      ∙ stands,
                                  ap (λ y. y.status) is,
                                ))
                                (λ y. inr (
                                  x,
                                  wallet,
                                  can,
                                  inr ((hash, moved), collected, inr (pool_hash, paid)),
                                ))))
                            (λ y s never. elim never [ ])))
                      (λ y _. inr (x, wallet, can, inr ((hash, moved), inl refl, inl refl)))))
                  (λ y _.
                    Ensures-throw _ _
                      (inr (x, wallet, can, inr ((hash, moved), inl refl, inl refl)))))))
            (λ y _. inr (x, wallet, can, inl (refl, refl)))))
        (λ y. inl refl)

  -- When `submitAssignment` returns, the receivable was tokenized or pending assignment and its owner
  -- had a wallet; the chain took the transaction of the request, which was sent with its signature for
  -- that wallet, and then the payout of the value to that wallet; these are the calls that were made,
  -- with at most the order of one collection of the value after them; and the receivable is active.
  -- When it fails, nothing was sent, or the transaction alone, or the payout behind a transaction that
  -- the chain took; and where the receivables have changed, the payout was taken too. That the
  -- transaction transfers the token of this receivable is not part of this: nothing here looks into
  -- it. Assumed: the laws of the database client.
  pub submit_assignment-Assigned :
      (id xdr signature : String) (w : World e)
      → Post
          (λ _. Assigned e id xdr signature w)
          (λ _. NotAssigned e id xdr signature w)
          (submit_assignment e id xdr signature w).0
          (submit_assignment e id xdr signature w).1
  submit_assignment-Assigned id xdr signature w = (submit_assignment-Ensures id xdr signature w).at
