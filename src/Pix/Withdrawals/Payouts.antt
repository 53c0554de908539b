-- ===== src/Pix/Withdrawals/Payouts.antt =====
-- A withdrawal is paid out only after the chain took the transaction that the user sent with it.
use cred_bridge.Prelude.{
  String, ◌≡◌, refl, sym, ap, ◌∙◌, ◌⊎◌, inl, inr, Option, none, some, [], ◌∷◌, truthy, coalesce,
}
use cred_bridge.Result.{ok}
use cred_bridge.Result.Rules.{
  Post, Ensures, Ensures-pure, Ensures-bind, Ensures-lift, Ensures-or_throw, Ensures-weaken,
}
use cred_bridge.Schema.{str, User, Transaction}
use cred_bridge.Ports.{Call, CreateWithdrawalOrder, create_withdrawal, submit_signed_tx}
use cred_bridge.Env.{Env, DatabaseLaws}
use cred_bridge.Env.Lookup.{find-update_self, update-create}
use cred_bridge.World.{World, users, transactions}
use cred_bridge.World.Rules.{
  Ensures-find_unique, Ensures-fresh_id, Ensures-create, Ensures-update, Ensures-send,
  Ensures-audit_create,
}
use cred_bridge.Pix.Orders.{wallet_of, wallet_of_found}
use cred_bridge.Pix.Dto.{CreatePixWithdrawalDto, SubmitWithdrawalDto}
use cred_bridge.Pix.Withdrawals.{
  WithdrawalReply, burn_tx_hash, create_withdrawal_order, submit_withdrawal,
}

module _ (e : Env) where
  -- The order asks for what the body asked for.
  abbrev pub OrderOf : CreatePixWithdrawalDto e.Number → CreateWithdrawalOrder e.Number → Type 0
  OrderOf dto order =
      (order.owner_id ≡ dto.user_id)
      × (order.amount ≡ dto.amount)
      × (order.pix_key ≡ dto.pix_key)
      × (order.pix_key_type ≡ dto.pix_key_type)
      × (order.metadata ≡ dto.metadata)

  abbrev pub Ordered : CreatePixWithdrawalDto e.Number → World e → World e → Type 0
  Ordered dto w s =
      (order : CreateWithdrawalOrder e.Number) × OrderOf dto order
      × (s.calls ≡ create_withdrawal order ∷ w.calls)

  -- The transaction of an order as it is stored.
  abbrev pub Stored : Option String → String → CreateWithdrawalOrder e.Number → World e → Type 0
  Stored burned pix_order_id order s =
      (row : Transaction e.Number) × (e.find_unique (transactions e).key order.external_id
          s.transactions
        ≡ some row)
      × (row.status ≡ "PROCESSING")
      × (row.amount ≡ order.amount)
      × (row.tx_hash ≡ burned)
      × (row.pix_order_id ≡ some pix_order_id)

module _ (e : Env) (laws : DatabaseLaws e) where
  create_withdrawal_order-Ordered :
      (dto : CreatePixWithdrawalDto e.Number) (requester : String) (w : World e)
      → Ensures
          (create_withdrawal_order e dto requester)
          w
          (λ r s.
            (burned : Option String) × (burn_tx_hash e dto.metadata ≡ ok burned)
            × (order : CreateWithdrawalOrder e.Number) × OrderOf e dto order
            × (s.calls ≡ create_withdrawal order ∷ w.calls)
            × Stored e burned r.1.pix_order_id order s)
          (λ _ s. (s.calls ≡ w.calls) ⊎ Ordered e dto w s)
  unfolding create_withdrawal_order
  create_withdrawal_order-Ordered dto requester w = Ensures-bind _ _ _ (
      Ensures-find_unique e (users e) _ _ (
        Ensures-bind _ _ _ (
          Ensures-or_throw _ _ _
            (λ user has. Ensures-bind _ _ _ (
              Ensures-lift _ _
                (λ burned was. Ensures-bind _ _ _ (
                  Ensures-fresh_id e _ (
                    Ensures-bind _ _ _ (
                      Ensures-create e (transactions e) _ _
                        (λ t made. Ensures-bind _ _ _ (
                          Ensures-audit_create e _ _ _ _ _ _ _
                            (λ logs. Ensures-bind _ _ _ (
                              Ensures-send e _ _ _
                                (λ reply _. Ensures-bind _ _ _ (
                                  Ensures-update e (transactions e) _ _ _
                                    (λ r t' wrote. Ensures-pure _ _ (
                                      burned,
                                      was,
                                      _,
                                      (refl, refl, refl, refl, refl),
                                      refl,
                                      (let is =
                                            update-create e laws (transactions e).key _ _ _ _ _ _ r
                                              refl made wrote in
                                          let stands =
                                            find-update_self e laws (transactions e).key _ _ _ _ r
                                              (λ x. refl) wrote in
                                          (
                                            r,
                                            stands,
                                            ap (λ x. x.status) is,
                                            ap (λ x. x.amount) is,
                                            ap (λ x. x.tx_hash) is,
                                            ap (λ x. x.pix_order_id) is,
                                          )),
                                    ))
                                    (λ x _. inr (_, (refl, refl, refl, refl, refl), refl))))
                                (λ x _. inr (_, (refl, refl, refl, refl, refl), refl))))
                            (λ x. inl refl)))
                        (λ x _. inl refl)))))
                (λ x _. inl refl)))
            (λ _. inl refl))))

module _ (e : Env) where
  -- The wallet of the user, which the transaction is sent for.
  abbrev pub WalletIs : String → World e → String → Type 0
  WalletIs user_id w address =
      (user : User e.Number) × (e.find_unique (users e).key user_id w.users ≡ some user)
      × (truthy (coalesce user.privy_stellar_wallet_address user.stellar_wallet_id) ≡ some address)

  -- The user's transaction as it is sent to the chain: nothing looks into it here.
  abbrev pub user_call : SubmitWithdrawalDto e.Number → String → Call e.Number
  user_call dto address = submit_signed_tx dto.xdr address dto.signature

  -- The order of a withdrawal stands behind a transaction of the user that the chain took.
  abbrev pub AfterSubmission :
      String
      → SubmitWithdrawalDto e.Number
      → World e
      → String
      → CreateWithdrawalOrder e.Number
      → World e
      → Type 0
  AfterSubmission user_id dto w hash order s =
      (address : String) × WalletIs user_id w address
      × (e.chain w.calls (user_call dto address) ≡ ok hash)
      × (order.owner_id ≡ user_id)
      × (order.amount ≡ dto.amount)
      × (order.pix_key ≡ dto.pix_key)
      × (order.pix_key_type ≡ dto.pix_key_type)
      × (order.metadata ≡ some (("burnTxHash", str hash) ∷ []))
      × (s.calls ≡ create_withdrawal order ∷ user_call dto address ∷ w.calls)

  abbrev pub PaidAfterSubmission :
      String → SubmitWithdrawalDto e.Number → World e → WithdrawalReply → World e → Type 0
  PaidAfterSubmission user_id dto w reply s =
      (order : CreateWithdrawalOrder e.Number) × AfterSubmission user_id dto w reply.tx_hash order s
      × Stored e (truthy (some reply.tx_hash)) reply.pix_order_id order s

  abbrev pub RefusedWithdrawal : String → SubmitWithdrawalDto e.Number → World e → World e → Type 0
  RefusedWithdrawal user_id dto w s =
      (s.calls ≡ w.calls)
      ⊎ (((address : String) × WalletIs user_id w address
            × (s.calls ≡ user_call dto address ∷ w.calls))
          ⊎ ((hash : String) × (order : CreateWithdrawalOrder e.Number) × AfterSubmission user_id
                dto w hash order s))

  -- The body with which `submitWithdrawal` calls `createWithdrawalOrder`.
  abbrev pub order_body :
      String → SubmitWithdrawalDto e.Number → String → CreatePixWithdrawalDto e.Number
  order_body user_id dto hash = record {
    user_id = user_id;
    amount = dto.amount;
    pix_key = dto.pix_key;
    pix_key_type = dto.pix_key_type;
    description = some "Saque CredBridge via Pix";
    metadata = some (("burnTxHash", str hash) ∷ []);
  }

wallet_found :
    {N : Type 0} (o : Option (User N)) (address : String)
    → wallet_of_found o ≡ some address
    → (user : User N) × (o ≡ some user) × (wallet_of user ≡ some address)
wallet_found none address h = cc
wallet_found (some user) address h = (user, refl, h)

ok_eq : {A : Type 0} (a b : A) → ok a ≡ ok b → a ≡ b
ok_eq a b h = cc

module _ (e : Env) (laws : DatabaseLaws e) where
  -- What is left of an order that failed.
  submitted_only :
      (user_id : String) (dto : SubmitWithdrawalDto e.Number) (w : World e) (address hash : String)
      → WalletIs e user_id w address
      → e.chain w.calls (user_call e dto address) ≡ ok hash
      → (s : World e)
      → (s.calls ≡ user_call e dto address ∷ w.calls)
        ⊎ Ordered e
            (order_body e user_id dto hash)
            (record w { calls = user_call e dto address ∷ w.calls })
            s
      → RefusedWithdrawal e user_id dto w s
  submitted_only user_id dto w address hash owns burned s (inl sent) =
      inr (inl (address, owns, sent))
  submitted_only user_id dto w address hash owns burned s
        (inr (order, (same, amount, key, kind, made_of), sent)) =
      inr (inr (hash, order, (address, owns, burned, same, amount, key, kind, made_of, sent)))

  submit_withdrawal-Ensures :
      (user_id : String) (dto : SubmitWithdrawalDto e.Number) (w : World e)
      → Ensures
          (submit_withdrawal e user_id dto)
          w
          (PaidAfterSubmission e user_id dto w)
          (λ _. RefusedWithdrawal e user_id dto w)
  unfolding submit_withdrawal
  submit_withdrawal-Ensures user_id dto w = Ensures-bind _ _ _ (
      Ensures-find_unique e (users e) _ _ (
        Ensures-bind _ _ _ (
          Ensures-or_throw _ _ _
            (λ address has. Ensures-bind _ _ _ (
              Ensures-send e _ _ _
                (λ hash burned. Ensures-bind _ _ _ (
                  Ensures-weaken _ _
                    (create_withdrawal_order-Ordered e laws (order_body e user_id dto hash) user_id
                      _)
                    (λ r s (text, is, order, (same, amount, key, kind, made_of), sent, stored).
                      let (row, stands, status, worth, text_of, id) = stored in
                      Ensures-pure _ _ (
                        order,
                        (
                          address,
                          wallet_found _ _ has,
                          burned,
                          same,
                          amount,
                          key,
                          kind,
                          made_of,
                          sent,
                        ),
                        (row, stands, status, worth, text_of ∙ ok_eq _ _ (sym is), id),
                      ))
                    (λ x s.
                      submitted_only user_id dto w address hash (wallet_found _ _ has) burned s)))
                (λ x _. inr (inl (address, wallet_found _ _ has, refl)))))
            (λ _. inl refl))))

  -- A withdrawal that is answered was submitted before it was ordered: the chain took the transaction
  -- of the body, which was sent with its signature for the wallet of the user; the hash that it
  -- answered with is the one that the reply, the order's metadata and (when it is not empty) the stored
  -- transaction carry; the order asks the Pix side for the amount, the key and the kind of key of the
  -- body; and the two calls are all that left the process, in this order. A withdrawal that is refused
  -- sent nothing, or the transaction alone, or failed after an order that stands behind a transaction
  -- that the chain took. What the transaction does is not part of this: nothing here looks into it.
  -- Assumed: the laws of the database client.
  pub paid_after_submission :
      (user_id : String) (dto : SubmitWithdrawalDto e.Number) (w : World e)
      → Post
          (PaidAfterSubmission e user_id dto w)
          (λ _. RefusedWithdrawal e user_id dto w)
          (submit_withdrawal e user_id dto w).0
          (submit_withdrawal e user_id dto w).1
  paid_after_submission user_id dto w = (submit_withdrawal-Ensures user_id dto w).at
