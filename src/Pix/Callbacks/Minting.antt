-- ===== src/Pix/Callbacks/Minting.antt =====
-- Which calls a callback of an order makes: one mint at most, and only for a confirmed deposit.
use cred_bridge.Prelude.{
  String, ◌≡◌, refl, sym, ap, ◌∙◌, ◌⊎◌, inl, inr, true, ◌&&◌, some, List, [], ◌∷◌, ◌==◌, eq_iff,
  and_left, and_right,
}
use cred_bridge.Result.{Error, unique_constraint, pure, branch, ◌>>◌}
use cred_bridge.Result.Rules.{
  Ensures, Ensures-pure, Ensures-bind, Ensures-branch, Ensures-if_some, Ensures-or_throw,
  Ensures-try_catch, Ensures-weaken, Ensures-outcome,
}
use cred_bridge.Result.Preserves.{
  Preserves, Preserves-try_catch, Preserves-bind, Preserves-pure, Ensures-kept, preserves_rules,
}
use cred_bridge.Schema.{str, num, str_or_null, Transaction, User, PixWebhookEvent}
use cred_bridge.Ports.{Call, mint_brlt}
use cred_bridge.Env.{Env}
use cred_bridge.World.{World, users, transactions, events, update, audit_create}
use cred_bridge.World.Rules.{Ensures-find_unique, Ensures-fresh_id, Ensures-send, Ensures-update}
use cred_bridge.World.Preserves.{Preserves-create, world_rules}
use cred_bridge.Pix.Dto.{PixWebhookDto}
use cred_bridge.Pix.Orders.{wallet_of}
use cred_bridge.Pix.Callbacks.{
  mint_deposit, handle_deposit_confirmed, handle_withdrawal_confirmed, handle_order_failed,
  handle_order_expired, refuse_duplicate, record_event, dispatch_order, apply_order_callback,
  order_effects, process_pix_order_callback,
}

module _ (e : Env) (calls : List (Call e.Number)) where
  abbrev HasCalls : World e → Type 0
  HasCalls w = w.calls ≡ calls

  module _ (t : Transaction e.Number) (dto : PixWebhookDto e.Number) where
    handle_withdrawal_confirmed-HasCalls : Preserves HasCalls (handle_withdrawal_confirmed e t dto)
    unfolding handle_withdrawal_confirmed
    handle_withdrawal_confirmed-HasCalls = search (preserves_rules, world_rules)

    handle_order_failed-HasCalls : Preserves HasCalls (handle_order_failed e t dto)
    unfolding handle_order_failed
    handle_order_failed-HasCalls = search (preserves_rules, world_rules)

    handle_order_expired-HasCalls : Preserves HasCalls (handle_order_expired e t dto)
    unfolding handle_order_expired
    handle_order_expired-HasCalls = search (preserves_rules, world_rules)

    -- The branches of the dispatch past the confirmed deposit.
    quiet_branches-HasCalls : Preserves HasCalls (
        branch
          (dto.status == "CONFIRMED" && dto.type == "WITHDRAWAL")
          (handle_withdrawal_confirmed e t dto)
          (branch
            (dto.status == "FAILED")
            (handle_order_failed e t dto)
            (branch (dto.status == "EXPIRED") (handle_order_expired e t dto) (pure tt))))
    quiet_branches-HasCalls = search (
      preserves_rules, handle_withdrawal_confirmed-HasCalls, handle_order_failed-HasCalls,
      handle_order_expired-HasCalls,
    )

    after_mint :
        (hash : String)
        → Preserves HasCalls (do
          update e
              (transactions e)
              t.id
              (λ x. record x { status = "APPROVED"; tx_hash = some hash })
          audit_create e "pix.deposit.confirmed" t.id "transaction" t.user_id (some hash) (
              ("pixOrderId", str dto.pix_order_id)
              ∷ ("endToEndId", str_or_null dto.end_to_end_id)
              ∷ ("amount", num dto.amount)
              ∷ []))
    after_mint hash = search (preserves_rules, world_rules)

-- The tables that the effects of an order read, and the calls, are those of `w`.
record Alike (e : Env) (w s : World e) : Type 0 where
  calls : s.calls ≡ w.calls
  transactions : s.transactions ≡ w.transactions
  users : s.users ≡ w.users

module _ (e : Env) (w : World e) where
  refuse_duplicate-Alike : (x : Error) → Preserves (Alike e w) (refuse_duplicate e x)
  unfolding refuse_duplicate
  refuse_duplicate-Alike (unique_constraint m) = search preserves_rules
  refuse_duplicate-Alike x = search preserves_rules

  record_event-Alike :
      (event : PixWebhookEvent e.Number) → Preserves (Alike e w) (record_event e event)
  unfolding record_event
  record_event-Alike event =
      Preserves-try_catch _ _
        (Preserves-bind _ _
          (Preserves-create e (events e)
            (λ t s h. record { calls = h.calls; transactions = h.transactions; users = h.users }) _)
          (λ r. Preserves-pure true))
        refuse_duplicate-Alike

module _ (e : Env) where
  -- The calls of `s` are those of `w`, and one mint where the callback confirms the deposit of a
  -- user with a wallet.
  abbrev pub MintsFor : PixWebhookDto e.Number → World e → World e → Type 0
  MintsFor dto w s =
      (s.calls ≡ w.calls)
      ⊎ ((t : Transaction e.Number) × (user : User e.Number) × (address : String) × (e.find_unique
              (transactions e).key dto.external_id w.transactions
            ≡ some t)
          × (e.find_unique (users e).key t.user_id w.users ≡ some user)
          × (wallet_of user ≡ some address)
          × (dto.status ≡ "CONFIRMED")
          × (dto.type ≡ "DEPOSIT")
          × (s.calls ≡ mint_brlt address dto.amount ∷ w.calls))

  mint_deposit-calls :
      (t : Transaction e.Number) (dto : PixWebhookDto e.Number) (address : String) (w : World e)
      → Ensures
          (mint_deposit e t dto address)
          w
          (λ _ s. s.calls ≡ mint_brlt address dto.amount ∷ w.calls)
          (λ _ s. s.calls ≡ mint_brlt address dto.amount ∷ w.calls)
  unfolding mint_deposit
  mint_deposit-calls t dto address w = Ensures-try_catch _ _ _ (
      Ensures-bind _ _ _ (
        Ensures-send e _ _ _
          (λ hash _.
            Ensures-weaken _ _ (Ensures-kept _ _ (after_mint e _ t dto hash) refl) (λ _ s p. p)
              (λ x s p. Ensures-kept _ _ (search (preserves_rules, world_rules)) p))
          (λ x _. Ensures-kept _ _ (search (preserves_rules, world_rules)) refl)))

  handle_deposit_confirmed-calls :
      (t : Transaction e.Number) (user : User e.Number) (dto : PixWebhookDto e.Number) (w : World e)
      → let After = λ (s : World e).
        (s.calls ≡ w.calls)
        ⊎ ((address : String) × (wallet_of user ≡ some address)
            × (s.calls ≡ mint_brlt address dto.amount ∷ w.calls)) in
        Ensures (handle_deposit_confirmed e t user dto) w (λ _ s. After s) (λ _ s. After s)
  unfolding handle_deposit_confirmed
  handle_deposit_confirmed-calls t user dto w =
      Ensures-if_some _ _ _ _
        (λ address has.
          Ensures-weaken _ _ (mint_deposit-calls t dto address w) (λ _ s p. inr (address, has, p))
            (λ _ s p. inr (address, has, p)))
        (λ _.
          Ensures-weaken _ _
            (Ensures-kept {P = HasCalls e w.calls} _ _ (search (preserves_rules, world_rules)) refl)
            (λ _ s p. inl p) (λ _ s p. inl p))

  dispatch_order-calls :
      (t : Transaction e.Number) (user : User e.Number) (dto : PixWebhookDto e.Number) (w : World e)
      → let After = λ (s : World e).
        (s.calls ≡ w.calls)
        ⊎ ((address : String) × (wallet_of user ≡ some address)
            × (dto.status ≡ "CONFIRMED")
            × (dto.type ≡ "DEPOSIT")
            × (s.calls ≡ mint_brlt address dto.amount ∷ w.calls)) in
        Ensures (dispatch_order e t user dto) w (λ _ s. After s) (λ _ s. After s)
  unfolding dispatch_order
  dispatch_order-calls t user dto w =
      Ensures-branch _ _ _ _
        (λ c.
          Ensures-weaken _ _ (handle_deposit_confirmed-calls t user dto w)
            (λ _ s p. confirmed dto w s user c p) (λ _ s p. confirmed dto w s user c p))
        (λ _.
          Ensures-weaken _ _ (Ensures-kept _ _ (quiet_branches-HasCalls e w.calls t dto) refl)
            (λ _ s p. inl p) (λ _ s p. inl p))
    where
      confirmed :
          (dto : PixWebhookDto e.Number) (w s : World e) (user : User e.Number)
          → (dto.status == "CONFIRMED" && dto.type == "DEPOSIT") ≡ true
          → (s.calls ≡ w.calls)
            ⊎ ((address : String) × (wallet_of user ≡ some address)
                × (s.calls ≡ mint_brlt address dto.amount ∷ w.calls))
          → (s.calls ≡ w.calls)
            ⊎ ((address : String) × (wallet_of user ≡ some address)
                × (dto.status ≡ "CONFIRMED")
                × (dto.type ≡ "DEPOSIT")
                × (s.calls ≡ mint_brlt address dto.amount ∷ w.calls))
      confirmed dto w s user c (inl p) = inl p
      confirmed dto w s user c (inr (address, has, p)) =
          inr (address, has, (eq_iff _ _).0 (and_left _ _ c), (eq_iff _ _).0 (and_right _ _ c), p)

  apply_order_callback-MintsFor :
      (t : Transaction e.Number) (dto : PixWebhookDto e.Number) (w : World e)
      → e.find_unique (transactions e).key dto.external_id w.transactions ≡ some t
      → Ensures (apply_order_callback e t dto) w (λ _ s. MintsFor dto w s) (λ _ s. MintsFor dto w s)
  unfolding apply_order_callback
  apply_order_callback-MintsFor t dto w found = Ensures-bind _ _ _ (
      Ensures-find_unique e (users e) _ _ (
        Ensures-bind _ _ _ (
          Ensures-or_throw _ _ _
            (λ user has. Ensures-bind _ _ _ (
              Ensures-update e (transactions e) _ _ _
                (λ r ts _.
                  Ensures-weaken _ _ (dispatch_order-calls t user dto _)
                    (λ _ s p. minted dto w s t user found has p)
                    (λ _ s p. minted dto w s t user found has p))
                (λ x _. inl refl)))
            (λ _. inl refl))))
    where
      minted :
          (dto : PixWebhookDto e.Number) (w s : World e) (t : Transaction e.Number)
          (user : User e.Number)
          → e.find_unique (transactions e).key dto.external_id w.transactions ≡ some t
          → e.find_unique (users e).key t.user_id w.users ≡ some user
          → (s.calls ≡ w.calls)
            ⊎ ((address : String) × (wallet_of user ≡ some address)
                × (dto.status ≡ "CONFIRMED")
                × (dto.type ≡ "DEPOSIT")
                × (s.calls ≡ mint_brlt address dto.amount ∷ w.calls))
          → MintsFor dto w s
      minted dto w s t user found has (inl p) = inl p
      minted dto w s t user found has (inr (address, wallet, c, d, p)) =
          inr (t, user, address, found, has, wallet, c, d, p)

  order_effects-MintsFor :
      (dto : PixWebhookDto e.Number) (w : World e)
      → Ensures (order_effects e dto) w (λ _ s. MintsFor dto w s) (λ _ s. MintsFor dto w s)
  unfolding order_effects
  order_effects-MintsFor dto w = Ensures-bind _ _ _ (
      Ensures-find_unique e (transactions e) _ _ (
        Ensures-if_some _ _ _ _ (λ t found. apply_order_callback-MintsFor t dto w found)
          (λ _. Ensures-pure _ _ (inl refl))))

  -- What is read at `s` was there at `w`.
  MintsFor-Alike :
      (dto : PixWebhookDto e.Number) (w s s' : World e)
      → Alike e w s
      → MintsFor dto s s'
      → MintsFor dto w s'
  MintsFor-Alike dto w s s' a (inl p) = inl (p ∙ a.calls)
  MintsFor-Alike dto w s s' a (inr (t, user, address, found, has, wallet, c, d, p)) = inr (
    t,
    user,
    address,
    ap (e.find_unique (transactions e).key dto.external_id) (sym a.transactions) ∙ found,
    ap (e.find_unique (users e).key t.user_id) (sym a.users) ∙ has,
    wallet,
    c,
    d,
    p ∙ ap (λ cs. mint_brlt address dto.amount ∷ cs) a.calls,
  )

  process_order-MintsFor :
      (dto : PixWebhookDto e.Number) (w : World e)
      → Ensures
          (process_pix_order_callback e dto)
          w
          (λ _ s. MintsFor dto w s)
          (λ _ s. MintsFor dto w s)
  unfolding process_pix_order_callback
  process_order-MintsFor dto w = Ensures-bind _ _ _ (
      Ensures-find_unique e (events e) _ _ (
        Ensures-branch _ _ _ _ (λ _. Ensures-pure _ _ (inl refl))
          (λ _. Ensures-bind _ _ _ (
            Ensures-fresh_id e _ (
              Ensures-bind _ _ _ (
                Ensures-weaken _ _
                  (Ensures-kept _ _ (record_event-Alike e w _)
                    (record { calls = refl; transactions = refl; users = refl }))
                  (λ b s a.
                    Ensures-branch _ _ _ _
                      (λ _.
                        Ensures-weaken _ _ (order_effects-MintsFor dto s)
                          (λ _ s' p. MintsFor-Alike dto w s s' a p)
                          (λ _ s' p. MintsFor-Alike dto w s s' a p))
                      (λ _. Ensures-pure _ _ (inl a.calls)))
                  (λ x s a. inl a.calls)))))))

  -- A callback of an order makes no call, or one: a mint of the callback's amount. The mint is made
  -- only where the callback's status is CONFIRMED and its type DEPOSIT, and it goes to the wallet
  -- of the user of the transaction that the callback names. This holds also where the callback
  -- throws.
  pub process_pix_order_callback-MintsFor :
      (dto : PixWebhookDto e.Number) (w : World e)
      → MintsFor dto w (process_pix_order_callback e dto w).1
  process_pix_order_callback-MintsFor dto w = Ensures-outcome _ w (process_order-MintsFor dto w)
