-- ===== src/Tests/Witnesses.antt =====
-- Each property at a concrete input.
use cred_bridge.Prelude.{concat, ◌∷◌, ℕ, String, ◌≡◌, refl, ◌⊎◌, inr, ◌↔◌, true, some, none, []}
use cred_bridge.Result.{ok, err, bad_request, ◌>>=◌}
use cred_bridge.Result.Rules.{Post}
use cred_bridge.World.Rules.{SameButTicks}
use cred_bridge.World.{World, actions, audit_create}
use cred_bridge.Tests.World.{
  callback, ana, invoice, nth_id, env, env-DatabaseLaws, world, deposit, grant,
}
use cred_bridge.Tests.Store.{lookup, insert, rewrite, rewrite_matching}
use cred_bridge.Schema.{str, Transaction}
use cred_bridge.Settlements.{settle_invoice}
use cred_bridge.Settlements.Idempotence.{settle_invoice-settle_invoice}
use cred_bridge.Pix.Dto.{PixCollectionWebhookDto, SubmitWithdrawalDto}
use cred_bridge.Pix.Callbacks.{process_pix_order_callback}
use cred_bridge.Pix.Callbacks.Redelivery.{order_redelivered, collection_redelivered}
use cred_bridge.Pix.Callbacks.Minting.{MintsFor, process_pix_order_callback-MintsFor}
use cred_bridge.Pix.Collections.{process_collection_callback}
use cred_bridge.Pix.Withdrawals.{submit_withdrawal}
use cred_bridge.Pix.Withdrawals.Payouts.{
  PaidAfterSubmission, RefusedWithdrawal, paid_after_submission,
}
use cred_bridge.Pix.Signature.{
  order, parse_int, positive, webhook_secret, expected_header, verify_pix_callback_signature,
  receive_pix_webhook, process_body,
}
use cred_bridge.Pix.Signature.Genuine.{IsGenuine, verify_pix_callback_signature-IsGenuine}
use cred_bridge.Pix.Signature.Endpoint.{
  configured_skew, IsUnchecked, IsChecked, IsJudged, callback_decided,
}
use cred_bridge.Authorizations.{VerifyDto, verify, Consumption, consume, commit_consumption}
use cred_bridge.Authorizations.SingleUse.{Consumed, consume-Consumed, consumed_once}
use cred_bridge.Investments.{
  Reservation, CreateInvestmentDto, reserve_or_conflict, create_investment,
}
use cred_bridge.Receivables.{submit_assignment}
use cred_bridge.Receivables.Assignment.{Assigned, NotAssigned, submit_assignment-Assigned}
use cred_bridge.Authorizations.Verification.{Verified, verify-Verified}
use cred_bridge.Investments.Exclusive.{reserved_once}
use cred_bridge.Investments.Purchase.{
  Reserved, Bought, NotBought, create_investment-Bought, reservation_all_or_nothing,
}
use cred_bridge.Marketplace.{find_pool}
use cred_bridge.Marketplace.Sold.{NotListed, off_sale_once_sold}
use cred_bridge.Admin.{approved, rejected, approve_transaction}
use cred_bridge.Admin.Decisions.{Decided, NotDecided, approve_transaction-Decided, decided_once}

abbrev payment : PixCollectionWebhookDto ℕ
payment = record {
  event_id = "payment";
  type = "COLLECTION";
  collection_order_id = "collection";
  receivable_id = "invoice";
  identifier = "";
  status = "PAID";
  amount = 100;
  end_to_end_id = none;
  paid_at = none;
}

abbrev withdrawal : SubmitWithdrawalDto ℕ
withdrawal = record {
  amount = 20;
  pix_key = "key";
  pix_key_type = "EMAIL";
  xdr = "xdr";
  signature = "sig";
}

abbrev purchase : CreateInvestmentDto
purchase = record { receivable_id = "invoice"; authorization_id = "grant"; pix_tx_id = none }

abbrev use_of_grant : Consumption
use_of_grant = record {
  authorization_id = "grant";
  user_id = "ana";
  operation = "investment.purchase";
  resource_id = some "invoice";
  amount = some "97.00";
  destination = none;
}

abbrev after_settlement : World env
after_settlement = (settle_invoice env "invoice" world).1

settles : settle_invoice env "invoice" world ≡ (ok (some "tx"), after_settlement)
unfolding settle_invoice ◌>>=◌ actions lookup insert rewrite rewrite_matching
settles = refl

settle_invoice-settle_invoice_example :
    settle_invoice env "invoice" after_settlement ≡ (ok (some "tx"), after_settlement)
settle_invoice-settle_invoice_example =
    settle_invoice-settle_invoice env env-DatabaseLaws "invoice" world after_settlement (some "tx")
      settles

order_redelivered_example :
    SameButTicks env world (process_pix_order_callback env callback world).1
    ⊎ (process_pix_order_callback env callback (process_pix_order_callback env callback world).1
        ≡ (ok tt, (process_pix_order_callback env callback world).1))
order_redelivered_example = order_redelivered env env-DatabaseLaws callback callback world refl

collection_redelivered_example :
    SameButTicks env world (process_collection_callback env payment world).1
    ⊎ (process_collection_callback env payment (process_collection_callback env payment world).1
        ≡ (ok tt, (process_collection_callback env payment world).1))
collection_redelivered_example =
    collection_redelivered env env-DatabaseLaws payment payment world refl

process_pix_order_callback-MintsFor_example :
    MintsFor env callback world (process_pix_order_callback env callback world).1
process_pix_order_callback-MintsFor_example = process_pix_order_callback-MintsFor env callback world

paid_after_submission_example :
    Post
      (PaidAfterSubmission env "ana" withdrawal world)
      (λ _. RefusedWithdrawal env "ana" withdrawal world)
      (submit_withdrawal env "ana" withdrawal world).0
      (submit_withdrawal env "ana" withdrawal world).1
paid_after_submission_example = paid_after_submission env env-DatabaseLaws "ana" withdrawal world

abbrev signature : String
signature = expected_header env (webhook_secret env) "1" "body"

genuine :
    IsGenuine env "body"
      (some signature)
      (some "1")
      (webhook_secret env)
      (configured_skew env)
      world
unfolding parse_int webhook_secret expected_header
genuine = (signature, "1", positive 1, 1, refl, refl, refl, inr refl, refl, refl)

genuine_accepted :
    (verify_pix_callback_signature env "body"
      (some signature)
      (some "1")
      (webhook_secret env)
      (configured_skew env)
      world).0
    ≡ ok true
genuine_accepted =
    (verify_pix_callback_signature-IsGenuine env "body" (some signature) (some "1")
        (webhook_secret env) (configured_skew env) world).1
      genuine

verify_pix_callback_signature-IsGenuine_example :
    ((verify_pix_callback_signature env "body"
        (some signature)
        (some "1")
        (webhook_secret env)
        (configured_skew env)
        world).0
      ≡ ok true)
    ↔ IsGenuine env "body"
        (some signature)
        (some "1")
        (webhook_secret env)
        (configured_skew env)
        world
verify_pix_callback_signature-IsGenuine_example =
    verify_pix_callback_signature-IsGenuine env "body" (some signature) (some "1")
      (webhook_secret env) (configured_skew env) world

callback_decided_example :
    (IsUnchecked env (some "body")
      × (receive_pix_webhook env (some "body") (some signature) (some "1") (order callback) world
          ≡ process_body env (order callback) world))
    ⊎ ((text : String) × IsChecked env (some "body") text
        × IsJudged env text (some "body") (some signature) (some "1") (order callback) world)
callback_decided_example =
    callback_decided env (some "body") (some signature) (some "1") (order callback) world

consume-Consumed_example :
    Post
      (λ _. Consumed env use_of_grant world)
      (λ _ s. s.calls ≡ world.calls)
      (consume env use_of_grant world).0
      (consume env use_of_grant world).1
consume-Consumed_example = consume-Consumed env env-DatabaseLaws use_of_grant world

abbrev after_use : World env
after_use = (consume env use_of_grant world).1

uses : consume env use_of_grant world ≡ (ok tt, after_use)
unfolding consume ◌>>=◌ actions audit_create lookup insert rewrite rewrite_matching
uses = refl

consumed_once_example :
    Post
      (λ _ _. ⊥)
      (λ _ s'. s' ≡ record after_use { ticks = s'.ticks })
      (consume env use_of_grant after_use).0
      (consume env use_of_grant after_use).1
    × Post
        (λ _ _. ⊥)
        (λ _ s'. s'.calls ≡ after_use.calls)
        (commit_consumption env use_of_grant grant after_use).0
        (commit_consumption env use_of_grant grant after_use).1
consumed_once_example =
    consumed_once env env-DatabaseLaws use_of_grant use_of_grant grant world after_use uses refl
      refl

reservation_all_or_nothing_example :
    Post
      (Reserved env "ana" purchase world)
      (λ _. SameButTicks env world)
      (reserve_or_conflict env "ana" purchase world).0
      (reserve_or_conflict env "ana" purchase world).1
reservation_all_or_nothing_example = reservation_all_or_nothing env "ana" purchase world

create_investment-Bought_example :
    Post
      (λ _. Bought env "ana" purchase world)
      (λ _. NotBought env "ana" purchase world)
      (create_investment env "ana" purchase world).0
      (create_investment env "ana" purchase world).1
create_investment-Bought_example =
    create_investment-Bought env env-DatabaseLaws "ana" purchase world

approve_transaction-Decided_example :
    Post
      (λ _ s. Decided env "deposit" "op" approved world s.transactions s.calls)
      (λ _. NotDecided env "deposit" world)
      (approve_transaction env "deposit" "op" approved world).0
      (approve_transaction env "deposit" "op" approved world).1
approve_transaction-Decided_example =
    approve_transaction-Decided env env-DatabaseLaws "deposit" "op" approved world

abbrev after_approval : World env
after_approval = (approve_transaction env "deposit" "op" approved world).1

abbrev approved_deposit : Transaction ℕ
approved_deposit = record deposit {
  status = "APPROVED";
  approved_by = some "op";
  tx_hash = some "tx";
}

approves :
    approve_transaction env "deposit" "op" approved world ≡ (ok approved_deposit, after_approval)
unfolding approve_transaction ◌>>=◌ actions audit_create lookup insert rewrite rewrite_matching
approves = refl

decided_once_example :
    approve_transaction env "deposit" "eve" rejected after_approval
    ≡ (err (bad_request "Esta transação não está pendente de aprovação"), after_approval)
decided_once_example =
    decided_once env env-DatabaseLaws "deposit" "op" "eve" approved rejected approved_deposit world
      after_approval approves

abbrev after_reservation : World env
after_reservation = (reserve_or_conflict env "ana" purchase world).1

abbrev reservation : Reservation ℕ
reservation = record { id = "id"; receivable_id = "invoice"; amount_paid = 300 }

reserves : reserve_or_conflict env "ana" purchase world ≡ (ok reservation, after_reservation)
unfolding reserve_or_conflict ◌>>=◌ actions audit_create lookup insert rewrite nth_id
reserves = refl

reserved_once_example :
    Post
      (λ _ _. ⊥)
      (λ _. SameButTicks env after_reservation)
      (reserve_or_conflict env "bob" purchase after_reservation).0
      (reserve_or_conflict env "bob" purchase after_reservation).1
reserved_once_example =
    reserved_once env env-DatabaseLaws "ana" "bob" purchase purchase reservation world
      after_reservation reserves refl

off_sale_once_sold_example :
    Post
      (λ rows t. NotListed env env-DatabaseLaws "invoice" rows × (t ≡ after_reservation))
      (λ _ _. ⊥)
      (find_pool env after_reservation).0
      (find_pool env after_reservation).1
off_sale_once_sold_example =
    off_sale_once_sold env env-DatabaseLaws "ana" purchase reservation world after_reservation
      reserves

abbrev tokenized_world : World env
tokenized_world = record world {
  users = record ana { id = "pme" } ∷ [];
  receivables = record invoice { status = "tokenized" } ∷ [];
}

submit_assignment-Assigned_example :
    Post
      (λ _. Assigned env "invoice" "xdr" "sig" tokenized_world)
      (λ _. NotAssigned env "invoice" "xdr" "sig" tokenized_world)
      (submit_assignment env "invoice" "xdr" "sig" tokenized_world).0
      (submit_assignment env "invoice" "xdr" "sig" tokenized_world).1
submit_assignment-Assigned_example =
    submit_assignment-Assigned env env-DatabaseLaws "invoice" "xdr" "sig" tokenized_world

abbrev hex_hash : String
hex_hash = "00112233445566778899aabbccddeeff00112233445566778899aabbccddeeff"

abbrev challenge_world : World env
challenge_world = record world {
  authorizations = record grant { payload_hash = hex_hash; verified_at = none } ∷ [];
}

abbrev signed_challenge : VerifyDto ℕ
signed_challenge = record {
  authorization_id = "grant";
  payload_hash = hex_hash;
  assertion =
      ("type", str "privy_raw_hash")
      ∷ ("address", str "GANA")
      ∷ ("signature", str (concat hex_hash hex_hash))
      ∷ [];
}

verify-Verified_example :
    Post
      (λ _ s.
        Verified env "ana" signed_challenge challenge_world s × (s.calls ≡ challenge_world.calls))
      (λ _ s. s.calls ≡ challenge_world.calls)
      (verify env "ana" signed_challenge challenge_world).0
      (verify env "ana" signed_challenge challenge_world).1
verify-Verified_example =
    verify-Verified env env-DatabaseLaws "ana" signed_challenge challenge_world
