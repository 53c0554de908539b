-- ===== src/Pix/Withdrawals.antt =====
-- apps/api/src/modules/pix/pix.service.ts: withdrawals, from the signed transaction to the Pix order.
pub mod Payouts
use cred_bridge.Prelude.{
  String, Bool, true, false, Option, none, some, [], ◌∷◌, ◌==◌, or_else, truthy, concat,
  if◌then◌else◌,
}
use cred_bridge.Result.{
  Error, Result, ok, err, not_found, bad_request, authorization, failure, pure, throw, lift,
  or_throw, try_catch, throw_if, branch, ◌>>=◌, ◌>>◌,
}
use cred_bridge.Schema.{Fields, null, other, str, num, bool, Transaction}
use cred_bridge.Ports.{
  PixOrderResponse, UnsignedSorobanTx, create_withdrawal, submit_signed_tx, get_brlt_balance,
  build_burn_brlt_tx,
}
use cred_bridge.Env.{Env}
use cred_bridge.World.{
  M, users, transactions, fresh_id, send, find_unique, create, update, audit_create,
}
use cred_bridge.Pix.Dto.{CreatePixWithdrawalDto, SubmitWithdrawalDto}
use cred_bridge.Pix.Orders.{keep_unless, wallet_of_found, field, new_transaction, credited_to}

-- `err instanceof BadRequestException`; FinancialAuthorizationException extends it.
abbrev pub is_bad_request : Error → Bool
is_bad_request (bad_request m) = true
is_bad_request (authorization c m) = true
is_bad_request _ = false

-- What `submitWithdrawal` answers.
pub record WithdrawalReply : Type 0 where
  pub status : String
  pub tx_hash : String
  pub pix_order_id : String

module _ (e : Env) where
  -- `(dto.metadata?.burnTxHash as string) || null` as the text column takes it: the cast checks
  -- nothing, so that a truthy value that is no text is refused by the database client.
  abbrev pub burn_tx_hash : Option (Fields e.Number) → Result (Option String)
  burn_tx_hash metadata = elim (field "burnTxHash" (or_else metadata [])) [
    | none ↦ ok none
    | some v ↦ elim v [
      | null ↦ ok none
      | str s ↦ ok (truthy (some s))
      | num n ↦
          if e.zero_or_nan n then ok none else err (failure "PrismaClientValidationError" "txHash")
      | bool b ↦ if b then err (failure "PrismaClientValidationError" "txHash") else ok none
      | other ↦ err (failure "PrismaClientValidationError" "txHash")
    ]
  ]

  unfoldable pub create_withdrawal_order :
      CreatePixWithdrawalDto e.Number
      → String
      → M e (Transaction e.Number × PixOrderResponse e.Number)
  create_withdrawal_order dto requester_id = do
    found ← find_unique e (users e) dto.user_id
    user ← or_throw found (not_found "Usuário não encontrado")
    burned ← lift (burn_tx_hash dto.metadata)
    id ← fresh_id e
    transaction ← create e (transactions e) (
        new_transaction e id dto.user_id "WITHDRAWAL" dto.amount "PROCESSING" (some dto.pix_key)
          burned)
    audit_create e "pix.withdrawal.created" transaction.id "transaction"
        (credited_to e requester_id dto.user_id) none
        (("amount", num dto.amount) ∷ ("pixKey", str dto.pix_key) ∷ [])
    pix_order ← send e e.pix_order (
        create_withdrawal (record {
          external_id = transaction.id;
          owner_id = dto.user_id;
          owner_role = if or_else user.role "" == "pme" then "pme" else "investor";
          amount = dto.amount;
          pix_key = dto.pix_key;
          pix_key_type = dto.pix_key_type;
          description = some (or_else dto.description "Saque CredBridge");
          metadata = dto.metadata;
        }))
    update e (transactions e) transaction.id (λ t. record t {
      pix_order_id = some pix_order.pix_order_id;
      pix_identifier = some pix_order.identifier;
      pix_payment_id = keep_unless pix_order.corpx_payment_id t.pix_payment_id;
    })
    pure (transaction, pix_order)

  -- The balance check of `buildWithdrawalTx`, in its `try`: only a refusal is thrown again.
  unfoldable pub check_brlt_balance : String → e.Number → M e (Unit {0})
  check_brlt_balance address amount =
      try_catch
        (do
          balance ← send e e.balance (get_brlt_balance address)
          throw_if (e.lt balance amount) (
              bad_request (
                concat "Saldo insuficiente em BRLT (disponível: "
                  (concat (e.to_fixed balance 2) ")"))))
        (λ x. branch (is_bad_request x) (throw x) (pure tt))

  unfoldable pub build_withdrawal_tx : String → e.Number → M e UnsignedSorobanTx
  unfolding check_brlt_balance
  build_withdrawal_tx user_id amount = do
    user ← find_unique e (users e) user_id
    address ←
        or_throw (wallet_of_found user)
          (bad_request "Usuário não possui carteira Stellar configurada")
    check_brlt_balance address amount
    send e e.unsigned_tx (build_burn_brlt_tx address amount)

  unfoldable pub submit_withdrawal : String → SubmitWithdrawalDto e.Number → M e WithdrawalReply
  unfolding create_withdrawal_order
  submit_withdrawal user_id dto = do
    user ← find_unique e (users e) user_id
    address ←
        or_throw (wallet_of_found user)
          (bad_request "Usuário não possui carteira Stellar configurada")
    burn_tx_hash ← send e e.chain (submit_signed_tx dto.xdr address dto.signature)
    order ←
        create_withdrawal_order
          (record {
            user_id = user_id;
            amount = dto.amount;
            pix_key = dto.pix_key;
            pix_key_type = dto.pix_key_type;
            description = some "Saque CredBridge via Pix";
            metadata = some (("burnTxHash", str burn_tx_hash) ∷ []);
          })
          user_id
    pure (record {
      status = "PROCESSING";
      tx_hash = burn_tx_hash;
      pix_order_id = order.1.pix_order_id;
    })
