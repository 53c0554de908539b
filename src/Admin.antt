-- ===== src/Admin.antt =====
-- apps/api/src/modules/admin/admin.service.ts: the operator's approvals.
pub mod Decisions
use cred_bridge.Prelude.{
  String, Bool, true, not, ◌||◌, Option, none, some, List, [], ◌∷◌, ◌==◌, truthy, coalesce, is_some,
  if◌then◌else◌,
}
use cred_bridge.Result.{
  Error, not_found, bad_request, pure, throw, or_throw, throw_if, branch, ◌>>=◌, ◌>>◌,
}
use cred_bridge.Schema.{new_user, str, num, bool, User, Receivable, Transaction}
use cred_bridge.Ports.{mint_brlt, withdraw_from_pool}
use cred_bridge.Env.{Env}
use cred_bridge.Pix.Collections.{map_list}
use cred_bridge.World.{
  M, users, receivables, transactions, fresh_id, send, find_unique, find_unique_by, find_many,
  create, update, audit_create,
}
use cred_bridge.Pix.Orders.{new_transaction}
use cred_bridge.Receivables.{ReceivableResponse, tokenize}

pub record CreateUserDto (N : Type 0) : Type 0 where
  pub email : String
  pub role : String
  pub name : String
  pub cnpj : Option String
  pub company_name : Option String
  pub monthly_revenue : Option N
  pub risk_profile : Option String
  pub operational_limit : Option N

pub record CreateDepositDto (N : Type 0) : Type 0 where
  pub user_id : String
  pub amount : N

-- `'APPROVED' | 'REJECTED'`
pub data Decision : Type 0 where
  approved rejected : Decision

-- `user.privyStellarWalletAddress || user.stellarWalletId`, if it counts as true.
abbrev pub any_wallet_of : {N : Type 0} → User N → Option String
any_wallet_of user =
    truthy (coalesce (truthy user.privy_stellar_wallet_address) user.stellar_wallet_id)

-- The columns of `listUsers`.
pub record UserSummary (N : Type 0) : Type 0 where
  pub id : String
  pub email : String
  pub name : Option String
  pub role : Option String
  pub cnpj : Option String
  pub company_name : Option String
  pub operational_limit : Option N
  pub stellar_wallet_id : Option String
  pub privy_stellar_wallet_address : Option String

abbrev pub summary_of : {N : Type 0} → User N → UserSummary N
summary_of u = record {
  id = u.id;
  email = u.email;
  name = u.name;
  role = u.role;
  cnpj = u.cnpj;
  company_name = u.company_name;
  operational_limit = u.operational_limit;
  stellar_wallet_id = u.stellar_wallet_id;
  privy_stellar_wallet_address = u.privy_stellar_wallet_address;
}

abbrev pub not_pending : Error
not_pending = bad_request "Este recebível não está com status pendente"

module _ (e : Env) where
  unfoldable pub create_user : CreateUserDto e.Number → M e (User e.Number)
  create_user dto = do
    existing ← find_unique_by e (users e) (λ u. some u.email) dto.email
    throw_if (is_some existing) (bad_request "E-mail já cadastrado na plataforma")
    id ← fresh_id e
    create e (users e) (record (new_user id dto.email "privy") {
      role = some dto.role;
      name = some dto.name;
      company_name = dto.company_name;
      cnpj = dto.cnpj;
      monthly_revenue = dto.monthly_revenue;
      risk_profile = dto.risk_profile;
      operational_limit = dto.operational_limit;
    })

  unfoldable pub list_users : M e (List (UserSummary e.Number))
  list_users = do rows ← find_many e (users e) (λ u. true); pure (map_list summary_of rows)

  unfoldable pub list_pending_receivables : M e (List (Receivable e.Number))
  list_pending_receivables = find_many e (receivables e) (λ r. r.status == "pending")

  -- The checks that `approveReceivable` and `rejectReceivable` share.
  unfoldable pub load_pending : String → M e (Receivable e.Number)
  load_pending id = do
    found ← find_unique e (receivables e) id
    receivable ← or_throw found (not_found "Recebível não encontrado")
    throw_if (not (receivable.status == "pending")) not_pending
    pure receivable

  unfoldable pub approve_receivable : String → String → M e (ReceivableResponse e.Number)
  unfolding load_pending
  approve_receivable id operator_id = do
    load_pending id
    update e (receivables e) id (λ r. record r { status = "validated" })
    audit_create e "receivable.validated" id "receivable" operator_id none
        (("approvedByOperator", bool true) ∷ [])
    tokenize e id

  unfoldable pub reject_receivable : String → String → M e (Receivable e.Number)
  unfolding load_pending
  reject_receivable id operator_id = do
    load_pending id
    updated ← update e (receivables e) id (λ r. record r { status = "rejected" })
    audit_create e "receivable.rejected" id "receivable" operator_id none
        (("rejectedByOperator", bool true) ∷ [])
    pure updated

  abbrev pub awaits_approval : Transaction e.Number → Bool
  awaits_approval t = t.status == "PENDING" || t.status == "PAYMENT_SUBMITTED"

  unfoldable pub list_pending_transactions : M e (List (Transaction e.Number))
  list_pending_transactions = find_many e (transactions e) awaits_approval

  unfoldable pub create_deposit : CreateDepositDto e.Number → String → M e (Transaction e.Number)
  create_deposit dto operator_id = do
    found ← find_unique e (users e) dto.user_id
    investor ← or_throw found (not_found "Investidor não encontrado")
    id ← fresh_id e
    transaction ←
        create e (transactions e)
          (new_transaction e id dto.user_id "DEPOSIT" dto.amount "PENDING_PAYMENT" none none)
    audit_create e "pool.deposit_order_created" transaction.id "transaction" operator_id none
        (("amount", num dto.amount) ∷ ("investorId", str dto.user_id) ∷ [])
    pure transaction

  -- The mint of an approved deposit.
  unfoldable pub mint_approved : Transaction e.Number → M e String
  mint_approved transaction = do
    found ← find_unique e (users e) transaction.user_id
    user ← or_throw found (not_found "Usuário investidor não encontrado")
    wallet_address ←
        or_throw (any_wallet_of user)
          (bad_request "Investidor não possui uma carteira Stellar configurada")
    send e e.chain (mint_brlt wallet_address transaction.amount)

  -- The action on the chain, by the transaction's type.
  unfoldable pub pool_action : Transaction e.Number → M e String
  unfolding mint_approved
  pool_action transaction = branch (transaction.type == "DEPOSIT") (mint_approved transaction) (
      branch (transaction.type == "WITHDRAWAL")
        (send e e.chain (withdraw_from_pool transaction.user_id transaction.amount))
        (throw (bad_request "Tipo de transação inválido")))

  unfoldable pub record_approval :
      String → String → Transaction e.Number → String → M e (Transaction e.Number)
  record_approval id operator_id transaction tx_hash = do
    updated ← update e (transactions e) id (λ t. record t {
      status = "APPROVED";
      approved_by = some operator_id;
      tx_hash = some tx_hash;
    })
    audit_create e (if transaction.type == "DEPOSIT" then "pool.deposit" else "pool.withdrawal") id
        "transaction" transaction.user_id (some tx_hash)
        (("amount", num transaction.amount) ∷ ("approvedBy", str operator_id) ∷ [])
    pure updated

  unfoldable pub decide :
      String → String → Decision → Transaction e.Number → M e (Transaction e.Number)
  unfolding pool_action record_approval
  decide id operator_id rejected transaction =
      update e (transactions e) id
        (λ t. record t { status = "REJECTED"; approved_by = some operator_id })
  decide id operator_id approved transaction = do
    tx_hash ← pool_action transaction
    record_approval id operator_id transaction tx_hash

  unfoldable pub approve_transaction : String → String → Decision → M e (Transaction e.Number)
  unfolding decide
  approve_transaction id operator_id decision = do
    found ← find_unique e (transactions e) id
    transaction ← or_throw found (not_found "Transação não encontrada")
    throw_if (not (awaits_approval transaction))
        (bad_request "Esta transação não está pendente de aprovação")
    decide id operator_id decision transaction
