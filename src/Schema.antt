-- ===== src/Schema.antt =====
-- The rows of the tables of apps/api/prisma/schema.prisma, over the type `N` of JavaScript numbers.
-- Texts, ids and enumerated columns are texts, as they are there; a DateTime is its milliseconds.
-- `createdAt` and `updatedAt` of rows that no modelled code reads are left out.
use cred_bridge.Prelude.{ℕ, String, Bool, Option, none, some, List}

-- A JSON value as the modelled code reads it: `other` stands for arrays and nested objects.
pub data Json (N : Type 0) : Type 0 where
  null other : Json N
  str : String → Json N
  num : N → Json N
  bool : Bool → Json N

abbrev pub Fields : Type 0 → Type 0
Fields N = List (String × Json N)

abbrev pub str_or_null : {N : Type 0} → Option String → Json N
str_or_null none = null
str_or_null (some s) = str s

pub record User (N : Type 0) : Type 0 where
  pub id : String
  pub email : String
  pub password_hash : Option String
  pub google_id : Option String
  pub provider : String
  pub role : Option String
  pub name : Option String
  pub stellar_wallet_id : Option String
  pub passkey_id : Option String
  pub wallet_type : Option String
  pub wallet_status : Option String
  pub privy_user_id : Option String
  pub privy_stellar_wallet_address : Option String
  pub privy_wallet_status : Option String
  pub phone : Option String
  pub address : Option String
  pub company_name : Option String
  pub cnpj : Option String
  pub monthly_revenue : Option N
  pub sector : Option String
  pub investor_type : Option String
  pub risk_profile : Option String
  pub operational_limit : Option N

-- A row of a new user: what the model of the table leaves out is null.
abbrev pub new_user : {N : Type 0} → String → String → String → User N
new_user id email provider = record {
  id = id;
  email = email;
  password_hash = none;
  google_id = none;
  provider = provider;
  role = none;
  name = none;
  stellar_wallet_id = none;
  passkey_id = none;
  wallet_type = none;
  wallet_status = none;
  privy_user_id = none;
  privy_stellar_wallet_address = none;
  privy_wallet_status = none;
  phone = none;
  address = none;
  company_name = none;
  cnpj = none;
  monthly_revenue = none;
  sector = none;
  investor_type = none;
  risk_profile = none;
  operational_limit = none;
}

pub record Receivable (N : Type 0) : Type 0 where
  pub id : String
  pub user_id : String
  pub value : N
  pub type : String
  pub status : String
  pub debtor_name : String
  pub debtor_document : String
  pub document_hash : Option String
  pub tx_hash : Option String
  pub payment_tx_hash : Option String
  pub due_date : ℕ
  pub created_at : ℕ

pub record Settlement (N : Type 0) : Type 0 where
  pub id : String
  pub receivable_id : String
  pub amount : N
  pub method : String
  pub status : String
  pub tx_hash : Option String
  pub settled_at : Option ℕ

pub record AuditLog (N : Type 0) : Type 0 where
  pub id : String
  pub event : String
  pub entity_id : String
  pub entity_type : String
  pub user_id : String
  pub tx_hash : Option String
  pub metadata : Fields N

pub record Investment (N : Type 0) : Type 0 where
  pub id : String
  pub investor_user_id : String
  pub receivable_id : String
  pub amount_paid : N
  pub face_value : N
  pub discount_rate : N
  pub status : String
  pub pix_tx_id : Option String
  pub payment_tx_hash : Option String
  pub nft_transfer_tx_hash : Option String

pub record Transaction (N : Type 0) : Type 0 where
  pub id : String
  pub user_id : String
  pub type : String
  pub amount : N
  pub status : String
  pub pix_key : Option String
  pub tx_hash : Option String
  pub approved_by : Option String
  pub pix_order_id : Option String
  pub pix_identifier : Option String
  pub pix_txid : Option String
  pub pix_payment_id : Option String
  pub pix_transaction_id : Option String
  pub pix_end_to_end_id : Option String
  pub pix_qr_code_payload : Option String
  pub pix_qr_code_location : Option String
  pub pix_qr_code_base64 : Option String
  pub pix_expires_at : Option ℕ
  pub pix_confirmed_at : Option ℕ
  pub pix_failure_reason : Option String

pub record PixWebhookEvent (N : Type 0) : Type 0 where
  pub id : String
  pub event_id : String
  pub pix_order_id : String
  pub external_id : String
  pub identifier : Option String
  pub type : String
  pub status : String
  pub amount : N

pub record ReceivableCollection (N : Type 0) : Type 0 where
  pub id : String
  pub receivable_id : String
  pub pix_order_id : Option String
  pub identifier : Option String
  pub amount : N
  pub due_date : ℕ
  pub status : String
  pub tx_hash : Option String
  pub end_to_end_id : Option String
  pub pix_qr_code_payload : Option String
  pub pix_qr_code_location : Option String
  pub pix_qr_code_base64 : Option String
  pub paid_at : Option ℕ

-- The challenge that a wallet signs: `FinancialAuthorizationPayload` of
-- apps/api/src/modules/financial-authorizations/financial-authorization.types.ts.
pub record AuthorizationPayload : Type 0 where
  pub domain : String
  pub version : String
  pub network : String
  pub operation : String
  pub user_id : String
  pub wallet_id : String
  pub resource_id : Option String
  pub amount : Option String
  pub destination : Option String
  pub nonce : String
  pub expires_at : String

pub record FinancialAuthorization (N : Type 0) : Type 0 where
  pub id : String
  pub user_id : String
  pub wallet_id : String
  pub operation : String
  pub resource_id : Option String
  pub amount : Option String
  pub destination : Option String
  pub nonce : String
  pub payload_hash : String
  pub payload : AuthorizationPayload
  pub signature : Option (Fields N)
  pub expires_at : ℕ
  pub verified_at : Option ℕ
  pub consumed_at : Option ℕ
