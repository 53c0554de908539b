-- ===== src/Pix/Dto.antt =====
-- The bodies that the Pix endpoints receive: apps/api/src/modules/pix/dto/.
use cred_bridge.Prelude.{String, Option, ℕ}
use cred_bridge.Schema.{Fields}

pub record CreatePixDepositDto (N : Type 0) : Type 0 where
  pub user_id : String
  pub amount : N
  pub description : Option String
  pub expires_in_seconds : Option N
  pub metadata : Option (Fields N)

pub record CreatePixWithdrawalDto (N : Type 0) : Type 0 where
  pub user_id : String
  pub amount : N
  pub pix_key : String
  pub pix_key_type : String
  pub description : Option String
  pub metadata : Option (Fields N)

-- The body of `submitWithdrawal`.
pub record SubmitWithdrawalDto (N : Type 0) : Type 0 where
  pub amount : N
  pub pix_key : String
  pub pix_key_type : String
  pub xdr : String
  pub signature : String

-- The argument of `createCollectionOrder`.
pub record CollectionRequest (N : Type 0) : Type 0 where
  pub receivable_id : String
  pub pme_user_id : String
  pub debtor_name : String
  pub debtor_document : String
  pub amount : N
  pub due_date : ℕ

pub record PixWebhookDto (N : Type 0) : Type 0 where
  pub event_id : String
  pub pix_order_id : String
  pub external_id : String
  pub identifier : String
  pub type : String
  pub status : String
  pub amount : N
  pub txid : Option String
  pub payment_id : Option String
  pub transaction_id : Option String
  pub end_to_end_id : Option String
  pub confirmed_at : Option String
  pub failed_at : Option String
  pub failure_reason : Option String

pub record PixCollectionWebhookDto (N : Type 0) : Type 0 where
  pub event_id : String
  pub type : String
  pub collection_order_id : String
  pub receivable_id : String
  pub identifier : String
  pub status : String
  pub amount : N
  pub end_to_end_id : Option String
  pub paid_at : Option String
