-- ===== src/Ports.antt =====
-- What the services exchange with code that is not modelled: the requests to the Pix microservice
-- and its replies (apps/api/src/modules/pix/pix.client.ts), and the calls of the Stellar service
-- (apps/api/src/shared/blockchain/blockchain.interface.ts).
use cred_bridge.Prelude.{ℕ, String, Option}
use cred_bridge.Schema.{Fields}

pub record CreateDepositOrder (N : Type 0) : Type 0 where
  pub external_id : String
  pub owner_id : String
  pub owner_role : String
  pub amount : N
  pub description : Option String
  pub expires_in_seconds : Option N
  pub metadata : Fields N

pub record CreateWithdrawalOrder (N : Type 0) : Type 0 where
  pub external_id : String
  pub owner_id : String
  pub owner_role : String
  pub amount : N
  pub pix_key : String
  pub pix_key_type : String
  pub description : Option String
  pub metadata : Option (Fields N)

pub record CreateCollectionOrder (N : Type 0) : Type 0 where
  pub receivable_id : String
  pub pme_user_id : String
  pub debtor_name : String
  pub debtor_document : String
  pub amount : N
  pub due_date : String
  pub payment_deadline : String

-- The reply's fields that the services read.
pub record PixOrderResponse (N : Type 0) : Type 0 where
  pub pix_order_id : String
  pub external_id : String
  pub identifier : String
  pub type : String
  pub owner_id : String
  pub owner_role : String
  pub amount : N
  pub status : String
  pub corpx_txid : Option String
  pub corpx_payment_id : Option String
  pub end_to_end_id : Option String
  pub qr_code_payload : Option String
  pub qr_code_location : Option String
  pub qr_code_base64 : Option String
  pub pix_key : Option String
  pub pix_key_type : Option String
  pub description : Option String
  pub failure_reason : Option String
  pub expires_at : Option String
  pub confirmed_at : Option String
  pub failed_at : Option String
  pub created_at : String
  pub updated_at : String

pub record CollectionOrderResponse (N : Type 0) : Type 0 where
  pub collection_order_id : String
  pub receivable_id : String
  pub identifier : String
  pub amount : N
  pub status : String
  pub debtor_name : String
  pub debtor_document : String
  pub due_date : String
  pub qr_code_payload : Option String
  pub qr_code_location : Option String
  pub qr_code_base64 : Option String
  pub end_to_end_id : Option String
  pub created_at : String
  pub paid_at : Option String

pub record UnsignedSorobanTx : Type 0 where
  pub xdr : String
  pub hash_to_sign : String
  pub signer_public_key : String

-- One constructor for each request that leaves the process. The last group only reads or builds.
pub data Call (N : Type 0) : Type 0 where
  mint_brlt : String → N → Call N
  withdraw_from_pool : String → N → Call N
  submit_signed_tx : String → String → String → Call N
  tokenize_nfe : String → N → ℕ → Option String → String → Call N
  transfer_nft_to_platform : String → Call N
  submit_signed_assignment : String → String → String → Call N
  buy_tokenized_invoice_in_pool : String → String → String → N → Call N
  settle_invoice_in_pool : String → N → Call N
  charge_investor : String → N → String → Call N
  transfer_nft_to_investor : String → String → Call N
  fund_account_from_platform : String → String → Call N
  create_deposit : CreateDepositOrder N → Call N
  create_withdrawal : CreateWithdrawalOrder N → Call N
  create_collection : CreateCollectionOrder N → Call N
  refresh_order : String → Call N
  get_order_by_id : String → Call N
  get_brlt_balance : String → Call N
  build_approve_tx build_deposit_tx build_burn_brlt_tx : String → N → Call N
  prepare_assignment : String → String → Call N
