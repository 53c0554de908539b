-- ===== src/Tests/World.antt =====
-- The parameters of the model at concrete values, with the laws of the database client.
use cred_bridge.Prelude.{
  ℕ, zero, suc, ◌+◌, ◌-◌, ◌*◌, String, ◌==◌, Option, none, some, List, [], ◌∷◌, true, ltb, eqb,
  concat, if◌then◌else◌,
}
use cred_bridge.Result.{ok}
use cred_bridge.Schema.{User, Receivable, Transaction, FinancialAuthorization, AuthorizationPayload}
use cred_bridge.Ports.{PixOrderResponse, CollectionOrderResponse}
use cred_bridge.Pix.Dto.{PixWebhookDto}
use cred_bridge.Env.{Env, DatabaseLaws}
use cred_bridge.World.{World}
use cred_bridge.Tests.Store.{
  lookup, select, insert, rewrite, rewrite_matching, lookup-has_key, insert-new, lookup-insert,
  rewrite-result, lookup-rewrite, rewrite_matching-count, lookup-rewrite_matching, select-All,
}

unfoldable pub total : List ℕ → ℕ
total [] = 0
total (n ∷ ns) = n + total ns

unfoldable pub nth_id : ℕ → String
nth_id zero = "id"
nth_id (suc n) = concat "x" (nth_id n)

abbrev pub an_order : PixOrderResponse ℕ
an_order = record {
  pix_order_id = "order";
  external_id = "";
  identifier = "pix";
  type = "";
  owner_id = "";
  owner_role = "";
  amount = 50;
  status = "CREATED";
  corpx_txid = none;
  corpx_payment_id = none;
  end_to_end_id = none;
  qr_code_payload = none;
  qr_code_location = none;
  qr_code_base64 = none;
  pix_key = none;
  pix_key_type = none;
  description = none;
  failure_reason = none;
  expires_at = none;
  confirmed_at = none;
  failed_at = none;
  created_at = "";
  updated_at = "";
}

abbrev pub a_collection_order : CollectionOrderResponse ℕ
a_collection_order = record {
  collection_order_id = "collection";
  receivable_id = "";
  identifier = "";
  amount = 50;
  status = "";
  debtor_name = "";
  debtor_document = "";
  due_date = "";
  qr_code_payload = none;
  qr_code_location = none;
  qr_code_base64 = none;
  end_to_end_id = none;
  created_at = "";
  paid_at = none;
}

abbrev settings : String → Option String
settings key =
    if key == "PIX_WEBHOOK_SECRET"
    then some "secret"
    else if key == "STELLAR_RPC_URL"
    then some "http://rpc"
    else if key == "STELLAR_SECRET_KEY"
    then some "platform"
    else if key == "STELLAR_NFE_CONTRACT_ID"
    then some "nfe"
    else if key == "STELLAR_POOL_CONTRACT_ID"
    then some "pool"
    else if key == "STELLAR_BRLT_TOKEN_ID"
    then some "brlt"
    else if key == "STELLAR_WALLET_SECRET"
    then some "seed"
    else none

abbrev pub env : Env
env = record {
  Number = ℕ;
  lt = ltb;
  mul = λ a b. a * b;
  sub = λ a b. a - b;
  sum = total;
  zero_or_nan = λ n. eqb n 0;
  of_nat = λ n. n;
  to_number = λ s. 300;
  to_fixed = λ n d. "97.00";
  parse_date = λ s. 0;
  to_iso_string = λ n. "2026-01-01T00:00:00.000Z";
  clock = λ n. 1000 * n;
  uuid = nth_id;
  config = settings;
  hash_payload = λ p. "hash";
  keypair_verify = λ a b c. ok true;
  hmac_sha256_hex = λ key text. concat key text;
  chain = λ calls c. ok "tx";
  balance = λ calls c. ok 1000;
  unsigned_tx =
      λ calls c. ok (record { xdr = "xdr"; hash_to_sign = "hash"; signer_public_key = "G" });
  pix_order = λ calls c. ok an_order;
  collection_order = λ calls c. ok a_collection_order;
  Rows = λ R. List R;
  find_unique = lookup;
  find_many = select;
  create = insert;
  update = rewrite;
  update_many = rewrite_matching;
}

pub env-DatabaseLaws : DatabaseLaws env
env-DatabaseLaws = record {
  find_has_key = lookup-has_key;
  create_is_new = λ col k r t t' key h. (insert-new col k r t t' key h).0;
  find-create = lookup-insert;
  update_result = rewrite-result;
  find-update = lookup-rewrite;
  update_many_count = rewrite_matching-count;
  find-update_many = lookup-rewrite_matching;
  find_many_sound = select-All;
}

abbrev pub ana : User ℕ
ana = record {
  id = "ana";
  email = "ana@example.com";
  password_hash = none;
  google_id = none;
  provider = "privy";
  role = some "investor";
  name = none;
  stellar_wallet_id = none;
  passkey_id = none;
  wallet_type = none;
  wallet_status = none;
  privy_user_id = none;
  privy_stellar_wallet_address = some "GANA";
  privy_wallet_status = some "ready";
  phone = none;
  address = none;
  company_name = none;
  cnpj = none;
  monthly_revenue = none;
  sector = none;
  investor_type = none;
  risk_profile = none;
  operational_limit = none;
}

abbrev pub invoice : Receivable ℕ
invoice = record {
  id = "invoice";
  user_id = "pme";
  value = 100;
  type = "nfe";
  status = "active";
  debtor_name = "";
  debtor_document = "";
  document_hash = none;
  tx_hash = none;
  payment_tx_hash = none;
  due_date = 0;
  created_at = 0;
}

abbrev pub deposit : Transaction ℕ
deposit = record {
  id = "deposit";
  user_id = "ana";
  type = "DEPOSIT";
  amount = 50;
  status = "PENDING";
  pix_key = none;
  tx_hash = none;
  approved_by = none;
  pix_order_id = none;
  pix_identifier = none;
  pix_txid = none;
  pix_payment_id = none;
  pix_transaction_id = none;
  pix_end_to_end_id = none;
  pix_qr_code_payload = none;
  pix_qr_code_location = none;
  pix_qr_code_base64 = none;
  pix_expires_at = none;
  pix_confirmed_at = none;
  pix_failure_reason = none;
}

abbrev pub payload : AuthorizationPayload
payload = record {
  domain = "";
  version = "";
  network = "";
  operation = "";
  user_id = "";
  wallet_id = "";
  resource_id = none;
  amount = none;
  destination = none;
  nonce = "";
  expires_at = "";
}

-- Verified for the purchase of the invoice by Ana, and valid for the clock of the tests.
abbrev pub grant : FinancialAuthorization ℕ
grant = record {
  id = "grant";
  user_id = "ana";
  wallet_id = "GANA";
  operation = "investment.purchase";
  resource_id = some "invoice";
  amount = some "97.00";
  destination = none;
  nonce = "";
  payload_hash = "hash";
  payload = payload;
  signature = none;
  expires_at = 1000000;
  verified_at = some 0;
  consumed_at = none;
}

abbrev pub world : World env
world = record {
  users = ana ∷ [];
  receivables = invoice ∷ [];
  settlements = [];
  audit_logs = [];
  investments = [];
  transactions = deposit ∷ [];
  events = [];
  collections = [];
  authorizations = grant ∷ [];
  calls = [];
  ticks = 0;
}

abbrev pub callback : PixWebhookDto ℕ
callback = record {
  event_id = "event";
  pix_order_id = "order";
  external_id = "deposit";
  identifier = "";
  type = "DEPOSIT";
  status = "CONFIRMED";
  amount = 50;
  txid = none;
  payment_id = none;
  transaction_id = none;
  end_to_end_id = none;
  confirmed_at = none;
  failed_at = none;
  failure_reason = none;
}
