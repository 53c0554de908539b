-- ===== src/Tests/Chain.antt =====
-- The Stellar SDK at concrete values: keys are texts, and every transaction succeeds at once.
use cred_bridge.Prelude.{leb, ℕ, String, none, some, [], ◌∷◌, true, false, concat, arith}
use cred_bridge.Result.{ok}
use cred_bridge.Pix.Signature.{positive}
use cred_bridge.Stellar.Sdk.{Sdk, simulated, success}
use cred_bridge.Stellar.Net.{Net}
use cred_bridge.Stellar.Submit.Polling.{IsMonotone}
use cred_bridge.Tests.World.{env, world, ana}

abbrev pub sdk : Sdk env
sdk = record {
  Keypair = String;
  from_secret = λ s. s;
  public_key = λ k. concat "G" k;
  derive = λ secret seed. concat secret seed;
  sha256 = λ s. [];
  le = leb;
  big_round = λ n. ok (positive n);
  unix_seconds = λ n. positive n;
  to_xdr = λ tx. "xdr";
  hash_of = λ tx. "hash";
  from_xdr = λ xdr. ok xdr;
  verify = λ xdr key signature. ok true;
  add_signature = λ xdr key signature. ok (concat xdr key);
  add_decorated_signature = λ xdr key signature. concat xdr key;
  horizon_detail = λ x. none;
  horizon_codes = λ x. none;
  Value = ℕ;
  as_pool_state = λ v. record {
    admin = "";
    operator = "";
    asset_address = "";
    share_token_address = "";
    total_principal = positive 0;
    total_shares = positive 0;
    paused = false;
  };
  as_big_int = λ v. positive v;
  as_number = λ v. v;
  to_value = λ raw decimals. decimals;
  big_int_text = λ raw. "";
  account = λ before key. ok (record { xlm = some "5" });
  rpc_account = λ before key. ok tt;
  latest_ledger = λ before. ok (some 7);
  submitted = λ before envelope. ok "submitted";
  simulation = λ before tx. ok (simulated (some 1));
  sent = λ before envelope. ok (record { hash = "sent"; rejected = none });
  status = λ before hash. ok success;
}

pub env-IsMonotone : IsMonotone env
env-IsMonotone n = omega arith

-- Ana has a Privy wallet, Ivo has not.
abbrev pub net : Net env
net = record {
  world = record world {
    users = ana ∷ record ana { id = "ivo"; privy_stellar_wallet_address = none } ∷ [];
  };
  requests = [];
  slept = 0;
}
