-- ===== src/Examples/Fixtures.antt =====
-- Concrete addresses, accounts, processes and transactions, and a concrete cryptography.
use vocdoni_node.Base.{ℕ, ◌*◌, ◌≡◌, ◌≢◌, true, false, none, some, [], ◌∷◌, arith}
use vocdoni_node.Base.Lists.{replicate}
use vocdoni_node.Base.Bytes.{Bytes, bytes_equal, bytes_equal_iff}
use vocdoni_node.Chain.{Account, Address, Process, ProcessStatus, off_chain_tree, State, ok}
use vocdoni_node.Crypto.{Crypto}
use vocdoni_node.Balance.{burn_address}
use vocdoni_node.Transaction.Types.{FaucetPackage, Payload, Tx, SendTokensTx}
use vocdoni_node.Transaction.Network.{Network}

abbrev pub alice : Address
alice = replicate 20 1

abbrev pub bob : Address
bob = replicate 20 2

abbrev pub carol : Address
carol = replicate 20 3

abbrev pub account : ℕ → Account
account tokens = record {
  nonce = 0;
  info_uri = [];
  balance = tokens;
  delegate_addrs = [];
  process_index = 3;
}

-- The signer of a text is the text itself, and a faucet package of any bytes gives 5 to Bob.
abbrev pub crypto : Crypto
crypto = record {
  addr_from_signature = λ message signature. some message;
  hash_raw = λ b. replicate 32 7;
  sha256 = λ b. b;
  bytes_to_address = λ b. b;
  unmarshal_faucet_payload = λ b. some (record { identifier = 9; to = some bob; amount = 5 });
  put_uint64 = λ n. n ∷ [];
  pub_key_from_signature = λ message signature. some message;
  addr_from_public_key = λ key. some key;
}

-- An election costs twice its greatest census, every proof is valid with weight 1, and a private key
-- is its own public key.
abbrev pub network : Network
network = record {
  price = λ p. p.max_census_size * 2;
  supports_census_size = λ n. true;
  origin_number = λ origin. 1;
  verify = λ verifier p envelope voter. ok (true, some 1);
  zk_inputs = λ proof. ok ([], []);
  committed_accounts = [];
  public_of_private = λ key. some key;
}

abbrev pub election_id : Bytes
election_id = replicate 32 8

abbrev pub election : ProcessStatus → Process
election status = record {
  process_id = election_id;
  entity_id = alice;
  start_block = 1;
  block_count = 0;
  start_time = 100;
  duration = 50;
  census_root = 1 ∷ [];
  census_uri = none;
  census_origin = off_chain_tree;
  mode = record { interruptible = true; dynamic_census = false };
  envelope_type = record {
    serial = false;
    anonymous = false;
    encrypted_votes = false;
    unique_values = true;
    cost_from_weight = false;
  };
  vote_options = record {
    max_count = 2;
    max_value = 3;
    max_vote_overwrites = 1;
    max_total_cost = 0;
    cost_exponent = 1;
  };
  status = status;
  max_census_size = 10;
  metadata = none;
  metadata_hash = [];
  key_index = none;
  process_results = none;
  temp_siks = false;
  encryption_private_keys = [];
  encryption_public_keys = [];
}

-- A chain with three accounts and one election at height 7.
abbrev pub chain : ProcessStatus → State
chain status = record {
  accounts =
      (alice, account 100)
      ∷ (bob, account 50)
      ∷ (carol, account 20)
      ∷ (burn_address, account 0)
      ∷ [];
  tx_costs = [];
  faucet_nonces = [];
  processes = (election_id, election status) ∷ [];
  votes = (election_id, []) ∷ [];
  vote_count = none;
  start_blocks = (election_id, 1) ∷ [];
  actions = [];
  siks = (alice, replicate 32 6) ∷ [];
  register_sik_counters = [];
  assigned_siks = [];
  sik_roots = [];
  valid_sik_roots = [];
  validators = [];
  inactive_since = [];
  score_windows = [];
  max_process_size = some 1000;
  chain_id = [];
  current_height = 7;
  timestamp = some 120;
}

abbrev pub payment : SendTokensTx
payment = record { nonce = 0; from = alice; to = bob; value = 30 }

abbrev pub payment_tx : Tx
payment_tx = record {
  tx_id = [];
  payload = some (Payload.send_tokens payment);
  signed_body = some alice;
  signature = some [];
}

abbrev pub faucet_package : FaucetPackage
faucet_package = record { payload = some alice; signature = some [] }

pub apart : (a b : Bytes) → bytes_equal a b ≡ false → a ≢ b
apart a b h e = ground (arith, bytes_equal_iff a b, h, e)
