-- ===== src/Examples/Requests.antt =====
-- Requests: elections created and changed, keys of a key keeper, a new account, and the scores of
-- the validators.
use vocdoni_node.Base.{
  ℕ, ◌≤◌, ◌≡◌, ◌≢◌, ◌⊎◌, ◌*◌, ◌/◌, refl, true, false, not, ◌&&◌, leb, ◌==◌, some, none, List, [],
  ◌∷◌, arith,
}
use vocdoni_node.Base.Lists.{replicate}
use vocdoni_node.Base.Bytes.{Bytes, bytes_equal, codes}
use vocdoni_node.Base.Dict.{lookup}
use vocdoni_node.Chain.{Process, Address, Validator, State, ready, results, ended, ok}
use vocdoni_node.Crypto.{Crypto}
use vocdoni_node.TxType.{TxType}
use vocdoni_node.Account.Supply.{Fits}
use vocdoni_node.Balance.{burn_address}
use vocdoni_node.Balance.Conservation.{Conserves}
use vocdoni_node.Ist.{is_due}
use vocdoni_node.Process.{end_time}
use vocdoni_node.Validators.Scores.{Formulas, update_validator_score}
use vocdoni_node.Validators.Scores.Capped.{Capped}
use vocdoni_node.Validators.Scores.Power.{update_validator_score-Capped}
use vocdoni_node.Transaction.Types.{
  Payload, Tx, ProcessMessage, NewProcessTx, SetProcessTx, SetAccountTx, AdminTx,
}
use vocdoni_node.Transaction.ElectionTx.Delivery.{end_action, check_new_process, check_set_process}
use vocdoni_node.Transaction.ElectionTx.Sound.{Sound}
use vocdoni_node.Transaction.ElectionTx.Created.{Created, check_new_process-Created}
use vocdoni_node.Transaction.ElectionTx.Changed
use vocdoni_node.Transaction.ElectionTx.Closing.{HasResults, check_set_process_no_results}
use vocdoni_node.Transaction.AccountTx.Delivery.{check_set_account}
use vocdoni_node.Transaction.AccountTx.Opening.{check_set_account-Conserves}
use vocdoni_node.Transaction.AdminTx.{admin_tx_check}
use vocdoni_node.Transaction.AdminTx.Keykeeper
use vocdoni_node.Examples.Fixtures.{
  alice, crypto, network, election, election_id, chain, faucet_package, apart,
}

abbrev signed_by : Address → Payload → Tx
signed_by sender payload = record {
  tx_id = 3 ∷ [];
  payload = some payload;
  signed_body = some sender;
  signature = some [];
}

abbrev planned : Process
planned = record (election ready) { start_time = 200; start_block = 0 }

abbrev creation : Tx
creation = signed_by alice (
    Payload.new_process (record {
      tx_type = TxType.new_process;
      nonce = 0;
      process = some (record {
        process = planned;
        vote_options = some planned.vote_options;
        envelope_type = some planned.envelope_type;
        mode = some planned.mode;
        entity_id = none;
      });
      faucet_package = none;
    }))

created : (check_new_process crypto network creation true (chain ready)).0 ≡ ok tt
unfolding check_new_process vocdoni_node.Transaction.Nonce.check_account_nonce lookup bytes_equal
    vocdoni_node.Transaction.ElectionTx.new_process_tx_check
    vocdoni_node.Transaction.ElectionTx.check_fields vocdoni_node.Process.is_open
    vocdoni_node.Transaction.ElectionTx.check_metadata_sizes
    vocdoni_node.Transaction.Network.metadata_fork_active
    vocdoni_node.Transaction.ElectionTx.check_origin vocdoni_node.Transaction.ElectionTx.check_times
    vocdoni_node.Transaction.ElectionTx.convert_blocks vocdoni_node.Transaction.ElectionTx.start_now
    vocdoni_node.Transaction.ElectionTx.admit_process
    vocdoni_node.Transaction.ElectionTx.check_max_census_size
    vocdoni_node.Transaction.Faucet.check_account_can_pay_cost
    vocdoni_node.Transaction.Types.payload_faucet_package vocdoni_node.Account.get_account
    vocdoni_node.Account.increment_account_process_index vocdoni_node.Account.next_process_index
    vocdoni_node.Account.require_account vocdoni_node.Account.set_account
    vocdoni_node.Account.transfer vocdoni_node.Balance.burn_fee
    vocdoni_node.Balance.burn_tx_cost_increment_nonce vocdoni_node.Balance.effective_cost
    vocdoni_node.Balance.spend_fee vocdoni_node.Balance.state_key vocdoni_node.Balance.tx_base_cost
    vocdoni_node.Base.Dict.insert vocdoni_node.Ist.add_action vocdoni_node.Ist.schedule
    vocdoni_node.Process.add_process vocdoni_node.Process.get_timestamp
    vocdoni_node.Process.insert_new vocdoni_node.ProcessId.build_process_id
    vocdoni_node.ProcessId.envelope_bits vocdoni_node.ProcessId.marshal
    vocdoni_node.ProcessId.put_u32 vocdoni_node.ProcessId.set_census_origin
    vocdoni_node.ProcessId.set_envelope_type
    vocdoni_node.Transaction.ElectionTx.Delivery.deliver_new_process end_action
    vocdoni_node.Transaction.ElectionTx.check_organization
    vocdoni_node.Transaction.ElectionTx.get_new_process
    vocdoni_node.Transaction.ElectionTx.next_process_id
    vocdoni_node.Transaction.ElectionTx.with_keys
    vocdoni_node.Transaction.Faucet.check_faucet_package_and_transfer
    vocdoni_node.Transaction.Faucet.pay vocdoni_node.Transaction.Network.metadata_fork
    vocdoni_node.Transaction.Nonce.extract_nonce_and_sender
    vocdoni_node.Transaction.Nonce.payload_nonce vocdoni_node.Transaction.Tokens.is_nil_tx
created = refl

check_new_process-Created_example :
    (p : Process) × (sender : Address) × Sound crypto network creation p sender (chain ready)
    × Created p (chain ready) (check_new_process crypto network creation true (chain ready)).1
    × (is_due 8 250 (end_action p) ≡ (not (end_time p == 0) && leb (end_time p) 250))
check_new_process-Created_example =
    check_new_process-Created crypto network creation 8 250 (chain ready) created

abbrev ending : Tx
ending = signed_by alice (
    Payload.set_process (record {
      tx_type = TxType.set_process_status;
      nonce = 0;
      process_id = election_id;
      status = ended;
      census_root = none;
      census_uri = [];
      census_size = 0;
      duration = 0;
      metadata = [];
      metadata_hash = [];
      faucet_package = none;
    }))

-- A second election, with results.
abbrev closed_id : Bytes
closed_id = replicate 32 9

abbrev two_elections : State
two_elections = record (chain ready) {
  processes = (election_id, election ready) ∷ (closed_id, election results) ∷ [];
  tx_costs = (codes "c_setProcessStatus", 1) ∷ [];
}

ended_one :
    ((check_set_process crypto network ending true two_elections).0 ≡ ok tt)
    × (lookup closed_id (check_set_process crypto network ending true two_elections).1.processes
        ≡ some (election results))
unfolding check_set_process vocdoni_node.Transaction.Nonce.check_account_nonce lookup bytes_equal
    vocdoni_node.Transaction.Faucet.check_account_can_pay_cost vocdoni_node.Account.get_account
    vocdoni_node.Account.require_account vocdoni_node.Account.set_account
    vocdoni_node.Account.transfer vocdoni_node.Balance.burn_fee
    vocdoni_node.Balance.burn_tx_cost_increment_nonce vocdoni_node.Balance.effective_cost
    vocdoni_node.Balance.spend_fee vocdoni_node.Balance.state_key vocdoni_node.Balance.tx_base_cost
    vocdoni_node.Base.Dict.insert vocdoni_node.Ist.add_action vocdoni_node.Ist.schedule
    vocdoni_node.Process.get_timestamp vocdoni_node.Process.same
    vocdoni_node.Transaction.Faucet.check_faucet_package_and_transfer
    vocdoni_node.Transaction.Faucet.pay vocdoni_node.Transaction.Nonce.extract_nonce_and_sender
    vocdoni_node.Transaction.Nonce.payload_nonce vocdoni_node.Transaction.Tokens.is_nil_tx
    vocdoni_node.Transaction.ElectionTx.Delivery.deliver_set_process
    vocdoni_node.Transaction.ElectionTx.Delivery.apply_change
    vocdoni_node.Transaction.ElectionTx.Delivery.schedule_tally
    vocdoni_node.Transaction.ElectionTx.get_set_process
    vocdoni_node.Transaction.ElectionTx.authorize vocdoni_node.Transaction.ElectionTx.check_change
    vocdoni_node.Transaction.ElectionTx.set_process_tx_check vocdoni_node.Process.set_process_status
    vocdoni_node.Process.check_transition vocdoni_node.Process.update_process
    vocdoni_node.Process.get_process vocdoni_node.Ist.remove_action
    vocdoni_node.Sik.purge_register_sik vocdoni_node.Base.Dict.erase
    vocdoni_node.Transaction.Types.payload_faucet_package vocdoni_node.Process.register_start_block
ended_one = (refl, refl)

check_set_process-Authorized_example :
    ((check_set_process crypto network ending true two_elections).1 ≡ two_elections)
    ⊎ Changed.Authorized crypto network ending two_elections
check_set_process-Authorized_example =
    Changed.check_set_process-Authorized crypto network ending true two_elections

check_set_process_no_results_example : HasResults closed_id two_elections
check_set_process_no_results_example =
    check_set_process_no_results crypto network ending true closed_id two_elections
      (election results, ended_one.1, refl)

abbrev keeper : Validator
keeper = record {
  address = alice;
  pub_key = [];
  name = [];
  power = 1000;
  key_index = 1;
  validator_address = alice;
  height = 0;
  votes = 4;
  proposals = 0;
  score = 0;
}

abbrev secret_election : Process
secret_election = record (election ready) {
  envelope_type = record (election ready).envelope_type { encrypted_votes = true };
  encryption_private_keys = replicate 16 [];
  encryption_public_keys = replicate 16 [];
}

abbrev kept : State
kept = record (chain ready) {
  processes = (election_id, secret_election) ∷ [];
  validators = (alice, keeper) ∷ [];
  current_height = 10;
}

abbrev key_tx : Tx
key_tx = signed_by alice (
    Payload.admin (record {
      tx_type = TxType.add_process_keys;
      process_id = some election_id;
      key_index = some 1;
      encryption_public_key = some (5 ∷ []);
      encryption_private_key = none;
    }))

key_accepted : (admin_tx_check crypto network key_tx kept).0 ≡ ok alice
unfolding admin_tx_check vocdoni_node.Transaction.AdminTx.is_key_type lookup bytes_equal
    vocdoni_node.Validators.find_validator vocdoni_node.Transaction.AdminTx.check_keys
    vocdoni_node.Process.same vocdoni_node.Transaction.AdminTx.check_add_process_keys
key_accepted = refl

admin_tx_check-Authorized_example : Keykeeper.Authorized crypto network key_tx alice kept
admin_tx_check-Authorized_example =
    Keykeeper.admin_tx_check-Authorized crypto network key_tx kept alice key_accepted

-- The score in per cent, and nine tenths of a power, both rounded down.
abbrev formulas : Formulas
formulas = record { score = λ votes blocks. votes * 100 / blocks; decayed = λ n. n * 9 / 10 }

decays : (n : ℕ) → n * 9 / 10 ≤ n
decays n = omega arith

kept-Capped : Capped kept.validators
kept-Capped = ground arith

update_validator_score-Capped_example :
    Capped (update_validator_score formulas (alice ∷ []) alice kept).1.validators
update_validator_score-Capped_example =
    update_validator_score-Capped formulas (alice ∷ []) alice kept decays kept-Capped

abbrev dave : Address
dave = replicate 20 4

-- A faucet package of any bytes gives 5 to Dave.
abbrev generous : Crypto
generous = record crypto {
  unmarshal_faucet_payload = λ b. some (record { identifier = 9; to = some dave; amount = 5 });
}

abbrev opening : SetAccountTx
opening = record {
  tx_type = TxType.create_account;
  nonce = 0;
  info_uri = [];
  account = [];
  faucet_package = some faucet_package;
  delegates = [];
  sik = none;
  public_key = none;
  name = [];
}

abbrev opening_chain : State
opening_chain = record (chain ready) { tx_costs = (codes "c_createAccount", 3) ∷ [] }

abbrev opening_tx : Tx
opening_tx = signed_by dave (Payload.set_account opening)

opened : (check_set_account generous (λ b. b) opening_tx true opening_chain).0 ≡ ok tt
unfolding check_set_account vocdoni_node.Transaction.AccountTx.Delivery.check_by_type
    vocdoni_node.Transaction.AccountTx.create_account_tx_check
    vocdoni_node.Transaction.AccountTx.is_create_account
    vocdoni_node.Transaction.AccountTx.check_duplicate_delegates
    vocdoni_node.Transaction.AccountTx.Delivery.deliver_by_type
    vocdoni_node.Transaction.AccountTx.Delivery.deliver_create_account
    vocdoni_node.Account.create_account vocdoni_node.Transaction.AccountTx.Delivery.set_optional_sik
    vocdoni_node.Transaction.AccountTx.Delivery.settle_account vocdoni_node.Balance.burn_tx_cost
    vocdoni_node.Transaction.AccountTx.absent vocdoni_node.Transaction.AccountTx.duplicates_loop
    vocdoni_node.Transaction.AccountTx.get_set_account vocdoni_node.Transaction.AccountTx.sender_of
    vocdoni_node.Transaction.Nonce.check_account_nonce lookup bytes_equal
    vocdoni_node.Account.account_balance vocdoni_node.Account.get_account
    vocdoni_node.Account.transfer vocdoni_node.Balance.consume_faucet_payload
    vocdoni_node.Balance.faucet_key vocdoni_node.Balance.faucet_nonce
    vocdoni_node.Balance.set_faucet_nonce vocdoni_node.Balance.state_key
    vocdoni_node.Balance.transfer_balance vocdoni_node.Balance.tx_base_cost
    vocdoni_node.Base.Dict.insert vocdoni_node.Transaction.Faucet.check_faucet_package_and_transfer
    vocdoni_node.Transaction.Faucet.settle_faucet_package
    vocdoni_node.Transaction.Faucet.verify_faucet_package
    vocdoni_node.Transaction.Nonce.extract_nonce_and_sender
    vocdoni_node.Transaction.Nonce.payload_nonce
opened = refl

dave_not_burn : dave ≢ burn_address
unfolding bytes_equal
dave_not_burn = apart dave burn_address refl

all-Fit : Fits opening_chain.accounts
all-Fit = ground arith

check_set_account-Conserves_example :
    Conserves opening_chain (check_set_account generous (λ b. b) opening_tx true opening_chain).1
unfolding vocdoni_node.Transaction.AccountTx.get_set_account
check_set_account-Conserves_example =
    check_set_account-Conserves generous (λ b. b) opening_tx true opening_chain opening dave refl
      refl refl dave_not_burn all-Fit
