-- ===== src/Transaction/ElectionTx.antt =====
-- vochain/transaction/election_tx.go: the checks of NewProcess and SetProcess transactions, and the
-- cost of an election.
pub mod Delivery
pub mod Created
pub mod Limits
pub mod Sound
pub mod Changed
pub mod Closing
use vocdoni_node.Base.{
  ℕ, ◌-◌, ◌*◌, ◌%◌, Bool, true, false, not, ◌||◌, ◌&&◌, Option, none, some, [], ltb, leb, ◌==◌,
  if◌then◌else◌,
}
use vocdoni_node.Base.Lists.{length, replicate}
use vocdoni_node.Base.Bytes.{Bytes, bytes_equal}
use vocdoni_node.Base.Words.{add32, add64, sub32, u32_mod}
use vocdoni_node.Base.Dict.{lookup}
use vocdoni_node.Chain.{
  Account, Address, CensusOrigin, off_chain_tree, off_chain_tree_weighted, off_chain_ca,
  off_chain_ca_v2, other_origin, Process, ready, paused, results, State, Exec, Result, ok, err, ⊤,
  pure, raise, gets, lift, or_raise, raise_if, when, ◌>>=◌, ◌>>◌, nil_tx, missing_fields,
  bad_max_count, max_count_overflow, invalid_status, metadata_too_long, unsupported_origin,
  both_durations, past_start, past_end, zero_census_size, census_too_big, unauthorized,
  serial_process, results_forbidden, census_shrinks, account_not_exist, invalid_tx_type,
  incorrect_fields, panicked, external,
}
use vocdoni_node.Crypto.{Crypto}
use vocdoni_node.TxType
use vocdoni_node.TxType.{TxType}
use vocdoni_node.Account.{get_account, is_delegate, max_url_length}
use vocdoni_node.Balance.{tx_base_cost}
use vocdoni_node.Process.{
  get_process, get_timestamp, end_time, same, is_open, set_process_status, set_process_duration,
  set_process_metadata, set_process_census, text_or_empty,
}
use vocdoni_node.ProcessId.{build_process_id, marshal}
use vocdoni_node.Results.Compute.{max_questions, key_keeper_max_key_index}
use vocdoni_node.Transaction.Types.{Payload, Tx, ProcessMessage, NewProcessTx, SetProcessTx}
use vocdoni_node.Transaction.Network.{Network, metadata_fork_active}
use vocdoni_node.Transaction.Faucet.{check_account_can_pay_cost}
use vocdoni_node.Transaction.Tokens.{is_nil_tx}

abbrev pub max_metadata_hash_size : ℕ
max_metadata_hash_size = 128

-- `types.DefaultBlockTime`, in seconds
abbrev pub default_block_time : ℕ
default_block_time = 10

unfoldable pub get_new_process : Option Payload → Option NewProcessTx
get_new_process (some (Payload.new_process tx)) = some tx
get_new_process _ = none

unfoldable pub get_set_process : Option Payload → Option SetProcessTx
get_set_process (some (Payload.set_process tx)) = some tx
get_set_process _ = none

-- The process of the message, with its required fields.
unfoldable pub check_fields : ProcessMessage → Exec Process
check_fields m = do
  options ← or_raise m.vote_options missing_fields
  envelope_type ← or_raise m.envelope_type missing_fields
  mode ← or_raise m.mode missing_fields
  raise_if (options.max_count == 0) bad_max_count
  raise_if (ltb max_questions options.max_count) max_count_overflow
  raise_if (not (is_open m.process.status)) invalid_status
  pure (record m.process { vote_options = options; envelope_type = envelope_type; mode = mode })

unfoldable pub check_metadata_sizes : Process → Exec ⊤
check_metadata_sizes p = do
  fork ← gets metadata_fork_active
  raise_if (fork && ltb max_url_length (length (text_or_empty p.metadata))) metadata_too_long
  raise_if (fork && ltb max_metadata_hash_size (length p.metadata_hash)) metadata_too_long

unfoldable pub check_origin : CensusOrigin → Bool → Result ⊤
check_origin off_chain_ca anonymous = if anonymous then err unsupported_origin else ok tt
check_origin off_chain_ca_v2 anonymous = if anonymous then err unsupported_origin else ok tt
check_origin off_chain_tree anonymous = ok tt
check_origin off_chain_tree_weighted anonymous = ok tt
check_origin (other_origin n) anonymous = err unsupported_origin

-- The conversion of a block count to a duration in seconds, in 32 bits.
unfoldable pub convert_blocks : Process → ℕ → ℕ → Result Process
convert_blocks p height now =
    if not (ltb 0 p.block_count)
    then ok p
    else if ltb 0 p.duration
    then err both_durations
    else ok (record p {
      duration = p.block_count * default_block_time % u32_mod;
      start_time =
          if p.start_block == 0
          then 0
          else add32 now (sub32 p.start_block height * default_block_time % u32_mod);
      block_count = 0;
      start_block = 0;
    })

-- The start time 0 stands for now.
unfoldable pub start_now : Process → ℕ → Process
start_now p now = if p.start_time == 0 then record p { start_time = now } else p

unfoldable pub check_times : Process → Exec Process
unfolding get_timestamp
check_times p = do
  now ← get_timestamp
  height ← gets (λ s. s.current_height)
  timed ← lift (convert_blocks p height now)
  raise_if (ltb (start_now timed now).start_time now) past_start
  raise_if (ltb (end_time (start_now timed now)) now) past_end
  pure (start_now timed now)

-- `checkMaxCensusSize`; a missing limit is an error of the state.
unfoldable pub check_max_census_size : Network → Process → Exec ⊤
check_max_census_size net p = do
  raise_if (p.max_census_size == 0) zero_census_size
  found ← gets (λ s. s.max_process_size)
  limit ← or_raise found external
  raise_if (ltb 0 limit && ltb limit p.max_census_size) census_too_big
  raise_if (p.envelope_type.anonymous && not (net.supports_census_size p.max_census_size))
      census_too_big

-- The organization of a new process: the sender, or one that the sender is a delegate of.
unfoldable pub check_organization : Crypto → Option Bytes → Address → Exec Bytes
unfolding get_account
check_organization c none sender = pure sender
check_organization c (some entity) sender = if bytes_equal entity sender then pure entity else (do
  found ← get_account (c.bytes_to_address entity)
  acc ← or_raise found account_not_exist
  raise_if (not (is_delegate sender acc.delegate_addrs)) unauthorized
  pure entity)

-- The process identifier that comes next for the organization.
unfoldable pub next_process_id : Crypto → Network → Process → Exec Bytes
next_process_id c net p = do
  s ← gets (λ s. s)
  pid ← lift (
      build_process_id c (some p.envelope_type) (net.origin_number p.census_origin) p.entity_id
        s.chain_id (λ a. lookup a s.accounts) 0)
  pure (marshal c pid)

unfoldable pub with_keys : Process → Process
with_keys p =
    if p.envelope_type.encrypted_votes
    then record p {
      encryption_public_keys = replicate key_keeper_max_key_index [];
      encryption_private_keys = replicate key_keeper_max_key_index [];
    }
    else p

-- `txElectionCostFromProcess`
abbrev pub tx_election_cost_from_process : Network → Process → ℕ
tx_election_cost_from_process net p = net.price p

-- The part of `NewProcessTxCheck` after the times: the limit, the price, the organization and the
-- identifier.
unfoldable pub admit_process :
    Crypto → Network → Tx → NewProcessTx → Option Bytes → Process → Exec (Process × Address)
admit_process c net vtx tx organization timed = do
  check_max_census_size net timed
  r ←
      check_account_can_pay_cost c tx.tx_type vtx (Payload.new_process tx)
        (tx_election_cost_from_process net timed)
  entity ← check_organization c organization r.1
  pid ← next_process_id c net (record timed { entity_id = entity })
  raise_if timed.envelope_type.serial serial_process
  pure (with_keys (record timed { entity_id = entity; process_id = pid }), r.1)

-- `NewProcessTxCheck`: the process to add, and the sender.
unfoldable pub new_process_tx_check : Crypto → Network → Tx → Exec (Process × Address)
unfolding is_nil_tx get_new_process
new_process_tx_check c net vtx = do
  raise_if (is_nil_tx vtx) nil_tx
  tx ← or_raise (get_new_process vtx.payload) panicked
  m ← or_raise tx.process missing_fields
  p ← check_fields m
  check_metadata_sizes p
  lift (check_origin p.census_origin p.envelope_type.anonymous)
  timed ← check_times p
  admit_process c net vtx tx m.entity_id timed

-- The price of a change, with the base cost, in 64 bits.
unfoldable pub increased_cost : ℕ → ℕ → ℕ → ℕ
increased_cost base old new = if ltb new old then base else add64 base (new - old)

-- `txCostIncreaseCensusSize` and `txCostIncreaseDuration`
unfoldable pub tx_cost_increase_census_size : Network → Process → ℕ → Exec ℕ
unfolding tx_base_cost
tx_cost_increase_census_size net p size = do
  base ← tx_base_cost TxType.set_process_census
  pure (
      increased_cost base (tx_election_cost_from_process net p)
        (tx_election_cost_from_process net (record p { max_census_size = size })))

unfoldable pub tx_cost_increase_duration : Network → Process → ℕ → Exec ℕ
unfolding tx_base_cost
tx_cost_increase_duration net p duration = do
  base ← tx_base_cost TxType.set_process_duration
  pure (
      increased_cost base (tx_election_cost_from_process net p)
        (tx_election_cost_from_process net (record p { duration = duration })))

-- The sender owns the process, or is a delegate of its owner in the last committed version; an owner
-- without an account is a nil pointer.
unfoldable pub authorize : Crypto → Network → Process → Address → Exec ⊤
authorize c net p sender = if bytes_equal p.entity_id sender then pure tt else (do
  acc ← or_raise (lookup (c.bytes_to_address p.entity_id) net.committed_accounts) panicked
  raise_if (not (is_delegate sender acc.delegate_addrs)) unauthorized)

-- A greater census is paid for; the size that is tested is the old one.
unfoldable pub check_census_increase : Crypto → Network → Tx → SetProcessTx → Process → Exec ⊤
check_census_increase c net vtx tx p =
    when (not (tx.census_size == 0) && not (tx.census_size == p.max_census_size)) (do
      raise_if (ltb tx.census_size p.max_census_size) census_shrinks
      check_max_census_size net p
      cost ← tx_cost_increase_census_size net p tx.census_size
      check_account_can_pay_cost c tx.tx_type vtx (Payload.set_process tx) cost
      pure tt)

-- The switch of `SetProcessTxCheck`.
unfoldable pub check_change : Crypto → Network → Tx → SetProcessTx → Process → TxType → Exec ⊤
check_change c net vtx tx p TxType.set_process_status = do
  raise_if (same tx.status results) results_forbidden
  set_process_status p.process_id tx.status false
check_change c net vtx tx p TxType.set_process_census = do
  check_census_increase c net vtx tx p
  set_process_census p.process_id tx.census_root tx.census_uri tx.census_size false
check_change c net vtx tx p TxType.set_process_duration = do
  cost ← tx_cost_increase_duration net p tx.duration
  check_account_can_pay_cost c tx.tx_type vtx (Payload.set_process tx) cost
  set_process_duration p.process_id tx.duration false
check_change c net vtx tx p TxType.set_process_metadata = do
  fork ← gets metadata_fork_active
  raise_if (not fork) invalid_tx_type
  raise_if (length tx.metadata == 0 || ltb max_url_length (length tx.metadata)) metadata_too_long
  raise_if (length tx.metadata_hash == 0 || ltb max_metadata_hash_size (length tx.metadata_hash))
      metadata_too_long
  set_process_metadata p.process_id tx.metadata tx.metadata_hash false
check_change c net vtx tx p _ = raise invalid_tx_type

-- `SetProcessTxCheck`: the sender.
unfoldable pub set_process_tx_check : Crypto → Network → Tx → Exec Address
unfolding is_nil_tx get_set_process get_process tx_base_cost
set_process_tx_check c net vtx = do
  raise_if (is_nil_tx vtx) nil_tx
  tx ← or_raise (get_set_process vtx.payload) panicked
  cost ← tx_base_cost tx.tx_type
  r ← check_account_can_pay_cost c tx.tx_type vtx (Payload.set_process tx) cost
  p ← get_process tx.process_id
  authorize c net p r.1
  check_change c net vtx tx p tx.tx_type
  pure r.1
