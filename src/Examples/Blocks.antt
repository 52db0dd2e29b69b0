-- ===== src/Examples/Blocks.antt =====
-- Blocks: a validator processes a proposal with one payment.
use vocdoni_node.Base.{◌≡◌, refl, true, false, some, none, [], ◌∷◌, if◌then◌else◌}
use vocdoni_node.Base.Bytes.{bytes_equal}
use vocdoni_node.Base.Dict.{lookup, insert, erase}
use vocdoni_node.Chain.{State, Validator, ready, ok}
use vocdoni_node.Validators.{find_validator}
use vocdoni_node.App.{Node, Live, discard, execute_block}
use vocdoni_node.App.Comet.{
  App, Block, process_proposal, prepare_proposal, block_results, finalize_block,
}
use vocdoni_node.App.Optimistic.{forget, finalize_block_optimistic}
use vocdoni_node.App.Proposals.{prepare_proposal_discards, block_results_stale}
use vocdoni_node.Examples.Fixtures.{alice, crypto, network, chain, payment_tx}
use vocdoni_node.Examples.Elections.{outside}

-- The bytes 7 are a payment, the cache keeps nothing.
abbrev node : Node (Unit {0})
node = record {
  crypto = crypto;
  network = network;
  outside = outside;
  lru = record {
    add = λ id vote cache. cache;
    remove = λ id cache. cache;
    get = λ id cache. none;
    keys = λ cache. [];
  };
  cache_disabled = false;
  decode = λ raw. if bytes_equal raw (7 ∷ []) then some payment_tx else none;
  tx_key = λ raw. raw;
  comet_address = λ key. key;
  decimal = λ n. n ∷ [];
  root_of = λ s. 1 ∷ [];
  sik_root_of = λ siks. [];
  node_address = alice;
}

abbrev alice_validator : Validator
alice_validator = record {
  address = alice;
  pub_key = [];
  name = [];
  power = 10;
  key_index = 0;
  validator_address = alice;
  height = 0;
  votes = 0;
  proposals = 0;
  score = 0;
}

abbrev saved : State
saved = record (chain ready) { validators = (alice, alice_validator) ∷ [] }

abbrev started : App (Unit {0})
started = record {
  live = record {
    committed = saved;
    current = saved;
    tx_counter = 0;
    cache = tt;
    tx_references = [];
    dropped = [];
  };
  last_deliver_tx_response = [];
  last_root_hash = none;
  last_block_hash = [];
}

abbrev block : Block
block = record {
  txs = (7 ∷ []) ∷ [];
  height = 8;
  time = 125;
  hash = 9 ∷ [];
  last_commit_votes = (true, alice) ∷ [];
  proposer = alice;
}

alice_validates : find_validator alice saved ≡ some alice_validator
unfolding find_validator lookup bytes_equal
alice_validates = refl

block_accepted : (process_proposal node block started).0 ≡ ok true
unfolding process_proposal bytes_equal find_validator lookup insert erase
    vocdoni_node.Process.get_timestamp vocdoni_node.Transaction.Check.check_tx
    vocdoni_node.Transaction.Nonce.check_account_nonce
    vocdoni_node.Transaction.Tokens.send_tokens_tx_check vocdoni_node.Balance.state_key
    vocdoni_node.Transaction.Tokens.deliver_send_tokens
    vocdoni_node.Balance.burn_tx_cost_increment_nonce vocdoni_node.Account.transfer
    vocdoni_node.Balance.transfer_balance vocdoni_node.Ist.commit vocdoni_node.Ist.commit_each
    vocdoni_node.Ist.find_pending_actions vocdoni_node.Ist.due_actions vocdoni_node.Ist.in_key_order
    vocdoni_node.Votes.Cache.cache_purge vocdoni_node.Votes.Cache.purge_keys
    vocdoni_node.App.execute_block vocdoni_node.App.deliver_each vocdoni_node.App.deliver_tx
    vocdoni_node.App.invalid_ids vocdoni_node.App.on_state vocdoni_node.App.begin_block
    vocdoni_node.App.check_on vocdoni_node.App.rollback vocdoni_node.App.counted
    vocdoni_node.App.run_actions vocdoni_node.Transaction.Check.check_other
    vocdoni_node.Transaction.Tokens.check_send_tokens vocdoni_node.App.Comet.ended
block_accepted = refl

finalize_block_optimistic_example :
    ((finalize_block node block (process_proposal node block started).1).0
      ≡ (finalize_block node block (forget node started)).0)
    × ((finalize_block node block (process_proposal node block started).1).1.live
        ≡ (finalize_block node block (forget node started)).1.live)
finalize_block_optimistic_example =
    finalize_block_optimistic node block started alice_validator alice_validates block_accepted

prepare_proposal_discards_example :
    ((prepare_proposal node block.txs started).1.live.committed ≡ saved)
    × ((prepare_proposal node block.txs started).1.live.current
        ≡ discard saved (prepare_proposal node block.txs started).1.live.current)
prepare_proposal_discards_example = prepare_proposal_discards node block.txs started

block_results_stale_example :
    ((block_results node block
        (prepare_proposal node [] (process_proposal node block started).1).1).0
      ≡ (block_results node block (process_proposal node block started).1).0)
    × ((block_results node block
          (prepare_proposal node [] (process_proposal node block started).1).1).1.current
        ≡ discard saved
            (prepare_proposal node [] (process_proposal node block started).1).1.live.current)
block_results_stale_example =
    block_results_stale node block [] started alice_validator alice_validates block_accepted
