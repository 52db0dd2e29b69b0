-- ===== src/App/Comet.antt =====
-- vochain/cometbft.go: what CometBFT calls for a block.
use vocdoni_node.Base.{
  ℕ, Bool, true, false, Option, none, some, List, [], ◌∷◌, ◌++◌, ltb, ◌&&◌, if◌then◌else◌,
}
use vocdoni_node.Base.Bytes.{Bytes, bytes_equal, codes}
use vocdoni_node.Base.Words.{add32}
use vocdoni_node.Base.Dict.{Dict}
use vocdoni_node.Chain.{Validator, Action, update_validator_score, Result, ok, err, panicked}
use vocdoni_node.Validators.{find_validator}
use vocdoni_node.Ist.{schedule}
use vocdoni_node.App.{
  Node, DeliverTxResponse, Live, on_state, rollback, execute_block, commit_state,
}
use vocdoni_node.App.Mempool.{drop_tx, sort_infos, collect_infos, keep_valid}

-- `EndOfChain` of `genesis.HardcodedForChainID`
unfoldable pub end_of_chain : Bytes → ℕ
end_of_chain chain_id =
    if bytes_equal chain_id (codes "vocdoni/DEV/33")
    then 292920
    else if bytes_equal chain_id (codes "vocdoni/STAGE/11")
    then 1063400
    else if bytes_equal chain_id (codes "vocdoni/LTS/1.2")
    then 8622985
    else 0

-- The application: the results of the last block that was processed, for its hash.
pub record App (C : Type 0) : Type 0 where
  pub live : Live C
  pub last_deliver_tx_response : List DeliverTxResponse
  pub last_root_hash : Option Bytes
  pub last_block_hash : Bytes

-- A block of the requests. A vote has its address, and whether its flag is neither absent nor unknown.
pub record Block : Type 0 where
  pub txs : List Bytes
  pub height : ℕ
  pub time : ℕ
  pub hash : Bytes
  pub last_commit_votes : List (Bool × Bytes)
  pub proposer : Bytes

-- The entries of a response, one for each transaction; more of them are an index out of range.
unfoldable pub tx_results :
    List Bytes → List DeliverTxResponse → Result (List (Option DeliverTxResponse))
tx_results [] [] = ok []
tx_results [] (r ∷ rs) = err panicked
tx_results (t ∷ ts) [] = elim (tx_results ts []) [ ok rest ↦ ok (none ∷ rest) | err e ↦ err e ]
tx_results (t ∷ ts) (r ∷ rs) = elim (tx_results ts rs) [
  | ok rest ↦ ok (some r ∷ rest)
  | err e ↦ err e
]

-- `FinalizeBlockResponse`; the update of a validator is its key and power.
pub record FinalizeBlockResponse : Type 0 where
  pub app_hash : Bytes
  pub results : List (Option DeliverTxResponse)
  pub validator_updates : List (Bytes × ℕ)

unfoldable pub validator_update : Dict Validator → List (Bytes × ℕ)
validator_update [] = []
validator_update ((_, v) ∷ rest) = (v.pub_key, v.power) ∷ validator_update rest

unfoldable pub proposal_votes : List (Bool × Bytes) → List Bytes
proposal_votes [] = []
proposal_votes ((valid, address) ∷ rest) =
    let votes = proposal_votes rest in if valid then address ∷ votes else votes

module _ {C : Type 0} where
  -- `PrepareProposal`
  unfoldable pub prepare_proposal : Node C → List Bytes → App C → List Bytes × App C
  unfolding rollback collect_infos sort_infos keep_valid
  prepare_proposal n txs app =
      let found = collect_infos n txs (rollback app.live) in
      let kept = keep_valid n (sort_infos (found.0)) (found.1) in
      (kept.0, record app { live = rollback (kept.1) })

  -- The transactions of a refused proposal are dropped.
  unfoldable pub drop_each : List Bytes → Live C → Live C
  unfolding drop_tx
  drop_each [] live = live
  drop_each (id ∷ ids) live = drop_each ids (drop_tx id live)

  unfoldable pub ended : Live C → Block → Bool
  unfolding end_of_chain
  ended live b = let last = end_of_chain live.current.chain_id in ltb 0 last && ltb last b.height

  -- `ProcessProposal`: whether the proposal is accepted.
  unfoldable pub process_proposal : Node C → Block → App C → Result Bool × App C
  unfolding ended execute_block drop_each
  process_proposal n b app =
      if ended app.live b
      then (ok false, app)
      else elim (find_validator n.node_address app.live.committed) [
        | none ↦ (
          ok true,
          record {
            live = app.live;
            last_deliver_tx_response = [];
            last_root_hash = none;
            last_block_hash = [];
          },
        )
        | some _ ↦
            let r = execute_block n b.txs b.height b.time app.live in
            elim (r.0) [
              | err e ↦ (err e, record app { live = r.1 })
              | ok x ↦ elim x.invalid_transactions [
                | [] ↦ (
                  ok true,
                  record {
                    live = r.1;
                    last_deliver_tx_response = x.responses;
                    last_root_hash = some x.root;
                    last_block_hash = b.hash;
                  },
                )
                | id ∷ ids ↦ (ok false, record app { live = drop_each (id ∷ ids) (r.1) })
              ]
            ]
      ]

  -- The results of a block: those of its proposal, or executed now.
  unfoldable pub block_results :
      Node C → Block → App C → Result (Bytes × List DeliverTxResponse) × Live C
  unfolding execute_block
  block_results n b app =
      let r = execute_block n b.txs b.height b.time app.live in
      let now : Result (Bytes × List DeliverTxResponse) × Live C = elim (r.0) [
        | err e ↦ (err e, r.1)
        | ok x ↦ (ok (x.root, x.responses), r.1)
      ] in
      elim app.last_root_hash [
        | none ↦ now
        | some root ↦
            if bytes_equal app.last_block_hash b.hash
            then (ok (root, app.last_deliver_tx_response), app.live)
            else now
      ]

  score_action : Node C → Block → Action
  unfolding proposal_votes
  score_action n b = record {
    id = some (n.crypto.hash_raw (codes "validators-update-score-" ++ n.decimal b.height));
    type_id = update_validator_score;
    height = add32 b.height 1;
    time_stamp = 0;
    election_id = [];
    attempts = 0;
    validator_votes = proposal_votes b.last_commit_votes;
    validator_proposer = b.proposer;
  }

  -- The rest of `FinalizeBlock`, with the results of the block: the update of the scores is
  -- scheduled for the next one.
  unfoldable pub answer_block :
      Node C
      → Block
      → Result (Bytes × List DeliverTxResponse) × Live C
      → Result FinalizeBlockResponse × Live C
  unfolding tx_results on_state score_action validator_update
  answer_block n b (err e, live) = (err e, live)
  answer_block n b (ok (root, responses), live) = elim (tx_results b.txs responses) [
    | err e ↦ (err e, live)
    | ok results ↦
        let s = on_state (schedule (score_action n b)) live in
        elim (s.0) [
          | err e ↦ (err e, s.1)
          | ok _ ↦ (
            ok (record {
              app_hash = root;
              results = results;
              validator_updates = validator_update ((s.1).current.validators);
            }),
            s.1,
          )
        ]
  ]

  -- `FinalizeBlock`
  unfoldable pub finalize_block : Node C → Block → App C → Result FinalizeBlockResponse × App C
  unfolding block_results answer_block
  finalize_block n b app =
      let r = answer_block n b (block_results n b app) in (r.0, record app { live = r.1 })

  -- `Commit`
  unfoldable pub commit_block : Node C → App C → Result Bytes × App C
  commit_block n app = let r = commit_state n app.live in (r.0, record app { live = r.1 })
