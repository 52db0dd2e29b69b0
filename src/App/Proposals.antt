-- ===== src/App/Proposals.antt =====
-- What preparing and processing proposals leaves of the state.
use vocdoni_node.Base.{
  ℕ, ◌≡◌, refl, sym, ap, ◌∙◌, true, some, List, [], ◌∷◌, arith, Option-cases, inl, inr,
}
use vocdoni_node.Base.Bytes.{Bytes, bytes_equal_iff}
use vocdoni_node.Chain.{Validator, Result-cases, ok}
use vocdoni_node.Validators.{find_validator}
use vocdoni_node.Transaction.Nonce.{extract_nonce_and_sender}
use vocdoni_node.App.{
  Node, Live, discard, on_state, rollback, check_on, execute_block, deliver_each, deliver_tx,
  begin_block, counted, run_actions,
}
use vocdoni_node.App.Mempool.{TxInfo, collect_infos, keep_valid, count_failure, sort_infos, drop_tx}
use vocdoni_node.App.Comet.{App, Block, process_proposal, block_results, prepare_proposal}
use vocdoni_node.App.Optimistic.{process_proposal-Processed}

module _ {C : Type 0} (n : Node C) where
  committed-collect_infos :
      (txs : List Bytes) (live : Live C) → (collect_infos n txs live).1.committed ≡ live.committed
  unfolding collect_infos on_state drop_tx
  committed-collect_infos [] live = refl
  committed-collect_infos (raw ∷ txs) live = elim (Option-cases (n.decode raw)) [
    | inl k ↦ ground (arith, k, committed-collect_infos txs (drop_tx (n.tx_key raw) live))
    | inr (tx, k) ↦
        let r = on_state (extract_nonce_and_sender n.crypto tx) live in
        let rest = committed-collect_infos txs (r.1) in
        elim (Result-cases (r.0)) [
          | inl (u, q) ↦ ground (arith, k, q, rest)
          | inr (x, q) ↦ ground (arith, k, q, rest)
        ]
  ]

  committed-count_failure :
      (id : Bytes) (live : Live C) → (count_failure id live).committed ≡ live.committed
  unfolding count_failure
  committed-count_failure id live = ground arith

  committed-keep_valid :
      (infos : List TxInfo) (live : Live C) → (keep_valid n infos live).1.committed ≡ live.committed
  unfolding keep_valid check_on
  committed-keep_valid [] live = refl
  committed-keep_valid (info ∷ infos) live =
      let r = check_on n info.decoded true live in
      elim (Result-cases (r.0)) [
        | inl (u, k) ↦ ground (arith, k, committed-keep_valid infos (r.1))
        | inr (x, k) ↦ ground (
          arith,
          k,
          committed-keep_valid infos (count_failure info.decoded.tx_id (r.1)),
          committed-count_failure info.decoded.tx_id (r.1),
        )
      ]

  committed-deliver_tx :
      (raw : Bytes) (live : Live C) → (deliver_tx n raw live).1.committed ≡ live.committed
  unfolding deliver_tx check_on counted
  committed-deliver_tx raw live = elim (Option-cases (n.decode raw)) [
    | inl k ↦ ground (arith, k)
    | inr (tx, k) ↦ elim (Result-cases (check_on n tx true live).0) [
      | inl (u, q) ↦ ground (arith, k, q)
      | inr (x, q) ↦ ground (arith, k, q)
    ]
  ]

  committed-deliver_each :
      (txs : List Bytes) (live : Live C) → (deliver_each n txs live).1.committed ≡ live.committed
  unfolding deliver_each
  committed-deliver_each [] live = refl
  committed-deliver_each (raw ∷ txs) live =
      committed-deliver_each txs (deliver_tx n raw live).1 ∙ committed-deliver_tx raw live

  committed-execute_block :
      (txs : List Bytes) (height time : ℕ) (live : Live C)
      → (execute_block n txs height time live).1.committed ≡ live.committed
  unfolding execute_block on_state begin_block rollback
  committed-execute_block txs height time live =
      let delivered = deliver_each n txs (begin_block n time height live) in
      let kept = committed-deliver_each txs (begin_block n time height live) in
      elim (Result-cases (on_state (run_actions n height delivered.1) delivered.1).0) [
        | inl (u, q) ↦ ground (arith, q, kept)
        | inr (x, q) ↦ ground (arith, q, kept)
      ]

  -- `PrepareProposal` leaves the saved state as it was, and the state of the block is the saved one but
  -- for the height and the roots that are kept in memory.
  pub prepare_proposal_discards :
      (txs : List Bytes) (app : App C)
      → ((prepare_proposal n txs app).1.live.committed ≡ app.live.committed)
        × ((prepare_proposal n txs app).1.live.current
            ≡ discard app.live.committed (prepare_proposal n txs app).1.live.current)
  unfolding prepare_proposal rollback
  prepare_proposal_discards txs app =
      let found = collect_infos n txs (rollback app.live) in
      let kept = keep_valid n (sort_infos found.0) found.1 in
      let same : kept.1.committed ≡ app.live.committed =
        committed-keep_valid (sort_infos found.0) found.1
        ∙ committed-collect_infos txs (rollback app.live) in
      (same, ap (λ c. discard c kept.1.current) same)

  stored_results :
      (b : Block) (app : App C) (root : Bytes)
      → app.last_root_hash ≡ some root
      → app.last_block_hash ≡ b.hash
      → block_results n b app ≡ (ok (root, app.last_deliver_tx_response), app.live)
  unfolding block_results
  stored_results b app root e f = ground (arith, e, f, bytes_equal_iff app.last_block_hash b.hash)

  -- A validator that accepted a proposal and then prepares one of its own answers for the accepted
  -- block with the root and the results of its execution, where the state that it has for the block is
  -- the saved one, but for the height and the roots that are kept in memory.
  pub block_results_stale :
      (b : Block) (txs : List Bytes) (app : App C) (v : Validator)
      → find_validator n.node_address app.live.committed ≡ some v
      → (process_proposal n b app).0 ≡ ok true
      → ((block_results n b (prepare_proposal n txs (process_proposal n b app).1).1).0
          ≡ (block_results n b (process_proposal n b app).1).0)
        × ((block_results n b (prepare_proposal n txs (process_proposal n b app).1).1).1.current
            ≡ discard app.live.committed
                (prepare_proposal n txs (process_proposal n b app).1).1.live.current)
  unfolding prepare_proposal
  block_results_stale b txs app v mine e =
      let p = process_proposal-Processed n b app v mine e in
      let after = (process_proposal n b app).1 in
      let later = (prepare_proposal n txs after).1 in
      let root = ap (λ a. a.last_root_hash) p.kept in
      let hash = ap (λ a. a.last_block_hash) p.kept in
      let now = stored_results b after p.result.root root hash in
      let then_ = stored_results b later p.result.root root hash in
      let saved : after.live.committed ≡ app.live.committed =
        ap (λ a. a.live.committed) p.kept
        ∙ sym (ap (λ r. r.1.committed) p.executed)
        ∙ committed-execute_block b.txs b.height b.time app.live in
      (
        ap (λ r. r.0) then_ ∙ sym (ap (λ r. r.0) now),
        ap (λ r. r.1.current) then_
            ∙ (prepare_proposal_discards txs after).1
            ∙ ap (λ c. discard c later.live.current) saved,
      )
