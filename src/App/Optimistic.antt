-- ===== src/App/Optimistic.antt =====
-- The results that a processed proposal leaves, and the block that is finalized with them.
use vocdoni_node.Base.{
  ◌≡◌, ◌⊎◌, refl, ap, ◌∙◌, true, none, some, List, [], ◌∷◌, arith, Bool-cases, inl, inr,
}
use vocdoni_node.Base.Bytes.{bytes_equal_refl}
use vocdoni_node.Chain.{Validator, Result-cases, ok}
use vocdoni_node.Validators.{find_validator}
use vocdoni_node.App.{Node, Live, Executed, execute_block}
use vocdoni_node.App.Comet.{
  App, Block, ended, process_proposal, block_results, answer_block, finalize_block,
}

List-cases {ℓ} :
    {A : Type ℓ} (xs : List A) → (xs ≡ []) ⊎ ((x : A) × (rest : List A) × (xs ≡ x ∷ rest))
List-cases [] = inl refl
List-cases (x ∷ xs) = inr (x, xs, refl)

module _ {C : Type 0} (n : Node C) where
  -- The application without the results of a proposal.
  abbrev pub forget : App C → App C
  forget app = record app { last_root_hash = none }

  -- What a validator has after it accepted a proposal.
  pub record Processed (b : Block) (before after : App C) : Type 0 where
    pub result : Executed
    pub live : Live C
    pub executed : execute_block n b.txs b.height b.time before.live ≡ (ok result, live)
    pub clean : result.invalid_transactions ≡ []
    pub kept : after ≡ (record {
      live = live;
      last_deliver_tx_response = result.responses;
      last_root_hash = some result.root;
      last_block_hash = b.hash;
    })

  pub process_proposal-Processed :
      (b : Block) (app : App C) (v : Validator)
      → find_validator n.node_address app.live.committed ≡ some v
      → (process_proposal n b app).0 ≡ ok true
      → Processed b app (process_proposal n b app).1
  unfolding process_proposal
  process_proposal-Processed b app v mine e = elim (Bool-cases (ended app.live b)) [
    | inl k ↦ absurd (ground (arith, e, k))
    | inr k ↦ elim (Result-cases (execute_block n b.txs b.height b.time app.live).0) [
      | inr (x, q) ↦ absurd (ground (arith, e, k, q, mine))
      | inl (x, q) ↦ elim (List-cases x.invalid_transactions) [
        | inr (id, ids, bad) ↦ absurd (ground (arith, e, k, q, mine, bad))
        | inl none_bad ↦
            let run = execute_block n b.txs b.height b.time app.live in
            record {
              result = x;
              live = run.1;
              executed = ap (λ z. (z, run.1)) q;
              clean = none_bad;
              kept = ground (arith, k, q, mine, none_bad);
            }
      ]
    ]
  ]

  -- The results of the block are those of its proposal, as if it were executed now.
  Processed-results :
      (b : Block) (before after : App C)
      → Processed b before after
      → block_results n b after ≡ block_results n b (forget before)
  unfolding block_results
  Processed-results b before after p =
      ap (block_results n b) p.kept ∙ ground (arith, p.executed, bytes_equal_refl b.hash)

  -- Where a validator accepts a proposal and its block is finalized next, the response and the state are
  -- those of a node that had not processed the proposal and executes the block: the root, the results
  -- of the transactions and the validators are the same.
  pub finalize_block_optimistic :
      (b : Block) (app : App C) (v : Validator)
      → find_validator n.node_address app.live.committed ≡ some v
      → (process_proposal n b app).0 ≡ ok true
      → ((finalize_block n b (process_proposal n b app).1).0 ≡ (finalize_block n b (forget app)).0)
        × ((finalize_block n b (process_proposal n b app).1).1.live
            ≡ (finalize_block n b (forget app)).1.live)
  unfolding finalize_block
  finalize_block_optimistic b app v mine e =
      let same =
        Processed-results b app (process_proposal n b app).1
          (process_proposal-Processed b app v mine e) in
      (ap (λ r. (answer_block n b r).0) same, ap (λ r. (answer_block n b r).1) same)
