-- ===== src/App.antt =====
-- vochain/app.go: the application around the state, and how it executes a block.
pub mod Mempool
pub mod Comet
pub mod Optimistic
pub mod Proposals
use vocdoni_node.Base.{
  ℕ, suc, ◌+◌, ◌%◌, ◌^◌, Bool, true, Option, none, some, List, [], ◌∷◌, ◌==◌, if◌then◌else◌,
}
use vocdoni_node.Base.Lists.{replicate}
use vocdoni_node.Base.Bytes.{Bytes}
use vocdoni_node.Base.Dict.{Dict, erase}
use vocdoni_node.Chain.{State, Exec, Result, ⊤, ok, err, ◌>>=◌}
use vocdoni_node.Crypto.{Crypto}
use vocdoni_node.Process.{get_timestamp}
use vocdoni_node.Sik.Roots.{update_sik_roots}
use vocdoni_node.Votes.Cache.{Lru, cache_purge}
use vocdoni_node.Ist.{Outside, commit}
use vocdoni_node.Transaction.Types.{Tx}
use vocdoni_node.Transaction.Network.{Network}
use vocdoni_node.Transaction.Check.{check_tx}

-- What the application is made of and calls: the parameters of the transactions and of the actions,
-- the decoding of a transaction with protobuf, the key of CometBFT for a transaction and its address
-- for a public key, numbers in decimal (`fmt`), and the roots of the trees of the state.
pub record Node (C : Type 0) : Type 0 where
  pub crypto : Crypto
  pub network : Network
  pub outside : Outside
  pub lru : Lru C
  pub cache_disabled : Bool
  pub decode : Bytes → Option Tx
  pub tx_key : Bytes → Bytes
  pub comet_address : Bytes → Bytes
  pub decimal : ℕ → Bytes
  pub root_of : State → Bytes
  pub sik_root_of : Dict Bytes → Bytes
  pub node_address : Bytes

-- `pendingTxReference`
pub record PendingTxReference : Type 0 where
  pub height : ℕ
  pub failed_count : ℕ

-- `DeliverTxResponse`, without its texts.
pub record DeliverTxResponse : Type 0 where
  pub code : ℕ
  pub tx_id : Bytes

-- The state with its last saved version, the counter of transactions, the cache of votes, the
-- references of pending transactions, and the keys that the mempool was told to drop.
pub record Live (C : Type 0) : Type 0 where
  pub committed : State
  pub current : State
  pub tx_counter : ℕ
  pub cache : C
  pub tx_references : Dict PendingTxReference
  pub dropped : List Bytes

-- `ExecuteBlockResponse`
pub record Executed : Type 0 where
  pub responses : List DeliverTxResponse
  pub root : Bytes
  pub invalid_transactions : List Bytes

-- The saved version, with what is kept in memory: the height and the list of valid roots.
abbrev pub discard : State → State → State
discard committed current = record committed {
  current_height = current.current_height;
  valid_sik_roots = current.valid_sik_roots;
}

unfoldable pub invalid_ids : List DeliverTxResponse → List Bytes
invalid_ids [] = []
invalid_ids (r ∷ rs) = let rest = invalid_ids rs in if r.code == 0 then rest else r.tx_id ∷ rest

module _ {C : Type 0} where
  -- A method of the state.
  unfoldable pub on_state : {A : Type 0} → Exec A → Live C → Result A × Live C
  on_state m live = let r = m live.current in (r.0, record live { current = r.1 })

  -- `State.Rollback`
  unfoldable pub rollback : Live C → Live C
  rollback live = record live { current = discard live.committed live.current; tx_counter = 0 }

  -- `CheckTx` on the state, where the last version is the saved one.
  unfoldable pub check_on : Node C → Tx → Bool → Live C → Result ⊤ × Live C
  check_on n tx for_commit live =
      let net = record n.network { committed_accounts = live.committed.accounts } in
      let r =
        check_tx n.crypto net n.lru n.cache_disabled n.comet_address tx for_commit live.cache
          live.current in
      (r.0.0, record live { current = r.0.1; cache = r.1 })

  unfoldable pub counted : Live C → Live C
  counted live = record live { tx_counter = suc live.tx_counter }

  -- `deliverTx`: the counter is raised in every case.
  unfoldable pub deliver_tx : Node C → Bytes → Live C → DeliverTxResponse × Live C
  unfolding check_on counted
  deliver_tx n raw live = elim (n.decode raw) [
    | none ↦ (record { code = 1; tx_id = replicate 32 0 }, counted live)
    | some tx ↦
        let r = check_on n tx true live in
        elim (r.0) [
          | err _ ↦ (record { code = 1; tx_id = tx.tx_id }, counted (r.1))
          | ok _ ↦ (
            record { code = 0; tx_id = tx.tx_id },
            counted (record r.1 { tx_references = erase tx.tx_id (r.1).tx_references }),
          )
        ]
  ]

  unfoldable pub deliver_each : Node C → List Bytes → Live C → List DeliverTxResponse × Live C
  unfolding deliver_tx
  deliver_each n [] live = ([], live)
  deliver_each n (raw ∷ txs) live =
      let r = deliver_tx n raw live in let rest = deliver_each n txs (r.1) in (r.0 ∷ rest.0, rest.1)

  -- `beginBlock`; the purge of the cache runs beside it, here before the transactions.
  unfoldable pub begin_block : Node C → ℕ → ℕ → Live C → Live C
  unfolding rollback
  begin_block n time height live =
      let fresh = rollback live in
      record fresh {
        current = record fresh.current {
          timestamp = some (time % 2 ^ 32);
          current_height = height;
        };
        cache = cache_purge n.lru n.cache_disabled height fresh.cache;
      }

  -- The actions of a block, at its timestamp.
  unfoldable pub run_actions : Node C → ℕ → Live C → Exec ⊤
  run_actions n height live =
      let out = record n.outside { committed_votes = live.committed.votes } in
      do timestamp ← get_timestamp; commit out height timestamp

  -- `ExecuteBlock`; `endBlock` sets a clock of the node.
  unfoldable pub execute_block : Node C → List Bytes → ℕ → ℕ → Live C → Result Executed × Live C
  unfolding begin_block deliver_each run_actions on_state invalid_ids
  execute_block n txs height time live =
      let delivered = deliver_each n txs (begin_block n time height live) in
      let done = on_state (run_actions n height (delivered.1)) (delivered.1) in
      elim (done.0) [
        | err e ↦ (err e, done.1)
        | ok _ ↦ (
          ok (record {
            responses = delivered.0;
            root = n.root_of ((done.1).current);
            invalid_transactions = invalid_ids (delivered.0);
          }),
          done.1,
        )
      ]

  -- `CommitState`, that is `State.Save`, without the snapshots of the state.
  unfoldable pub commit_state : Node C → Live C → Result Bytes × Live C
  unfolding on_state
  commit_state n live =
      let r = on_state (update_sik_roots n.sik_root_of) live in
      elim (r.0) [
        | err e ↦ (err e, r.1)
        | ok _ ↦ (
          ok (n.root_of ((r.1).current)),
          record r.1 { committed = (r.1).current; tx_counter = 0 },
        )
      ]
