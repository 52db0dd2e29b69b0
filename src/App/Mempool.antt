-- ===== src/App/Mempool.antt =====
-- vochain/cometbft.go: the transactions of the mempool, one by one and for a proposal.
use vocdoni_node.Base.{
  ℕ, suc, ◌%◌, Bool, true, false, not, Option, none, some, List, [], ◌∷◌, ◌==◌, ltb, ◌&&◌,
  if◌then◌else◌,
}
use vocdoni_node.Base.Bytes.{Bytes, bytes_equal, before}
use vocdoni_node.Base.Words.{add32}
use vocdoni_node.Base.Dict.{lookup, insert, erase}
use vocdoni_node.Chain.{Address, already_in_cache, Result, ok, err, ⊤}
use vocdoni_node.Transaction.Types.{Tx}
use vocdoni_node.Transaction.Nonce.{extract_nonce_and_sender}
use vocdoni_node.App.{Node, Live, on_state, check_on}

abbrev pub transaction_blocks_ttl : ℕ
transaction_blocks_ttl = 60

abbrev pub recheck_tx_height_interval : ℕ
recheck_tx_height_interval = 30

abbrev pub max_pending_tx_attempts : ℕ
max_pending_tx_attempts = 3

-- A transaction of the mempool: its bytes, its sender with the nonce, and the transaction.
pub record TxInfo : Type 0 where
  pub contents : Bytes
  pub sender : Option (Address × ℕ)
  pub decoded : Tx

-- The order of a proposal: by the address of the sender, then by the nonce; no sender comes first.
unfoldable pub sorts_before : TxInfo → TxInfo → Bool
sorts_before a b = elim a.sender [
  | none ↦ elim b.sender [ none ↦ false | some _ ↦ true ]
  | some x ↦ elim b.sender [
    | none ↦ false
    | some y ↦ if bytes_equal x.0 y.0 then ltb x.1 y.1 else before x.0 y.0
  ]
]

unfoldable pub place_info : TxInfo → List TxInfo → List TxInfo
unfolding sorts_before
place_info e [] = e ∷ []
place_info e (x ∷ xs) =
    let rest = place_info e xs in if sorts_before x e then x ∷ rest else e ∷ (x ∷ xs)

unfoldable pub sort_infos : List TxInfo → List TxInfo
unfolding place_info
sort_infos [] = []
sort_infos (e ∷ es) = place_info e (sort_infos es)

-- The answer to `CheckTx`.
pub data CheckAnswer : Type 0 where
  accepted refused : CheckAnswer

-- A vote that is in the cache already is accepted.
answer : Result ⊤ → CheckAnswer
answer (ok _) = accepted
answer (err already_in_cache) = accepted
answer (err _) = refused

module _ {C : Type 0} where
  unfoldable pub drop_tx : Bytes → Live C → Live C
  drop_tx key live = record live { dropped = key ∷ live.dropped }

  -- The age of a transaction: none is known of a new one, and an expired one is forgotten.
  unfoldable pub refer : Bytes → Live C → Bool × Live C
  refer key live = elim (lookup key live.tx_references) [
    | none ↦ (
      false,
      record live {
        tx_references =
            insert key (record { height = live.current.current_height; failed_count = 0 })
              live.tx_references;
      },
    )
    | some r ↦
        if ltb (add32 r.height transaction_blocks_ttl) live.current.current_height
        then (true, record live { tx_references = erase key live.tx_references })
        else (false, live)
  ]

  -- `CheckTx`.
  unfoldable pub check_request : Node C → Bytes → Bool → Live C → CheckAnswer × Live C
  unfolding refer check_on answer
  check_request n raw recheck live =
      let aged = refer (n.tx_key raw) live in
      if aged.0
      then (refused, aged.1)
      else if recheck && not ((aged.1).current.current_height % recheck_tx_height_interval == 0)
      then (accepted, aged.1)
      else elim (n.decode raw) [
        | none ↦ (refused, aged.1)
        | some tx ↦ let r = check_on n tx false (aged.1) in (answer r.0, r.1)
      ]

  -- What is kept of the mempool: a transaction that is not decoded is dropped, one without a nonce
  -- is passed over.
  unfoldable pub collect_infos : Node C → List Bytes → Live C → List TxInfo × Live C
  unfolding drop_tx on_state
  collect_infos n [] live = ([], live)
  collect_infos n (raw ∷ txs) live = elim (n.decode raw) [
    | none ↦ collect_infos n txs (drop_tx (n.tx_key raw) live)
    | some tx ↦
        let r = on_state (extract_nonce_and_sender n.crypto tx) live in
        let rest = collect_infos n txs (r.1) in
        elim (r.0) [
          | err _ ↦ rest
          | ok sender ↦ (record { contents = raw; sender = sender; decoded = tx } ∷ rest.0, rest.1)
        ]
  ]

  -- A transaction that failed once more.
  unfoldable pub count_failure : Bytes → Live C → Live C
  unfolding drop_tx
  count_failure id live = elim (lookup id live.tx_references) [
    | none ↦ live
    | some r ↦
        let failed = suc r.failed_count in
        if ltb max_pending_tx_attempts failed
        then record (drop_tx id live) { tx_references = erase id live.tx_references }
        else record live {
          tx_references =
              insert id (record { height = r.height; failed_count = failed }) live.tx_references;
        }
  ]

  unfoldable pub keep_valid : Node C → List TxInfo → Live C → List Bytes × Live C
  unfolding check_on count_failure
  keep_valid n [] live = ([], live)
  keep_valid n (info ∷ infos) live =
      let r = check_on n info.decoded true live in
      elim (r.0) [
        | err _ ↦ keep_valid n infos (count_failure info.decoded.tx_id (r.1))
        | ok _ ↦ let rest = keep_valid n infos (r.1) in (info.contents ∷ rest.0, rest.1)
      ]
