-- ===== src/Transaction/Check.antt =====
-- `CheckTx` of vochain/transaction/transaction.go as a whole.
use vocdoni_node.Base.{Bool, none, some}
use vocdoni_node.Base.Bytes.{Bytes}
use vocdoni_node.Chain.{State, Result, Exec, ⊤, when, raise, ◌>>◌, err, tx_empty, invalid_tx_type}
use vocdoni_node.Crypto.{Crypto}
use vocdoni_node.Votes.Cache.{Lru}
use vocdoni_node.Transaction.Types.{Tx, Payload}
use vocdoni_node.Transaction.Network.{Network}
use vocdoni_node.Transaction.Nonce.{check_account_nonce}
use vocdoni_node.Transaction.Tokens.{check_send_tokens, check_collect_faucet}
use vocdoni_node.Transaction.AdminTx.{check_admin}
use vocdoni_node.Transaction.AccountTx.SikTx.{check_set_sik, check_del_sik, check_register_sik}
use vocdoni_node.Transaction.AccountTx.Delivery.{check_set_account}
use vocdoni_node.Transaction.ElectionTx.Delivery.{check_new_process, check_set_process}
use vocdoni_node.Transaction.VoteTx.{check_vote}

-- The payloads but votes.
unfoldable pub check_other : Crypto → Network → (Bytes → Bytes) → Tx → Bool → Payload → Exec ⊤
unfolding check_admin check_new_process check_set_process check_set_account check_send_tokens
    check_collect_faucet check_set_sik check_del_sik check_register_sik
check_other c net comet_address vtx for_commit (Payload.admin _) = check_admin c net vtx for_commit
check_other c net comet_address vtx for_commit (Payload.new_process _) =
    check_new_process c net vtx for_commit
check_other c net comet_address vtx for_commit (Payload.set_process _) =
    check_set_process c net vtx for_commit
check_other c net comet_address vtx for_commit (Payload.set_account _) =
    check_set_account c comet_address vtx for_commit
check_other c net comet_address vtx for_commit (Payload.send_tokens _) =
    check_send_tokens c vtx for_commit
check_other c net comet_address vtx for_commit (Payload.collect_faucet _) =
    check_collect_faucet c vtx for_commit
check_other c net comet_address vtx for_commit (Payload.set_sik _) = check_set_sik c vtx for_commit
check_other c net comet_address vtx for_commit (Payload.del_sik _) = check_del_sik c vtx for_commit
check_other c net comet_address vtx for_commit (Payload.register_sik _) =
    check_register_sik c net vtx for_commit
check_other c net comet_address vtx for_commit _ = do
  when for_commit (check_account_nonce c vtx)
  raise invalid_tx_type

-- `CheckTx`, without the data of its response.
unfoldable pub check_tx :
    {C : Type 0}
    → Crypto
    → Network
    → Lru C
    → Bool
    → (Bytes → Bytes)
    → Tx
    → Bool
    → C
    → State
    → (Result ⊤ × State) × C
unfolding check_vote check_other
check_tx c net lru disabled comet_address vtx for_commit cache s = elim vtx.payload [
  | none ↦ ((err tx_empty, s), cache)
  | some p ↦ elim p [
    | Payload.vote _ ↦ check_vote c net lru disabled vtx for_commit cache s
    | other ↦ (check_other c net comet_address vtx for_commit other s, cache)
  ]
]
