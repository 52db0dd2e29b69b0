-- ===== src/TxType.antt =====
-- `models.TxType`: the types that the code names, and all the others by their number.
use vocdoni_node.Base.{ℕ}

pub data TxType : Type 0 where
  set_process_status set_process_duration set_process_metadata set_process_census : TxType
  set_process_question_index register_voter_key new_process send_tokens : TxType
  set_account_info_uri create_account add_delegate_for_account : TxType
  del_delegate_for_account collect_faucet set_account_sik del_account_sik : TxType
  register_sik set_account_validator add_process_keys reveal_process_keys : TxType
  other_tx : ℕ → TxType
