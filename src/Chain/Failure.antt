-- ===== src/Chain/Failure.antt =====
-- The errors that the handlers return, by name, and `panicked` for a run-time panic.
pub data Error : Type 0 where
  vote_not_found process_not_found account_not_exist balance_overflow : Error
  not_enough_balance registered_valid_sik sik_already_invalid sik_get : Error
  zero_amount nil_destination already_delegate not_delegate same_info_uri invalid_info_uri : Error
  invalid_tx_type free_tx_type no_burn_account invalid_faucet_payload : Error
  timestamp_not_found same_status invalid_transition not_interruptible unknown_status : Error
  zero_duration same_duration invalid_status elapsed_duration shortened_duration : Error
  same_metadata still_alive not_dynamic_census origin_not_updatable same_census_root : Error
  missing_census_uri process_exists : Error
  nil_tx invalid_tx invalid_value invalid_from invalid_to bad_signature sender_mismatch : Error
  same_address invalid_nonce nil_faucet_package invalid_faucet_signature faucet_used : Error
  no_faucet_account nonce_mismatch nil_payload nil_address tx_empty : Error
  action_exists action_not_found nil_action_id height_passed timestamp_passed : Error
  unknown_ist_action overwrites_reached key_index_overflow bad_vote_package : Error
  wrong_process_id_size empty_nullifier : Error
  invalid_process_id_length invalid_census_origin invalid_envelope_type account_not_found : Error
  invalid_delta : Error
  nil_vote_options nil_envelope_type size_mismatch max_count_overflow not_unique : Error
  max_value_overflow max_cost_overflow incorrect_fields values_overflow : Error
  mempool_full check_failed : Error
  nil_envelope empty_process_id not_started finished not_ready no_keys already_in_cache : Error
  no_census_root no_proof memo_too_long metadata_mismatch census_full expired_sik_root
        invalid_proof :
      Error
  unsupported_origin process_mismatch : Error
  account_exists invalid_uri_length duplicate_delegate sender_delegate faucet_too_small : Error
  delegate_exists no_such_delegate no_delegates same_uri sik_deleted no_sik sik_locked : Error
  has_sik not_anonymous no_public_key already_validator : Error
  missing_fields bad_max_count metadata_too_long both_durations past_start past_end : Error
  zero_census_size census_too_big serial_process results_forbidden census_shrinks : Error
  unauthorized no_keys_required not_validator key_management_disabled no_key_index : Error
  wrong_key_index keys_present keys_missing keys_revealed still_open key_mismatch : Error
  validator_not_found : Error
  external : Error
  panicked : Error
