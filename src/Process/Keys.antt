-- ===== src/Process/Keys.antt =====
-- `AddProcessKeys` and `RevealProcessKeys` of vochain/state/state.go: the encryption keys of a process,
-- by index, and the count of those that are not revealed yet.
pub mod Roundtrip
use vocdoni_node.Base.{ℕ, ◌-◌, Bool, true, false, Option, none, some, List, ltb, if◌then◌else◌}
use vocdoni_node.Base.Lists.{length, set}
use vocdoni_node.Base.Bytes.{Bytes}
use vocdoni_node.Base.Words.{add32}
use vocdoni_node.Chain.{
  Process, Exec, Result, ok, err, ⊤, pure, lift, or_raise, raise_if, ◌>>=◌, ◌>>◌, panicked,
  no_key_index, empty_process_id, no_keys,
}
use vocdoni_node.Process.{get_process, update_process}
use vocdoni_node.ProcessId.{hex}

-- A write to a slice, which panics out of range.
unfoldable pub set_key : List Bytes → ℕ → Bytes → Result (List Bytes)
set_key keys i key = if ltb i (length keys) then ok (set keys i key) else err panicked

-- The text of a key is written where there is one.
unfoldable pub put_key : List Bytes → ℕ → Option Bytes → Result (List Bytes)
unfolding set_key
put_key keys i none = ok keys
put_key keys i (some key) = set_key keys i (hex key)

unfoldable pub pending_keys : Option ℕ → ℕ
pending_keys none = 0
pending_keys (some n) = n

-- `AddProcessKeys`, on the fields of the transaction.
unfoldable pub add_process_keys : Option Bytes → Option ℕ → Option Bytes → Exec ⊤
unfolding get_process put_key pending_keys
add_process_keys process_id key_index public_key = do
  pid ← or_raise process_id empty_process_id
  i ← or_raise key_index no_key_index
  p ← get_process pid
  keys ← lift (put_key p.encryption_public_keys i public_key)
  update_process
      (record p {
        encryption_public_keys = keys;
        key_index = some (add32 (pending_keys p.key_index) 1);
      })
      pid

-- `RevealProcessKeys`
unfoldable pub reveal_process_keys : Option Bytes → Option ℕ → Option Bytes → Exec ⊤
unfolding get_process put_key pending_keys
reveal_process_keys process_id key_index private_key = do
  pid ← or_raise process_id empty_process_id
  i ← or_raise key_index no_key_index
  p ← get_process pid
  raise_if (ltb (pending_keys p.key_index) 1) no_keys
  keys ← lift (put_key p.encryption_private_keys i private_key)
  update_process
      (record p { encryption_private_keys = keys; key_index = some (pending_keys p.key_index - 1) })
      pid
