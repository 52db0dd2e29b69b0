-- ===== src/Process/Keys/Roundtrip.antt =====
-- The keys of a process are added and revealed again.
use vocdoni_node.Base.{ℕ, suc, ◌<◌, ◌≡◌, ◌∙◌, refl, ap, some, arith}
use vocdoni_node.Base.Lists.{length, set}
use vocdoni_node.Base.Bytes.{Bytes, bytes_equal_refl}
use vocdoni_node.Base.Words.{add32, u32_mod}
use vocdoni_node.Base.Dict.{lookup, lookup-insert}
use vocdoni_node.Chain.{Process, State, ok}
use vocdoni_node.Process.{get_process, update_process}
use vocdoni_node.Process.Frame.{register_start_block-processes}
use vocdoni_node.Process.Keys.{
  add_process_keys, reveal_process_keys, pending_keys, put_key, set_key,
}
use vocdoni_node.ProcessId.{hex}

-- A process that is stored under its own identifier, of 32 bytes.
pub record Stored (pid : Bytes) (p : Process) (s : State) : Type 0 where
  pub found : lookup pid s.processes ≡ some p
  pub named : p.process_id ≡ pid
  pub sized : length pid ≡ 32

update-Stored :
    (pid : Bytes) (p q : Process) (s : State)
    → Stored pid p s
    → q.process_id ≡ pid
    → ((update_process q pid s).0 ≡ ok tt) × Stored pid q (update_process q pid s).1
unfolding update_process get_process
update-Stored pid p q s st own =
    let (fine, kept) = register_start_block-processes q q.status s in
    let after = lookup-insert pid pid q s.processes in
    let long : length q.process_id ≡ 32 = ap length own ∙ st.sized in
    (
      ground (arith, st.found, long, fine, kept),
      record {
        found = ground (arith, st.found, long, fine, kept, after, bytes_equal_refl pid);
        named = own;
        sized = st.sized;
      },
    )

-- A process of the state, fewer than 2^32 - 1 keys of which wait to be revealed, and an index within
-- its two lists of keys: adding a public key and then revealing a private one at that index succeed,
-- put the two keys in hexadecimal at that index, and leave as many keys waiting as there were; in
-- between one more waits.
pub add_then_reveal :
    (pid : Bytes) (p : Process) (i : ℕ) (public_key private_key : Bytes) (s : State)
    → Stored pid p s
    → i < length p.encryption_public_keys
    → i < length p.encryption_private_keys
    → suc (pending_keys p.key_index) < u32_mod
    → (s₁ : State) × (q : Process) × (s₂ : State) × (r : Process) × (add_process_keys
          (some pid)
          (some i)
          (some public_key)
          s
        ≡ (ok tt, s₁))
      × Stored pid q s₁
      × (q.key_index ≡ some (suc (pending_keys p.key_index)))
      × (reveal_process_keys (some pid) (some i) (some private_key) s₁ ≡ (ok tt, s₂))
      × Stored pid r s₂
      × (r.key_index ≡ some (pending_keys p.key_index))
      × (r.encryption_public_keys ≡ set p.encryption_public_keys i (hex public_key))
      × (r.encryption_private_keys ≡ set p.encryption_private_keys i (hex private_key))
unfolding add_process_keys reveal_process_keys put_key set_key pending_keys
add_then_reveal pid p i public_key private_key s st inside inside' small =
    let n = pending_keys p.key_index in
    let q : Process = record p {
      encryption_public_keys = set p.encryption_public_keys i (hex public_key);
      key_index = some (suc n);
    } in
    let wraps : add32 n 1 ≡ suc n = ground (arith, small) in
    let (fine, st₁) = update-Stored pid p q s st st.named in
    let s₁ = (update_process q pid s).1 in
    let r : Process = record q {
      encryption_private_keys = set p.encryption_private_keys i (hex private_key);
      key_index = some n;
    } in
    let (fine', st₂) = update-Stored pid q r s₁ st₁ st.named in
    let s₂ = (update_process r pid s₁).1 in
    let run₁ : update_process q pid s ≡ (ok tt, s₁) = (λ j. (fine j, s₁)) in
    let run₂ : update_process r pid s₁ ≡ (ok tt, s₂) = (λ j. (fine' j, s₂)) in
    (
      s₁,
      q,
      s₂,
      r,
      ground (arith, st.found, inside, wraps, run₁),
      st₁,
      refl,
      ground (arith, st₁.found, inside', run₂),
      st₂,
      refl,
      refl,
      refl,
    )
