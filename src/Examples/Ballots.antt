-- ===== src/Examples/Ballots.antt =====
-- Ballots: a vote transaction checked and delivered, the cache of votes, and the keys of its election.
use vocdoni_node.Base.{
  suc, ◌≤◌, ◌≡◌, ◌≢◌, ◌-◌, inl, inr, refl, sym, true, false, some, none, List, [], ◌∷◌, arith,
  Option, Bool-cases,
}
use vocdoni_node.Base.Lists.{length, replicate, set}
use vocdoni_node.Base.Bytes.{Bytes, bytes_equal, bytes_equal_iff}
use vocdoni_node.Base.Dict.{Dict, lookup, insert, erase}
use vocdoni_node.Chain.{Process, Vote, State, ready, ok}
use vocdoni_node.Process.Keys.{add_process_keys, reveal_process_keys, pending_keys}
use vocdoni_node.Process.Keys.Roundtrip.{Stored, add_then_reveal}
use vocdoni_node.ProcessId.{hex}
use vocdoni_node.Sik.Roots.{block_key, key_block, expired_sik_root_test, update_sik_roots}
use vocdoni_node.Sik.Roots.Kept.{update_sik_roots_keeps}
use vocdoni_node.Votes.{weight_bytes}
use vocdoni_node.Votes.Cache.{Lru, cache_add, cache_get, cache_get_copy}
use vocdoni_node.Votes.Cache.Purge.{Among}
use vocdoni_node.Transaction.Types.{Payload, Tx, VoteEnvelope}
use vocdoni_node.Transaction.VoteTx.{vote_tx_check, check_vote}
use vocdoni_node.Transaction.VoteTx.Window.{Accepted, vote_tx_check-Accepted}
use vocdoni_node.Transaction.VoteTx.Census.{votes_of, check_vote_fits_census}
use vocdoni_node.Examples.Fixtures.{alice, crypto, network, election, election_id, chain, apart}

abbrev keys : Dict (Option Vote) → List Bytes
keys [] = []
keys ((k, _) ∷ d) = k ∷ keys d

-- A cache with no limit on its size.
abbrev lru : Lru (Dict (Option Vote))
lru = record { add = insert; remove = erase; get = lookup; keys = keys }

listed :
    (k : Bytes) (v : Option Vote) (d : Dict (Option Vote)) → lookup k d ≡ some v → Among k (keys d)
unfolding lookup
listed k v [] h = ground (arith, h)
listed k v ((j, w) ∷ d) h = elim (Bool-cases (bytes_equal j k)) [
  | inl e ↦ inl (sym ((bytes_equal_iff j k).0 e))
  | inr e ↦ inr (listed k v d (ground (arith, h, e)))
]

abbrev envelope : VoteEnvelope
envelope = record {
  process_id = election_id;
  proof = some (record { payload = some [] });
  vote_package = 1 ∷ [];
  encryption_key_indexes = [];
  memo = none;
  metadata_hash = [];
}

abbrev ballot_tx : Tx
ballot_tx = record {
  tx_id = 9 ∷ [];
  payload = some (Payload.vote envelope);
  signed_body = some alice;
  signature = some [];
}

abbrev ballot : Vote
ballot = record {
  process_id = election_id;
  nullifier = replicate 32 7;
  height = 7;
  vote_package = 1 ∷ [];
  encryption_key_indexes = [];
  weight = some 1;
  voter_id = 1 ∷ alice;
  overwrites = 0;
  memo = none;
}

accepted : (vote_tx_check crypto network lru false ballot_tx true [] (chain ready)).0 ≡ ok ballot
unfolding vote_tx_check cache_get_copy cache_get lookup
    vocdoni_node.Transaction.VoteTx.check_new_ballot bytes_equal
    vocdoni_node.Transaction.VoteTx.check_window vocdoni_node.Process.same
    vocdoni_node.Transaction.Proofs.initialize_signed_vote
    vocdoni_node.Transaction.Network.metadata_fork_active
    vocdoni_node.Transaction.Overwrites.check_vote_can_be_casted vocdoni_node.Votes.find_vote
    vocdoni_node.Votes.vote_id vocdoni_node.Transaction.Overwrites.check_overwrite
    vocdoni_node.Transaction.Proofs.verify_proof
accepted = refl

vote_tx_check-Accepted_example :
    (a : Accepted crypto ballot_tx (chain ready) ballot) × (ballot.process_id
      ≡ a.envelope.process_id)
unfolding cache_get_copy cache_get lookup
vote_tx_check-Accepted_example =
    vote_tx_check-Accepted crypto network lru false ballot_tx true [] (chain ready) ballot tt
      accepted

found : lookup election_id (chain ready).processes ≡ some (election ready)
unfolding lookup bytes_equal
found = refl

counted : votes_of election_id (chain ready) ≡ 0
unfolding lookup bytes_equal
counted = refl

no_votes : votes_of election_id (chain ready) ≤ 10
no_votes = ground (arith, counted)

check_vote_fits_census_example :
    votes_of election_id (check_vote crypto network lru false ballot_tx true [] (chain ready)).0.1
    ≤ 10
unfolding cache_get_copy cache_get lookup
check_vote_fits_census_example =
    check_vote_fits_census crypto network lru false ballot_tx true [] (chain ready) election_id
      (election ready) tt found refl no_votes

abbrev cached : Dict (Option Vote)
cached = cache_add lru false (9 ∷ []) (some ballot) []

-- An election with room for keys.
abbrev sealed : Process
sealed = record (election ready) {
  encryption_private_keys = replicate 16 [];
  encryption_public_keys = replicate 16 [];
}

abbrev sealed_chain : State
sealed_chain = record (chain ready) { processes = (election_id, sealed) ∷ [] }

sealed_found : lookup election_id sealed_chain.processes ≡ some sealed
unfolding lookup bytes_equal
sealed_found = refl

add_then_reveal_example :
    (s₁ : State) × (q : Process) × (s₂ : State) × (r : Process) × (add_process_keys
        (some election_id)
        (some 1)
        (some (5 ∷ []))
        sealed_chain
      ≡ (ok tt, s₁))
    × Stored election_id q s₁
    × (q.key_index ≡ some (suc (pending_keys sealed.key_index)))
    × (reveal_process_keys (some election_id) (some 1) (some (6 ∷ [])) s₁ ≡ (ok tt, s₂))
    × Stored election_id r s₂
    × (r.key_index ≡ some (pending_keys sealed.key_index))
    × (r.encryption_public_keys ≡ set sealed.encryption_public_keys 1 (hex (5 ∷ [])))
    × (r.encryption_private_keys ≡ set sealed.encryption_private_keys 1 (hex (6 ∷ [])))
unfolding pending_keys
add_then_reveal_example =
    add_then_reveal election_id sealed 1 (5 ∷ []) (6 ∷ []) sealed_chain
      (record { found = sealed_found; named = refl; sized = refl }) (ground arith) (ground arith)
      (ground arith)

abbrev root_of : Dict Bytes → Bytes
root_of siks = length siks ∷ []

abbrev rooted : State
rooted = record (chain ready) {
  current_height = 40;
  sik_roots = (block_key 20, 0 ∷ []) ∷ [];
  valid_sik_roots = (0 ∷ []) ∷ [];
}

of_block : key_block (block_key 20) ≡ 20
unfolding key_block block_key
of_block = refl

recent : rooted.current_height - 32 ≤ key_block (block_key 20)
recent = ground (arith, of_block)

another : block_key 20 ≢ block_key 40
unfolding bytes_equal block_key
another = apart (block_key 20) (block_key 40) refl

valid_before : expired_sik_root_test (0 ∷ []) rooted ≡ false
unfolding expired_sik_root_test bytes_equal
valid_before = refl

update_sik_roots_keeps_example :
    (s' : State) × (update_sik_roots root_of rooted ≡ (ok tt, s'))
    × (expired_sik_root_test (root_of rooted.siks) s' ≡ false)
    × (expired_sik_root_test (0 ∷ []) s' ≡ false)
    × (update_sik_roots root_of s' ≡ (ok tt, s'))
    × (lookup (block_key 20) s'.sik_roots ≡ lookup (block_key 20) rooted.sik_roots)
update_sik_roots_keeps_example =
    update_sik_roots_keeps root_of (block_key 20) (0 ∷ []) rooted recent another valid_before

-- Far later, the old entry is purged from the database, and its root is valid still.
purged_root_valid :
    (lookup
        (block_key 20)
        (update_sik_roots root_of (record rooted { current_height = 90 })).1.sik_roots
      ≡ none)
    × (expired_sik_root_test
          (0 ∷ [])
          (update_sik_roots root_of (record rooted { current_height = 90 })).1
        ≡ false)
unfolding update_sik_roots expired_sik_root_test lookup insert erase bytes_equal block_key key_block
purged_root_valid = (refl, refl)
