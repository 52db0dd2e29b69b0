-- ===== src/Transaction/VoteTx.antt =====
-- `VoteTxCheck` of vochain/transaction/vote_tx.go, and the delivery of votes in `CheckTx`
-- (vochain/transaction/transaction.go).
pub mod Window
pub mod Census
use vocdoni_node.Base.{
  ℕ, Bool, true, false, not, ◌&&◌, Option, none, some, [], ltb, leb, ◌==◌, if◌then◌else◌,
}
use vocdoni_node.Base.Lists.{length}
use vocdoni_node.Base.Bytes.{Bytes, bytes_equal}
use vocdoni_node.Base.Words.{add32}
use vocdoni_node.Base.Dict.{lookup}
use vocdoni_node.Chain.{
  Process, Vote, ready, CensusOrigin, off_chain_tree, off_chain_tree_weighted, off_chain_ca,
  off_chain_ca_v2, other_origin, State, Exec, Result, ok, err, ⊤, pure, gets, lift, or_raise,
  raise_if, when, ◌>>=◌, ◌>>◌, process_not_found, nil_envelope, empty_process_id, not_started,
  finished, not_ready, no_keys, already_in_cache, panicked, memo_too_long, metadata_mismatch,
  census_full, expired_sik_root, invalid_proof, unsupported_origin, tx_empty,
}
use vocdoni_node.Crypto.{Crypto}
use vocdoni_node.Process.{get_process, get_timestamp, end_time, same}
use vocdoni_node.Votes.{add_vote}
use vocdoni_node.Votes.Cache.{Lru, cache_add, cache_del, cache_get_copy}
use vocdoni_node.Sik.Roots.{expired_sik_root_test}
use vocdoni_node.Transaction.Types.{VoteEnvelope, Payload, Tx}
use vocdoni_node.Transaction.Network.{Network, metadata_fork_active}
use vocdoni_node.Transaction.Proofs.{verify_proof, initialize_signed_vote, initialize_zk_vote}
use vocdoni_node.Transaction.Overwrites.{check_vote_can_be_casted}
use vocdoni_node.Transaction.Nonce.{check_account_nonce}

unfoldable pub get_vote : Option Payload → Option VoteEnvelope
get_vote (some (Payload.vote envelope)) = some envelope
get_vote _ = none

abbrev pub max_vote_memo_size : ℕ
max_vote_memo_size = 256

-- A nil memo has length 0.
unfoldable pub memo_length : Option Bytes → ℕ
memo_length none = 0
memo_length (some m) = length m

-- Whether a process takes votes by its clock, or by its blocks if its duration is 0.
unfoldable pub check_window : Process → ℕ → ℕ → Result ⊤
check_window p height now =
    if ltb 0 p.duration
    then (if ltb now p.start_time
        then err not_started
        else if ltb (end_time p) now
        then err finished
        else ok tt)
    else if ltb height p.start_block
    then err not_started
    else if ltb (add32 p.start_block p.block_count) height
    then err finished
    else ok tt

-- A missing index is not tested.
unfoldable pub no_keys_yet : Option ℕ → Bool
no_keys_yet none = false
no_keys_yet (some index) = ltb index 1

-- The part of `VoteTxCheck` on the envelope and its process.
unfoldable pub check_election : Tx → Exec (VoteEnvelope × Process × ℕ)
unfolding get_process get_timestamp get_vote
check_election vtx = do
  envelope ← or_raise (get_vote vtx.payload) nil_envelope
  raise_if (length envelope.process_id == 0) empty_process_id
  p ← get_process envelope.process_id
  height ← gets (λ s. s.current_height)
  now ← get_timestamp
  lift (check_window p height now)
  raise_if (not (same p.status ready)) not_ready
  raise_if (p.envelope_type.encrypted_votes && no_keys_yet p.key_index) no_keys
  pure (envelope, p, height)

-- A signed vote has no root.
abbrev pub unrooted : Result Vote → Result (Vote × Bytes)
unrooted (ok v) = ok (v, [])
unrooted (err e) = err e

supported : CensusOrigin → Bool
supported (other_origin n) = false
supported _ = true

-- The vote that the envelope gives, and the root that it was proved against.
unfoldable pub initialize_vote :
    Crypto → Network → Tx → VoteEnvelope → Process → ℕ → Exec (Vote × Bytes)
unfolding supported
initialize_vote c net vtx envelope p height = do
  raise_if (not (supported p.census_origin)) unsupported_origin
  made ← lift (
      if p.envelope_type.anonymous
      then initialize_zk_vote net envelope height
      else unrooted (initialize_signed_vote c envelope vtx height))
  raise_if (p.envelope_type.encrypted_votes && length made.0.encryption_key_indexes == 0) no_keys
  pure made

-- `CountVotes`: the leaves of the tree of votes.
unfoldable pub count_votes : Bytes → Exec ℕ
count_votes pid = do
  found ← gets (λ s. lookup pid s.votes)
  tree ← or_raise found process_not_found
  pure (length tree)

-- What is checked of a vote whether it comes from the cache or not.
unfoldable pub check_ballot_place : Crypto → VoteEnvelope → Process → Vote → Exec Vote
unfolding memo_length count_votes
check_ballot_place c envelope p v = do
  raise_if (ltb max_vote_memo_size (memo_length envelope.memo)) memo_too_long
  fork ← gets metadata_fork_active
  raise_if (fork && not (bytes_equal envelope.metadata_hash p.metadata_hash)) metadata_mismatch
  overwrite ← check_vote_can_be_casted c v.nullifier p
  count ← count_votes p.process_id
  raise_if (leb p.max_census_size count && not overwrite) census_full
  pure (record v { memo = envelope.memo })

-- The proof of a vote that is not in the cache.
unfoldable pub check_ballot_proof : Network → VoteEnvelope → Process → Vote × Bytes → Exec Vote
check_ballot_proof net envelope p made = do
  expired ← gets (λ s. p.envelope_type.anonymous && expired_sik_root_test made.1 s)
  raise_if expired expired_sik_root
  proved ← lift (verify_proof net p envelope made.0.voter_id)
  raise_if (not proved.0) invalid_proof
  pure (record made.0 { weight = proved.1 })

-- A vote that is not in the cache.
unfoldable pub check_new_ballot : Crypto → Network → Tx → Exec Vote
unfolding check_election initialize_vote check_ballot_place check_ballot_proof
check_new_ballot c net vtx = do
  e ← check_election vtx
  made ← initialize_vote c net vtx e.0 e.1 e.2
  placed ← check_ballot_place c e.0 e.1 made.0
  check_ballot_proof net e.0 e.1 (placed, made.1)

-- The copy of a vote dereferences its weight.
abbrev pub weightless : Vote → Bool
weightless v = elim v.weight [ none ↦ true | some _ ↦ false ]

-- A vote from the cache, in a block.
unfoldable pub check_cached_ballot : Crypto → Tx → Vote → Exec Vote
unfolding check_election check_ballot_place
check_cached_ballot c vtx v = do
  e ← check_election vtx
  raise_if (weightless v) panicked
  check_ballot_place c e.0 e.1 (record v { height = e.2 })

-- A vote of the cache in the mempool is refused once the checks of its election are passed.
unfoldable pub refuse_cached_ballot : Tx → Vote → Exec Vote
unfolding check_election
refuse_cached_ballot vtx v = do
  check_election vtx
  raise_if (weightless v) panicked
  lift (err already_in_cache)

-- Whether the checks before the look at the cache are passed, and the vote there is copied.
abbrev pub reaches_cache : Tx → Vote → State → Bool
reaches_cache vtx v s = elim ((check_election vtx s).0) [
  | ok _ ↦ not (weightless v)
  | err _ ↦ false
]

-- The cache after the check of a new ballot.
unfoldable pub cache_new : {C : Type 0} → Lru C → Bool → Bytes → Bool → Result Vote → C → C
cache_new lru disabled id for_commit (ok v) cache =
    if for_commit then cache else cache_add lru disabled id (some v) cache
cache_new lru disabled id for_commit (err e) cache = cache

unfoldable pub check_with :
    {C : Type 0}
    → Crypto
    → Network
    → Lru C
    → Bool
    → Tx
    → Bool
    → Option Vote
    → C
    → State
    → Result Vote × C
check_with c net lru disabled vtx for_commit (some v) cache s =
    if for_commit
    then (
      (check_cached_ballot c vtx v s).0,
      if reaches_cache vtx v s then cache_del lru disabled vtx.tx_id cache else cache,
    )
    else ((refuse_cached_ballot vtx v s).0, cache)
check_with c net lru disabled vtx for_commit none cache s =
    let r = (check_new_ballot c net vtx s).0 in
    (r, cache_new lru disabled vtx.tx_id for_commit r cache)

-- `VoteTxCheck`: it reads the state and writes the cache.
unfoldable pub vote_tx_check :
    {C : Type 0} → Crypto → Network → Lru C → Bool → Tx → Bool → C → State → Result Vote × C
unfolding check_with
vote_tx_check c net lru disabled vtx for_commit cache s =
    check_with c net lru disabled vtx for_commit (cache_get_copy lru disabled vtx.tx_id cache) cache
      s

-- What `CheckTx` does with the vote that passed.
unfoldable pub deliver_vote : Crypto → Bool → Result Vote → Exec ⊤
deliver_vote c for_commit (err e) = lift (err e)
deliver_vote c false (ok v) = pure tt
deliver_vote c true (ok v) = do add_vote c v; pure tt

-- `CheckTx` of a vote: what it does to the state, and to the cache.
unfoldable pub check_vote :
    {C : Type 0} → Crypto → Network → Lru C → Bool → Tx → Bool → C → State → (Result ⊤ × State) × C
check_vote c net lru disabled vtx for_commit cache s =
    let checked = vote_tx_check c net lru disabled vtx for_commit cache s in
    let delivered = (do
      when for_commit (check_account_nonce c vtx)
      deliver_vote c for_commit checked.0) in
    (delivered s, checked.1)
