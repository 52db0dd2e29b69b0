-- ===== src/Votes.antt =====
-- vochain/state/votes.go and vochain/state/voterid.go: the votes of a process, by the hash of the
-- process identifier and the nullifier of the voter, and the global count of votes.
pub mod Overwrite
pub mod Cache
pub mod Weight
use vocdoni_node.Base.{
  ℕ, ◌+◌, Bool, true, false, not, Option, none, some, List, [], ◌∷◌, ◌++◌, ltb, ◌==◌, if◌then◌else◌,
}
use vocdoni_node.Base.Lists.{length, get_elem?}
use vocdoni_node.Base.Bytes.{Bytes}
use vocdoni_node.Base.Words.{add32, add64, big_bytes}
use vocdoni_node.Base.Dict.{Dict, lookup, insert}
pub use vocdoni_node.Chain.{Vote}
use vocdoni_node.Chain.{
  StateVote, State, Exec, Result, ok, err, ⊤, pure, raise, gets, lift, or_raise, raise_if, modify,
  ◌>>=◌, ◌>>◌, wrong_process_id_size, empty_nullifier, process_not_found, vote_not_found, panicked,
}
use vocdoni_node.Crypto.{Crypto}

unfoldable pub weight_bytes : Option ℕ → Bytes
weight_bytes none = big_bytes 1
weight_bytes (some w) = big_bytes w

-- A nil slice has length 0.
abbrev memo_bytes : Option Bytes → Bytes
memo_bytes none = []
memo_bytes (some m) = m

unfoldable pub hash : Crypto → Vote → Bytes
hash crypto v = crypto.hash_raw (
    v.process_id
    ++ (v.nullifier ++ (v.vote_package ++ (weight_bytes v.weight ++ memo_bytes v.memo))))

abbrev pub process_id_size : ℕ
process_id_size = 32

-- `voteID`
unfoldable pub vote_id : Crypto → Bytes → Bytes → Result Bytes
vote_id crypto pid nullifier =
    if not (length pid == process_id_size)
    then err wrong_process_id_size
    else if length nullifier == 0
    then err empty_nullifier
    else ok (crypto.sha256 (pid ++ nullifier))

-- `Vote` on the uncommitted view; the vote, or `none` for ErrVoteNotFound.
unfoldable pub find_vote : Crypto → Bytes → Bytes → Exec (Option StateVote)
find_vote crypto pid nullifier = do
  vid ← lift (vote_id crypto pid nullifier)
  found ← gets (λ s. lookup pid s.votes)
  tree ← or_raise found process_not_found
  pure (lookup vid tree)

-- `VoteExists`
unfoldable pub vote_exists : Crypto → Bytes → Bytes → State → Result Bool
vote_exists crypto pid nullifier s = elim ((find_vote crypto pid nullifier s).0) [
  | ok (some v) ↦ ok true
  | ok none ↦ ok false
  | err process_not_found ↦ ok false
  | err e ↦ err e
]

unfoldable pub bump : Option ℕ → ℕ
bump none = 1
bump (some n) = add32 n 1

-- The vote to store: a first one, or the stored one written over.
unfoldable pub merged : Crypto → Vote → Option StateVote → StateVote
unfolding bump
merged crypto v none = record {
  vote_hash = hash crypto v;
  nullifier = v.nullifier;
  weight = weight_bytes v.weight;
  vote_package = v.vote_package;
  encryption_key_indexes = v.encryption_key_indexes;
  overwrite_count = none;
  memo = v.memo;
}
merged crypto v (some old) = record {
  vote_hash = hash crypto v;
  nullifier = old.nullifier;
  weight = weight_bytes v.weight;
  vote_package = v.vote_package;
  encryption_key_indexes = v.encryption_key_indexes;
  overwrite_count = some (bump old.overwrite_count);
  memo = v.memo;
}

-- `voteCountInc`, in 64 bits.
unfoldable pub counted : Option ℕ → ℕ
counted none = add64 0 1
counted (some n) = add64 n 1

-- `DeepSet` in the tree of votes of a process, and `voteCountInc`.
unfoldable pub store_vote : Bytes → Bytes → StateVote → Exec ⊤
store_vote pid vid sv = do
  found ← gets (λ s. lookup pid s.votes)
  tree ← or_raise found process_not_found
  modify (λ s. record s {
    votes = insert pid (insert vid sv tree) s.votes;
    vote_count = some (counted s.vote_count);
  })

unfoldable pub overwrites_of : ℕ → Option ℕ → ℕ
overwrites_of before none = before
overwrites_of before (some n) = n

-- `AddVote`; it gives the vote that the caller holds afterwards.
unfoldable pub add_vote : Crypto → Vote → Exec Vote
add_vote crypto v = do
  vid ← lift (vote_id crypto v.process_id v.nullifier)
  height ← gets (λ s. s.current_height)
  old ← find_vote crypto v.process_id v.nullifier
  store_vote v.process_id vid (merged crypto v old)
  pure (record v {
    height = height;
    overwrites = overwrites_of v.overwrites (merged crypto v old).overwrite_count;
  })

unfoldable pub count_or_zero : Option ℕ → ℕ
count_or_zero none = 0
count_or_zero (some n) = n

-- `CountTotalVotes`
unfoldable pub count_total_votes : State → ℕ
unfolding count_or_zero
count_total_votes s = count_or_zero s.vote_count

-- `NewVoterID`, `Type`, `IsNil` and `Bytes`
unfoldable pub new_voter_id : ℕ → Bytes → Bytes
new_voter_id kind key = kind ∷ key

unfoldable pub voter_id_type : Bytes → Result ℕ
voter_id_type [] = err panicked
voter_id_type (b ∷ bs) = ok b

unfoldable pub voter_id_bytes : Bytes → Option Bytes
voter_id_bytes [] = none
voter_id_bytes (b ∷ []) = none
voter_id_bytes (b ∷ (c ∷ bs)) = some (c ∷ bs)
