-- ===== src/Results/Compute.antt =====
-- vochain/results/compute.go: reading the votes of a process and tallying them.
use vocdoni_node.Base.{ℕ, Option, none, some, List, [], ◌∷◌, ltb, ◌==◌, if◌then◌else◌}
use vocdoni_node.Base.Lists.{get_elem?}
use vocdoni_node.Base.Bytes.{Bytes}
use vocdoni_node.Base.Words.{of_bytes}
use vocdoni_node.Base.Dict.{Dict, lookup}
use vocdoni_node.Chain.{
  Process, VoteOptions, StateVote, Exec, raise_if, or_raise, gets, lift, ◌>>=◌, ◌>>◌,
  process_not_found, max_count_overflow,
}
use vocdoni_node.Process.{get_process}
use vocdoni_node.Results.{Tally, Ballot, new_empty_votes, add_votes}

-- Decrypting with a private key in hexadecimal (`nacl`), and the JSON of a vote package: its values.
pub record Envelopes : Type 0 where
  pub decrypt : Bytes → Bytes → Option Bytes
  pub decode_package : Bytes → Option (List ℕ)

abbrev pub max_questions : ℕ
max_questions = 64

abbrev pub key_keeper_max_key_index : ℕ
key_keeper_max_key_index = 16

join_key : ℕ → Option Bytes → Option (List Bytes) → Option (List Bytes)
join_key k (some key) (some rest) =
    if ltb k key_keeper_max_key_index then some (key ∷ rest) else none
join_key _ _ _ = none

-- The keys of a vote by their indexes, or none where an index is out of range.
unfoldable pub keys_of : List Bytes → List ℕ → Option (List Bytes)
unfolding join_key
keys_of keys [] = some []
keys_of keys (k ∷ ks) = join_key k (get_elem? keys k) (keys_of keys ks)

-- The keys are used from the last one on.
unfoldable pub decrypt_backward : Envelopes → List Bytes → Bytes → Option Bytes
decrypt_backward env [] raw = some raw
decrypt_backward env (key ∷ keys) raw = elim (decrypt_backward env keys raw) [
  | none ↦ none
  | some inner ↦ env.decrypt key inner
]

-- `unmarshalVote`
unfoldable pub unmarshal_vote : Envelopes → Bytes → List Bytes → Option (List ℕ)
unmarshal_vote env raw_package keys = elim (decrypt_backward env keys raw_package) [
  | none ↦ none
  | some raw ↦ env.decode_package raw
]

-- The ballot of a stored vote, if its keys, its package and its text are in order.
unfoldable pub open_vote : Envelopes → Process → StateVote → Option Ballot
open_vote env p v =
    elim (if p.envelope_type.encrypted_votes
      then keys_of p.encryption_private_keys v.encryption_key_indexes
      else some []) [
        | none ↦ none
        | some keys ↦ elim (unmarshal_vote env v.vote_package keys) [
          | none ↦ none
          | some values ↦ some (values, of_bytes v.weight)
        ]
      ]

-- The votes that cannot be opened are left out.
unfoldable pub ballots : Envelopes → Process → Dict StateVote → List Ballot
ballots env p [] = []
ballots env p ((_, v) ∷ vs) = elim (open_vote env p v) [
  | none ↦ ballots env p vs
  | some b ↦ b ∷ ballots env p vs
]

-- No questions means the greatest number of them.
unfoldable pub effective_options : VoteOptions → VoteOptions
effective_options opts = record opts {
  max_count = if opts.max_count == 0 then max_questions else opts.max_count;
}

unfoldable pub empty_tally : Process → ℕ → Tally
unfolding effective_options
empty_tally p height = record {
  votes = new_empty_votes (effective_options p.vote_options);
  weight = 0;
  envelope_type = some p.envelope_type;
  vote_opts = some (effective_options p.vote_options);
  block_height = height;
}

-- `ComputeResults`: the process of the uncommitted view, the votes of the last committed one.
unfoldable pub compute_results : Envelopes → Dict (Dict StateVote) → Bytes → Exec Tally
unfolding effective_options
compute_results env committed_votes pid = do
  p ← get_process pid
  raise_if (ltb max_questions (effective_options p.vote_options).max_count) max_count_overflow
  height ← gets (λ s. s.current_height)
  votes ← or_raise (lookup pid committed_votes) process_not_found
  lift (add_votes (ballots env p votes) (empty_tally p height))
