-- ===== src/Examples/Voters.antt =====
-- Voters: votes cast, cast again, and the keys of the voters.
use vocdoni_node.Base.{◌≤◌, ◌+◌, ◌<◌, ◌≡◌, refl, some, none, List, [], ◌∷◌, ◌++◌, ◌^◌, arith}
use vocdoni_node.Base.Lists.{replicate}
use vocdoni_node.Base.Bytes.{Bytes, bytes_equal}
use vocdoni_node.Base.Dict.{lookup}
use vocdoni_node.Chain.{State, StateVote, ready, ok}
use vocdoni_node.Votes.{Vote, vote_id, merged, count_total_votes}
use vocdoni_node.Votes.Overwrite.{stored, cast_all, times, OfVoter, cast_all_counts}
use vocdoni_node.Transaction.Overwrites.Bound.{cast_all_checked, overwrites_bounded}
use vocdoni_node.Examples.Fixtures.{election, alice, crypto, chain, election_id}

abbrev ballot : Bytes → Vote
ballot contents = record {
  process_id = election_id;
  nullifier = alice;
  height = 0;
  vote_package = contents;
  encryption_key_indexes = [];
  weight = none;
  overwrites = 0;
  voter_id = [];
  memo = none;
}

abbrev ballot_id : Bytes
ballot_id = replicate 32 8 ++ replicate 20 1

ballot_identified : vote_id crypto election_id alice ≡ ok ballot_id
unfolding vote_id
ballot_identified = refl

tree_found : lookup election_id (chain ready).votes ≡ some []
unfolding lookup bytes_equal
tree_found = refl

abbrev first_vote : StateVote
first_vote = merged crypto (ballot (1 ∷ [])) none

abbrev voted : State
voted = record (chain ready) {
  votes = (election_id, (ballot_id, first_vote) ∷ []) ∷ [];
  vote_count = some 1;
}

voted_tree : lookup election_id voted.votes ≡ some ((ballot_id, first_vote) ∷ [])
unfolding lookup bytes_equal
voted_tree = refl

voted_found : lookup ballot_id ((ballot_id, first_vote) ∷ []) ≡ some first_vote
unfolding lookup bytes_equal
voted_found = refl

abbrev again : List Vote
again = ballot (2 ∷ []) ∷ ballot (3 ∷ []) ∷ []

first_time : times (some first_vote) + 2 < 2 ^ 32
unfolding merged
first_time = omega arith

first_count : count_total_votes voted + 2 < 2 ^ 64
unfolding count_total_votes
first_count = omega arith

of_alice : OfVoter election_id alice again
of_alice = (refl, refl, (refl, refl, tt))

cast_all_counts_example :
    (sv : StateVote) × (stored election_id ballot_id (cast_all crypto again voted) ≡ some sv)
    × (times (some sv) ≡ times (some first_vote) + 2)
    × (sv.vote_package ≡ 3 ∷ [])
    × (count_total_votes (cast_all crypto again voted) ≡ count_total_votes voted + 2)
cast_all_counts_example =
    cast_all_counts crypto election_id alice ballot_id ballot_identified again voted
      ((ballot_id, first_vote) ∷ []) first_vote of_alice voted_tree voted_found first_time
      first_count

-- The election allows one overwrite, so the third vote is refused.
abbrev three : List Vote
three = ballot (2 ∷ []) ∷ ballot (3 ∷ []) ∷ ballot (4 ∷ []) ∷ []

three_of_alice : OfVoter election_id alice three
three_of_alice = (refl, refl, (refl, refl, (refl, refl, tt)))

within_limit : times (some first_vote) ≤ 2
unfolding merged
within_limit = omega arith

overwrites_bounded_example :
    times (stored election_id ballot_id (cast_all_checked crypto (election ready) three voted)) ≤ 2
unfolding lookup merged bytes_equal
overwrites_bounded_example =
    overwrites_bounded crypto (election ready) alice ballot_id three voted
      ((ballot_id, first_vote) ∷ []) ballot_identified three_of_alice voted_tree within_limit
      (omega arith)
