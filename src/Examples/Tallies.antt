-- ===== src/Examples/Tallies.antt =====
-- Tallies: ballots counted, in two orders, and from the votes of an election.
use mathlib.Core.List.{Permᴰ}
use vocdoni_node.Base.{
  ◌-◌, ℕ, ◌+◌, ◌^◌, ◌<◌, ◌≡◌, ◌↔◌, refl, Bool, true, false, some, none, List, [], ◌∷◌, arith,
}
use vocdoni_node.Base.Bytes.{Bytes}
use vocdoni_node.Base.Dict.{Dict, lookup}
use vocdoni_node.Chain.{EnvelopeType, VoteOptions, StateVote, ended, ok, err, panicked}
use vocdoni_node.Results.{Tally, Ballot, add_vote, add_votes, check_ballot, new_empty_votes}
use vocdoni_node.Results.Checks.{Small, Protocol, check_ballot_decides}
use vocdoni_node.Results.Cells.{cell}
use vocdoni_node.Results.Count.{
  Shaped, SmallBallots, CountsAll, counted, counted_weight, tally_counts, new_empty_votes-Shaped,
}
use vocdoni_node.Results.Order.{tally_ignores_order}
use vocdoni_node.Results.Compute.{
  Envelopes, ballots, compute_results, effective_options, empty_tally,
}
use vocdoni_node.Ist.Ending.{compute_results_counts}
use vocdoni_node.Examples.Fixtures.{alice, chain, election, election_id}

abbrev options : VoteOptions
options = (election ended).vote_options

abbrev kind : EnvelopeType
kind = (election ended).envelope_type

abbrev empty : Tally
empty = record {
  votes = new_empty_votes options;
  weight = 0;
  envelope_type = some kind;
  vote_opts = some options;
  block_height = 7;
}

empty-Shaped : Shaped options kind empty
empty-Shaped = new_empty_votes-Shaped options kind 7 (omega arith) (omega arith)

-- The second ballot is refused: its value is too great.
abbrev first : Ballot
first = (1 ∷ 2 ∷ [], 10)

abbrev second : Ballot
second = (9 ∷ [], 4)

two-Small : SmallBallots (first ∷ second ∷ [])
two-Small = ground arith

two_turned-Small : SmallBallots (second ∷ first ∷ [])
two_turned-Small = ground arith

tally_counts_example : (r : Tally) × CountsAll options kind (first ∷ second ∷ []) empty r
tally_counts_example = tally_counts options kind (first ∷ second ∷ []) empty empty-Shaped two-Small

tally_ignores_order_example :
    (r₁ : Tally) × (r₂ : Tally) × (add_votes (first ∷ second ∷ []) empty ≡ ok r₁)
    × (add_votes (second ∷ first ∷ []) empty ≡ ok r₂)
    × (r₁.weight ≡ r₂.weight)
    × ((q o : ℕ) → cell r₁.votes q o ≡ cell r₂.votes q o)
tally_ignores_order_example =
    tally_ignores_order options kind empty empty-Shaped two-Small two_turned-Small
      (Permᴰ.swap refl refl)

one-Small : Small (1 ∷ 2 ∷ [])
one-Small = ground arith

check_ballot_decides_example :
    (check_ballot options kind (1 ∷ 2 ∷ []) (some 10) ≡ ok tt)
    ↔ Protocol options kind (1 ∷ 2 ∷ []) 10
check_ballot_decides_example = check_ballot_decides options kind (1 ∷ 2 ∷ []) 10 one-Small

-- The values after two ballots that are accepted.
tallied :
    add_votes (first ∷ (0 ∷ 2 ∷ [], 5) ∷ []) empty
    ≡ ok (record empty { votes = (5 ∷ 10 ∷ 0 ∷ 0 ∷ []) ∷ (0 ∷ 0 ∷ 15 ∷ 0 ∷ []) ∷ []; weight = 15 })
unfolding add_votes add_vote new_empty_votes check_ballot vocdoni_node.Results.check_unique
    vocdoni_node.Results.check_max_value vocdoni_node.Results.check_total_cost
    vocdoni_node.Results.add_values vocdoni_node.Results.add_cell vocdoni_node.Results.column
    vocdoni_node.Results.amount
tallied = refl

-- A value of 2^32 passes the test of the greatest value, and the index of its column is out of range.
wide_value_panics : add_vote (2 ^ 32 ∷ []) (some 1) empty ≡ err panicked
unfolding add_vote new_empty_votes check_ballot vocdoni_node.Results.check_unique
    vocdoni_node.Results.check_max_value vocdoni_node.Results.check_total_cost
    vocdoni_node.Results.add_values vocdoni_node.Results.add_cell vocdoni_node.Results.column
wide_value_panics = refl

-- The number of options wraps for the greatest value 2^32 - 1: the matrix has no rows.
abbrev widest : VoteOptions
widest = record options { max_value = 2 ^ 32 - 1 }

greatest_value_panics :
    add_votes
      (first ∷ [])
      (record empty { votes = new_empty_votes widest; vote_opts = some widest })
    ≡ err panicked
unfolding add_votes add_vote new_empty_votes check_ballot vocdoni_node.Results.check_unique
    vocdoni_node.Results.check_max_value vocdoni_node.Results.check_total_cost
    vocdoni_node.Results.add_values vocdoni_node.Results.add_cell vocdoni_node.Results.column
    vocdoni_node.Results.continue_after
greatest_value_panics = refl

abbrev envelopes : Envelopes
envelopes = record { decrypt = λ key b. some b; decode_package = λ b. some b }

abbrev cast : StateVote
cast = record {
  vote_hash = [];
  nullifier = alice;
  weight = 10 ∷ [];
  vote_package = 1 ∷ 2 ∷ [];
  encryption_key_indexes = [];
  overwrite_count = none;
  memo = none;
}

abbrev committed : Dict (Dict StateVote)
committed = (election_id, (alice, cast) ∷ []) ∷ []

ended_found : lookup election_id (chain ended).processes ≡ some (election ended)
unfolding lookup vocdoni_node.Base.Bytes.bytes_equal
ended_found = refl

votes_found : lookup election_id committed ≡ some ((alice, cast) ∷ [])
unfolding lookup vocdoni_node.Base.Bytes.bytes_equal
votes_found = refl

ballots-Small : SmallBallots (ballots envelopes (election ended) ((alice, cast) ∷ []))
unfolding ballots vocdoni_node.Results.Compute.open_vote vocdoni_node.Results.Compute.unmarshal_vote
    vocdoni_node.Results.Compute.decrypt_backward
ballots-Small = ((omega arith, (omega arith, tt)), tt)

compute_results_counts_example :
    (r : Tally) × (compute_results envelopes committed election_id (chain ended)
      ≡ (ok r, chain ended))
    × (r.weight
        ≡ counted_weight
            (effective_options options)
            kind
            (ballots envelopes (election ended) ((alice, cast) ∷ [])))
    × ((q o : ℕ)
        → cell r.votes q o
          ≡ cell (empty_tally (election ended) 7).votes q o
            + counted
                (effective_options options)
                kind
                (ballots envelopes (election ended) ((alice, cast) ∷ []))
                q
                o)
compute_results_counts_example =
    compute_results_counts envelopes committed election_id (chain ended) (election ended)
      ((alice, cast) ∷ []) ended_found votes_found (omega arith) (omega arith) ballots-Small
