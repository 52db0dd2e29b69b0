-- ===== src/Results.antt =====
-- vochain/results/results.go and vochain/results/compute.go: the tally of an election.
-- An `int` of a vote package is its 64-bit two's-complement word, so that `uint32(v)` is
-- `v % 2 ^ 32`, `uint64(v)` is `v`, and a negative index is out of range. A `*big.Int` that is never
-- negative is a natural.
pub mod Cells
pub mod Checks
pub mod Count
pub mod Order
pub mod Compute
use vocdoni_node.Base.{
  ℕ, zero, suc, ◌+◌, ◌*◌, ◌%◌, ◌^◌, Bool, true, false, not, ◌||◌, ◌&&◌, Option, none, some, List,
  [], ◌∷◌, ltb, ◌==◌, if◌then◌else◌,
}
use vocdoni_node.Base.Lists.{length, replicate, get_elem?}
use vocdoni_node.Base.Bytes.{Bytes}
use vocdoni_node.Base.Words.{add32, u32_mod}
use vocdoni_node.Chain.{
  EnvelopeType, VoteOptions, StateVote, Process, Error, Result, ok, err, ⊤, nil_vote_options,
  nil_envelope_type, size_mismatch, max_count_overflow, not_unique, max_value_overflow,
  max_cost_overflow, incorrect_fields, values_overflow, panicked,
}
use vocdoni_node.Chain.Fallible.{◌>>=◌, ◌>>◌}

pub record Tally : Type 0 where
  pub votes : List (List ℕ)
  pub weight : ℕ
  pub envelope_type : Option EnvelopeType
  pub vote_opts : Option VoteOptions
  pub block_height : ℕ

-- `NewEmptyVotes`: the number of options wraps in 32 bits.
unfoldable pub new_empty_votes : VoteOptions → List (List ℕ)
new_empty_votes opts =
    if opts.max_count == 0 || add32 opts.max_value 1 == 0
    then []
    else replicate opts.max_count (replicate (add32 opts.max_value 1) 0)

unfoldable pub mem : ℕ → List ℕ → Bool
mem v [] = false
mem v (x ∷ xs) = v == x || mem v xs

-- The loop of the `UniqueValues` test, `seen` the keys of its map.
unfoldable pub check_unique : List ℕ → List ℕ → Result ⊤
unfolding mem
check_unique seen [] = ok tt
check_unique seen (v ∷ vs) =
    let rest = check_unique (v ∷ seen) vs in if mem v seen then err not_unique else rest

unfoldable pub check_max_value : ℕ → List ℕ → Result ⊤
check_max_value max_value [] = ok tt
check_max_value max_value (v ∷ vs) =
    let rest = check_max_value max_value vs in
    if ltb max_value (v % u32_mod) then err max_value_overflow else rest

-- The loop of the `MaxTotalCost` test.
unfoldable pub check_cost : ℕ → ℕ → ℕ → List ℕ → Result ⊤
check_cost exponent max_cost cost [] = ok tt
check_cost exponent max_cost cost (v ∷ vs) =
    let cost' = cost + v ^ exponent in
    let rest = check_cost exponent max_cost cost' vs in
    if ltb max_cost cost' then err max_cost_overflow else rest

-- The same where the bound is the weight, a pointer that the first comparison reads.
unfoldable pub check_cost_from_weight : ℕ → Option ℕ → List ℕ → Result ⊤
unfolding check_cost
check_cost_from_weight exponent weight [] = ok tt
check_cost_from_weight exponent none (v ∷ vs) = err panicked
check_cost_from_weight exponent (some w) (v ∷ vs) = check_cost exponent w 0 (v ∷ vs)

unfoldable pub check_total_cost : VoteOptions → EnvelopeType → List ℕ → Option ℕ → Result ⊤
check_total_cost opts et values weight =
    if et.cost_from_weight
    then check_cost_from_weight opts.cost_exponent weight values
    else if ltb 0 opts.max_total_cost
    then check_cost opts.cost_exponent opts.max_total_cost 0 values
    else ok tt

-- The tests of `AddVote` on the ballot.
unfoldable pub check_ballot : VoteOptions → EnvelopeType → List ℕ → Option ℕ → Result ⊤
check_ballot opts et values weight = do
  if ltb opts.max_count (length values) then err max_count_overflow else ok tt
  if et.unique_values then check_unique [] values else ok tt
  if ltb 0 opts.max_value then check_max_value opts.max_value values else ok tt
  check_total_cost opts et values weight

abbrev pub weight_or_one : Option ℕ → ℕ
weight_or_one none = 1
weight_or_one (some w) = w

-- `row[o].Add(row[o], amount)`
unfoldable pub add_cell : ℕ → ℕ → List ℕ → Result (List ℕ)
add_cell o amount [] = err panicked
add_cell zero amount (c ∷ row) = ok ((c + amount) ∷ row)
add_cell (suc o) amount (c ∷ row) = do row' ← add_cell o amount row; ok (c ∷ row')

-- The column and the amount that a value adds to the row of its question.
unfoldable pub column : VoteOptions → ℕ → ℕ
column opts value = if opts.max_value == 0 then 0 else value

unfoldable pub amount : VoteOptions → EnvelopeType → ℕ → ℕ → ℕ
amount opts et weight value =
    if opts.max_value == 0 then value * (if et.cost_from_weight then 1 else weight) else weight

-- The two loops over the questions at the end of `AddVote`.
unfoldable pub add_values :
    VoteOptions → EnvelopeType → ℕ → List ℕ → List (List ℕ) → Result (List (List ℕ))
add_values opts et w [] rows = ok rows
add_values opts et w (v ∷ vs) [] = err panicked
add_values opts et w (v ∷ vs) (row ∷ rows) = do
  row' ← add_cell (column opts v) (amount opts et w v) row
  rows' ← add_values opts et w vs rows
  ok (row' ∷ rows')

need : {A : Type 0} → Option A → Error → Result A
need none e = err e
need (some a) e = ok a

-- `AddVote`. A returned error leaves the tally as it was, and a panic does not return.
unfoldable pub add_vote : List ℕ → Option ℕ → Tally → Result Tally
unfolding need
add_vote values weight r = do
  opts ← need r.vote_opts nil_vote_options
  if not (length r.votes == 0) && not (length r.votes == opts.max_count)
      then err size_mismatch
      else ok tt
  et ← need r.envelope_type nil_envelope_type
  check_ballot opts et values weight
  votes' ←
      add_values opts et (weight_or_one weight) values
        (if length r.votes == 0 then new_empty_votes opts else r.votes)
  ok (record r { votes = votes'; weight = r.weight + weight_or_one weight })

-- A ballot as `ComputeResults` hands it to `AddVote`: the values and the weight.
abbrev pub Ballot : Type 0
Ballot = List ℕ × ℕ

-- An error is logged and the walk goes on; a panic ends it.
unfoldable pub continue_after : Error → Result Tally → Result Tally
continue_after panicked rest = err panicked
continue_after _ rest = rest

-- The walk of `ComputeResults` over the ballots that could be opened: one that `AddVote` refuses is
-- skipped.
unfoldable pub add_votes : List Ballot → Tally → Result Tally
unfolding continue_after
add_votes [] r = ok r
add_votes ((values, w) ∷ bs) r = elim (add_vote values (some w) r) [
  | ok r' ↦ add_votes bs r'
  | err e ↦ continue_after e (add_votes bs r)
]
