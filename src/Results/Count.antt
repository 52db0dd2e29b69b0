-- ===== src/Results/Count.antt =====
-- The tally of vochain/results/compute.go against an independent count of the ballots.
use vocdoni_node.Base.{
  ℕ, zero, suc, ◌+◌, ◌^◌, ◌<◌, ◌≤◌, ◌≡◌, ◌≢◌, ◌∙◌, refl, ap, inl, inr, Bool, true, false, some,
  List, [], ◌∷◌, arith, if◌then◌else◌,
}
use vocdoni_node.Base.Lists.{length, replicate, length-replicate}
use vocdoni_node.Base.Words.{u32_mod}
use vocdoni_node.Chain.{EnvelopeType, VoteOptions, Result, Result-cases, Error, ok, err, panicked}
use vocdoni_node.Results.{
  Tally, Ballot, new_empty_votes, check_unique, check_max_value, check_cost, check_cost_from_weight,
  check_total_cost, check_ballot, column, add_vote, add_votes, continue_after,
}
use vocdoni_node.Results.Checks.{All, Small, check_ballot_decides}
use vocdoni_node.Results.Cells.{cell, Rows, credit, add_values_adds}

-- A tally whose matrix has the size that its options ask for, in 32 bits.
pub record Shaped (opts : VoteOptions) (et : EnvelopeType) (r : Tally) : Type 0 where
  pub opts_is : r.vote_opts ≡ some opts
  pub type_is : r.envelope_type ≡ some et
  pub questions : length r.votes ≡ opts.max_count
  pub some_question : 0 < opts.max_count
  pub options : Rows (suc opts.max_value) r.votes

abbrev pub is_ok {ℓ} : {A : Type ℓ} → Result A → Bool
is_ok (ok a) = true
is_ok (err e) = false

-- Whether the tests of the ballot protocol accept a ballot.
abbrev pub accepted : VoteOptions → EnvelopeType → Ballot → Bool
accepted opts et (vs, w) = is_ok (check_ballot opts et vs (some w))

-- The weight of the accepted ballots, and what they add to a cell.
abbrev pub counted_weight : VoteOptions → EnvelopeType → List Ballot → ℕ
counted_weight opts et [] = 0
counted_weight opts et (b ∷ bs) =
    (if accepted opts et b then b.1 else 0) + counted_weight opts et bs

abbrev pub counted : VoteOptions → EnvelopeType → List Ballot → ℕ → ℕ → ℕ
counted opts et [] q o = 0
counted opts et (b ∷ bs) q o =
    (if accepted opts et b then credit opts et b.1 b.0 q o else 0) + counted opts et bs q o

abbrev pub SmallBallots : List Ballot → Type 0
SmallBallots [] = Unit
SmallBallots (b ∷ bs) = Small b.0 × SmallBallots bs

columns_exist :
    (opts : VoteOptions) (vs : List ℕ)
    → (0 < opts.max_value → All (λ v. v ≤ opts.max_value) vs)
    → All (λ v. column opts v < suc opts.max_value) vs
unfolding column
columns_exist opts [] h = tt
columns_exist opts (v ∷ vs) h = ground (arith, columns_exist opts vs)

-- The tally after an accepted ballot.
abbrev CountedIn : VoteOptions → EnvelopeType → List ℕ → ℕ → Tally → Tally → Type 0
CountedIn opts et vs w r r' =
    Shaped opts et r'
    × (r'.weight ≡ r.weight + w)
    × ((q o : ℕ) → cell r'.votes q o ≡ cell r.votes q o + credit opts et w vs q o)

pub add_vote-accepted :
    (opts : VoteOptions) (et : EnvelopeType) (vs : List ℕ) (w : ℕ) (r : Tally)
    → Shaped opts et r
    → Small vs
    → check_ballot opts et vs (some w) ≡ ok tt
    → (r' : Tally) × (add_vote vs (some w) r ≡ ok r') × CountedIn opts et vs w r r'
unfolding add_vote
add_vote-accepted opts et vs w r sh small h =
    let p = (check_ballot_decides opts et vs w small).0 h in
    let (rows', e, k) =
      add_values_adds opts et w vs (suc opts.max_value) r.votes
        (ground (arith, sh.questions, p.count)) sh.options (columns_exist opts vs p.bounded) in
    (
      record r { votes = rows'; weight = r.weight + w },
      ground (arith, sh.opts_is, sh.type_is, sh.questions, sh.some_question, h, e),
      (
        record {
          opts_is = sh.opts_is;
          type_is = sh.type_is;
          questions = k.0 ∙ sh.questions;
          some_question = sh.some_question;
          options = k.1;
        },
        refl,
        k.2,
      ),
    )

add_vote-refused :
    (opts : VoteOptions) (et : EnvelopeType) (vs : List ℕ) (w : ℕ) (r : Tally)
    → Shaped opts et r
    → (e : Error) → check_ballot opts et vs (some w) ≡ err e
    → add_vote vs (some w) r ≡ err e
unfolding add_vote
add_vote-refused opts et vs w r sh e h =
    ground (arith, sh.opts_is, sh.type_is, sh.questions, sh.some_question, h)

check_unique-calm : (seen vs : List ℕ) → check_unique seen vs ≢ err panicked
unfolding check_unique
check_unique-calm seen [] h = ground arith
check_unique-calm seen (v ∷ vs) h = ground (arith, check_unique-calm (v ∷ seen) vs)

check_max_value-calm : (m : ℕ) (vs : List ℕ) → check_max_value m vs ≢ err panicked
unfolding check_max_value
check_max_value-calm m [] h = ground arith
check_max_value-calm m (v ∷ vs) h = ground (arith, check_max_value-calm m vs)

check_cost-calm : (e m c : ℕ) (vs : List ℕ) → check_cost e m c vs ≢ err panicked
unfolding check_cost
check_cost-calm e m c [] h = ground arith
check_cost-calm e m c (v ∷ vs) h = ground (arith, check_cost-calm e m (c + v ^ e) vs)

check_cost_from_weight-calm :
    (e w : ℕ) (vs : List ℕ) → check_cost_from_weight e (some w) vs ≢ err panicked
unfolding check_cost_from_weight
check_cost_from_weight-calm e w [] h = ground arith
check_cost_from_weight-calm e w (v ∷ vs) h = ground (arith, check_cost-calm e w 0 (v ∷ vs))

check_ballot-calm :
    (opts : VoteOptions) (et : EnvelopeType) (vs : List ℕ) (w : ℕ)
    → check_ballot opts et vs (some w) ≢ err panicked
unfolding check_ballot check_total_cost
check_ballot-calm opts et vs w h = ground (
  arith,
  check_unique-calm [] vs,
  check_max_value-calm opts.max_value vs,
  check_cost_from_weight-calm opts.cost_exponent w vs,
  check_cost-calm opts.cost_exponent opts.max_total_cost 0 vs,
)

-- What the walk over the ballots does to a tally.
abbrev pub CountsAll : VoteOptions → EnvelopeType → List Ballot → Tally → Tally → Type 0
CountsAll opts et bs r r' =
    (add_votes bs r ≡ ok r')
    × Shaped opts et r'
    × (r'.weight ≡ r.weight + counted_weight opts et bs)
    × ((q o : ℕ) → cell r'.votes q o ≡ cell r.votes q o + counted opts et bs q o)

count_accepted :
    (opts : VoteOptions) (et : EnvelopeType) (vs : List ℕ) (w : ℕ) (bs : List Ballot)
    (r r₁ r₂ : Tally)
    → check_ballot opts et vs (some w) ≡ ok tt
    → add_vote vs (some w) r ≡ ok r₁
    → CountedIn opts et vs w r r₁
    → CountsAll opts et bs r₁ r₂
    → CountsAll opts et ((vs, w) ∷ bs) r r₂
unfolding add_votes
count_accepted opts et vs w bs r r₁ r₂ h e k all = (
  ground (arith, e, all.0),
  all.1,
  ground (arith, h, k.1, all.2),
  λ q o. ground (arith, h, k.2 q o, all.3 q o),
)

continue_calm : (e : Error) (rest : Result Tally) → e ≢ panicked → continue_after e rest ≡ rest
unfolding continue_after
continue_calm panicked rest h = absurd (h refl)
continue_calm _ rest h = refl

-- A ballot that is refused without a panic is skipped.
skipped :
    (vs : List ℕ) (w : ℕ) (bs : List Ballot) (r : Tally) (e : Error)
    → e ≢ panicked
    → add_vote vs (some w) r ≡ err e
    → add_votes ((vs, w) ∷ bs) r ≡ add_votes bs r
unfolding add_votes
skipped vs w bs r e calm h = rw (h, add_votes) (continue_calm e (add_votes bs r) calm)

count_refused :
    (opts : VoteOptions) (et : EnvelopeType) (vs : List ℕ) (w : ℕ) (bs : List Ballot) (r r₂ : Tally)
    (e : Error)
    → check_ballot opts et vs (some w) ≡ err e
    → add_vote vs (some w) r ≡ err e
    → CountsAll opts et bs r r₂
    → CountsAll opts et ((vs, w) ∷ bs) r r₂
count_refused opts et vs w bs r r₂ e h h' all =
    let calm : e ≢ panicked = λ k. check_ballot-calm opts et vs w (h ∙ ap err k) in
    (
      skipped vs w bs r e calm h' ∙ all.0,
      all.1,
      ground (arith, h, all.2),
      λ q o. ground (arith, h, all.3 q o),
    )

-- On a tally whose matrix has a row for each question, one at least, and in it a cell for each option
-- from 0 to the greatest value, the walk over ballots with values in 32 bits never fails: it ends in a
-- matrix of the same size, with the weight of the accepted ballots added to the total, and in each
-- cell what those ballots count for that question and option. `NewEmptyVotes` makes such a matrix
-- where the number of options fits in 32 bits, not for the greatest value 2^32 - 1.
pub tally_counts :
    (opts : VoteOptions) (et : EnvelopeType) (bs : List Ballot) (r : Tally)
    → Shaped opts et r
    → SmallBallots bs
    → (r' : Tally) × CountsAll opts et bs r r'
unfolding add_votes
tally_counts opts et [] r sh small = (r, (refl, sh, omega arith, λ q o. omega arith))
tally_counts opts et ((vs, w) ∷ bs) r sh small =
    elim (Result-cases (check_ballot opts et vs (some w))) [
      | inl (tt, h) ↦
          let (r₁, e, k) = add_vote-accepted opts et vs w r sh small.0 h in
          let (r₂, all) = tally_counts opts et bs r₁ k.0 small.1 in
          (r₂, count_accepted opts et vs w bs r r₁ r₂ h e k all)
      | inr (e, h) ↦
          let (r₂, all) = tally_counts opts et bs r sh small.1 in
          (r₂, count_refused opts et vs w bs r r₂ e h (add_vote-refused opts et vs w r sh e h) all)
    ]

zero_rows : (n m : ℕ) → Rows m (replicate n (replicate m 0))
zero_rows zero m = tt
zero_rows (suc n) m = (length-replicate m 0, zero_rows n m)

-- `NewEmptyVotes` gives a matrix with one row per question and one cell per option from 0 to the
-- greatest value, where there is a question and the number of options fits in 32 bits.
pub new_empty_votes-Shaped :
    (opts : VoteOptions) (et : EnvelopeType) (height : ℕ)
    → 0 < opts.max_count
    → suc opts.max_value < u32_mod
    → Shaped opts et (record {
      votes = new_empty_votes opts;
      weight = 0;
      envelope_type = some et;
      vote_opts = some opts;
      block_height = height;
    })
unfolding new_empty_votes
new_empty_votes-Shaped opts et height h k = record {
  opts_is = refl;
  type_is = refl;
  questions =
      ground (arith, length-replicate opts.max_count (replicate {A = ℕ} (suc opts.max_value) 0));
  some_question = h;
  options = ground (arith, zero_rows opts.max_count (suc opts.max_value));
}
