-- ===== src/Results/Order.antt =====
-- The order of the ballots does not matter to the tally of vochain/results/compute.go.
use mathlib.Core.List.{Permᴰ}
use vocdoni_node.Base.{ℕ, ◌≡◌, ◌∙◌, refl, List, arith}
use vocdoni_node.Chain.{EnvelopeType, VoteOptions, ok}
use vocdoni_node.Results.{Tally, Ballot, add_votes}
use vocdoni_node.Results.Cells.{cell}
use vocdoni_node.Results.Count.{Shaped, SmallBallots, counted, counted_weight, tally_counts}

perm-weight :
    (opts : VoteOptions) (et : EnvelopeType) {bs bs' : List Ballot}
    → Permᴰ bs bs'
    → counted_weight opts et bs ≡ counted_weight opts et bs'
perm-weight opts et Permᴰ.nil = refl
perm-weight opts et (Permᴰ.cons e p) = grind (arith, perm-weight opts et p, e)
perm-weight opts et (Permᴰ.swap e e') = grind (arith, e, e')
perm-weight opts et (Permᴰ.trans p p') = perm-weight opts et p ∙ perm-weight opts et p'

perm-counted :
    (opts : VoteOptions) (et : EnvelopeType) (q o : ℕ) {bs bs' : List Ballot}
    → Permᴰ bs bs'
    → counted opts et bs q o ≡ counted opts et bs' q o
perm-counted opts et q o Permᴰ.nil = refl
perm-counted opts et q o (Permᴰ.cons e p) = grind (arith, perm-counted opts et q o p, e)
perm-counted opts et q o (Permᴰ.swap e e') = grind (arith, e, e')
perm-counted opts et q o (Permᴰ.trans p p') =
    perm-counted opts et q o p ∙ perm-counted opts et q o p'

-- On a tally whose matrix has a row for each question, one at least, and in it a cell for each option
-- from 0 to the greatest value, two walks over the same ballots with values in 32 bits, in any two
-- orders, both succeed, with the same total weight and the same number in every cell.
pub tally_ignores_order :
    (opts : VoteOptions) (et : EnvelopeType) {bs bs' : List Ballot} (r : Tally)
    → Shaped opts et r
    → SmallBallots bs
    → SmallBallots bs'
    → Permᴰ bs bs'
    → (r₁ : Tally) × (r₂ : Tally) × (add_votes bs r ≡ ok r₁)
      × (add_votes bs' r ≡ ok r₂)
      × (r₁.weight ≡ r₂.weight)
      × ((q o : ℕ) → cell r₁.votes q o ≡ cell r₂.votes q o)
tally_ignores_order opts et {bs} {bs'} r sh small small' p =
    let (r₁, all₁) = tally_counts opts et bs r sh small in
    let (r₂, all₂) = tally_counts opts et bs' r sh small' in
    (
      r₁,
      r₂,
      all₁.0,
      all₂.0,
      omega (arith, all₁.2, all₂.2, perm-weight opts et p),
      λ q o. omega (arith, all₁.3 q o, all₂.3 q o, perm-counted opts et q o p),
    )
