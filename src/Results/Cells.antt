-- ===== src/Results/Cells.antt =====
-- What `AddVote` adds to each cell of the matrix of results.
use vocdoni_node.Base.{
  ℕ, zero, suc, ◌+◌, ◌*◌, ◌<◌, ◌≤◌, ◌≡◌, refl, List, [], ◌∷◌, arith, if◌then◌else◌, ◌==◌,
}
use vocdoni_node.Base.Lists.{length, get_or}
use vocdoni_node.Chain.{EnvelopeType, VoteOptions, ok}
use vocdoni_node.Results.{add_cell, add_values, column, amount}
use vocdoni_node.Results.Checks.{All}

-- The cell of question `q` and option `o`.
abbrev pub cell : List (List ℕ) → ℕ → ℕ → ℕ
cell rows q o = get_or (get_or rows q []) o 0

-- Every row has `n` cells.
abbrev pub Rows : ℕ → List (List ℕ) → Type 0
Rows n [] = Unit
Rows n (row ∷ rows) = (length row ≡ n) × Rows n rows

-- What one value counts for an option: the weight for its own option, or, where no greatest value is
-- set, the value itself for the first option, times the weight unless the weight is spent as cost.
abbrev pub value_credit : VoteOptions → EnvelopeType → ℕ → ℕ → ℕ → ℕ
value_credit opts et w v o =
    if opts.max_value == 0
    then (if o == 0 then (if et.cost_from_weight then v else v * w) else 0)
    else (if v == o then w else 0)

-- What the values of a ballot add to a cell.
abbrev pub credit : VoteOptions → EnvelopeType → ℕ → List ℕ → ℕ → ℕ → ℕ
credit opts et w [] q o = 0
credit opts et w (v ∷ vs) zero o = value_credit opts et w v o
credit opts et w (v ∷ vs) (suc q) o = credit opts et w vs q o

-- The row after an addition.
abbrev RowAdded : ℕ → ℕ → List ℕ → List ℕ → Type 0
RowAdded i a row row' =
    (length row' ≡ length row)
    × ((o : ℕ) → get_or row' o 0 ≡ get_or row o 0 + (if i == o then a else 0))

row_head : (a c : ℕ) (row : List ℕ) → RowAdded 0 a (c ∷ row) ((c + a) ∷ row)
row_head a c row = (refl, λ o. at o)
  where
    at : (o : ℕ) → get_or ((c + a) ∷ row) o 0 ≡ get_or (c ∷ row) o 0 + (if 0 == o then a else 0)
    at zero = ground arith
    at (suc o) = ground arith

row_tail :
    (i a c : ℕ) (row row' : List ℕ)
    → RowAdded i a row row'
    → RowAdded (suc i) a (c ∷ row) (c ∷ row')
row_tail i a c row row' h = (ground (arith, h.0), λ o. at o)
  where
    at : (o : ℕ) → get_or (c ∷ row') o 0 ≡ get_or (c ∷ row) o 0 + (if suc i == o then a else 0)
    at zero = ground arith
    at (suc o) = ground (arith, h.1 o)

add_cell_adds :
    (i a : ℕ) (row : List ℕ)
    → i < length row
    → (row' : List ℕ) × (add_cell i a row ≡ ok row') × RowAdded i a row row'
unfolding add_cell
add_cell_adds i a [] h = absurd (omega (arith, h))
add_cell_adds zero a (c ∷ row) h = ((c + a) ∷ row, refl, row_head a c row)
add_cell_adds (suc i) a (c ∷ row) h =
    let (row', e, k) = add_cell_adds i a row (omega (arith, h)) in
    (c ∷ row', ground (arith, e), row_tail i a c row row' k)

-- The matrix after the values of a ballot.
abbrev pub RowsAdded :
    VoteOptions → EnvelopeType → ℕ → List ℕ → ℕ → List (List ℕ) → List (List ℕ) → Type 0
RowsAdded opts et w vs n rows rows' =
    (length rows' ≡ length rows)
    × Rows n rows'
    × ((q o : ℕ) → cell rows' q o ≡ cell rows q o + credit opts et w vs q o)

rows_cons :
    (opts : VoteOptions) (et : EnvelopeType) (w v : ℕ) (vs : List ℕ) (n : ℕ) (row row' : List ℕ)
    (rows rows' : List (List ℕ))
    → length row ≡ n
    → RowAdded (column opts v) (amount opts et w v) row row'
    → RowsAdded opts et w vs n rows rows'
    → RowsAdded opts et w (v ∷ vs) n (row ∷ rows) (row' ∷ rows')
unfolding column amount
rows_cons opts et w v vs n row row' rows rows' l h k =
    (ground (arith, k.0), (ground (arith, h.0, l), k.1), λ q o. at q o)
  where
    at : (q o : ℕ) → cell (row' ∷ rows') q o ≡ cell (row ∷ rows) q o + credit opts et w (v ∷ vs) q o
    at zero o = ground (arith, h.1 o)
    at (suc q) o = k.2 q o

-- Values whose columns exist are all added, each in its row.
pub add_values_adds :
    (opts : VoteOptions) (et : EnvelopeType) (w : ℕ) (vs : List ℕ) (n : ℕ) (rows : List (List ℕ))
    → length vs ≤ length rows
    → Rows n rows
    → All (λ v. column opts v < n) vs
    → (rows' : List (List ℕ)) × (add_values opts et w vs rows ≡ ok rows')
      × RowsAdded opts et w vs n rows rows'
unfolding add_values
add_values_adds opts et w [] n rows l r c = (rows, refl, (refl, r, λ q o. omega arith))
add_values_adds opts et w (v ∷ vs) n [] l r c = absurd (omega (arith, l))
add_values_adds opts et w (v ∷ vs) n (row ∷ rows) l r c =
    let (row', e, k) =
      add_cell_adds (column opts v) (amount opts et w v) row (ground (arith, r, c)) in
    let (rows', e', k') = add_values_adds opts et w vs n rows (omega (arith, l)) r.1 c.1 in
    (row' ∷ rows', ground (arith, e, e'), rows_cons opts et w v vs n row row' rows rows' r.0 k k')
