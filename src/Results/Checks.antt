-- ===== src/Results/Checks.antt =====
-- The ballot protocol that `AddVote` enforces, and its tests as the decision of it.
use vocdoni_node.Base.{
  ℕ, ◌+◌, ◌^◌, ◌≤◌, ◌<◌, ◌≡◌, ◌≢◌, ◌↔◌, ◌⊎◌, refl, inl, inr, true, false, some, List, [], ◌∷◌,
  arith,
}
use vocdoni_node.Base.Lists.{length}
use vocdoni_node.Base.Words.{u32_mod}
use vocdoni_node.Chain.{EnvelopeType, VoteOptions, Result-cases, ok}
use vocdoni_node.Results.{
  mem, check_unique, check_max_value, check_cost, check_cost_from_weight, check_total_cost,
  check_ballot,
}

abbrev pub All : (ℕ → Type 0) → List ℕ → Type 0
All P [] = Unit
All P (x ∷ xs) = P x × All P xs

-- No value stands twice.
abbrev pub Distinct : List ℕ → Type 0
Distinct [] = Unit
Distinct (x ∷ xs) = All (λ y. x ≢ y) xs × Distinct xs

abbrev pub cost : ℕ → List ℕ → ℕ
cost e [] = 0
cost e (v ∷ vs) = v ^ e + cost e vs

-- The ballot protocol for a ballot with values in 32 bits.
pub record Protocol (opts : VoteOptions) (et : EnvelopeType) (values : List ℕ) (w : ℕ)
    : Type 0 where
  pub count : length values ≤ opts.max_count
  pub unique : et.unique_values ≡ true → Distinct values
  pub bounded : 0 < opts.max_value → All (λ v. v ≤ opts.max_value) values
  pub paid_weight : et.cost_from_weight ≡ true → cost opts.cost_exponent values ≤ w
  pub paid :
      et.cost_from_weight ≡ false
      → 0 < opts.max_total_cost
      → cost opts.cost_exponent values ≤ opts.max_total_cost

-- None of `seen` is a value, and the values are distinct.
abbrev Fresh : List ℕ → List ℕ → Type 0
Fresh seen [] = Unit
Fresh seen (v ∷ vs) = (mem v seen ≡ false) × Fresh (v ∷ seen) vs

check_unique-Fresh : (seen vs : List ℕ) → (check_unique seen vs ≡ ok tt) ↔ Fresh seen vs
unfolding check_unique
check_unique-Fresh seen [] = ground arith
check_unique-Fresh seen (v ∷ vs) = ground (arith, check_unique-Fresh (v ∷ seen) vs)

abbrev Avoids : List ℕ → List ℕ → Type 0
Avoids seen vs = All (λ v. mem v seen ≡ false) vs

Avoids-cons :
    (x : ℕ) (seen vs : List ℕ) → Avoids (x ∷ seen) vs ↔ (Avoids seen vs × All (λ y. x ≢ y) vs)
unfolding mem
Avoids-cons x seen [] = ground arith
Avoids-cons x seen (v ∷ vs) = ground (arith, Avoids-cons x seen vs)

Fresh-iff : (seen vs : List ℕ) → Fresh seen vs ↔ (Avoids seen vs × Distinct vs)
unfolding mem
Fresh-iff seen [] = ground arith
Fresh-iff seen (v ∷ vs) = ground (arith, Fresh-iff (v ∷ seen) vs, Avoids-cons v seen vs)

Avoids-nil : (vs : List ℕ) → Avoids [] vs
unfolding mem
Avoids-nil [] = tt
Avoids-nil (v ∷ vs) = (refl, Avoids-nil vs)

check_unique_iff : (vs : List ℕ) → (check_unique [] vs ≡ ok tt) ↔ Distinct vs
check_unique_iff vs = ground (arith, check_unique-Fresh [] vs, Fresh-iff [] vs, Avoids-nil vs)

-- Every value fits in 32 bits.
abbrev pub Small : List ℕ → Type 0
Small vs = All (λ v. v < u32_mod) vs

check_max_value_iff :
    (m : ℕ) (vs : List ℕ) → Small vs → (check_max_value m vs ≡ ok tt) ↔ All (λ v. v ≤ m) vs
unfolding check_max_value
check_max_value_iff m [] s = ground arith
check_max_value_iff m (v ∷ vs) s = ground (arith, check_max_value_iff m vs s.1)

check_cost_iff :
    (e m c : ℕ) (vs : List ℕ) → (check_cost e m c vs ≡ ok tt) ↔ ((vs ≡ []) ⊎ (c + cost e vs ≤ m))
unfolding check_cost
check_cost_iff e m c [] = ground arith
check_cost_iff e m c (v ∷ []) = ground arith
check_cost_iff e m c (v ∷ (v' ∷ vs)) = ground (arith, check_cost_iff e m (c + v ^ e) (v' ∷ vs))

cost_bound_iff : (e m : ℕ) (vs : List ℕ) → (check_cost e m 0 vs ≡ ok tt) ↔ (cost e vs ≤ m)
cost_bound_iff e m [] = ground (arith, check_cost_iff e m 0 [])
cost_bound_iff e m (v ∷ vs) = ground (arith, check_cost_iff e m 0 (v ∷ vs))

cost_from_weight_iff :
    (e w : ℕ) (vs : List ℕ) → (check_cost_from_weight e (some w) vs ≡ ok tt) ↔ (cost e vs ≤ w)
unfolding check_cost_from_weight
cost_from_weight_iff e w [] = ground arith
cost_from_weight_iff e w (v ∷ vs) = cost_bound_iff e w (v ∷ vs)

-- The four tests of the protocol.
abbrev Tests : VoteOptions → EnvelopeType → List ℕ → ℕ → Type 0
Tests opts et vs w =
    (length vs ≤ opts.max_count)
    × (et.unique_values ≡ true → check_unique [] vs ≡ ok tt)
    × (0 < opts.max_value → check_max_value opts.max_value vs ≡ ok tt)
    × (check_total_cost opts et vs (some w) ≡ ok tt)

check_ballot-Tests :
    (opts : VoteOptions) (et : EnvelopeType) (vs : List ℕ) (w : ℕ)
    → (check_ballot opts et vs (some w) ≡ ok tt) ↔ Tests opts et vs w
unfolding check_ballot
check_ballot-Tests opts et vs w = elim (Result-cases (check_unique [] vs)) [
  | inl (_, u) ↦ elim (Result-cases (check_max_value opts.max_value vs)) [
    | inl (_, m) ↦ ground (arith, u, m)
    | inr (_, m) ↦ ground (arith, u, m)
  ]
  | inr (_, u) ↦ elim (Result-cases (check_max_value opts.max_value vs)) [
    | inl (_, m) ↦ ground (arith, u, m)
    | inr (_, m) ↦ ground (arith, u, m)
  ]
]

total_cost_iff :
    (opts : VoteOptions) (et : EnvelopeType) (vs : List ℕ) (w : ℕ)
    → (check_total_cost opts et vs (some w) ≡ ok tt) ↔ (
        (et.cost_from_weight ≡ true → cost opts.cost_exponent vs ≤ w)
        × (et.cost_from_weight ≡ false
            → 0 < opts.max_total_cost
            → cost opts.cost_exponent vs ≤ opts.max_total_cost))
unfolding check_total_cost
total_cost_iff opts et vs w = ground (
  arith,
  cost_from_weight_iff opts.cost_exponent w vs,
  cost_bound_iff opts.cost_exponent opts.max_total_cost vs,
)

-- For values that fit in 32 bits and a given weight, the tests of `AddVote` accept a ballot exactly
-- if it obeys the ballot protocol.
pub check_ballot_decides :
    (opts : VoteOptions) (et : EnvelopeType) (vs : List ℕ) (w : ℕ)
    → Small vs
    → (check_ballot opts et vs (some w) ≡ ok tt) ↔ Protocol opts et vs w
check_ballot_decides opts et vs w s =
    let tests = check_ballot-Tests opts et vs w in
    let costs = total_cost_iff opts et vs w in
    let unique = check_unique_iff vs in
    let bound = check_max_value_iff opts.max_value vs s in
    (
      λ h.
          let t = tests.0 h in
          record {
            count = t.0;
            unique = λ u. unique.0 (t.1 u);
            bounded = λ b. bound.0 (t.2 b);
            paid_weight = (costs.0 t.3).0;
            paid = (costs.0 t.3).1;
          },
      λ p. tests.1 (
        p.count,
        λ u. unique.1 (p.unique u),
        λ b. bound.1 (p.bounded b),
        costs.1 (p.paid_weight, p.paid),
      ),
    )
