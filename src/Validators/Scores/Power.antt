-- ===== src/Validators/Scores/Power.antt =====
-- The power of a validator stays within its bounds.
use vocdoni_node.Base.{
  ℕ, ◌≤◌, ◌≡◌, inl, inr, true, false, Option, none, some, List, [], ◌∷◌, arith, subst,
}
use vocdoni_node.Base.Lists.{length}
use vocdoni_node.Base.Bytes.{Bytes}
use vocdoni_node.Base.Dict.{insert}
use vocdoni_node.Chain.{Validator, State, Result-cases, ok}
use vocdoni_node.Validators.{
  add_validator, set_validator_inactive_since, clear_validator_inactive_since,
  set_validator_score_window, validator_score_window,
}
use vocdoni_node.Validators.Scores.{
  Entry, Formulas, max_power, min_power, next_power, credit_votes, unchanged_entries, reap,
  fresh_window, seed_window, window_score, close_window, scored, score_with, score_one, score_each,
  add_candidate, persist_changed, update_validator_score,
}
use vocdoni_node.Validators.Scores.Capped.{
  AllCapped, EntriesCapped, Capped, insert-Capped, credit_votes-Capped, entries-Capped, reap-Capped,
  evict-Capped,
}

-- A new score keeps the power of a validator that was not evicted within its bounds, where the decay
-- does not raise a power.
pub next_power_bounds :
    (f : Formulas) (new_score score power : ℕ)
    → f.decayed power ≤ power
    → min_power ≤ power
    → power ≤ max_power
    → (min_power ≤ next_power f new_score score power)
      × (next_power f new_score score power ≤ max_power)
unfolding next_power
next_power_bounds f new_score score power d low high = ground (arith, d, low, high)

next_power-top :
    (f : Formulas) (new_score score power : ℕ)
    → f.decayed power ≤ power
    → power ≤ max_power
    → next_power f new_score score power ≤ max_power
unfolding next_power
next_power-top f new_score score power d high = ground (arith, d, high)

-- Every power of the list, or of the tree, is at most the greatest.
seed-Capped :
    (height : ℕ) (v : Validator) (s : State)
    → v.power ≤ max_power
    → Capped s.validators
    → Capped (seed_window height v s).1.validators
unfolding seed_window add_validator clear_validator_inactive_since set_validator_score_window
seed-Capped height v s h c = ground (arith, insert-Capped v.address v s.validators h c)

close-Capped :
    (height : ℕ) (v : Validator) (s : State)
    → v.power ≤ max_power
    → Capped s.validators
    → Capped (close_window height v s).1.validators
      × ((o : Option Validator)
          → (close_window height v s).0 ≡ ok o
          → AllCapped (add_candidate o []))
unfolding close_window add_validator clear_validator_inactive_since set_validator_score_window
    set_validator_inactive_since add_candidate
close-Capped height v s h c =
    (ground (arith, c, insert-Capped v.address v s.validators h c), λ o k. ground (arith, k, h))

scored-top :
    (f : Formulas) (height : ℕ) (v : Validator) (w : ℕ × ℕ)
    → ((n : ℕ) → f.decayed n ≤ n)
    → v.power ≤ max_power
    → (scored f height v w).power ≤ max_power
unfolding scored
scored-top f height v (start, before) d h =
    next_power-top f (window_score f start before height v.votes) v.score v.power (d v.power) h

with-Capped :
    (f : Formulas) (height : ℕ) (v : Validator) (o : Option (ℕ × ℕ)) (s : State)
    → ((n : ℕ) → f.decayed n ≤ n)
    → v.power ≤ max_power
    → Capped s.validators
    → Capped (score_with f height v o s).1.validators
      × ((c : Option Validator)
          → (score_with f height v o s).0 ≡ ok c
          → AllCapped (add_candidate c []))
unfolding score_with add_candidate
with-Capped f height v none s d h c =
    let k = seed-Capped height v s h c in
    elim (Result-cases (seed_window height v s).0) [
      | inl (u, e) ↦ (ground (arith, e, k), λ o m. ground (arith, e, m))
      | inr (u, e) ↦ (ground (arith, e, k), λ o m. absurd (ground (arith, e, m)))
    ]
with-Capped f height v (some w) s d h c =
    close-Capped height (scored f height v w) s (scored-top f height v w d h) c

one-Capped :
    (f : Formulas) (height : ℕ) (v : Validator) (s : State)
    → ((n : ℕ) → f.decayed n ≤ n)
    → v.power ≤ max_power
    → Capped s.validators
    → Capped (score_one f height v s).1.validators
      × ((c : Option Validator)
          → (score_one f height v s).0 ≡ ok c
          → AllCapped (add_candidate c []))
unfolding score_one
one-Capped f height v s d h c =
    with-Capped f height v (fresh_window v (validator_score_window v.address s)) s d h c

joined :
    (o : Option Validator) (rest : List Validator)
    → AllCapped (add_candidate o [])
    → AllCapped rest
    → AllCapped (add_candidate o rest)
unfolding add_candidate
joined none rest a b = b
joined (some v) rest a b = (a.0, b)

each-Capped :
    (f : Formulas) (height : ℕ) (vs : List Entry) (s : State)
    → ((n : ℕ) → f.decayed n ≤ n)
    → EntriesCapped vs
    → Capped s.validators
    → Capped (score_each f height vs s).1.validators
      × ((cs : List Validator) → (score_each f height vs s).0 ≡ ok cs → AllCapped cs)
unfolding score_each
each-Capped f height [] s d e c = (c, λ cs h. ground (arith, h))
each-Capped f height ((v, x) ∷ vs) s d e c =
    let (c', one) = one-Capped f height v s d e.0 c in
    let s' = (score_one f height v s).1 in
    let (c'', more) = each-Capped f height vs s' d e.1 c' in
    elim (Result-cases (score_one f height v s).0) [
      | inr (n, k) ↦ (ground (arith, k, c'), λ cs h. absurd (ground (arith, k, h)))
      | inl (o, k) ↦ elim (Result-cases (score_each f height vs s').0) [
        | inr (n, m) ↦ (ground (arith, k, m, c''), λ cs h. absurd (ground (arith, k, m, h)))
        | inl (rest, m) ↦ (
          ground (arith, k, m, c''),
          λ cs h. subst AllCapped (ground (arith, k, m, h)) (joined o rest (one o k) (more rest m)),
        )
      ]
    ]

persist-Capped :
    (vs : List Entry) (s : State)
    → EntriesCapped vs
    → Capped s.validators
    → Capped (persist_changed vs s).1.validators
unfolding persist_changed add_validator
persist-Capped [] s e c = c
persist-Capped ((v, true) ∷ vs) s e c =
    let s' : State = record s { validators = insert v.address v s.validators } in
    persist-Capped vs s' e.1 (insert-Capped v.address v s.validators e.0 c)
persist-Capped ((v, false) ∷ vs) s e c = persist-Capped vs s e.1 c

-- Where the decay does not raise a power, an update of the scores, done or failed, in a block with any
-- votes and proposer, leaves every validator with a power of at most 1000 if all had one before.
pub update_validator_score-Capped :
    (f : Formulas) (votes : List Bytes) (proposer : Bytes) (s : State)
    → ((n : ℕ) → f.decayed n ≤ n)
    → Capped s.validators
    → Capped (update_validator_score f votes proposer s).1.validators
unfolding update_validator_score
update_validator_score-Capped f votes proposer s d c =
    let vs = credit_votes proposer votes (unchanged_entries s.validators) in
    let e =
      credit_votes-Capped proposer votes (unchanged_entries s.validators)
        (entries-Capped s.validators c) in
    let (c', left) = reap-Capped vs s e c in
    let s' = (reap vs s).1 in
    let height = s.current_height in
    elim (Result-cases (reap vs s).0) [
      | inr (n, k) ↦ ground (arith, k, c')
      | inl (rest, k) ↦
          let persisted = persist-Capped rest s' (left rest k) c' in
          let (c'', candidates) = each-Capped f height rest s' d (left rest k) c' in
          elim (Result-cases (score_each f height rest s').0) [
            | inr (n, m) ↦ ground (arith, k, m, c'', persisted)
            | inl (cs, m) ↦
                let last =
                  evict-Capped height (length rest) cs (score_each f height rest s').1
                    (candidates cs m) c'' in
                ground (arith, k, m, last, persisted)
          ]
    ]
