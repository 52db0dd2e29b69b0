-- ===== src/Validators/Scores/Capped.antt =====
-- Sets and lists of validators whose powers are within the bound, and the steps that keep them so.
use vocdoni_node.Base.{
  ℕ, zero, suc, ◌≤◌, ◌≡◌, refl, inl, inr, List, [], ◌∷◌, arith, ◌==◌, Bool-cases,
}
use vocdoni_node.Base.Lists.{length, take, drop}
use vocdoni_node.Base.Bytes.{Bytes}
use vocdoni_node.Base.Dict.{Dict, insert, erase}
use vocdoni_node.Chain.{Validator, State, Result-cases, ok}
use vocdoni_node.Validators.{
  add_validator, remove_validator, clear_validator_inactive_since, set_validator_score_window,
}
use vocdoni_node.Validators.Scores.{
  Entry, max_power, credit_vote, credit_votes, unchanged_entries, reap, place_candidate,
  sort_candidates, slots, tombstone_each, retain_each, evict,
}

abbrev pub AllCapped : List Validator → Type 0
AllCapped [] = Unit
AllCapped (v ∷ vs) = (v.power ≤ max_power) × AllCapped vs

abbrev pub EntriesCapped : List Entry → Type 0
EntriesCapped [] = Unit
EntriesCapped ((v, _) ∷ vs) = (v.power ≤ max_power) × EntriesCapped vs

abbrev pub Capped : Dict Validator → Type 0
Capped [] = Unit
Capped ((_, v) ∷ vs) = (v.power ≤ max_power) × Capped vs

pub insert-Capped :
    (k : Bytes) (v : Validator) (d : Dict Validator)
    → v.power ≤ max_power
    → Capped d
    → Capped (insert k v d)
unfolding insert
insert-Capped k v [] h c = (h, tt)
insert-Capped k v ((j, w) ∷ d) h c = ground (arith, h, c, insert-Capped k v d)

erase-Capped : (k : Bytes) (d : Dict Validator) → Capped d → Capped (erase k d)
unfolding erase
erase-Capped k [] c = tt
erase-Capped k ((j, w) ∷ d) c = ground (arith, c, erase-Capped k d)

remove-Capped :
    (v : Validator) (s : State) → Capped s.validators → Capped (remove_validator v s).1.validators
unfolding remove_validator
remove-Capped v s c = ground (arith, erase-Capped v.address s.validators c, c)

credit_vote-Capped :
    (p b : Bytes) (vs : List Entry) → EntriesCapped vs → EntriesCapped (credit_vote p b vs)
unfolding credit_vote
credit_vote-Capped p b [] c = tt
credit_vote-Capped p b ((v, x) ∷ vs) c = ground (arith, c, credit_vote-Capped p b vs)

pub credit_votes-Capped :
    (p : Bytes) (bs : List Bytes) (vs : List Entry)
    → EntriesCapped vs
    → EntriesCapped (credit_votes p bs vs)
unfolding credit_votes
credit_votes-Capped p [] vs c = c
credit_votes-Capped p (b ∷ bs) vs c =
    credit_votes-Capped p bs (credit_vote p b vs) (credit_vote-Capped p b vs c)

pub entries-Capped : (d : Dict Validator) → Capped d → EntriesCapped (unchanged_entries d)
unfolding unchanged_entries
entries-Capped [] c = tt
entries-Capped ((k, v) ∷ d) c = (c.0, entries-Capped d c.1)

pub reap-Capped :
    (vs : List Entry) (s : State)
    → EntriesCapped vs
    → Capped s.validators
    → Capped (reap vs s).1.validators
      × ((rest : List Entry) → (reap vs s).0 ≡ ok rest → EntriesCapped rest)
unfolding reap
reap-Capped [] s e c = (c, λ rest h. ground (arith, h))
reap-Capped ((v, x) ∷ vs) s e c = elim (Bool-cases (v.power == 0)) [
  | inr z ↦
      let (d, r) = reap-Capped vs s e.1 c in
      elim (Result-cases (reap vs s).0) [
        | inr (n, k) ↦ (ground (arith, z, k, d), λ rest h. absurd (ground (arith, z, k, h)))
        | inl (l, k) ↦
            let lc = r l k in (ground (arith, z, k, d), λ rest h. ground (arith, z, k, lc, e, h))
      ]
  | inl z ↦
      let s' = (remove_validator v s).1 in
      let c' = remove-Capped v s c in
      let (d, r) = reap-Capped vs s' e.1 c' in
      elim (Result-cases (remove_validator v s).0) [
        | inr (n, k) ↦ (ground (arith, z, k, c'), λ rest h. absurd (ground (arith, z, k, h)))
        | inl (u, k) ↦ elim (Result-cases (reap vs s').0) [
          | inr (n, m) ↦ (ground (arith, z, k, m, d), λ rest h. absurd (ground (arith, z, k, m, h)))
          | inl (l, m) ↦
              let lc = r l m in
              (ground (arith, z, k, m, d), λ rest h. ground (arith, z, k, m, lc, h))
        ]
      ]
]

place-Capped :
    (v : Validator) (vs : List Validator)
    → v.power ≤ max_power
    → AllCapped vs
    → AllCapped (place_candidate v vs)
unfolding place_candidate
place-Capped v [] h c = (h, tt)
place-Capped v (w ∷ ws) h c = ground (arith, h, c, place-Capped v ws)

sort-Capped : (vs : List Validator) → AllCapped vs → AllCapped (sort_candidates vs)
unfolding sort_candidates
sort-Capped [] c = tt
sort-Capped (v ∷ vs) c = place-Capped v (sort_candidates vs) c.0 (sort-Capped vs c.1)

take-Capped : (n : ℕ) (vs : List Validator) → AllCapped vs → AllCapped (take n vs)
take-Capped zero vs c = tt
take-Capped (suc n) [] c = tt
take-Capped (suc n) (v ∷ vs) c = (c.0, take-Capped n vs c.1)

drop-Capped : (n : ℕ) (vs : List Validator) → AllCapped vs → AllCapped (drop n vs)
drop-Capped zero vs c = c
drop-Capped (suc n) [] c = tt
drop-Capped (suc n) (v ∷ vs) c = drop-Capped n vs c.1

tombstone-Capped :
    (vs : List Validator) (s : State)
    → Capped s.validators
    → ((tombstone_each vs s).0 ≡ ok tt) × Capped (tombstone_each vs s).1.validators
unfolding tombstone_each add_validator clear_validator_inactive_since
tombstone-Capped [] s c = (refl, c)
tombstone-Capped (v ∷ vs) s c =
    let dead : Validator = record v { power = 0 } in
    let s' : State = record s {
      inactive_since = erase v.address s.inactive_since;
      validators = insert v.address dead s.validators;
    } in
    tombstone-Capped vs s' (insert-Capped v.address dead s.validators (omega arith) c)

retain-Capped :
    (height : ℕ) (vs : List Validator) (s : State)
    → AllCapped vs
    → Capped s.validators
    → Capped (retain_each height vs s).1.validators
unfolding retain_each add_validator set_validator_score_window
retain-Capped height [] s a c = c
retain-Capped height (v ∷ vs) s a c =
    let s' : State = record s {
      score_windows = insert v.address (height, v.votes) s.score_windows;
      validators = insert v.address v s.validators;
    } in
    retain-Capped height vs s' a.1 (insert-Capped v.address v s.validators a.0 c)

pub evict-Capped :
    (height count : ℕ) (vs : List Validator) (s : State)
    → AllCapped vs
    → Capped s.validators
    → Capped (evict height count vs s).1.validators
unfolding evict
evict-Capped height count vs s a c =
    let n = slots (length vs) count in
    let sorted = sort-Capped vs a in
    let gone = take n (sort_candidates vs) in
    let kept = drop n (sort_candidates vs) in
    let (fine, c') = tombstone-Capped gone s c in
    let last =
      retain-Capped height kept (tombstone_each gone s).1
        (drop-Capped n (sort_candidates vs) sorted) c' in
    ground (arith, fine, last)
