-- ===== src/Validators/Scores.antt =====
-- vochain/ist/validators.go: the score and the power of the validators, and their eviction.
pub mod Capped
pub mod Power
use vocdoni_node.Base.{
  ℕ, suc, ◌+◌, ◌-◌, ◌%◌, ◌^◌, Bool, true, false, not, ◌||◌, ◌&&◌, Option, none, some, List, [], ◌∷◌,
  max, min, ltb, leb, ◌==◌, if◌then◌else◌,
}
use vocdoni_node.Base.Lists.{length, take, drop}
use vocdoni_node.Base.Bytes.{Bytes, bytes_equal, before}
use vocdoni_node.Base.Words.{add64}
use vocdoni_node.Base.Dict.{Dict}
use vocdoni_node.Chain.{Address, Validator, State, Exec, ⊤, pure, gets, when, ◌>>=◌, ◌>>◌}
use vocdoni_node.ProcessId.{hex}
use vocdoni_node.Validators.{
  add_validator, remove_validator, set_validator_inactive_since, validator_inactive_since,
  clear_validator_inactive_since, set_validator_score_window, validator_score_window,
}

abbrev pub max_power : ℕ
max_power = 1000

abbrev pub min_power : ℕ
min_power = 1

abbrev pub update_power_period : ℕ
update_power_period = 10

abbrev pub positive_score_threshold : ℕ
positive_score_threshold = 80

abbrev pub power_increment : ℕ
power_increment = 10

abbrev pub inactive_grace_blocks : ℕ
inactive_grace_blocks = 150000

-- The two formulas in floating point: the score of a number of votes in a number of blocks, in 32
-- bits, and a power less ten per cent, in 64 bits.
pub record Formulas : Type 0 where
  pub score : ℕ → ℕ → ℕ
  pub decayed : ℕ → ℕ

-- A validator with whether this block changed it.
abbrev pub Entry : Type 0
Entry = Validator × Bool

abbrev pub attended : Bytes → Validator → Validator
attended proposer v = record v {
  votes = add64 v.votes 1;
  proposals = if bytes_equal proposer v.validator_address then add64 v.proposals 1 else v.proposals;
}

-- One vote goes to the validator with that address, if there is one.
unfoldable pub credit_vote : Bytes → Bytes → List Entry → List Entry
credit_vote proposer vote [] = []
credit_vote proposer vote ((v, changed) ∷ vs) =
    let rest = credit_vote proposer vote vs in
    if bytes_equal v.validator_address vote
    then (attended proposer v, true) ∷ vs
    else (v, changed) ∷ rest

unfoldable pub credit_votes : Bytes → List Bytes → List Entry → List Entry
unfolding credit_vote
credit_votes proposer [] vs = vs
credit_votes proposer (vote ∷ votes) vs = credit_votes proposer votes (credit_vote proposer vote vs)

unfoldable pub unchanged_entries : Dict Validator → List Entry
unchanged_entries [] = []
unchanged_entries ((_, v) ∷ vs) = (v, false) ∷ unchanged_entries vs

-- Pass 1: the validators of power 0 go.
unfoldable pub reap : List Entry → Exec (List Entry)
reap [] = pure []
reap ((v, changed) ∷ vs) = do
  when (v.power == 0) (remove_validator v)
  rest ← reap vs
  pure (if v.power == 0 then rest else (v, changed) ∷ rest)

-- The power after a new score: it rises, falls, or stays.
unfoldable pub next_power : Formulas → ℕ → ℕ → ℕ → ℕ
next_power f new_score score power =
    if ltb score new_score || (leb positive_score_threshold new_score && score == new_score)
    then min (add64 power power_increment) max_power
    else if ltb new_score score || new_score == 0
    then max (f.decayed power) min_power
    else power

-- The votes and the blocks of the window that closes, never below zero.
unfoldable pub window_score : Formulas → ℕ → ℕ → ℕ → ℕ → ℕ
window_score f start votes_at_start height votes =
    f.score (if leb votes_at_start votes then votes - votes_at_start else 0)
      (if ltb start height then height - start else update_power_period)

-- A window from before the validator joined does not count.
unfoldable pub fresh_window : Validator → Option (ℕ × ℕ) → Option (ℕ × ℕ)
fresh_window v none = none
fresh_window v (some (start, votes)) =
    if ltb start (v.height % 2 ^ 32) then none else some (start, votes)

abbrev is_marked : Option ℕ → Bool
is_marked none = false
is_marked (some _) = true

-- The first window of a validator.
unfoldable pub seed_window : ℕ → Validator → Exec ⊤
seed_window height v = do
  set_validator_score_window v.address height v.votes
  since ← gets (validator_inactive_since v.address)
  when (is_marked since) (clear_validator_inactive_since v.address)
  add_validator v

unfoldable pub past_grace : ℕ → Option ℕ → Bool
past_grace height none = false
past_grace height (some since) = leb since height && leb inactive_grace_blocks (height - since)

-- The end of a window: an eviction candidate is given back, any other validator is written.
unfoldable pub close_window : ℕ → Validator → Exec (Option Validator)
unfolding past_grace
close_window height v = do
  since ← gets (validator_inactive_since v.address)
  when (leb v.power min_power && not (is_marked since))
      (set_validator_inactive_since v.address height)
  when (ltb min_power v.power && is_marked since) (clear_validator_inactive_since v.address)
  if leb v.power min_power && past_grace height since
      then pure (some v)
      else (do set_validator_score_window v.address height v.votes; add_validator v; pure none)

unfoldable pub scored : Formulas → ℕ → Validator → ℕ × ℕ → Validator
unfolding next_power window_score
scored f height v (start, votes_at_start) =
    let new_score = window_score f start votes_at_start height v.votes in
    record v { power = next_power f new_score v.score v.power; score = new_score }

unfoldable pub score_with : Formulas → ℕ → Validator → Option (ℕ × ℕ) → Exec (Option Validator)
unfolding seed_window close_window scored
score_with f height v none = do seed_window height v; pure none
score_with f height v (some w) = close_window height (scored f height v w)

-- Pass 2 for one validator.
unfoldable pub score_one : Formulas → ℕ → Validator → Exec (Option Validator)
unfolding fresh_window score_with
score_one f height v = do
  window ← gets (validator_score_window v.address)
  score_with f height v (fresh_window v window)

unfoldable pub add_candidate : Option Validator → List Validator → List Validator
add_candidate none vs = vs
add_candidate (some v) vs = v ∷ vs

-- Pass 2: the candidates for eviction.
unfoldable pub score_each : Formulas → ℕ → List Entry → Exec (List Validator)
unfolding score_one add_candidate
score_each f height [] = pure []
score_each f height ((v, _) ∷ vs) = do
  candidate ← score_one f height v
  rest ← score_each f height vs
  pure (add_candidate candidate rest)

unfoldable pub persist_changed : List Entry → Exec ⊤
persist_changed [] = pure tt
persist_changed ((v, changed) ∷ vs) = do when changed (add_validator v); persist_changed vs

-- The candidates by the hexadecimal text of their addresses.
unfoldable pub place_candidate : Validator → List Validator → List Validator
place_candidate v [] = v ∷ []
place_candidate v (w ∷ ws) =
    let rest = place_candidate v ws in
    if before (hex v.address) (hex w.address) then v ∷ (w ∷ ws) else w ∷ rest

unfoldable pub sort_candidates : List Validator → List Validator
unfolding place_candidate
sort_candidates [] = []
sort_candidates (v ∷ vs) = place_candidate v (sort_candidates vs)

-- How many candidates go: three validators stay.
unfoldable pub slots : ℕ → ℕ → ℕ
slots candidates validators = min candidates (validators - 3)

unfoldable pub tombstone_each : List Validator → Exec ⊤
tombstone_each [] = pure tt
tombstone_each (v ∷ vs) = do
  clear_validator_inactive_since v.address
  add_validator (record v { power = 0 })
  tombstone_each vs

unfoldable pub retain_each : ℕ → List Validator → Exec ⊤
retain_each height [] = pure tt
retain_each height (v ∷ vs) = do
  set_validator_score_window v.address height v.votes
  add_validator v
  retain_each height vs

-- Pass 3
unfoldable pub evict : ℕ → ℕ → List Validator → Exec ⊤
unfolding slots sort_candidates tombstone_each retain_each
evict height count candidates = do
  tombstone_each (take (slots (length candidates) count) (sort_candidates candidates))
  retain_each height (drop (slots (length candidates) count) (sort_candidates candidates))

-- `updateValidatorScore`; the map of the validators is walked in the order of the tree.
unfoldable pub update_validator_score : Formulas → List Bytes → Bytes → Exec ⊤
unfolding unchanged_entries credit_votes reap score_each persist_changed evict
update_validator_score f votes proposer = do
  found ← gets (λ s. s.validators)
  height ← gets (λ s. s.current_height)
  vs ← reap (credit_votes proposer votes (unchanged_entries found))
  if height % update_power_period == 0
      then (do candidates ← score_each f height vs; evict height (length vs) candidates)
      else persist_changed vs
