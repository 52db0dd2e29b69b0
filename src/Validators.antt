-- ===== src/Validators.antt =====
-- vochain/state/validators.go: the validators, with the two markers that the scores keep for each.
pub mod Scores
use vocdoni_node.Base.{ℕ, Bool, true, false, Option, none, some, ◌==◌, if◌then◌else◌}
use vocdoni_node.Base.Bytes.{Bytes}
use vocdoni_node.Base.Dict.{lookup, insert, erase}
use vocdoni_node.Chain.{
  Address, Validator, State, Exec, ⊤, modify, gets, or_raise, ◌>>=◌, ◌>>◌, validator_not_found,
}

-- `AddValidator`
unfoldable pub add_validator : Validator → Exec ⊤
add_validator v = modify (λ s. record s { validators = insert v.address v s.validators })

active : Option Validator → Option Validator
active none = none
active (some v) = if v.power == 0 then none else some v

-- `Validator`: a validator of power 0 is none.
unfoldable pub find_validator : Address → State → Option Validator
unfolding active
find_validator address s = active (lookup address s.validators)

-- `RemoveValidator`, with its two markers.
unfoldable pub remove_validator : Validator → Exec ⊤
remove_validator v = do
  found ← gets (λ s. lookup v.address s.validators)
  or_raise found validator_not_found
  modify (λ s. record s {
    validators = erase v.address s.validators;
    inactive_since = erase v.address s.inactive_since;
    score_windows = erase v.address s.score_windows;
  })

-- `SetValidatorInactiveSince`, `ValidatorInactiveSince` and `ClearValidatorInactiveSince`
unfoldable pub set_validator_inactive_since : Address → ℕ → Exec ⊤
set_validator_inactive_since address height =
    modify (λ s. record s { inactive_since = insert address height s.inactive_since })

unfoldable pub validator_inactive_since : Address → State → Option ℕ
validator_inactive_since address s = lookup address s.inactive_since

unfoldable pub clear_validator_inactive_since : Address → Exec ⊤
clear_validator_inactive_since address =
    modify (λ s. record s { inactive_since = erase address s.inactive_since })

-- `SetValidatorScoreWindow` and `ValidatorScoreWindow`
unfoldable pub set_validator_score_window : Address → ℕ → ℕ → Exec ⊤
set_validator_score_window address height votes =
    modify (λ s. record s { score_windows = insert address (height, votes) s.score_windows })

unfoldable pub validator_score_window : Address → State → Option (ℕ × ℕ)
validator_score_window address s = lookup address s.score_windows
