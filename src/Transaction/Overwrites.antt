-- ===== src/Transaction/Overwrites.antt =====
-- `checkVoteCanBeCasted` of vochain/transaction/vote_tx.go.
pub mod Bound
use vocdoni_node.Base.{ℕ, Bool, true, false, Option, none, some, leb}
use vocdoni_node.Base.Bytes.{Bytes}
use vocdoni_node.Chain.{Process, StateVote, Exec, pure, raise_if, ◌>>=◌, ◌>>◌, overwrites_reached}
use vocdoni_node.Crypto.{Crypto}
use vocdoni_node.Votes.{find_vote}

-- A missing count is zero.
unfoldable pub overwrites_or_zero : Option ℕ → ℕ
overwrites_or_zero none = 0
overwrites_or_zero (some n) = n

unfoldable pub check_overwrite : Process → Option StateVote → Exec Bool
unfolding overwrites_or_zero
check_overwrite p none = pure false
check_overwrite p (some sv) = do
  raise_if (leb p.vote_options.max_vote_overwrites (overwrites_or_zero sv.overwrite_count))
      overwrites_reached
  pure true

-- Whether a vote that can be cast is an overwrite.
unfoldable pub check_vote_can_be_casted : Crypto → Bytes → Process → Exec Bool
check_vote_can_be_casted crypto nullifier p = do
  found ← find_vote crypto p.process_id nullifier
  check_overwrite p found
