-- ===== src/Transaction/Overwrites/Bound.antt =====
-- The limit on overwrites holds over any sequence of votes.
use vocdoni_node.Base.{
  suc, ◌≤◌, ◌<◌, ◌≡◌, ap, sym, ◌∙◌, inl, inr, Bool, Option, none, some, List, [], ◌∷◌, arith,
}
use vocdoni_node.Base.Bytes.{Bytes}
use vocdoni_node.Base.Words.{u32_mod}
use vocdoni_node.Base.Dict.{Dict, lookup}
use vocdoni_node.Chain.{Process, State, StateVote, Result, Result-cases, ok, err}
use vocdoni_node.Crypto.{Crypto}
use vocdoni_node.Votes.{Vote, vote_id, find_vote, merged, add_vote}
use vocdoni_node.Votes.Overwrite.{
  stored, in_tree, times, OfVoter, one_more, times-merged, still_there,
}
use vocdoni_node.Transaction.Overwrites.{check_overwrite, check_vote_can_be_casted}

-- A vote is added only if the check lets it.
abbrev pub if_ok : Result Bool → State → State → State
if_ok (ok b) s' s = s'
if_ok (err e) s' s = s

abbrev pub cast_checked : Crypto → Process → Vote → State → State
cast_checked crypto p v s =
    if_ok (check_vote_can_be_casted crypto v.nullifier p s).0 (add_vote crypto v s).1 s

abbrev pub cast_all_checked : Crypto → Process → List Vote → State → State
cast_all_checked crypto p [] s = s
cast_all_checked crypto p (v ∷ vs) s = cast_all_checked crypto p vs (cast_checked crypto p v s)

check_overwrite-times :
    (p : Process) (old : Option StateVote) (s : State) (b : Bool)
    → (check_overwrite p old s).0 ≡ ok b
    → times old ≤ p.vote_options.max_vote_overwrites
unfolding check_overwrite
check_overwrite-times p none s b h = omega arith
check_overwrite-times p (some sv) s b h = ground arith

check-times :
    (crypto : Crypto) (p : Process) (nullifier vid : Bytes) (s : State) (tree : Dict StateVote)
    (b : Bool)
    → vote_id crypto p.process_id nullifier ≡ ok vid
    → lookup p.process_id s.votes ≡ some tree
    → (check_vote_can_be_casted crypto nullifier p s).0 ≡ ok b
    → times (lookup vid tree) ≤ p.vote_options.max_vote_overwrites
unfolding check_vote_can_be_casted find_vote
check-times crypto p nullifier vid s tree b i h k =
    check_overwrite-times p (lookup vid tree) s b (ground (arith, i, h, k))

cast_step :
    (crypto : Crypto) (p : Process) (nullifier vid : Bytes) (v : Vote) (s : State)
    (tree : Dict StateVote)
    → vote_id crypto p.process_id nullifier ≡ ok vid
    → v.process_id ≡ p.process_id
    → v.nullifier ≡ nullifier
    → lookup p.process_id s.votes ≡ some tree
    → times (lookup vid tree) ≤ suc p.vote_options.max_vote_overwrites
    → suc p.vote_options.max_vote_overwrites < u32_mod
    → (tree' : Dict StateVote) × (lookup p.process_id (cast_checked crypto p v s).votes
        ≡ some tree')
      × (times (lookup vid tree') ≤ suc p.vote_options.max_vote_overwrites)
cast_step crypto p nullifier vid v s tree i of_p of_n h k small =
    elim (Result-cases (check_vote_can_be_casted crypto v.nullifier p s).0) [
      | inr (e, r) ↦
          (tree, ap (λ c. lookup p.process_id (if_ok c (add_vote crypto v s).1 s).votes) r ∙ h, k)
      | inl (b, r) ↦
          let pid = p.process_id in
          let (s', run, there, count) = one_more crypto pid nullifier vid i v s tree of_p of_n h in
          let was : stored pid vid s ≡ lookup vid tree = ap (in_tree vid) h in
          let old =
            check-times crypto p v.nullifier vid s tree b (ap (vote_id crypto pid) of_n ∙ i) h r in
          let new = times-merged crypto v (stored pid vid s) (ground (arith, was, old, small)) in
          let (tree', e) = still_there pid vid s' (merged crypto v (stored pid vid s)) there in
          let here : lookup vid tree' ≡ some (merged crypto v (stored pid vid s)) =
            sym (ap (in_tree vid) e) ∙ there in
          (
            tree',
            ap (λ c. lookup pid (if_ok c (add_vote crypto v s).1 s).votes) r
                ∙ ap (λ t. lookup pid t.votes) run
                ∙ e,
            ground (arith, here, new, was, old),
          )
    ]

-- Votes of one voter in a process, each added only if `checkVoteCanBeCasted` lets it: where the stored
-- vote was cast at most once more than the limit on overwrites, which is below 2^32 - 1, that is so
-- after any number of votes.
pub overwrites_bounded :
    (crypto : Crypto) (p : Process) (nullifier vid : Bytes) (vs : List Vote) (s : State)
    (tree : Dict StateVote)
    → vote_id crypto p.process_id nullifier ≡ ok vid
    → OfVoter p.process_id nullifier vs
    → lookup p.process_id s.votes ≡ some tree
    → times (lookup vid tree) ≤ suc p.vote_options.max_vote_overwrites
    → suc p.vote_options.max_vote_overwrites < u32_mod
    → times (stored p.process_id vid (cast_all_checked crypto p vs s))
      ≤ suc p.vote_options.max_vote_overwrites
overwrites_bounded crypto p nullifier vid [] s tree i of h k small = rw h k
overwrites_bounded crypto p nullifier vid (v ∷ vs) s tree i of h k small =
    let (tree', h', k') = cast_step crypto p nullifier vid v s tree i of.0 of.1 h k small in
    overwrites_bounded crypto p nullifier vid vs (cast_checked crypto p v s) tree' i of.2 h' k'
      small
