-- ===== src/Transaction/VoteTx/Census.antt =====
-- The votes of an election never outnumber its census.
use vocdoni_node.Base.{
  ℕ, ◌≤◌, ◌≡◌, ◌⊎◌, ◌∙◌, inl, inr, true, false, refl, ap, sym, subst, Bool, Option, none, some,
  arith, Option-cases, Bool-cases,
}
use vocdoni_node.Base.Lists.{length}
use vocdoni_node.Base.Bytes.{Bytes, bytes_equal, bytes_equal_iff}
use vocdoni_node.Base.Dict.{Dict, lookup, insert, lookup-insert, length-insert, length-insert_found}
use vocdoni_node.Chain.{Process, Vote, StateVote, State, Result, Result-cases, ok, err}
use vocdoni_node.Crypto.{Crypto}
use vocdoni_node.Votes.{vote_id, find_vote, store_vote, add_vote, merged}
use vocdoni_node.Votes.Cache.{Lru, cache_get_copy}
use vocdoni_node.Transaction.Types.{Tx}
use vocdoni_node.Transaction.Network.{Network}
use vocdoni_node.Transaction.Nonce.{check_account_nonce}
use vocdoni_node.Transaction.Overwrites.{check_vote_can_be_casted, check_overwrite}
use vocdoni_node.Transaction.VoteTx.{vote_tx_check, deliver_vote, check_vote}
use vocdoni_node.Transaction.Tokens.Replay.{check_account_nonce-state}
use vocdoni_node.Transaction.VoteTx.Window.{Accepted, OfEnvelope, vote_tx_check-Accepted}

abbrev size : Option (Dict StateVote) → ℕ
size none = 0
size (some tree) = length tree

-- What `AddVote` writes.
record Stored (c : Crypto) (v : Vote) (s : State) : Type 0 where
  pub vid : Bytes
  pub tree : Dict StateVote
  pub new : StateVote
  pub identified : vote_id c v.process_id v.nullifier ≡ ok vid
  pub of_process : lookup v.process_id s.votes ≡ some tree
  pub votes_after : (add_vote c v s).1.votes ≡ insert v.process_id (insert vid new tree) s.votes

add_vote-cases :
    (c : Crypto) (v : Vote) (s : State) → ((add_vote c v s).1.votes ≡ s.votes) ⊎ Stored c v s
unfolding add_vote find_vote store_vote
add_vote-cases c v s = elim (Result-cases (vote_id c v.process_id v.nullifier)) [
  | inr (x, k) ↦ inl (ground (arith, k))
  | inl (vid, k) ↦ elim (Option-cases (lookup v.process_id s.votes)) [
    | inl n ↦ inl (ground (arith, k, n))
    | inr (tree, n) ↦ inr (record {
      vid = vid;
      tree = tree;
      new = merged c v (lookup vid tree);
      identified = k;
      of_process = n;
      votes_after = ground (arith, k, n);
    })
  ]
]

-- A vote that can be cast as an overwrite is stored.
overwrite-stored :
    (c : Crypto) (nullifier vid : Bytes) (p : Process) (s : State) (tree : Dict StateVote)
    → vote_id c p.process_id nullifier ≡ ok vid
    → lookup p.process_id s.votes ≡ some tree
    → (check_vote_can_be_casted c nullifier p s).0 ≡ ok true
    → (old : StateVote) × (lookup vid tree ≡ some old)
unfolding check_vote_can_be_casted find_vote check_overwrite
overwrite-stored c nullifier vid p s tree i h k = elim (Option-cases (lookup vid tree)) [
  | inl e ↦ absurd (ground (arith, i, h, k, e))
  | inr (old, e) ↦ (old, e)
]

fits :
    (c : Crypto) (vtx : Tx) (w : Vote) (s : State) (a : Accepted c vtx s w) (st : Stored c w s)
    → w.process_id ≡ a.process.process_id
    → length st.tree ≤ a.process.max_census_size
    → length (insert st.vid st.new st.tree) ≤ a.process.max_census_size
fits c vtx w s a st same small =
    let pid = a.process.process_id in
    let there : lookup pid s.votes ≡ some st.tree =
      subst (λ k. lookup k s.votes ≡ some st.tree) same st.of_process in
    let same_tree : st.tree ≡ a.placed.tree = ground (arith, there, a.placed.of_process) in
    elim a.placed.room [
      | inr few ↦ ground (arith, few, same_tree, length-insert st.vid st.new st.tree)
      | inl over ↦
          let named : vote_id c pid a.ballot.nullifier ≡ ok st.vid =
            subst (λ k. vote_id c k a.ballot.nullifier ≡ ok st.vid) same
              (subst (λ n. vote_id c w.process_id n ≡ ok st.vid) a.same_nullifier st.identified) in
          let cast : (check_vote_can_be_casted c a.ballot.nullifier a.process s).0 ≡ ok true =
            subst (λ b. (check_vote_can_be_casted c a.ballot.nullifier a.process s).0 ≡ ok b) over
              a.placed.casted in
          let (old, e) =
            overwrite-stored c a.ballot.nullifier st.vid a.process s st.tree named there cast in
          omega (arith, small, length-insert_found st.vid st.new old st.tree e)
    ]

-- The size of the tree of votes of a process, 0 if it has none.
abbrev pub votes_of : Bytes → State → ℕ
votes_of pid s = size (lookup pid s.votes)

added-fits :
    (c : Crypto) (vtx : Tx) (w : Vote) (s : State) (a : Accepted c vtx s w) (pid : Bytes)
    (p : Process)
    → w.process_id ≡ a.envelope.process_id
    → lookup pid s.processes ≡ some p
    → p.process_id ≡ pid
    → votes_of pid s ≤ p.max_census_size
    → votes_of pid (add_vote c w s).1 ≤ p.max_census_size
added-fits c vtx w s a pid p own found named small = elim (add_vote-cases c w s) [
  | inl e ↦ rw e small
  | inr st ↦
      let tree' = insert st.vid st.new st.tree in
      let after = lookup-insert w.process_id pid tree' s.votes in
      elim (Bool-cases (bytes_equal w.process_id pid)) [
        | inr d ↦ rw st.votes_after (ground (arith, after, d, small))
        | inl d ↦
            let here : w.process_id ≡ pid = (bytes_equal_iff w.process_id pid).0 d in
            let same_process : a.process ≡ p =
              ground (arith, a.takes.of_process, own, here, found) in
            let same_id : w.process_id ≡ a.process.process_id =
              here ∙ sym named ∙ ap (λ q. q.process_id) (sym same_process) in
            let was : lookup pid s.votes ≡ some st.tree =
              subst (λ k. lookup k s.votes ≡ some st.tree) here st.of_process in
            let few : length st.tree ≤ a.process.max_census_size =
              ground (arith, was, small, same_process) in
            let bound = fits c vtx w s a st same_id few in
            rw st.votes_after (ground (arith, after, d, bound, same_process))
      ]
]

delivered-fits :
    {C : Type 0} (c : Crypto) (net : Network) (lru : Lru C) (disabled : Bool) (vtx : Tx)
    (for_commit : Bool) (cache : C) (s : State) (pid : Bytes) (p : Process)
    → OfEnvelope vtx (cache_get_copy lru disabled vtx.tx_id cache)
    → lookup pid s.processes ≡ some p
    → p.process_id ≡ pid
    → votes_of pid s ≤ p.max_census_size
    → (r : Result Vote) → (vote_tx_check c net lru disabled vtx for_commit cache s).0 ≡ r
    → votes_of pid (deliver_vote c for_commit r s).1 ≤ p.max_census_size
unfolding deliver_vote
delivered-fits c net lru disabled vtx for_commit cache s pid p own found named small (err e) h =
    small
delivered-fits c net lru disabled vtx false cache s pid p own found named small (ok w) h = small
delivered-fits c net lru disabled vtx true cache s pid p own found named small (ok w) h =
    let (a, of_envelope) = vote_tx_check-Accepted c net lru disabled vtx true cache s w own h in
    let fits = added-fits c vtx w s a pid p of_envelope found named small in
    elim (Result-cases (add_vote c w s).0) [
      | inl (u, k) ↦ ground (arith, k, fits)
      | inr (x, k) ↦ ground (arith, k, fits)
    ]

-- `CheckTx` of any vote transaction, with or without commit, where a vote of the cache belongs to the
-- process of its transaction, keeps for each process that is stored under its identifier: it has at
-- most `MaxCensusSize` votes.
pub check_vote_fits_census :
    {C : Type 0} (c : Crypto) (net : Network) (lru : Lru C) (disabled : Bool) (vtx : Tx)
    (for_commit : Bool) (cache : C) (s : State) (pid : Bytes) (p : Process)
    → OfEnvelope vtx (cache_get_copy lru disabled vtx.tx_id cache)
    → lookup pid s.processes ≡ some p
    → p.process_id ≡ pid
    → votes_of pid s ≤ p.max_census_size
    → votes_of pid (check_vote c net lru disabled vtx for_commit cache s).0.1 ≤ p.max_census_size
unfolding check_vote
check_vote_fits_census c net lru disabled vtx for_commit cache s pid p own found named small =
    let same = check_account_nonce-state c vtx s in
    let last =
      delivered-fits c net lru disabled vtx for_commit cache s pid p own found named small
        (vote_tx_check c net lru disabled vtx for_commit cache s).0 refl in
    elim (Result-cases (check_account_nonce c vtx s).0) [
      | inl (u, k) ↦ ground (arith, k, same, last)
      | inr (x, k) ↦ ground (arith, k, same, small, last)
    ]
