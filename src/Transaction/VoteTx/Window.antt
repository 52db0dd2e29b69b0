-- ===== src/Transaction/VoteTx/Window.antt =====
-- When a vote is accepted: what its election and its envelope are like.
use vocdoni_node.Base.{
  ℕ, ◌≤◌, ◌<◌, ◌≡◌, ◌⊎◌, inl, inr, true, false, Bool, Option, none, some, refl, ap, ◌∙◌, arith,
  Option-cases, Bool-cases,
}
use vocdoni_node.Base.Bytes.{Bytes, bytes_equal_iff}
use vocdoni_node.Base.Words.{add32}
use vocdoni_node.Base.Dict.{Dict, lookup}
use vocdoni_node.Chain.{Process, Vote, StateVote, ready, State, Result-cases, ok}
use vocdoni_node.Crypto.{Crypto}
use vocdoni_node.Process.{get_process, get_timestamp, end_time, same}
use vocdoni_node.Votes.Cache.{Lru, cache_get_copy}
use vocdoni_node.Base.Lists.{length}
use vocdoni_node.Transaction.Overwrites.{check_vote_can_be_casted, check_overwrite}
use vocdoni_node.Votes.{find_vote}
use vocdoni_node.Transaction.Proofs.{initialize_zk_vote, initialize_signed_vote}
use vocdoni_node.Transaction.Types.{VoteEnvelope, Tx}
use vocdoni_node.Transaction.Network.{Network, metadata_fork_active}
use vocdoni_node.Transaction.VoteTx.{
  get_vote, max_vote_memo_size, memo_length, check_window, check_election, check_ballot_place,
  initialize_vote, count_votes, check_ballot_proof, check_cached_ballot, check_new_ballot,
  check_with, vote_tx_check, refuse_cached_ballot, weightless,
}

-- The window of a process, by its clock or, where its duration is 0, by its blocks.
abbrev pub InWindow : Process → ℕ → ℕ → Type 0
InWindow p height now =
    ((0 < p.duration) × (p.start_time ≤ now) × (now ≤ end_time p))
    ⊎ ((p.duration ≡ 0) × (p.start_block ≤ height) × (height ≤ add32 p.start_block p.block_count))

-- An election that takes the votes of an envelope.
pub record Takes (vtx : Tx) (e : VoteEnvelope) (p : Process) (s : State) : Type 0 where
  pub envelope : get_vote vtx.payload ≡ some e
  pub of_process : lookup e.process_id s.processes ≡ some p
  pub is_ready : p.status ≡ ready
  pub now : ℕ
  pub clock : s.timestamp ≡ some now
  pub in_window : InWindow p s.current_height now

check_window-InWindow :
    (p : Process) (height now : ℕ) → check_window p height now ≡ ok tt → InWindow p height now
unfolding check_window
check_window-InWindow p height now h = ground arith

same-ready : (p : Process) → same p.status ready ≡ true → p.status ≡ ready
unfolding same
same-ready p h = ground arith

pub check_election-Takes :
    (vtx : Tx) (e : VoteEnvelope) (p : Process) (height : ℕ) (s : State)
    → (check_election vtx s).0 ≡ ok (e, p, height)
    → Takes vtx e p s
unfolding check_election get_process get_timestamp
check_election-Takes vtx e p height s h = elim (Option-cases s.timestamp) [
  | inl k ↦ absurd (ground (arith, h, k))
  | inr (t, k) ↦ record {
    envelope = ground (arith, h, k);
    of_process = ground (arith, h, k);
    is_ready = same-ready p (ground (arith, h, k));
    now = t;
    clock = k;
    in_window = check_window-InWindow p s.current_height t (ground (arith, h, k));
  }
]

check_election-height :
    (vtx : Tx) (e : VoteEnvelope) (p : Process) (height : ℕ) (s : State)
    → (check_election vtx s).0 ≡ ok (e, p, height)
    → height ≡ s.current_height
unfolding check_election get_process get_timestamp
check_election-height vtx e p height s h = ground arith

check_election-state : (vtx : Tx) (s : State) → (check_election vtx s).1 ≡ s
unfolding check_election get_process get_timestamp
check_election-state vtx s = ground arith

initialize_vote-state :
    (c : Crypto) (net : Network) (vtx : Tx) (e : VoteEnvelope) (p : Process) (height : ℕ)
    (s : State)
    → (initialize_vote c net vtx e p height s).1 ≡ s
unfolding initialize_vote
initialize_vote-state c net vtx e p height s = ground arith

find_vote-state : (c : Crypto) (pid n : Bytes) (s : State) → (find_vote c pid n s).1 ≡ s
unfolding find_vote
find_vote-state c pid n s = ground arith

check_overwrite-state :
    (p : Process) (old : Option StateVote) (s : State) → (check_overwrite p old s).1 ≡ s
unfolding check_overwrite
check_overwrite-state p none s = refl
check_overwrite-state p (some v) s = ground arith

casted-state :
    (c : Crypto) (n : Bytes) (p : Process) (s : State) → (check_vote_can_be_casted c n p s).1 ≡ s
unfolding check_vote_can_be_casted
casted-state c n p s = elim (Result-cases (find_vote c p.process_id n s).0) [
  | inr (e, h) ↦ ground (arith, h, find_vote-state c p.process_id n s)
  | inl (o, h) ↦ ground (arith, h, find_vote-state c p.process_id n s, check_overwrite-state p o s)
]

-- What was checked of a vote in its election: the envelope, and that it replaces a vote or finds
-- room.
pub record Placed (c : Crypto) (e : VoteEnvelope) (p : Process) (v w : Vote) (s : State)
    : Type 0 where
  pub short_memo : memo_length e.memo ≤ max_vote_memo_size
  pub attested : metadata_fork_active s ≡ true → e.metadata_hash ≡ p.metadata_hash
  pub overwrite : Bool
  pub casted : (check_vote_can_be_casted c v.nullifier p s).0 ≡ ok overwrite
  pub tree : Dict StateVote
  pub of_process : lookup p.process_id s.votes ≡ some tree
  pub room : (overwrite ≡ true) ⊎ (length tree < p.max_census_size)
  pub same_vote : w ≡ record v { memo = e.memo }

check_ballot_place-Placed :
    (c : Crypto) (e : VoteEnvelope) (p : Process) (v w : Vote) (s : State)
    → (check_ballot_place c e p v s).0 ≡ ok w
    → Placed c e p v w s
unfolding check_ballot_place
check_ballot_place-Placed c e p v w s h =
    elim (Result-cases (check_vote_can_be_casted c v.nullifier p s).0) [
      | inr (x, k) ↦ absurd (ground (arith, h, k, casted-state c v.nullifier p s))
      | inl (b, k) ↦ elim (Option-cases (lookup p.process_id s.votes)) [
        | inl n ↦ absurd (ground (arith, h, k, n, casted-state c v.nullifier p s))
        | inr (t, n) ↦
            let st = casted-state c v.nullifier p s in
            record {
              short_memo = ground (arith, h, k, n, st);
              attested = λ f.
                  ground (arith, h, k, n, st, f, bytes_equal_iff e.metadata_hash p.metadata_hash);
              overwrite = b;
              casted = k;
              tree = t;
              of_process = n;
              room = ground (arith, h, k, n, st);
              same_vote = ground (arith, h, k, n, st);
            }
      ]
    ]

check_ballot_place-state :
    (c : Crypto) (e : VoteEnvelope) (p : Process) (v : Vote) (s : State)
    → (check_ballot_place c e p v s).1 ≡ s
unfolding check_ballot_place count_votes
check_ballot_place-state c e p v s =
    elim (Result-cases (check_vote_can_be_casted c v.nullifier p s).0) [
      | inr (x, k) ↦ ground (arith, k, casted-state c v.nullifier p s)
      | inl (b, k) ↦ ground (arith, k, casted-state c v.nullifier p s)
    ]

-- What was found of an accepted vote `w`.
pub record Accepted (c : Crypto) (vtx : Tx) (s : State) (w : Vote) : Type 0 where
  pub envelope : VoteEnvelope
  pub process : Process
  pub takes : Takes vtx envelope process s
  pub ballot : Vote
  pub stamped : Vote
  pub placed : Placed c envelope process ballot stamped s
  pub same_nullifier : w.nullifier ≡ ballot.nullifier
  pub same_process : w.process_id ≡ ballot.process_id
  pub same_memo : w.memo ≡ envelope.memo

cached-Accepted :
    (c : Crypto) (vtx : Tx) (v w : Vote) (s : State)
    → (check_cached_ballot c vtx v s).0 ≡ ok w
    → (a : Accepted c vtx s w) × (a.ballot ≡ record v { height = s.current_height })
unfolding check_cached_ballot
cached-Accepted c vtx v w s h = elim (Result-cases (check_election vtx s).0) [
  | inr (x, k) ↦ absurd (ground (arith, h, k, check_election-state vtx s))
  | inl (r, k) ↦ elim (Bool-cases (weightless v)) [
    | inl bare ↦ absurd (ground (arith, h, k, bare, check_election-state vtx s))
    | inr full ↦
        let (e, p, height) = r in
        let tall : height ≡ s.current_height = check_election-height vtx e p height s k in
        let v' : Vote = record v { height = s.current_height } in
        let q : (check_ballot_place c e p v' s).0 ≡ ok w =
          ground (arith, h, k, tall, full, check_election-state vtx s) in
        let pl = check_ballot_place-Placed c e p v' w s q in
        (
          record {
            envelope = e;
            process = p;
            takes = check_election-Takes vtx e p height s k;
            ballot = v';
            stamped = w;
            placed = pl;
            same_nullifier = ap (λ u. u.nullifier) pl.same_vote;
            same_process = ap (λ u. u.process_id) pl.same_vote;
            same_memo = ap (λ u. u.memo) pl.same_vote;
          },
          refl,
        )
  ]
]

initialized :
    (c : Crypto) (net : Network) (vtx : Tx) (e : VoteEnvelope) (p : Process) (height : ℕ)
    (s : State) (made : Vote × Bytes)
    → (initialize_vote c net vtx e p height s).0 ≡ ok made
    → made.0.process_id ≡ e.process_id
unfolding initialize_vote initialize_zk_vote initialize_signed_vote
initialized c net vtx e p height s made h = ground arith

proved :
    (net : Network) (e : VoteEnvelope) (p : Process) (made : Vote × Bytes) (w : Vote) (s : State)
    → (check_ballot_proof net e p made s).0 ≡ ok w
    → (w.nullifier ≡ made.0.nullifier) × (w.process_id ≡ made.0.process_id) × (w.memo ≡ made.0.memo)
unfolding check_ballot_proof
proved net e p made w s h = ground arith

new-Accepted :
    (c : Crypto) (net : Network) (vtx : Tx) (w : Vote) (s : State)
    → (check_new_ballot c net vtx s).0 ≡ ok w
    → (a : Accepted c vtx s w) × (a.ballot.process_id ≡ a.envelope.process_id)
unfolding check_new_ballot
new-Accepted c net vtx w s h = elim (Result-cases (check_election vtx s).0) [
  | inr (x, k) ↦ absurd (ground (arith, h, k, check_election-state vtx s))
  | inl (r, k) ↦
      let (e, p, height) = r in
      let same_state = check_election-state vtx s in
      let same_state' = initialize_vote-state c net vtx e p height s in
      elim (Result-cases (initialize_vote c net vtx e p height s).0) [
        | inr (x, m) ↦ absurd (ground (arith, h, k, m, same_state, same_state'))
        | inl (made, m) ↦ elim (Result-cases (check_ballot_place c e p made.0 s).0) [
          | inr (x, n) ↦ absurd (ground (arith, h, k, m, n, same_state, same_state'))
          | inl (u, n) ↦
              let pl = check_ballot_place-Placed c e p made.0 u s n in
              let st = check_ballot_place-state c e p made.0 s in
              let q : (check_ballot_proof net e p (u, made.1) s).0 ≡ ok w =
                ground (arith, h, k, m, n, same_state, same_state', st) in
              let kept = proved net e p (u, made.1) w s q in
              (
                record {
                  envelope = e;
                  process = p;
                  takes = check_election-Takes vtx e p height s k;
                  ballot = made.0;
                  stamped = u;
                  placed = pl;
                  same_nullifier = kept.0 ∙ ap (λ v. v.nullifier) pl.same_vote;
                  same_process = kept.1 ∙ ap (λ v. v.process_id) pl.same_vote;
                  same_memo = kept.2 ∙ ap (λ v. v.memo) pl.same_vote;
                },
                initialized c net vtx e p height s made m,
              )
        ]
      ]
]

-- A vote of the cache belongs to the process of the transaction it is kept for.
abbrev pub OfEnvelope : Tx → Option Vote → Type 0
OfEnvelope vtx none = Unit
OfEnvelope vtx (some v) =
    (e : VoteEnvelope) → get_vote vtx.payload ≡ some e → v.process_id ≡ e.process_id

check_with-Accepted :
    {C : Type 0} (c : Crypto) (net : Network) (lru : Lru C) (disabled : Bool) (vtx : Tx)
    (for_commit : Bool) (found : Option Vote) (cache : C) (s : State) (w : Vote)
    → OfEnvelope vtx found
    → (check_with c net lru disabled vtx for_commit found cache s).0 ≡ ok w
    → (a : Accepted c vtx s w) × (w.process_id ≡ a.envelope.process_id)
unfolding check_with refuse_cached_ballot
check_with-Accepted c net lru disabled vtx for_commit none cache s w own h =
    let (a, e) = new-Accepted c net vtx w s h in (a, a.same_process ∙ e)
check_with-Accepted c net lru disabled vtx true (some v) cache s w own h =
    let (a, e) = cached-Accepted c vtx v w s h in
    (a, a.same_process ∙ ap (λ u. u.process_id) e ∙ own a.envelope a.takes.envelope)
check_with-Accepted c net lru disabled vtx false (some v) cache s w own h =
    absurd (ground (arith, h, check_election-state vtx s))

-- Where a vote of the cache belongs to the process of its transaction, a vote that `VoteTxCheck`
-- accepts, from the cache or not, in the mempool or in a block, is for a process that is READY and
-- within its window of time or of blocks, has a memo of at most 256 bytes, attests the metadata of
-- the process once the fork is active, and replaces a vote or finds fewer votes than `MaxCensusSize`.
pub vote_tx_check-Accepted :
    {C : Type 0} (c : Crypto) (net : Network) (lru : Lru C) (disabled : Bool) (vtx : Tx)
    (for_commit : Bool) (cache : C) (s : State) (w : Vote)
    → OfEnvelope vtx (cache_get_copy lru disabled vtx.tx_id cache)
    → (vote_tx_check c net lru disabled vtx for_commit cache s).0 ≡ ok w
    → (a : Accepted c vtx s w) × (w.process_id ≡ a.envelope.process_id)
unfolding vote_tx_check
vote_tx_check-Accepted c net lru disabled vtx for_commit cache s w own h =
    check_with-Accepted c net lru disabled vtx for_commit
      (cache_get_copy lru disabled vtx.tx_id cache) cache s w own h
