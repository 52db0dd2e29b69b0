-- ===== src/Votes/Overwrite.antt =====
-- Casting a vote, and casting it again with the same nullifier.
use vocdoni_node.Base.{
  ℕ, suc, ◌+◌, ◌<◌, ◌≡◌, ◌⊎◌, refl, inl, inr, false, Option, none, some, List, [], ◌∷◌, arith,
  Option-cases, Bool-cases, ap, subst, sym, ◌∙◌,
}
use vocdoni_node.Base.Lists.{length}
use vocdoni_node.Base.Bytes.{Bytes, bytes_equal, bytes_equal_refl, bytes_equal_iff}
use vocdoni_node.Base.Words.{u32_mod, u64_mod}
use vocdoni_node.Base.Dict.{Dict, lookup, insert, lookup-insert}
use vocdoni_node.Chain.{StateVote, State, ok}
use vocdoni_node.Crypto.{Crypto}
use vocdoni_node.Votes.{
  Vote, vote_id, merged, counted, bump, store_vote, find_vote, add_vote, overwrites_of,
  count_total_votes, count_or_zero,
}

-- A vote that can be stored: its identifier, and the tree of votes of its process.
pub record Storable (crypto : Crypto) (v : Vote) (s : State) : Type 0 where
  pub vid : Bytes
  pub tree : Dict StateVote
  pub identified : vote_id crypto v.process_id v.nullifier ≡ ok vid
  pub of_process : lookup v.process_id s.votes ≡ some tree

abbrev pub in_tree : Bytes → Option (Dict StateVote) → Option StateVote
in_tree vid none = none
in_tree vid (some tree) = lookup vid tree

-- What is stored for a voter in a process.
abbrev pub stored : Bytes → Bytes → State → Option StateVote
stored pid vid s = in_tree vid (lookup pid s.votes)

elsewhere :
    (pid vid : Bytes) (sv : StateVote) (tree : Dict StateVote) (s : State)
    → lookup pid s.votes ≡ some tree
    → (p w : Bytes) → (bytes_equal pid p ≡ false) ⊎ (bytes_equal vid w ≡ false)
    → in_tree w (lookup p (insert pid (insert vid sv tree) s.votes)) ≡ in_tree w (lookup p s.votes)
elsewhere pid vid sv tree s h p w apart = elim (Bool-cases (bytes_equal pid p)) [
  | inr d ↦ rw (lookup-insert pid p (insert vid sv tree) s.votes) (rw d refl)
  | inl d ↦
      let same = (bytes_equal_iff pid p).0 d in
      let other : bytes_equal vid w ≡ false = ground (arith, apart, d) in
      rw (lookup-insert pid p (insert vid sv tree) s.votes) (
        rw d (
          lookup-insert vid w sv tree
          ∙ (rw other (ap (in_tree w) (sym (ap (λ k. lookup k s.votes) (sym same) ∙ h))))))
]

add_vote_step :
    (crypto : Crypto) (v : Vote) (s : State) (ready : Storable crypto v s)
    → (s' : State) × (v' : Vote) × (add_vote crypto v s ≡ (ok v', s'))
      × (stored v.process_id ready.vid s'
          ≡ some (merged crypto v (stored v.process_id ready.vid s)))
      × ((pid vid : Bytes)
          → (bytes_equal v.process_id pid ≡ false) ⊎ (bytes_equal ready.vid vid ≡ false)
          → stored pid vid s' ≡ stored pid vid s)
      × (s'.vote_count ≡ some (counted s.vote_count))
unfolding add_vote find_vote store_vote
add_vote_step crypto v s ready =
    let pid = v.process_id in
    let vid = ready.vid in
    let sv = merged crypto v (lookup vid ready.tree) in
    let tree' = insert vid sv ready.tree in
    let was : stored pid vid s ≡ lookup vid ready.tree = ap (in_tree vid) ready.of_process in
    let at = lookup-insert pid pid tree' s.votes in
    let here = lookup-insert vid vid sv ready.tree in
    (
      record s { votes = insert pid tree' s.votes; vote_count = some (counted s.vote_count) },
      record v {
        height = s.current_height;
        overwrites = overwrites_of v.overwrites sv.overwrite_count;
      },
      ground (arith, ready.identified, ready.of_process),
      ground (arith, was, at, here, bytes_equal_refl pid, bytes_equal_refl vid),
      λ p w apart. elsewhere v.process_id vid sv ready.tree s ready.of_process p w apart,
      refl,
    )

-- `AddVote` on a process of the state, with a nullifier: it succeeds, writes the new vote over the
-- stored one under the identifier of the voter, changes no other vote of any process, and adds one
-- to the global count, in 64 bits.
add_vote_writes :
    (crypto : Crypto) (v : Vote) (s : State) (ready : Storable crypto v s) (pid vid : Bytes)
    → (bytes_equal v.process_id pid ≡ false) ⊎ (bytes_equal ready.vid vid ≡ false)
    → (s' : State) × (v' : Vote) × (add_vote crypto v s ≡ (ok v', s'))
      × (stored v.process_id ready.vid s'
          ≡ some (merged crypto v (stored v.process_id ready.vid s)))
      × (stored pid vid s' ≡ stored pid vid s)
      × (s'.vote_count ≡ some (counted s.vote_count))
add_vote_writes crypto v s ready pid vid apart =
    let (s', v', run, there, elsewhere, count) = add_vote_step crypto v s ready in
    (s', v', run, there, elsewhere pid vid apart, count)

-- The state after the votes in order.
abbrev pub cast_all : Crypto → List Vote → State → State
cast_all crypto [] s = s
cast_all crypto (v ∷ vs) s = cast_all crypto vs (add_vote crypto v s).1

-- How often a stored vote was cast.
abbrev pub times : Option StateVote → ℕ
times none = 0
times (some sv) = elim sv.overwrite_count [ none ↦ 1 | some n ↦ suc n ]

abbrev pub OfVoter : Bytes → Bytes → List Vote → Type 0
OfVoter pid nullifier [] = Unit
OfVoter pid nullifier (v ∷ vs) =
    (v.process_id ≡ pid) × (v.nullifier ≡ nullifier) × OfVoter pid nullifier vs

-- The vote that stands last is the one that counts.
abbrev pub last_package : Bytes → List Vote → Bytes
last_package b [] = b
last_package b (v ∷ vs) = last_package v.vote_package vs

pub times-merged :
    (crypto : Crypto) (v : Vote) (old : Option StateVote)
    → suc (times old) < u32_mod
    → (times (some (merged crypto v old)) ≡ suc (times old))
      × ((merged crypto v old).vote_package ≡ v.vote_package)
unfolding merged bump
times-merged crypto v none h = (refl, refl)
times-merged crypto v (some old) h = (ground (arith, h), refl)

pub still_there :
    (pid vid : Bytes) (s : State) (sv : StateVote)
    → stored pid vid s ≡ some sv
    → (tree : Dict StateVote) × (lookup pid s.votes ≡ some tree)
still_there pid vid s sv h = elim (Option-cases (lookup pid s.votes)) [
  | inl e ↦ absurd (ground (arith, h, e))
  | inr (tree, e) ↦ (tree, e)
]

count_step :
    (s s' : State)
    → s'.vote_count ≡ some (counted s.vote_count)
    → suc (count_total_votes s) < u64_mod
    → count_total_votes s' ≡ suc (count_total_votes s)
unfolding count_total_votes counted count_or_zero
count_step s s' h small = elim (Option-cases s.vote_count) [
  | inl e ↦ ground (arith, h, e)
  | inr (n, e) ↦ let known : suc n < u64_mod = rw' n e small in ground (arith, h, e, known)
]
  where
    rw' : (n : ℕ) → s.vote_count ≡ some n → suc (count_total_votes s) < u64_mod → suc n < u64_mod
    rw' n e k = ground (arith, e, k)

module _ (crypto : Crypto) (pid nullifier vid : Bytes)
    (identified : vote_id crypto pid nullifier ≡ ok vid) where
  pub one_more :
      (v : Vote) (s : State) (tree : Dict StateVote)
      → v.process_id ≡ pid
      → v.nullifier ≡ nullifier
      → lookup pid s.votes ≡ some tree
      → (s' : State) × ((add_vote crypto v s).1 ≡ s')
        × (stored pid vid s' ≡ some (merged crypto v (stored pid vid s)))
        × (s'.vote_count ≡ some (counted s.vote_count))
  one_more v s tree p n h =
      let id : vote_id crypto v.process_id v.nullifier ≡ ok vid = rw p (rw n identified) in
      let of_process : lookup v.process_id s.votes ≡ some tree = rw p h in
      let (s', v', run, there, elsewhere, count) =
        add_vote_step crypto v s
          (record { vid = vid; tree = tree; identified = id; of_process = of_process }) in
      (
        s',
        ap (λ r. r.1) run,
        subst (λ k. stored k vid s' ≡ some (merged crypto v (stored k vid s))) p there,
        count,
      )

  -- Votes of one voter in a process, below 2^32 with the earlier ones: each counts in the number of
  -- times that the stored vote was cast, the stored package is the last one, and each adds one to the
  -- global count, below 2^64.
  pub cast_all_counts :
      (vs : List Vote) (s : State) (tree : Dict StateVote) (old : StateVote)
      → OfVoter pid nullifier vs
      → lookup pid s.votes ≡ some tree
      → lookup vid tree ≡ some old
      → times (some old) + length vs < u32_mod
      → count_total_votes s + length vs < u64_mod
      → (sv : StateVote) × (stored pid vid (cast_all crypto vs s) ≡ some sv)
        × (times (some sv) ≡ times (some old) + length vs)
        × (sv.vote_package ≡ last_package old.vote_package vs)
        × (count_total_votes (cast_all crypto vs s) ≡ count_total_votes s + length vs)
  cast_all_counts [] s tree old of h k small small' = (old, rw h k, omega arith, refl, omega arith)
  cast_all_counts (v ∷ vs) s tree old of h k small small' =
      let (s', run, there, count) = one_more v s tree of.0 of.1 h in
      let was : stored pid vid s ≡ some old = rw h k in
      let new = merged crypto v (some old) in
      let there' : stored pid vid s' ≡ some new = ground (arith, there, was) in
      let m = times-merged crypto v (some old) (omega (arith, small)) in
      let (tree', h') = still_there pid vid s' new there' in
      let k' : lookup vid tree' ≡ some new = ground (arith, h', there') in
      let c : count_total_votes s' ≡ suc (count_total_votes s) =
        count_step s s' count (omega (arith, small')) in
      let (sv, a, b, d, e) =
        cast_all_counts vs s' tree' new of.2 h' k' (omega (arith, m.0, small))
          (omega (arith, c, small')) in
      (
        sv,
        ap (λ t. stored pid vid (cast_all crypto vs t)) run ∙ a,
        omega (arith, b, m.0),
        d ∙ ap (λ b'. last_package b' vs) m.1,
        ap (λ t. count_total_votes (cast_all crypto vs t)) run ∙ omega (arith, e, c),
      )
