-- ===== src/Merkle/Edit/Adding.antt =====
-- What `add` does to the tree that the database holds.
use vocdoni_node.Base.{
  ℕ, suc, ◌≤◌, ◌≡◌, refl, sym, ap, subst, Bool, true, false, List, [], ◌∷◌, arith, if◌then◌else◌,
}
use vocdoni_node.Base.Lists.{length, drop, length-replicate}
use vocdoni_node.Base.Bytes.{Bytes, bytes_equal}
use vocdoni_node.Merkle.Types.{Database, Result, ok, err, ◌>>=◌, key_already_exists}
use vocdoni_node.Merkle.Nodes.{read_leaf_value, empty_hash, ceil_div8, key_path_from_key}
use vocdoni_node.Merkle.Walk.{
  leaf, Tree, Found, nothing_at, pass, down_virtually, read_node, at_leaf, down,
}
use vocdoni_node.Merkle.Edit.Rising.{Reliable, Rises, Rises-right, Rises-left, Rises-here}
use vocdoni_node.Merkle.Trie.{Trie, vacant, tip, fork, Shallow, Holds}
use vocdoni_node.Merkle.Trie.Reading.{
  Holds-sized, read_vacant, read_tip, read_fork, new_leaf_value-roundtrip,
}
use vocdoni_node.Merkle.Trie.Digest.{Digest, Holds-Digest, path_in, part, graft}

-- A way down gives the siblings under which a new leaf makes the tree, or the same error.
abbrev pub Follows :
    {A : Type 0}
    → (A → List Bytes)
    → Tree
    → List Bool
    → Bytes
    → Bytes
    → Result Trie
    → Result A
    → Type 0
Follows of t path k v (ok trie) r = (a : _) × (r ≡ ok a) × Rises t path (of a) k v trie
Follows of t path k v (err e) r = r ≡ err e

Follows-right :
    {A : Type 0}
    → (of : A → List Bytes)
    → (f : A → A) (t : Tree) (path : List Bool) (k v s : Bytes) (o : Trie) (m : Result Trie)
      (r : Result A)
    → ((a : A) → of (f a) ≡ s ∷ of a)
    → Reliable t.hash_function t.empty_node
    → Digest t.hash_function o s
    → length s ≡ t.hash_function.len
    → Follows of t path k v m r
    → Follows of t (true ∷ path) k v (m >>= λ x. ok (fork o x)) (r >>= λ a. ok (f a))
Follows-right of f t path k v s o (ok x) r same rel d n (a, e, rises) = (
  f a,
  ap (λ q. q >>= λ b. ok (f b)) e,
  subst (λ q. Rises t (true ∷ path) q k v (fork o x)) (sym (same a))
      (Rises-right t path (of a) k v s o x rel d n rises),
)
Follows-right of f t path k v s o (err x) r same rel d n e = ap (λ q. q >>= λ b. ok (f b)) e

Follows-left :
    {A : Type 0}
    → (of : A → List Bytes)
    → (f : A → A) (t : Tree) (path : List Bool) (k v s : Bytes) (o : Trie) (m : Result Trie)
      (r : Result A)
    → ((a : A) → of (f a) ≡ s ∷ of a)
    → Reliable t.hash_function t.empty_node
    → Digest t.hash_function o s
    → length s ≡ t.hash_function.len
    → Follows of t path k v m r
    → Follows of t (false ∷ path) k v (m >>= λ x. ok (fork x o)) (r >>= λ a. ok (f a))
Follows-left of f t path k v s o (ok x) r same rel d n (a, e, rises) = (
  f a,
  ap (λ q. q >>= λ b. ok (f b)) e,
  subst (λ q. Rises t (false ∷ path) q k v (fork x o)) (sym (same a))
      (Rises-left t path (of a) k v s o x rel d n rises),
)
Follows-left of f t path k v s o (err x) r same rel d n e = ap (λ q. q >>= λ b. ok (f b)) e

-- The same for the levels below a leaf.
Follows-virtual :
    (t : Tree) (path old_path : List Bool) (k v key : Bytes) (old : Trie)
    → Reliable t.hash_function t.empty_node
    → Digest t.hash_function old key
    → length key ≡ t.hash_function.len
    → Follows
        (λ s. s)
        t
        path
        k
        v
        (part path old_path (tip k v) old)
        (down_virtually t.hash_function key old_path path)
unfolding part down_virtually
Follows-virtual t [] [] k v key old rel d n = refl
Follows-virtual t [] (o ∷ old_path) k v key old rel d n = refl
Follows-virtual t (b ∷ path) [] k v key old rel d n = refl
Follows-virtual t (true ∷ path) (true ∷ old_path) k v key old rel d n =
    let h = t.hash_function in
    Follows-right (λ s. s) (λ s. empty_hash h ∷ s) t path k v (empty_hash h) vacant
      (part path old_path (tip k v) old) (down_virtually h key old_path path) (λ a. refl) rel refl
      (length-replicate h.len 0) (Follows-virtual t path old_path k v key old rel d n)
Follows-virtual t (false ∷ path) (false ∷ old_path) k v key old rel d n =
    let h = t.hash_function in
    Follows-left (λ s. s) (λ s. empty_hash h ∷ s) t path k v (empty_hash h) vacant
      (part path old_path (tip k v) old) (down_virtually h key old_path path) (λ a. refl) rel refl
      (length-replicate h.len 0) (Follows-virtual t path old_path k v key old rel d n)
Follows-virtual t (true ∷ path) (false ∷ old_path) k v key old rel d n =
    (key ∷ [], refl, Rises-right t path [] k v key old (tip k v) rel d n (Rises-here t path k v))
Follows-virtual t (false ∷ path) (true ∷ old_path) k v key old rel d n =
    (key ∷ [], refl, Rises-left t path [] k v key old (tip k v) rel d n (Rises-here t path k v))

abbrev pub siblings_of : Found → List Bytes
siblings_of f = f.siblings

Follows-unless :
    (t : Tree) (path : List Bool) (k v : Bytes) (m : Result Trie) (r : Result Found) (b : Bool)
    → Follows siblings_of t path k v m r
    → Follows siblings_of t path k v
        (if b then err key_already_exists else m)
        (if b then err key_already_exists else r)
Follows-unless t path k v m r true s = refl
Follows-unless t path k v m r false s = s

Follows-leaf :
    (t : Tree) (path : List Bool) (k v key value : Bytes) (m : Result Trie)
    (r : Result (List Bytes))
    → Follows (λ s. s) t path k v m r
    → Follows siblings_of t path k v m
        (r >>= λ s. ok (record { key = key; value = value; siblings = s; intermediates = [] }))
Follows-leaf t path k v key value (ok x) r (s, e, rises) = (
  record { key = key; value = value; siblings = s; intermediates = [] },
  ap (λ q. q >>= λ s. ok (record { key = key; value = value; siblings = s; intermediates = [] })) e,
  rises,
)
Follows-leaf t path k v key value (err x) r e =
    ap (λ q. q >>= λ s. ok (record { key = key; value = value; siblings = s; intermediates = [] }))
      e

-- The keys of the leaves are no longer than a path of the tree.
abbrev pub KeysFit : ℕ → Trie → Type 0
KeysFit n vacant = Unit
KeysFit n (tip k v) = length k ≤ n
KeysFit n (fork l r) = KeysFit n l × KeysFit n r

at_leaf_old :
    (t : Tree) (k k' v' key value : Bytes) (level : ℕ) (path : List Bool)
    → read_leaf_value value ≡ ok (k', v')
    → length k' ≤ ceil_div8 t.max_levels
    → at_leaf t k key value level path false ≡ (
        if bytes_equal k k'
        then err key_already_exists
        else (down_virtually t.hash_function key (drop level (path_in t k')) path >>= λ s.
            ok (record { key = key; value = value; siblings = s; intermediates = [] })))
unfolding at_leaf key_path_from_key
at_leaf_old t k k' v' key value level path read few = ground (arith, read, few)

-- At a leaf.
Follows-tip :
    (t : Tree) (db : Database) (k v k' v' : Bytes) (path : List Bool) (level : ℕ) (key : Bytes)
    → Reliable t.hash_function t.empty_node
    → Holds t.hash_function db (tip k' v') key
    → length k' ≤ ceil_div8 t.max_levels
    → (value : Bytes) × (read_node t.hash_function db key ≡ ok (leaf value))
      × Follows siblings_of t path k v
          (graft t level path k v (tip k' v'))
          (at_leaf t k key value level path false)
unfolding graft
Follows-tip t db k v k' v' path level key rel (value, made, stored, few) fits =
    let h = t.hash_function in
    let old = drop level (path_in t k') in
    let m = part path old (tip k v) (tip k' v') in
    let r = down_virtually h key old path in
    let done =
      at_leaf_old t k k' v' key value level path
        (new_leaf_value-roundtrip h k' v' key value made few) fits in
    (
      value,
      read_tip h db k' v' key value made stored,
      subst (Follows siblings_of t path k v (graft t level path k v (tip k' v'))) (sym done) (
          Follows-unless t path k v m
            (r >>= λ s. ok (record { key = key; value = value; siblings = s; intermediates = [] }))
            (bytes_equal k k')
            (Follows-leaf t path k v key value m r
              (Follows-virtual t path old k v key (tip k' v') rel (value, made) stored.sized))),
    )

pub Follows-down :
    (t : Tree) (db : Database) (k v : Bytes) (trie : Trie) (path : List Bool) (level : ℕ)
    (key : Bytes)
    → Reliable t.hash_function t.empty_node
    → Holds t.hash_function db trie key
    → Shallow (length path) trie
    → KeysFit (ceil_div8 t.max_levels) trie
    → Follows siblings_of t path k v
        (graft t level path k v trie)
        (down t db k key path level false)
unfolding graft down
Follows-down t db k v vacant [] level key rel s shallow fits =
    let r = read_vacant t.hash_function db key s in
    (nothing_at key, ground (arith, r), Rises-here t [] k v)
Follows-down t db k v vacant (b ∷ path) level key rel s shallow fits =
    let r = read_vacant t.hash_function db key s in
    (nothing_at key, ground (arith, r), Rises-here t (b ∷ path) k v)
Follows-down t db k v (tip k' v') [] level key rel s shallow fits =
    let (value, read, follows) = Follows-tip t db k v k' v' [] level key rel s fits in
    subst (Follows siblings_of t [] k v (graft t level [] k v (tip k' v'))) (ground (arith, read))
      follows
Follows-down t db k v (tip k' v') (b ∷ path) level key rel s shallow fits =
    let (value, read, follows) = Follows-tip t db k v k' v' (b ∷ path) level key rel s fits in
    subst (Follows siblings_of t (b ∷ path) k v (graft t level (b ∷ path) k v (tip k' v')))
      (ground (arith, read)) follows
Follows-down t db k v (fork l r) [] level key rel s shallow fits = absurd shallow
Follows-down t db k v (fork l r) (true ∷ path) level key rel
      (left, right, value, made, stored, hl, hr) (_, shallow) (_, fits) =
    let h = t.hash_function in
    let sl = Holds-sized h db l left hl in
    let node =
      read_fork h db left right key value made stored sl (Holds-sized h db r right hr) rel.small in
    let rest = Follows-down t db k v r path (suc level) right rel hr shallow fits in
    subst
      (λ q. Follows siblings_of t (true ∷ path) k v (graft t level (true ∷ path) k v (fork l r)) q)
      (ground (arith, node))
      (Follows-right siblings_of (pass key left) t path k v left l (graft t (suc level) path k v r)
        (down t db k right path (suc level) false) (λ a. refl) rel (Holds-Digest h db l left hl) sl
        rest)
Follows-down t db k v (fork l r) (false ∷ path) level key rel
      (left, right, value, made, stored, hl, hr) (shallow, _) (fits, _) =
    let h = t.hash_function in
    let sr = Holds-sized h db r right hr in
    let node =
      read_fork h db left right key value made stored (Holds-sized h db l left hl) sr rel.small in
    let rest = Follows-down t db k v l path (suc level) left rel hl shallow fits in
    subst
      (λ q.
        Follows siblings_of t (false ∷ path) k v (graft t level (false ∷ path) k v (fork l r)) q)
      (ground (arith, node))
      (Follows-left siblings_of (pass key right) t path k v right r (graft t (suc level) path k v l)
        (down t db k left path (suc level) false) (λ a. refl) rel (Holds-Digest h db r right hr) sr
        rest)
