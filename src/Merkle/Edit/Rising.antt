-- ===== src/Merkle/Edit/Rising.antt =====
-- The way up from a new leaf gives the Merkle root of the tree with the leaf.
use vocdoni_node.Base.{◌≤◌, ◌≡◌, ◌≢◌, ◌∙◌, refl, ap, Bool, true, false, List, [], ◌∷◌, ◌++◌, arith}
use vocdoni_node.Base.Lists.{length}
use vocdoni_node.Base.Bytes.{Bytes, bytes_equal_iff}
use vocdoni_node.Base.Dict.{insert}
use vocdoni_node.Merkle.Types.{HashFunction, Database, ok}
use vocdoni_node.Merkle.Nodes.{fit, empty_hash, new_intermediate}
use vocdoni_node.Merkle.Walk.{Tree, parent, store_parent, up}
use vocdoni_node.Merkle.Trie.{Trie, tip, fork}
use vocdoni_node.Merkle.Trie.Digest.{Digest}

-- A hash function that takes every input, gives no key of zeros only, and gives the key of the empty
-- node for two empty children only.
pub record Reliable (h : HashFunction) (empty_node : Bytes) : Type 0 where
  pub total :
      (inputs : List Bytes)
      → (key : Bytes) × (h.hash inputs ≡ ok key) × (length key ≡ h.len) × (key ≢ empty_hash h)
  pub only_empty :
      (l r : Bytes)
      → length l ≡ h.len
      → length r ≡ h.len
      → h.hash (l ∷ r ∷ []) ≡ ok empty_node
      → (l ≡ empty_hash h) × (r ≡ empty_hash h)
  pub small : h.len ≤ 253

abbrev pub Rises : Tree → List Bool → List Bytes → Bytes → Bytes → Trie → Type 0
Rises t path siblings k v trie =
    (db : Database) (x : Bytes)
    → Digest t.hash_function (tip k v) x
    → length x ≡ t.hash_function.len
    → x ≢ empty_hash t.hash_function
    → (root : Bytes) × (db' : Database) × (up t db x siblings path ≡ ok (root, db'))
      × Digest t.hash_function trie root
      × (length root ≡ t.hash_function.len)
      × (root ≢ empty_hash t.hash_function)

made_intermediate :
    (h : HashFunction) (empty_node l r : Bytes)
    → Reliable h empty_node
    → length l ≡ h.len
    → (key : Bytes) × (value : Bytes) × (new_intermediate h l r ≡ ok (key, value))
      × (h.hash (l ∷ r ∷ []) ≡ ok key)
      × (length key ≡ h.len)
      × (key ≢ empty_hash h)
unfolding new_intermediate
made_intermediate h empty_node l r rel n =
    let (key, hashed, sized, full) = rel.total (l ∷ r ∷ []) in
    (
      key,
      2 ∷ length l ∷ (fit h.len l ++ fit h.len r),
      ground (arith, hashed, n, rel.small),
      hashed,
      sized,
      full,
    )

pub Rises-right :
    (t : Tree) (path : List Bool) (siblings : List Bytes) (k v s : Bytes) (o trie : Trie)
    → Reliable t.hash_function t.empty_node
    → Digest t.hash_function o s
    → length s ≡ t.hash_function.len
    → Rises t path siblings k v trie
    → Rises t (true ∷ path) (s ∷ siblings) k v (fork o trie)
unfolding up parent store_parent
Rises-right t path siblings k v s o trie rel d n rises db x dx nx fx =
    let h = t.hash_function in
    let (r, db', run, dr, nr, fr) = rises db x dx nx fx in
    let (key, value, made, hashed, sized, full) = made_intermediate h t.empty_node s r rel n in
    let apart : key ≢ t.empty_node = λ e. fr ((rel.only_empty s r n nr (hashed ∙ ap ok e)).1) in
    (
      key,
      insert key value db',
      ground (arith, run, made, apart, bytes_equal_iff key t.empty_node),
      (s, r, value, made, d, dr),
      sized,
      full,
    )

pub Rises-left :
    (t : Tree) (path : List Bool) (siblings : List Bytes) (k v s : Bytes) (o trie : Trie)
    → Reliable t.hash_function t.empty_node
    → Digest t.hash_function o s
    → length s ≡ t.hash_function.len
    → Rises t path siblings k v trie
    → Rises t (false ∷ path) (s ∷ siblings) k v (fork trie o)
unfolding up parent store_parent
Rises-left t path siblings k v s o trie rel d n rises db x dx nx fx =
    let h = t.hash_function in
    let (r, db', run, dr, nr, fr) = rises db x dx nx fx in
    let (key, value, made, hashed, sized, full) = made_intermediate h t.empty_node r s rel nr in
    let apart : key ≢ t.empty_node = λ e. fr ((rel.only_empty r s nr n (hashed ∙ ap ok e)).0) in
    (
      key,
      insert key value db',
      ground (arith, run, made, apart, bytes_equal_iff key t.empty_node),
      (r, s, value, made, dr, d),
      sized,
      full,
    )

pub Rises-here : (t : Tree) (path : List Bool) (k v : Bytes) → Rises t path [] k v (tip k v)
unfolding up
Rises-here t path k v db x dx nx fx = (x, db, refl, dx, nx, fx)
