-- ===== src/Merkle/Trie/Digest.antt =====
-- The Merkle root of a tree, apart from any database, and a key added to a tree.
use vocdoni_node.Base.{
  ℕ, suc, ◌≡◌, Bool, true, false, List, [], ◌∷◌, arith, if◌then◌else◌, inl, inr,
}
use vocdoni_node.Base.Lists.{drop}
use vocdoni_node.Base.Bytes.{Bytes, bytes_equal}
use vocdoni_node.Merkle.Types.{
  HashFunction, Database, Result, Result-cases, ok, err, ◌>>=◌, key_already_exists,
  max_virtual_level, panicked,
}
use vocdoni_node.Merkle.Nodes.{
  empty_hash, fit, ceil_div8, get_path, new_leaf_value, new_intermediate, check_key_value_len,
}
use vocdoni_node.Merkle.Walk.{Tree}
use vocdoni_node.Merkle.Trie.{Trie, vacant, tip, fork, Holds}

pub intermediate_hash :
    (h : HashFunction) (l r : Bytes) (made : Bytes × Bytes)
    → new_intermediate h l r ≡ ok made
    → h.hash (l ∷ r ∷ []) ≡ ok made.0
unfolding new_intermediate
intermediate_hash h l r made e = elim (Result-cases (h.hash (l ∷ r ∷ []))) [
  | inr (x, d) ↦ absurd (ground (arith, e, d))
  | inl (x, d) ↦ ground (arith, e, d)
]

pub leaf_hash :
    (h : HashFunction) (k v : Bytes) (made : Bytes × Bytes)
    → new_leaf_value h k v ≡ ok made
    → h.hash (k ∷ v ∷ (1 ∷ []) ∷ []) ≡ ok made.0
unfolding new_leaf_value
leaf_hash h k v made e = elim (Result-cases (check_key_value_len k v)) [
  | inr (x, c) ↦ absurd (ground (arith, e, c))
  | inl (u, c) ↦ elim (Result-cases (h.hash (k ∷ v ∷ (1 ∷ []) ∷ []))) [
    | inr (x, d) ↦ absurd (ground (arith, e, c, d))
    | inl (x, d) ↦ ground (arith, e, c, d)
  ]
]

-- A key is the Merkle root of a tree.
abbrev pub Digest : HashFunction → Trie → Bytes → Type 0
Digest h vacant key = key ≡ empty_hash h
Digest h (tip k v) key = (value : Bytes) × (new_leaf_value h k v ≡ ok (key, value))
Digest h (fork l r) key =
    (left : Bytes) × (right : Bytes) × (value : Bytes) × (new_intermediate h left right
      ≡ ok (key, value))
    × Digest h l left
    × Digest h r right

pub Holds-Digest :
    (h : HashFunction) (db : Database) (t : Trie) (key : Bytes) → Holds h db t key → Digest h t key
Holds-Digest h db vacant key e = e
Holds-Digest h db (tip k v) key (value, made, _, _) = (value, made)
Holds-Digest h db (fork l r) key (left, right, value, made, _, hl, hr) =
    (left, right, value, made, Holds-Digest h db l left hl, Holds-Digest h db r right hr)

-- The path of a key of a tree.
abbrev pub path_in : Tree → Bytes → List Bool
path_in t k = get_path t.max_levels (fit (ceil_div8 t.max_levels) k)

-- Two leaves below the levels that their paths share.
unfoldable pub part : List Bool → List Bool → Trie → Trie → Result Trie
part [] old_path new old = err max_virtual_level
part (n ∷ path) [] new old = err max_virtual_level
part (true ∷ path) (true ∷ old_path) new old = do
  both ← part path old_path new old
  ok (fork vacant both)
part (false ∷ path) (false ∷ old_path) new old = do
  both ← part path old_path new old
  ok (fork both vacant)
part (true ∷ path) (false ∷ old_path) new old = ok (fork old new)
part (false ∷ path) (true ∷ old_path) new old = ok (fork new old)

-- A pair added below a level, along what is left of the path of its key.
unfoldable pub graft : Tree → ℕ → List Bool → Bytes → Bytes → Trie → Result Trie
unfolding part
graft t level path k v vacant = ok (tip k v)
graft t level path k v (tip k' v') =
    if bytes_equal k k'
    then err key_already_exists
    else part path (drop level (path_in t k')) (tip k v) (tip k' v')
graft t level [] k v (fork l r) = err panicked
graft t level (true ∷ path) k v (fork l r) = do r' ← graft t (suc level) path k v r; ok (fork l r')
graft t level (false ∷ path) k v (fork l r) = do l' ← graft t (suc level) path k v l; ok (fork l' r)
