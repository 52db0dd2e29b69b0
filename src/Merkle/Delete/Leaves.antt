-- ===== src/Merkle/Delete/Leaves.antt =====
-- The walk over the leaves of a subtree.
use vocdoni_node.Base.{
  Bool-cases, Option-cases, inl, inr, ◌==◌, ℕ, zero, suc, ◌≡◌, List, [], ◌∷◌, ◌++◌, arith, ◌≤◌,
}
use vocdoni_node.Base.Bytes.{Bytes, bytes_equal}
use vocdoni_node.Base.Dict.{lookup}
use vocdoni_node.Merkle.Types.{HashFunction, Database, ok}
use vocdoni_node.Merkle.Nodes.{empty_hash}
use vocdoni_node.Merkle.Walk.{Node, empty_value, leaf, intermediate, decode_node, read_node}
use vocdoni_node.Merkle.Trie.{Trie, vacant, tip, fork, Shallow, Holds}
use vocdoni_node.Merkle.Trie.Reading.{
  Holds-sized, read_vacant, read_tip, read_fork, new_leaf_value-roundtrip,
}
use vocdoni_node.Merkle.Delete.{decode_below, read_below, leaves_from}

decode_below_lem :
    (h : HashFunction) (value : Bytes) (n : Node)
    → decode_node h value ≡ ok n
    → decode_below h value ≡ ok n
unfolding decode_below decode_node
decode_below_lem h [] n e = e
decode_below_lem h (p ∷ rest) n e = elim (Bool-cases (p == 0)) [
  | inl b ↦ absurd (ground (arith, e, b))
  | inr b ↦ ground (arith, e, b)
]

-- What the ways down the tree read, the walk reads too.
read_below_lem :
    (h : HashFunction) (db : Database) (key : Bytes) (n : Node)
    → read_node h db key ≡ ok n
    → read_below h db key ≡ ok n
unfolding read_below read_node
read_below_lem h db key n e = elim (Bool-cases (bytes_equal key (empty_hash h))) [
  | inl b ↦ ground (arith, e, b)
  | inr b ↦ elim (Option-cases (lookup key db)) [
    | inl none_there ↦ absurd (ground (arith, e, b, none_there))
    | inr (value, there) ↦
        let decoded : decode_node h value ≡ ok n = ground (arith, e, b, there) in
        ground (arith, b, there, decode_below_lem h value n decoded)
  ]
]

-- The pairs of a trie, from the left.
abbrev pub pairs : Trie → List (Bytes × Bytes)
pairs vacant = []
pairs (tip k v) = (k, v) ∷ []
pairs (fork l r) = pairs l ++ pairs r

-- With fuel for one level more than the depth of the trie that the database holds, the walk over the
-- leaves ends, and gives the pairs of the trie from the left to the right.
pub leaves_from-pairs :
    (h : HashFunction) (db : Database) (trie : Trie) (n : ℕ) (key : Bytes)
    → h.len ≤ 253
    → Holds h db trie key
    → Shallow n trie
    → leaves_from (suc n) h db key ≡ ok (pairs trie)
unfolding leaves_from
leaves_from-pairs h db vacant n key small s shallow =
    ground (arith, read_below_lem h db key empty_value (read_vacant h db key s))
leaves_from-pairs h db (tip k v) n key small (value, made, stored, few) shallow = ground (
  arith,
  read_below_lem h db key (leaf value) (read_tip h db k v key value made stored),
  new_leaf_value-roundtrip h k v key value made few,
)
leaves_from-pairs h db (fork l r) zero key small s shallow = absurd shallow
leaves_from-pairs h db (fork l r) (suc n) key small (left, right, value, made, stored, hl, hr)
      (sl, sr) =
    let node =
      read_fork h db left right key value made stored (Holds-sized h db l left hl)
        (Holds-sized h db r right hr) small in
    let of_left = leaves_from-pairs h db l n left small hl sl in
    let of_right = leaves_from-pairs h db r n right small hr sr in
    ground (arith, read_below_lem h db key (intermediate left right) node, of_left, of_right)
