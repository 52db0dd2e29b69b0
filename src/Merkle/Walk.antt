-- ===== src/Merkle/Walk.antt =====
-- tree/arbo/navigate.go: the ways down and up the tree.
use vocdoni_node.Base.{
  ℕ, suc, ◌+◌, ◌*◌, Bool, true, false, not, Option, List, [], ◌∷◌, ◌==◌, if◌then◌else◌,
}
use vocdoni_node.Base.Lists.{length, drop}
use vocdoni_node.Base.Bytes.{Bytes, bytes_equal}
use vocdoni_node.Base.Dict.{lookup, insert, erase}
use vocdoni_node.Merkle.Types.{
  HashFunction, Database, Result, ok, err, need, refuse_if, ◌>>=◌, ◌>>◌, invalid_value_prefix,
  invalid_length, missing_node, key_already_exists, max_virtual_level, panicked,
}
use vocdoni_node.Merkle.Nodes.{
  empty_hash, read_leaf_value, read_intermediate_childs, new_intermediate, key_path_from_key,
  get_path,
}

-- `Tree`, without its database. A tree with a snapshot root is read-only.
pub record Tree : Type 0 where
  pub max_levels : ℕ
  pub snapshot_root : Option Bytes
  pub hash_function : HashFunction
  pub empty_node : Bytes

-- What stands under a key.
pub data Node : Type 0 where
  empty_value : Node
  leaf : Bytes → Node
  intermediate : Bytes → Bytes → Node

-- The switch on the first byte. A leaf is never equal to the value of an empty node.
unfoldable pub decode_node : HashFunction → Bytes → Result Node
decode_node h [] = err panicked
decode_node h (p ∷ rest) =
    if p == 0
    then err panicked
    else if p == 1
    then ok (leaf (p ∷ rest))
    else if not (p == 2)
    then err invalid_value_prefix
    else (do
      refuse_if (not (length (p ∷ rest) == 2 + h.len * 2)) invalid_length
      children ← read_intermediate_childs (p ∷ rest)
      ok (intermediate children.0 children.1))

unfoldable pub read_node : HashFunction → Database → Bytes → Result Node
unfolding decode_node
read_node h db key =
    if bytes_equal key (empty_hash h)
    then ok empty_value
    else (do value ← need (lookup key db) missing_node; decode_node h value)

-- Where a way down ends: the key and the value there, the siblings and the intermediate nodes that
-- were passed, from the top.
pub record Found : Type 0 where
  pub key : Bytes
  pub value : Bytes
  pub siblings : List Bytes
  pub intermediates : List Bytes

-- `downVirtually`: the levels below a leaf, until its path and the new one part.
unfoldable pub down_virtually : HashFunction → Bytes → List Bool → List Bool → Result (List Bytes)
down_virtually h old_key [] new_path = err max_virtual_level
down_virtually h old_key (o ∷ old_path) [] = err max_virtual_level
down_virtually h old_key (o ∷ old_path) (n ∷ new_path) = elim o [
  | true ↦ elim n [
    | true ↦ do rest ← down_virtually h old_key old_path new_path; ok (empty_hash h ∷ rest)
    | false ↦ ok (old_key ∷ [])
  ]
  | false ↦ elim n [
    | true ↦ ok (old_key ∷ [])
    | false ↦ do rest ← down_virtually h old_key old_path new_path; ok (empty_hash h ∷ rest)
  ]
]

-- What `down` does at a leaf.
unfoldable pub at_leaf : Tree → Bytes → Bytes → Bytes → ℕ → List Bool → Bool → Result Found
unfolding down_virtually
at_leaf t new_key key value level path true =
    ok (record { key = key; value = value; siblings = []; intermediates = [] })
at_leaf t new_key key value level path false = do
  old ← read_leaf_value value
  refuse_if (bytes_equal new_key old.0) key_already_exists
  old_key ← key_path_from_key t.max_levels old.0
  siblings ← down_virtually t.hash_function key (drop level (get_path t.max_levels old_key)) path
  ok (record { key = key; value = value; siblings = siblings; intermediates = [] })

abbrev pub nothing_at : Bytes → Found
nothing_at key = record { key = key; value = 0 ∷ []; siblings = []; intermediates = [] }

-- One level passed on the way.
abbrev pub pass : Bytes → Bytes → Found → Found
pass key sibling f = record f {
  siblings = sibling ∷ f.siblings;
  intermediates = key ∷ f.intermediates;
}

-- `down`, where `path` is what is left of the path at the level. An intermediate node with no level
-- left is an index out of range, so that the test for the greatest level is never met.
unfoldable pub down : Tree → Database → Bytes → Bytes → List Bool → ℕ → Bool → Result Found
unfolding read_node at_leaf
down t db new_key key [] level get_leaf = do
  node ← read_node t.hash_function db key
  elim node [
    | empty_value ↦ ok (nothing_at key)
    | leaf value ↦ at_leaf t new_key key value level [] get_leaf
    | intermediate l r ↦ err panicked
  ]
down t db new_key key (b ∷ path) level get_leaf = do
  node ← read_node t.hash_function db key
  elim node [
    | empty_value ↦ ok (nothing_at key)
    | leaf value ↦ at_leaf t new_key key value level (b ∷ path) get_leaf
    | intermediate l r ↦ elim b [
      | true ↦ do found ← down t db new_key r path (suc level) get_leaf; ok (pass key l found)
      | false ↦ do found ← down t db new_key l path (suc level) get_leaf; ok (pass key r found)
    ]
  ]

-- A parent, with the sibling on the side that the bit leaves.
unfoldable pub parent : HashFunction → Bool → Bytes → Bytes → Result (Bytes × Bytes)
parent h true sibling key = new_intermediate h sibling key
parent h false sibling key = new_intermediate h key sibling

-- A parent of two empty children is empty, and is not stored.
unfoldable pub store_parent : Tree → Bytes × Bytes → Database → Bytes × Database
store_parent t (key, value) db =
    if bytes_equal key t.empty_node
    then (empty_hash t.hash_function, db)
    else (key, insert key value db)

-- `up`: the deepest sibling is the last one. Where there is no sibling, the callers take the key.
unfoldable pub up : Tree → Database → Bytes → List Bytes → List Bool → Result (Bytes × Database)
unfolding parent store_parent
up t db key [] path = ok (key, db)
up t db key (s ∷ siblings) [] = err panicked
up t db key (s ∷ siblings) (b ∷ path) = do
  below ← up t db key siblings path
  made ← parent t.hash_function b s below.0
  ok (store_parent t made below.1)

unfoldable pub delete_nodes : List Bytes → Database → Database
delete_nodes [] db = db
delete_nodes (k ∷ ks) db = delete_nodes ks (erase k db)
