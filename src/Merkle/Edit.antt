-- ===== src/Merkle/Edit.antt =====
-- tree/arbo/tree.go: a tree is made, read and changed. A method takes the pairs of its transaction,
-- which its caller drops where it fails.
pub mod Rising
pub mod Adding
pub mod Grafting
pub mod Keeping
use vocdoni_node.Base.{
  ℕ, zero, suc, ◌+◌, ◌*◌, ◌/◌, ◌%◌, Bool, true, false, not, Option, none, some, List, [], ◌∷◌, ◌==◌,
  ◌&&◌, if◌then◌else◌,
}
use vocdoni_node.Base.Lists.{length}
use vocdoni_node.Base.Bytes.{Bytes, codes, bytes_equal}
use vocdoni_node.Base.Words.{add64, sub64}
use vocdoni_node.Base.Dict.{lookup, insert, erase}
use vocdoni_node.Merkle.Types.{
  HashFunction, Database, Result, ok, need, refuse_if, ◌>>=◌, ◌>>◌, key_not_found, nil_root,
  snapshot_not_editable, missing_node,
}
use vocdoni_node.Merkle.Nodes.{
  empty_hash, new_leaf_value, read_leaf_value, new_intermediate, check_key_value_len,
  key_path_from_key, get_path,
}
use vocdoni_node.Merkle.Walk.{Tree, Found, down, up, delete_nodes}

abbrev pub db_key_root : Bytes
db_key_root = codes "arbo/root/"

abbrev pub db_key_n_leafs : Bytes
db_key_n_leafs = codes "arbo/nleafs/"

-- `binary.LittleEndian` on a number of bytes
unfoldable pub put_le : ℕ → ℕ → Bytes
put_le zero n = []
put_le (suc size) n = n % 256 ∷ put_le size (n / 256)

unfoldable pub get_le : Bytes → ℕ
get_le [] = 0
get_le (b ∷ bs) = b + 256 * get_le bs

unfoldable pub set_n_leafs : ℕ → Database → Database
unfolding put_le
set_n_leafs n db = insert db_key_n_leafs (put_le 8 n) db

unfoldable pub get_n_leafs : Database → Result ℕ
unfolding get_le
get_n_leafs db = do bytes ← need (lookup db_key_n_leafs db) key_not_found; ok (get_le bytes)

unfoldable pub inc_n_leafs : ℕ → Database → Result Database
unfolding get_n_leafs set_n_leafs
inc_n_leafs n db = do old ← get_n_leafs db; ok (set_n_leafs (add64 old n) db)

unfoldable pub dec_n_leafs : ℕ → Database → Result Database
unfolding get_n_leafs set_n_leafs
dec_n_leafs n db = do old ← get_n_leafs db; ok (set_n_leafs (sub64 old n) db)

unfoldable pub set_root : Bytes → Database → Database
set_root root db = insert db_key_root root db

unfoldable pub set_to_empty_tree : HashFunction → Database → Database
unfolding set_n_leafs
set_to_empty_tree h db = set_n_leafs 0 (insert db_key_root (empty_hash h) db)

abbrev pub tree_of : HashFunction → ℕ → Bytes → Tree
tree_of h max_levels empty_node = record {
  max_levels = max_levels;
  snapshot_root = none;
  hash_function = h;
  empty_node = empty_node;
}

-- `NewTreeWithTx`: a new tree, or the one that the database holds.
unfoldable pub new_tree_with_tx : HashFunction → ℕ → Database → Result (Tree × Database)
unfolding set_to_empty_tree
new_tree_with_tx h max_levels db = do
  empty ← new_intermediate h (empty_hash h) (empty_hash h)
  elim (lookup db_key_root db) [
    | none ↦ ok (tree_of h max_levels empty.0, set_to_empty_tree h db)
    | some _ ↦ ok (tree_of h max_levels empty.0, db)
  ]

-- `RootWithTx`
unfoldable pub root_with_tx : Tree → Database → Result Bytes
root_with_tx t db = elim t.snapshot_root [
  | some root ↦ ok root
  | none ↦ need (lookup db_key_root db) key_not_found
]

unfoldable pub editable : Tree → Bool
editable t = elim t.snapshot_root [ none ↦ true | some _ ↦ false ]

-- The path of a key in a tree.
unfoldable pub path_of : Tree → Bytes → Result (List Bool)
path_of t k = do key ← key_path_from_key t.max_levels k; ok (get_path t.max_levels key)

-- The end of `add`: the new root. Without siblings the tree was empty, and the leaf is the root.
unfoldable pub hang : Tree → List Bool → Found → Bytes → Database → Result (Bytes × Database)
hang t path found leaf_key db = if length found.siblings == 0 then ok (leaf_key, db) else (do
  r ← up t db leaf_key found.siblings path
  ok (r.0, delete_nodes found.intermediates r.1))

-- `add`, from level 0.
unfoldable pub add : Tree → Database → Bytes → Bytes → Bytes → Result (Bytes × Database)
unfolding path_of hang
add t db root k v = do
  check_key_value_len k v
  path ← path_of t k
  found ← down t db k root path 0 false
  made ← new_leaf_value t.hash_function k v
  hang t path found made.0 (insert made.0 made.1 db)

-- `addWithTx`
unfoldable pub add_unlocked : Tree → Bytes → Bytes → Database → Result Database
unfolding set_root inc_n_leafs root_with_tx
add_unlocked t k v db = do
  root ← root_with_tx t db
  r ← add t db root k v
  inc_n_leafs 1 (set_root r.0 r.1)

unfoldable pub add_with_tx : Tree → Bytes → Bytes → Database → Result Database
unfolding editable add_unlocked
add_with_tx t k v db = do refuse_if (not (editable t)) snapshot_not_editable; add_unlocked t k v db

-- `UpdateWithTx` once the old leaf is found under another key than the new one.
unfoldable pub replace_leaf :
    Tree → List Bool → Bytes → List Bytes → List Bytes → Bytes × Bytes → Database → Result Database
unfolding set_root
replace_leaf t path old_leaf siblings intermediates (leaf_key, leaf_value) db =
    let stored = insert leaf_key leaf_value (erase old_leaf db) in
    if length siblings == 0 then ok (set_root leaf_key stored) else (do
      r ← up t stored leaf_key siblings path
      ok (set_root r.0 (delete_nodes intermediates r.1)))

unfoldable pub update_with_tx : Tree → Bytes → Bytes → Database → Result Database
unfolding editable path_of root_with_tx replace_leaf
update_with_tx t k v db = do
  refuse_if (not (editable t)) snapshot_not_editable
  path ← path_of t k
  root ← root_with_tx t db
  found ← down t db k root path 0 true
  old ← read_leaf_value found.value
  refuse_if (not (bytes_equal old.0 k)) key_not_found
  made ← new_leaf_value t.hash_function k v
  if bytes_equal found.key made.0
      then ok db
      else replace_leaf t path found.key found.siblings found.intermediates made db

-- What `GetWithTx` returns beside an error: the leaf on the path, and whether it is of the key.
unfoldable pub get_with_tx : Tree → Bytes → Database → Result (Bytes × Bytes × Bool)
unfolding path_of root_with_tx
get_with_tx t k db = do
  path ← path_of t k
  root ← root_with_tx t db
  found ← down t db k root path 0 true
  pair ← read_leaf_value found.value
  ok (pair.0, pair.1, bytes_equal k pair.0)

-- `SetRootWithTx`
unfoldable pub set_root_with_tx : Tree → Option Bytes → Database → Result Database
unfolding editable
set_root_with_tx t root db = do
  refuse_if (not (editable t)) snapshot_not_editable
  r ← need root nil_root
  need (lookup r db) missing_node
  ok (insert db_key_root r db)

unfoldable pub absent : Option Bytes → Bool
absent none = true
absent (some _) = false

-- `Snapshot`; the copy has no empty node, and can not be changed.
unfoldable pub snapshot : Tree → Option Bytes → Database → Result Tree
unfolding root_with_tx absent
snapshot t from_root db = do
  root ← elim from_root [ some r ↦ ok r | none ↦ root_with_tx t db ]
  refuse_if (not (bytes_equal root (empty_hash t.hash_function)) && absent (lookup root db))
      missing_node
  ok (record t { snapshot_root = some root; empty_node = [] })
