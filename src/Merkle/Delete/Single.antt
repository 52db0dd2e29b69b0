-- ===== src/Merkle/Delete/Single.antt =====
-- The deletion of a key where the root is a leaf.
use vocdoni_node.Base.{ℕ, suc, ◌≡◌, ◌∙◌, Bool, true, none, some, List, [], ◌∷◌, arith}
use vocdoni_node.Base.Bytes.{Bytes, bytes_equal}
use vocdoni_node.Base.Dict.{insert, erase, lookup, lookup-insert}
use vocdoni_node.Merkle.Types.{HashFunction, Database, ok}
use vocdoni_node.Merkle.Nodes.{empty_hash, get_path}
use vocdoni_node.Merkle.Walk.{Tree, leaf, read_node, at_leaf, down}
use vocdoni_node.Merkle.Edit.{
  put_le, get_le, db_key_root, db_key_n_leafs, set_n_leafs, get_n_leafs, set_to_empty_tree,
  root_with_tx, editable,
}
use vocdoni_node.Merkle.Trie.{tip, Holds}
use vocdoni_node.Merkle.Trie.Reading.{read_tip}
use vocdoni_node.Merkle.Delete.{delete_unlocked, delete_with_tx}

down_tip :
    (t : Tree) (db : Database) (k root value : Bytes) (path : List Bool)
    → read_node t.hash_function db root ≡ ok (leaf value)
    → down t db k root path 0 true
      ≡ ok (record { key = root; value = value; siblings = []; intermediates = [] })
unfolding down at_leaf
down_tip t db k root value [] e = ground (arith, e)
down_tip t db k root value (b ∷ path) e = ground (arith, e)

empty_tree_root :
    (h : HashFunction) (db : Database)
    → lookup db_key_root (set_to_empty_tree h db) ≡ some (empty_hash h)
unfolding set_to_empty_tree set_n_leafs bytes_equal
empty_tree_root h db =
    lookup-insert db_key_n_leafs db_key_root (put_le 8 0) (insert db_key_root (empty_hash h) db)
    ∙ lookup-insert db_key_root db_key_root (empty_hash h) db

empty_tree_leafs : (h : HashFunction) (db : Database) → get_n_leafs (set_to_empty_tree h db) ≡ ok 0
unfolding set_to_empty_tree set_n_leafs bytes_equal get_n_leafs put_le get_le
empty_tree_leafs h db = ground (
  arith,
  lookup-insert db_key_n_leafs db_key_n_leafs (put_le 8 0) (insert db_key_root (empty_hash h) db),
)

-- Deleting any key, that of the leaf or not, in a tree that is no snapshot and whose root is a leaf
-- with a key of at most 253 bytes succeeds: the tree has the empty root and no leaves afterwards.
pub delete_with_tx_single :
    (t : Tree) (db : Database) (fuel : ℕ) (root k v any : Bytes)
    → t.snapshot_root ≡ none
    → lookup db_key_root db ≡ some root
    → Holds t.hash_function db (tip k v) root
    → (db' : Database) × (delete_with_tx (suc fuel) t any db ≡ ok db')
      × (root_with_tx t db' ≡ ok (empty_hash t.hash_function))
      × (get_n_leafs db' ≡ ok 0)
unfolding delete_with_tx delete_unlocked editable root_with_tx
delete_with_tx_single t db fuel root k v any live at (value, made, stored, few) =
    let h = t.hash_function in
    let found =
      down_tip t db any root value (get_path t.max_levels any)
        (read_tip h db k v root value made stored) in
    (
      set_to_empty_tree h (erase root db),
      ground (arith, live, at, found),
      ground (arith, live, empty_tree_root h (erase root db)),
      empty_tree_leafs h (erase root db),
    )
