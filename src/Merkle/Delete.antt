-- ===== src/Merkle/Delete.antt =====
-- The deletion of a key in tree/arbo/tree.go, with `getLeavesFromSubPath` of tree/arbo/navigate.go.
pub mod Single
pub mod Leaves
use vocdoni_node.Base.{ℕ, zero, suc, true, not, List, [], ◌∷◌, ◌++◌, ◌==◌, if◌then◌else◌}
use vocdoni_node.Base.Lists.{length}
use vocdoni_node.Base.Bytes.{Bytes, bytes_equal}
use vocdoni_node.Base.Dict.{lookup, insert, erase}
use vocdoni_node.Merkle.Types.{
  HashFunction, Database, Result, ok, err, refuse_if, ◌>>=◌, ◌>>◌, snapshot_not_editable,
  out_of_fuel, need, missing_node, panicked,
}
use vocdoni_node.Merkle.Nodes.{empty_hash, read_leaf_value, get_path}
use vocdoni_node.Merkle.Walk.{
  Tree, Node, Found, empty_value, leaf, intermediate, decode_node, down, up, delete_nodes,
}
use vocdoni_node.Merkle.Edit.{
  set_root, set_to_empty_tree, dec_n_leafs, root_with_tx, editable, add_unlocked,
}

-- A node as `getLeavesFromSubPath` reads it: here a value may be empty.
unfoldable pub decode_below : HashFunction → Bytes → Result Node
unfolding decode_node
decode_below h [] = err panicked
decode_below h (p ∷ rest) = if p == 0 then ok empty_value else decode_node h (p ∷ rest)

unfoldable pub read_below : HashFunction → Database → Bytes → Result Node
unfolding decode_below
read_below h db key =
    if bytes_equal key (empty_hash h)
    then ok empty_value
    else (do value ← need (lookup key db) missing_node; decode_below h value)

-- `getLeavesFromSubPath`; the fuel is a bound on the depth.
unfoldable pub leaves_from : ℕ → HashFunction → Database → Bytes → Result (List (Bytes × Bytes))
unfolding read_below
leaves_from zero h db key = err out_of_fuel
leaves_from (suc fuel) h db key = do
  node ← read_below h db key
  elim node [
    | empty_value ↦ ok []
    | leaf value ↦ do pair ← read_leaf_value value; ok (pair ∷ [])
    | intermediate l r ↦ do
      left ← leaves_from fuel h db l
      right ← leaves_from fuel h db r
      ok (left ++ right)
  ]

abbrev last_or : Bytes → List Bytes → Bytes
last_or d [] = d
last_or d (x ∷ xs) = last_or x xs

-- The leaves beside the one that goes, and what is written of that one.
unfoldable pub neighbours : Tree → Found → Database → Result (List (Bytes × Bytes) × Database)
unfolding leaves_from
neighbours t found db =
    let h = t.hash_function in
    let last = last_or [] found.siblings in
    if bytes_equal last (empty_hash h) then ok ([], erase found.key db) else (do
      leaves ← leaves_from (suc t.max_levels) h db last
      ok (leaves, if length leaves == 0 then insert found.key (empty_hash h) db else db))

-- Each neighbour is deleted and added again.
unfoldable pub move_each :
    (Bytes → Database → Result Database) → Tree → List (Bytes × Bytes) → Database → Result Database
move_each delete t [] db = ok db
move_each delete t ((k, v) ∷ rest) db = do
  gone ← delete k db
  back ← add_unlocked t k v gone
  move_each delete t rest back

-- `deleteWithTx`; the fuel bounds the nesting of the calls for neighbours. The key of the leaf that is
-- found is not compared.
unfoldable pub delete_unlocked : ℕ → Tree → Bytes → Database → Result Database
unfolding neighbours move_each
delete_unlocked zero t k db = err out_of_fuel
delete_unlocked (suc fuel) t k db =
    let again = delete_unlocked fuel t in
    let path = get_path t.max_levels k in
    do
      root ← root_with_tx t db
      found ← down t db k root path 0 true
      if length found.siblings == 0
          then ok (set_to_empty_tree t.hash_function (erase found.key db))
          else (do
            beside ← neighbours t found db
            r ← up t beside.1 (empty_hash t.hash_function) found.siblings path
            moved ← move_each again t beside.0 (set_root r.0 (delete_nodes found.intermediates r.1))
            dec_n_leafs 1 moved)

-- `DeleteWithTx`
unfoldable pub delete_with_tx : ℕ → Tree → Bytes → Database → Result Database
unfolding delete_unlocked
delete_with_tx fuel t k db = do
  refuse_if (not (editable t)) snapshot_not_editable
  delete_unlocked fuel t k db
