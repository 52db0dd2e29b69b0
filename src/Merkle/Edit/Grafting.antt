-- ===== src/Merkle/Edit/Grafting.antt =====
-- `add` puts a pair into the tree and keeps the others.
use vocdoni_node.Base.{◌≤◌, ◌≡◌, ◌≢◌, ◌%◌, ◌++◌, sym, subst, Bool, false, List, [], ◌∷◌, arith}
use vocdoni_node.Base.Lists.{length}
use vocdoni_node.Base.Bytes.{Bytes}
use vocdoni_node.Base.Dict.{insert}
use vocdoni_node.Merkle.Types.{HashFunction, Database, Result, ok, err}
use vocdoni_node.Merkle.Nodes.{fit, empty_hash, ceil_div8, new_leaf_value, check_key_value_len}
use vocdoni_node.Merkle.Walk.{Tree, up, delete_nodes, down}
use vocdoni_node.Merkle.Edit.{hang, add}
use vocdoni_node.Merkle.Edit.Rising.{Reliable}
use vocdoni_node.Merkle.Edit.Adding.{KeysFit, Follows, siblings_of, Follows-down}
use vocdoni_node.Merkle.Trie.{Trie, Shallow, Holds}
use vocdoni_node.Merkle.Trie.Paths.{length-get_path}
use vocdoni_node.Merkle.Trie.Digest.{Digest, path_in, graft}
use vocdoni_node.Merkle.Proof.Complete.{path_of-fits}

hang-up :
    (t : Tree) (path : List Bool) (key value : Bytes) (siblings intermediates : List Bytes)
    (leaf_key : Bytes) (db db' : Database) (root : Bytes)
    → up t db leaf_key siblings path ≡ ok (root, db')
    → (db'' : Database) × (hang t path
          (record { key = key; value = value; siblings = siblings; intermediates = intermediates })
          leaf_key
          db
        ≡ ok (root, db''))
unfolding hang up
hang-up t path key value [] intermediates leaf_key db db' root e = (db', e)
hang-up t path key value (s ∷ siblings) intermediates leaf_key db db' root e =
    (delete_nodes intermediates db', ground (arith, e))

made_leaf :
    (t : Tree) (k v : Bytes)
    → Reliable t.hash_function t.empty_node
    → length k ≤ 255
    → length v ≤ 65535
    → (key : Bytes) × (value : Bytes) × (new_leaf_value t.hash_function k v ≡ ok (key, value))
      × (length key ≡ t.hash_function.len)
      × (key ≢ empty_hash t.hash_function)
unfolding new_leaf_value check_key_value_len
made_leaf t k v rel nk nv =
    let (key, hashed, sized, full) = rel.total (k ∷ v ∷ (1 ∷ []) ∷ []) in
    (key, 1 ∷ length k % 256 ∷ (k ++ v), ground (arith, hashed, nk, nv), sized, full)

-- A new root is the Merkle root of the tree, or the error is the same.
abbrev pub Implements : HashFunction → Result Trie → Result (Bytes × Database) → Type 0
Implements h (ok trie) r =
    (root : Bytes) × (db : Database) × (r ≡ ok (root, db)) × Digest h trie root
Implements h (err e) r = r ≡ err e

Follows-Implements :
    (t : Tree) (db : Database) (root k v : Bytes) (m : Result Trie)
    → Reliable t.hash_function t.empty_node
    → length k ≤ ceil_div8 t.max_levels
    → length k ≤ 255
    → length v ≤ 65535
    → Follows siblings_of t (path_in t k) k v m (down t db k root (path_in t k) 0 false)
    → Implements t.hash_function m (add t db root k v)
unfolding add check_key_value_len
Follows-Implements t db root k v (ok x) rel few nk nv (f, run, rises) =
    let (key, value, made, sized, full) = made_leaf t k v rel nk nv in
    let (root', db', risen, digest, _, _) =
      rises (insert key value db) key (value, made) sized full in
    let (db'', hung) =
      hang-up t (path_in t k) f.key f.value f.siblings f.intermediates key (insert key value db) db'
        root' risen in
    (root', db'', ground (arith, nk, nv, path_of-fits t k few, run, made, hung), digest)
Follows-Implements t db root k v (err e) rel few nk nv run =
    ground (arith, nk, nv, path_of-fits t k few, run)

-- Where the database holds a trie under the root that `add` is given, for a key and a value of
-- lengths that are accepted: where the key can be put into the trie, `add` succeeds and gives the
-- Merkle root of the trie with the key; where it can not, since the key is there or its path and that
-- of another key are the same, `add` gives that error. The hash function takes every input, gives
-- the empty key for none and the key of the empty node for empty children only.
pub add-Implements :
    (t : Tree) (db : Database) (root k v : Bytes) (trie : Trie)
    → Reliable t.hash_function t.empty_node
    → Holds t.hash_function db trie root
    → Shallow t.max_levels trie
    → KeysFit (ceil_div8 t.max_levels) trie
    → length k ≤ ceil_div8 t.max_levels
    → length k ≤ 255
    → length v ≤ 65535
    → Implements t.hash_function (graft t 0 (path_in t k) k v trie) (add t db root k v)
add-Implements t db root k v trie rel holds shallow fits few nk nv =
    let size = length-get_path t.max_levels (fit (ceil_div8 t.max_levels) k) in
    Follows-Implements t db root k v (graft t 0 (path_in t k) k v trie) rel few nk nv (
      Follows-down t db k v trie (path_in t k) 0 root rel holds
        (subst (λ n. Shallow n trie) (sym size) shallow) fits)
