-- ===== src/Merkle/Trie.antt =====
-- The tree that a database of nodes stands for: an abstract description of tree/arbo.
pub mod Reading
pub mod Way
pub mod Paths
pub mod Digest
use vocdoni_node.Base.{
  ℕ, zero, suc, ◌≤◌, ◌≡◌, ◌≢◌, Bool, true, false, Option, none, some, List, [], ◌∷◌,
}
use vocdoni_node.Base.Lists.{length}
use vocdoni_node.Base.Bytes.{Bytes}
use vocdoni_node.Base.Dict.{lookup}
use vocdoni_node.Merkle.Types.{HashFunction, Database, ok}
use vocdoni_node.Merkle.Nodes.{empty_hash, new_leaf_value, new_intermediate}

pub data Trie : Type 0 where
  vacant : Trie
  tip : Bytes → Bytes → Trie
  fork : Trie → Trie → Trie

-- The pair that a path leads to.
abbrev pub reached : List Bool → Trie → Option (Bytes × Bytes)
reached path vacant = none
reached path (tip k v) = some (k, v)
reached [] (fork l r) = none
reached (true ∷ path) (fork l r) = reached path r
reached (false ∷ path) (fork l r) = reached path l

-- No leaf is deeper than a number of levels.
abbrev pub Shallow : ℕ → Trie → Type 0
Shallow n vacant = Unit
Shallow n (tip k v) = Unit
Shallow zero (fork l r) = ⊥
Shallow (suc n) (fork l r) = Shallow n l × Shallow n r

-- Two subtrees that a fork is for: together they have two leaves at least.
abbrev pub Branching : Trie → Trie → Type 0
Branching vacant vacant = ⊥
Branching vacant (tip k v) = ⊥
Branching (tip k v) vacant = ⊥
Branching _ _ = Unit

abbrev pub Compact : Trie → Type 0
Compact vacant = Unit
Compact (tip k v) = Unit
Compact (fork l r) = Branching l r × Compact l × Compact r

-- A node with its value: its key has the length of a hash, and is not the empty one.
pub record Stored (h : HashFunction) (db : Database) (key value : Bytes) : Type 0 where
  pub sized : length key ≡ h.len
  pub not_empty : key ≢ empty_hash h
  pub found : lookup key db ≡ some value

-- The database holds a tree under a key. The keys of the leaves have at most 253 bytes.
abbrev pub Holds : HashFunction → Database → Trie → Bytes → Type 0
Holds h db vacant key = key ≡ empty_hash h
Holds h db (tip k v) key =
    (value : Bytes) × (new_leaf_value h k v ≡ ok (key, value))
    × Stored h db key value
    × (length k ≤ 253)
Holds h db (fork l r) key =
    (left : Bytes) × (right : Bytes) × (value : Bytes) × (new_intermediate h left right
      ≡ ok (key, value))
    × Stored h db key value
    × Holds h db l left
    × Holds h db r right
