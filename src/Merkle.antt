-- ===== src/Merkle.antt =====
-- tree/arbo: the sparse Merkle tree that holds the state and the censuses.
pub mod Types
pub mod Nodes
pub mod Walk
pub mod Edit
pub mod Delete
pub mod Proof
pub mod Trie
