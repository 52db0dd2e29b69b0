-- ===== src/Merkle/Nodes.antt =====
-- The encoding of nodes and the path of a key: tree/arbo/utils.go, and the node functions of
-- tree/arbo/navigate.go.
use vocdoni_node.Base.{
  ℕ, zero, suc, ◌+◌, ◌/◌, ◌%◌, ◌^◌, Bool, List, [], ◌∷◌, ◌++◌, ltb, ◌==◌, if◌then◌else◌,
}
use vocdoni_node.Base.Lists.{length, take, drop, replicate, get_or}
use vocdoni_node.Base.Bytes.{Bytes}
use vocdoni_node.Merkle.Types.{
  HashFunction, Result, ok, err, refuse_if, ◌>>=◌, ◌>>◌, key_too_long, value_too_long,
  child_too_long, path_too_long, panicked,
}

abbrev pub max_uint8 : ℕ
max_uint8 = 255

abbrev pub max_uint16 : ℕ
max_uint16 = 65535

-- `make([]byte, n)` with `copy(b, k)`: cut, or filled with zeros.
unfoldable pub fit : ℕ → Bytes → Bytes
fit zero k = []
fit (suc n) [] = 0 ∷ fit n []
fit (suc n) (x ∷ k) = x ∷ fit n k

unfoldable pub check_key_value_len : Bytes → Bytes → Result (Unit {0})
check_key_value_len k v = do
  refuse_if (ltb max_uint8 (length k)) key_too_long
  refuse_if (ltb max_uint16 (length v)) value_too_long

-- `newLeafValue`: the key of the leaf in the database, and what is stored under it.
unfoldable pub new_leaf_value : HashFunction → Bytes → Bytes → Result (Bytes × Bytes)
unfolding check_key_value_len
new_leaf_value h k v = do
  check_key_value_len k v
  leaf_key ← h.hash (k ∷ v ∷ (1 ∷ []) ∷ [])
  ok (leaf_key, 1 ∷ length k % 256 ∷ (k ++ v))

-- The end of the key in a leaf is a sum of bytes, which wraps.
unfoldable pub read_leaf_value : Bytes → Result (Bytes × Bytes)
read_leaf_value [] = ok ([], [])
read_leaf_value (_ ∷ []) = ok ([], [])
read_leaf_value (_ ∷ k_len ∷ rest) =
    if ltb (length rest) k_len
    then ok ([], [])
    else if ltb ((2 + k_len) % 256) 2
    then err panicked
    else ok (take k_len rest, drop k_len rest)

-- `newIntermediate`
unfoldable pub new_intermediate : HashFunction → Bytes → Bytes → Result (Bytes × Bytes)
unfolding fit
new_intermediate h l r = do
  refuse_if (ltb max_uint8 (length l)) child_too_long
  key ← h.hash (l ∷ r ∷ [])
  ok (key, 2 ∷ length l ∷ (fit h.len l ++ fit h.len r))

-- `ReadIntermediateChilds`, with the same sum of bytes.
unfoldable pub read_intermediate_childs : Bytes → Result (Bytes × Bytes)
read_intermediate_childs [] = ok ([], [])
read_intermediate_childs (_ ∷ []) = ok ([], [])
read_intermediate_childs (_ ∷ l_len ∷ rest) =
    if ltb (length rest) l_len
    then ok ([], [])
    else if ltb ((2 + l_len) % 256) 2
    then err panicked
    else ok (take l_len rest, drop l_len rest)

-- `math.Ceil(float64(n) / 8)`
abbrev pub ceil_div8 : ℕ → ℕ
ceil_div8 n = (n + 7) / 8

unfoldable pub key_path_from_key : ℕ → Bytes → Result Bytes
unfolding fit
key_path_from_key max_levels k =
    if ltb (ceil_div8 max_levels) (length k)
    then err path_too_long
    else ok (fit (ceil_div8 max_levels) k)

-- One bit of a key, the least one of each byte first; past the end are zeros.
abbrev pub bit_at : Bytes → ℕ → Bool
bit_at k i = get_or k (i / 8) 0 / 2 ^ (i % 8) % 2 == 1

unfoldable pub path_from : Bytes → ℕ → ℕ → List Bool
path_from k i zero = []
path_from k i (suc n) = bit_at k i ∷ path_from k (suc i) n

unfoldable pub get_path : ℕ → Bytes → List Bool
unfolding path_from
get_path num_levels k = path_from k 0 num_levels

-- `make([]byte, hashFunction.Len())`
abbrev pub empty_hash : HashFunction → Bytes
empty_hash h = replicate h.len 0
