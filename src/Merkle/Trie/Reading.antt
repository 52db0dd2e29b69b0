-- ===== src/Merkle/Trie/Reading.antt =====
-- What was encoded as a node is read back.
use vocdoni_node.Base.{ℕ, zero, suc, ◌%◌, ◌≤◌, ◌≡◌, ◌∙◌, refl, ap, [], ◌∷◌, ◌++◌, arith, inl, inr}
use vocdoni_node.Base.Lists.{length, length-append, length-replicate}
use vocdoni_node.Base.Slices.{take-append, drop-append}
use vocdoni_node.Base.Bytes.{Bytes, bytes_equal_iff}
use vocdoni_node.Merkle.Types.{HashFunction, Database, Result-cases, ok}
use vocdoni_node.Merkle.Nodes.{
  fit, empty_hash, check_key_value_len, new_leaf_value, read_leaf_value, new_intermediate,
  read_intermediate_childs,
}
use vocdoni_node.Merkle.Walk.{leaf, intermediate, empty_value, decode_node, read_node}
use vocdoni_node.Merkle.Trie.{Trie, vacant, tip, fork, Stored, Holds}

fit_same : (n : ℕ) (k : Bytes) → length k ≡ n → fit n k ≡ k
unfolding fit
fit_same zero [] h = refl
fit_same zero (x ∷ k) h = absurd (omega (arith, h))
fit_same (suc n) [] h = absurd (omega (arith, h))
fit_same (suc n) (x ∷ k) h = ap (λ t. x ∷ t) (fit_same n k (omega (arith, h)))

leaf_value :
    (h : HashFunction) (k v key value : Bytes)
    → new_leaf_value h k v ≡ ok (key, value)
    → value ≡ 1 ∷ length k % 256 ∷ (k ++ v)
unfolding new_leaf_value
leaf_value h k v key value made = elim (Result-cases (check_key_value_len k v)) [
  | inr (e, c) ↦ absurd (ground (arith, made, c))
  | inl (u, c) ↦ elim (Result-cases (h.hash (k ∷ v ∷ (1 ∷ []) ∷ []))) [
    | inr (e, d) ↦ absurd (ground (arith, made, c, d))
    | inl (x, d) ↦ ground (arith, made, c, d)
  ]
]

-- A leaf whose key has at most 253 bytes gives its key and value back.
pub new_leaf_value-roundtrip :
    (h : HashFunction) (k v key value : Bytes)
    → new_leaf_value h k v ≡ ok (key, value)
    → length k ≤ 253
    → read_leaf_value value ≡ ok (k, v)
unfolding read_leaf_value
new_leaf_value-roundtrip h k v key value made small =
    let n : length k % 256 ≡ length k = omega (arith, small) in
    let pair : read_leaf_value (1 ∷ length k ∷ (k ++ v)) ≡ ok (k, v) = ground (
      arith,
      small,
      length-append k v,
      take-append (length k) k v refl,
      drop-append (length k) k v refl,
    ) in
    ap read_leaf_value (leaf_value h k v key value made ∙ ap (λ m. 1 ∷ m ∷ (k ++ v)) n) ∙ pair

decode-leaf :
    (h : HashFunction) (k v key value : Bytes)
    → new_leaf_value h k v ≡ ok (key, value)
    → decode_node h value ≡ ok (leaf value)
unfolding decode_node
decode-leaf h k v key value made = rw (leaf_value h k v key value made) refl

intermediate_value :
    (h : HashFunction) (l r key value : Bytes)
    → new_intermediate h l r ≡ ok (key, value)
    → length l ≡ h.len
    → length r ≡ h.len
    → value ≡ 2 ∷ length l ∷ (l ++ r)
unfolding new_intermediate
intermediate_value h l r key value made sl sr = elim (Result-cases (h.hash (l ∷ r ∷ []))) [
  | inr (e, d) ↦ absurd (ground (arith, made, d))
  | inl (x, d) ↦ ground (arith, made, d, fit_same h.len l sl, fit_same h.len r sr)
]

decode-intermediate :
    (h : HashFunction) (l r key value : Bytes)
    → new_intermediate h l r ≡ ok (key, value)
    → length l ≡ h.len
    → length r ≡ h.len
    → h.len ≤ 253
    → decode_node h value ≡ ok (intermediate l r)
unfolding decode_node read_intermediate_childs
decode-intermediate h l r key value made sl sr small =
    let whole : decode_node h (2 ∷ length l ∷ (l ++ r)) ≡ ok (intermediate l r) = ground (
      arith,
      sl,
      sr,
      small,
      length-append l r,
      take-append (length l) l r refl,
      drop-append (length l) l r refl,
    ) in
    ap (decode_node h) (intermediate_value h l r key value made sl sr) ∙ whole

read-Stored :
    (h : HashFunction) (db : Database) (key value : Bytes)
    → Stored h db key value
    → read_node h db key ≡ decode_node h value
unfolding read_node
read-Stored h db key value s =
    ground (arith, s.found, s.not_empty, bytes_equal_iff key (empty_hash h))

pub read_vacant :
    (h : HashFunction) (db : Database) (key : Bytes)
    → key ≡ empty_hash h
    → read_node h db key ≡ ok empty_value
unfolding read_node
read_vacant h db key e = ground (arith, e, bytes_equal_iff key (empty_hash h))

pub Holds-sized :
    (h : HashFunction) (db : Database) (t : Trie) (key : Bytes)
    → Holds h db t key
    → length key ≡ h.len
Holds-sized h db vacant key e = ap length e ∙ length-replicate h.len 0
Holds-sized h db (tip k v) key (value, made, stored, small) = stored.sized
Holds-sized h db (fork l r) key (left, right, value, made, stored, hl, hr) = stored.sized

pub read_tip :
    (h : HashFunction) (db : Database) (k v key value : Bytes)
    → new_leaf_value h k v ≡ ok (key, value)
    → Stored h db key value
    → read_node h db key ≡ ok (leaf value)
read_tip h db k v key value made s = read-Stored h db key value s ∙ decode-leaf h k v key value made

pub read_fork :
    (h : HashFunction) (db : Database) (l r key value : Bytes)
    → new_intermediate h l r ≡ ok (key, value)
    → Stored h db key value
    → length l ≡ h.len
    → length r ≡ h.len
    → h.len ≤ 253
    → read_node h db key ≡ ok (intermediate l r)
read_fork h db l r key value made s sl sr small =
    read-Stored h db key value s ∙ decode-intermediate h l r key value made sl sr small
