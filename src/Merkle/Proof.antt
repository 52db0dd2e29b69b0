-- ===== src/Merkle/Proof.antt =====
-- tree/arbo/proof.go: proofs that a key is in a tree.
pub mod Packing
pub mod Complete
pub mod Sized
pub mod Binding
use vocdoni_node.Base.{
  ℕ, zero, suc, ◌+◌, ◌/◌, ◌%◌, Bool, true, false, not, List, [], ◌∷◌, ◌++◌, ltb, ◌==◌,
  if◌then◌else◌,
}
use vocdoni_node.Base.Lists.{length, get_or, take, drop}
use vocdoni_node.Base.Bytes.{Bytes, bytes_equal}
use vocdoni_node.Merkle.Types.{
  HashFunction, Database, Result, ok, err, refuse_if, ◌>>=◌, ◌>>◌, path_too_long, siblings_too_long,
  bad_siblings, panicked,
}
use vocdoni_node.Merkle.Nodes.{
  max_uint16, fit, ceil_div8, empty_hash, new_leaf_value, read_leaf_value, get_path,
}
use vocdoni_node.Merkle.Walk.{Tree, down, parent}
use vocdoni_node.Merkle.Edit.{put_le, get_le, root_with_tx, path_of}

-- The bit of weight `weight`.
abbrev pub weighted : Bool → ℕ → ℕ
weighted b weight = if b then weight else 0

-- A byte of a bitmap, `bits` from its place on; the bits are distinct, so that `|` is an addition.
unfoldable pub byte_of : List Bool → ℕ
byte_of bits =
    weighted (get_or bits 0 false) 1
    + weighted (get_or bits 1 false) 2
    + weighted (get_or bits 2 false) 4
    + weighted (get_or bits 3 false) 8
    + weighted (get_or bits 4 false) 16
    + weighted (get_or bits 5 false) 32
    + weighted (get_or bits 6 false) 64
    + weighted (get_or bits 7 false) 128

unfoldable pub bytes_of : ℕ → List Bool → Bytes
unfolding byte_of
bytes_of zero bits = []
bytes_of (suc n) bits = byte_of bits ∷ bytes_of n (drop 8 bits)

unfoldable pub bitmap_to_bytes : List Bool → Bytes
unfolding bytes_of
bitmap_to_bytes bitmap = bytes_of (ceil_div8 (length bitmap)) bitmap

-- The bit of weight `weight` of a byte.
abbrev pub has_bit : ℕ → ℕ → Bool
has_bit b weight = b / weight % 2 == 1

unfoldable pub bytes_to_bitmap : Bytes → List Bool
bytes_to_bitmap [] = []
bytes_to_bitmap (b ∷ bs) =
    has_bit b 1
    ∷ has_bit b 2
    ∷ has_bit b 4
    ∷ has_bit b 8
    ∷ has_bit b 16
    ∷ has_bit b 32
    ∷ has_bit b 64
    ∷ has_bit b 128
    ∷ bytes_to_bitmap bs

-- Which siblings are not empty, and their bytes.
unfoldable pub bitmap_of : HashFunction → List Bytes → List Bool
bitmap_of h [] = []
bitmap_of h (s ∷ siblings) = not (bytes_equal s (empty_hash h)) ∷ bitmap_of h siblings

unfoldable pub used_bytes : HashFunction → List Bytes → Bytes
used_bytes h [] = []
used_bytes h (s ∷ siblings) =
    let rest = used_bytes h siblings in if bytes_equal s (empty_hash h) then rest else s ++ rest

unfoldable pub pack_siblings : HashFunction → List Bytes → Result Bytes
unfolding bitmap_of used_bytes bitmap_to_bytes
pack_siblings h siblings =
    let bitmap = bitmap_to_bytes (bitmap_of h siblings) in
    let bytes = used_bytes h siblings in
    let full_len = 4 + length bitmap + length bytes in
    do
      refuse_if (ltb max_uint16 (length bitmap)) path_too_long
      refuse_if (ltb max_uint16 full_len) siblings_too_long
      ok (put_le 2 full_len ++ (put_le 2 (length bitmap) ++ (bitmap ++ bytes)))

-- The loop of `UnpackSiblings`: it stops where no bytes are left.
unfoldable pub spread : HashFunction → List Bool → Bytes → List Bytes
spread h [] bytes = []
spread h (b ∷ bitmap) [] = []
spread h (b ∷ bitmap) (x ∷ bytes) =
    let used = take h.len (x ∷ bytes) ∷ spread h bitmap (drop h.len (x ∷ bytes)) in
    let empty = empty_hash h ∷ spread h bitmap (x ∷ bytes) in if b then used else empty

-- The sum `4 + l` is one of 16 bits.
unfoldable pub unpack_siblings : HashFunction → Bytes → Result (List Bytes)
unfolding bytes_to_bitmap spread
unpack_siblings h b =
    let l = get_le (take 2 (drop 2 b)) in
    let start = (4 + l) % 65536 in
    do
      refuse_if (ltb (length b) 4) bad_siblings
      refuse_if (not (length b == get_le (take 2 b))) bad_siblings
      refuse_if (ltb (length b) start) bad_siblings
      refuse_if (ltb start 4) panicked
      refuse_if (not (length (drop start b) % h.len == 0)) bad_siblings
      ok (spread h (bytes_to_bitmap (take l (drop 4 b))) (drop start b))

-- `GenProofWithTx`: the leaf on the path of the key, the siblings, and whether the leaf is the key's.
unfoldable pub gen_proof_with_tx : Tree → Bytes → Database → Result (Bytes × Bytes × Bytes × Bool)
gen_proof_with_tx t k db = do
  path ← path_of t k
  root ← root_with_tx t db
  found ← down t db k root path 0 true
  packed ← pack_siblings t.hash_function found.siblings
  pair ← read_leaf_value found.value
  ok (pair.0, pair.1, packed, bytes_equal k pair.0)

-- The loop of `CheckProof`, from the last sibling to the first.
unfoldable pub climb : HashFunction → List Bool → List Bytes → Bytes → Result Bytes
climb h path [] key = ok key
climb h [] (s ∷ siblings) key = err panicked
climb h (b ∷ path) (s ∷ siblings) key = do
  below ← climb h path siblings key
  made ← parent h b s below
  ok made.0

unfoldable pub check_proof : HashFunction → Bytes → Bytes → Bytes → Bytes → Result Bool
unfolding unpack_siblings climb
check_proof h k v root packed = do
  siblings ← unpack_siblings h packed
  made ← new_leaf_value h k v
  key ← climb h (get_path (length siblings) (fit (ceil_div8 (length siblings)) k)) siblings made.0
  ok (bytes_equal key root)
