-- ===== src/Merkle/Proof/Sized.antt =====
-- The siblings that are unpacked have the length of a hash.
use vocdoni_node.Base.{
  ℕ, zero, suc, ◌+◌, ◌*◌, ◌/◌, ◌%◌, ◌≤◌, ◌≡◌, subst, Bool, true, false, List, [], ◌∷◌, arith,
}
use native.Mathlib.Nat.{mod-add-div'}
use vocdoni_node.Base.Lists.{length, take, drop, length-replicate}
use vocdoni_node.Base.Slices.{length-take}
use vocdoni_node.Base.Bytes.{Bytes}
use vocdoni_node.Merkle.Types.{HashFunction, ok}
use vocdoni_node.Merkle.Edit.{get_le}
use vocdoni_node.Merkle.Proof.{bytes_to_bitmap, spread, unpack_siblings}

abbrev pub AllSized : ℕ → List Bytes → Type 0
AllSized n [] = Unit
AllSized n (s ∷ rest) = (length s ≡ n) × AllSized n rest

length-drop : (n : ℕ) (xs : Bytes) → n ≤ length xs → n + length (drop n xs) ≡ length xs
length-drop zero xs h = omega arith
length-drop (suc n) [] h = absurd (omega (arith, h))
length-drop (suc n) (x ∷ xs) h = omega (arith, length-drop n xs (omega (arith, h)))

spread-sized :
    (h : HashFunction) (bits : List Bool) (bytes : Bytes) (count : ℕ)
    → length bytes ≡ count * h.len
    → AllSized h.len (spread h bits bytes)
unfolding spread
spread-sized h [] bytes count e = tt
spread-sized h (b ∷ bits) [] count e = tt
spread-sized h (b ∷ bits) (x ∷ bytes) zero e = absurd (omega (arith, e))
spread-sized h (true ∷ bits) (x ∷ bytes) (suc count) e =
    let all : Bytes = x ∷ bytes in
    let enough : h.len ≤ length all = omega (arith, e) in
    (
      length-take h.len all enough,
      spread-sized h bits (drop h.len all) count (omega (arith, e, length-drop h.len all enough)),
    )
spread-sized h (false ∷ bits) (x ∷ bytes) (suc count) e =
    (length-replicate h.len 0, spread-sized h bits (x ∷ bytes) (suc count) e)

pub unpack_siblings-sized :
    (h : HashFunction) (packed : Bytes) (s : List Bytes)
    → unpack_siblings h packed ≡ ok s
    → AllSized h.len s
unfolding unpack_siblings
unpack_siblings-sized h packed s u =
    let l = get_le (take 2 (drop 2 packed)) in
    let start = (4 + l) % 65536 in
    let bytes = drop start packed in
    let whole : length bytes % h.len ≡ 0 = ground (arith, u) in
    let spreads : spread h (bytes_to_bitmap (take l (drop 4 packed))) bytes ≡ s =
      ground (arith, u) in
    let n = length bytes / h.len in
    let e : length bytes ≡ n * h.len = omega (arith, whole, mod-add-div' (length bytes) h.len) in
    subst (AllSized h.len) spreads
      (spread-sized h (bytes_to_bitmap (take l (drop 4 packed))) bytes n e)
