-- ===== src/Merkle/Proof/Packing.antt =====
-- Packed siblings are read back.
use native.Mathlib.Nat.{mul-mod_left, mul-le-mul_right}
use vocdoni_node.Base.{
  ℕ, zero, suc, ◌+◌, ◌-◌, ◌*◌, ◌/◌, ◌%◌, ◌≤◌, ◌<◌, ◌≡◌, ◌≢◌, ◌∙◌, refl, sym, ap, inl, inr, Bool,
  true, false, List, [], ◌∷◌, ◌++◌, arith, Bool-cases,
}
use vocdoni_node.Base.Lists.{length, get_or, take, drop, length-append}
use vocdoni_node.Base.Slices.{take-append, drop-append}
use vocdoni_node.Base.Bytes.{Bytes, bytes_equal, bytes_equal_iff}
use vocdoni_node.Merkle.Types.{HashFunction, ok}
use vocdoni_node.Merkle.Nodes.{ceil_div8, empty_hash}
use vocdoni_node.Merkle.Edit.{put_le, get_le}
use vocdoni_node.Merkle.Proof.{
  weighted, byte_of, bytes_of, bitmap_to_bytes, has_bit, bytes_to_bitmap, bitmap_of, used_bytes,
  pack_siblings, spread, unpack_siblings,
}

eight :
    (a b c d e f g h : Bool)
    → let n =
        weighted a 1
        + weighted b 2
        + weighted c 4
        + weighted d 8
        + weighted e 16
        + weighted f 32
        + weighted g 64
        + weighted h 128 in
      (has_bit n 1 ≡ a)
      × (has_bit n 2 ≡ b)
      × (has_bit n 4 ≡ c)
      × (has_bit n 8 ≡ d)
      × (has_bit n 16 ≡ e)
      × (has_bit n 32 ≡ f)
      × (has_bit n 64 ≡ g)
      × (has_bit n 128 ≡ h)
eight a b c d e f g h = ground arith

-- The first bits, with more of them where the list ends.
abbrev padded : ℕ → List Bool → List Bool
padded zero bits = []
padded (suc n) [] = false ∷ padded n []
padded (suc n) (b ∷ bits) = b ∷ padded n bits

padded_eight :
    (n : ℕ) (bits : List Bool)
    → padded (suc (suc (suc (suc (suc (suc (suc (suc n)))))))) bits
      ≡ get_or bits 0 false
        ∷ get_or bits 1 false
        ∷ get_or bits 2 false
        ∷ get_or bits 3 false
        ∷ get_or bits 4 false
        ∷ get_or bits 5 false
        ∷ get_or bits 6 false
        ∷ get_or bits 7 false
        ∷ padded n (drop 8 bits)
padded_eight n [] = refl
padded_eight n (a ∷ []) = refl
padded_eight n (a ∷ b ∷ []) = refl
padded_eight n (a ∷ b ∷ c ∷ []) = refl
padded_eight n (a ∷ b ∷ c ∷ d ∷ []) = refl
padded_eight n (a ∷ b ∷ c ∷ d ∷ e ∷ []) = refl
padded_eight n (a ∷ b ∷ c ∷ d ∷ e ∷ f ∷ []) = refl
padded_eight n (a ∷ b ∷ c ∷ d ∷ e ∷ f ∷ g ∷ []) = refl
padded_eight n (a ∷ b ∷ c ∷ d ∷ e ∷ f ∷ g ∷ h ∷ bits) = refl

-- `n` bytes as a number of bits.
abbrev bits_in : ℕ → ℕ
bits_in zero = 0
bits_in (suc n) = suc (suc (suc (suc (suc (suc (suc (suc (bits_in n))))))))

bits_in-le : (n m : ℕ) → m ≤ 8 * n → m ≤ bits_in n
bits_in-le zero m h = omega (arith, h)
bits_in-le (suc n) m h = omega (arith, h, bits_in-le n (m - 8) (omega (arith, h)))

bytes_to_bitmap-bytes_of :
    (n : ℕ) (bits : List Bool) → bytes_to_bitmap (bytes_of n bits) ≡ padded (bits_in n) bits
unfolding bytes_to_bitmap bytes_of byte_of
bytes_to_bitmap-bytes_of zero bits = refl
bytes_to_bitmap-bytes_of (suc n) bits =
    let (e₀, e₁, e₂, e₃, e₄, e₅, e₆, e₇) =
      eight (get_or bits 0 false) (get_or bits 1 false) (get_or bits 2 false) (get_or bits 3 false)
        (get_or bits 4 false) (get_or bits 5 false) (get_or bits 6 false) (get_or bits 7 false) in
    let rest = bytes_to_bitmap-bytes_of n (drop 8 bits) in
    (λ i. e₀ i ∷ e₁ i ∷ e₂ i ∷ e₃ i ∷ e₄ i ∷ e₅ i ∷ e₆ i ∷ e₇ i ∷ rest i)
    ∙ sym (padded_eight (bits_in n) bits)

length-bytes_of : (n : ℕ) (bits : List Bool) → length (bytes_of n bits) ≡ n
unfolding bytes_of
length-bytes_of zero bits = refl
length-bytes_of (suc n) bits = ap suc (length-bytes_of n (drop 8 bits))

length-bitmap_of : (h : HashFunction) (s : List Bytes) → length (bitmap_of h s) ≡ length s
unfolding bitmap_of
length-bitmap_of h [] = refl
length-bitmap_of h (x ∷ s) = ap suc (length-bitmap_of h s)

-- Siblings of the length of a hash, the last of which is not empty.
abbrev pub Packable : HashFunction → List Bytes → Type 0
Packable h [] = Unit
Packable h (s ∷ []) = (length s ≡ h.len) × (s ≢ empty_hash h)
Packable h (s ∷ (r ∷ rest)) = (length s ≡ h.len) × Packable h (r ∷ rest)

used-length :
    (h : HashFunction) (s : List Bytes)
    → Packable h s
    → (n : ℕ) × (length (used_bytes h s) ≡ n * h.len) × (n ≤ length s)
unfolding used_bytes
used-length h [] p = (0, omega arith, omega arith)
used-length h (s ∷ []) p =
    (1, ground (arith, p.0, bytes_equal_iff s (empty_hash h), p.1, length-append s []), omega arith)
used-length h (s ∷ (r ∷ rest)) p =
    let (n, e, small) = used-length h (r ∷ rest) p.1 in
    elim (Bool-cases (bytes_equal s (empty_hash h))) [
      | inl b ↦ (n, ground (arith, b, e), omega (arith, small))
      | inr b ↦ (
        suc n,
        ground (arith, b, e, p.0, length-append s (used_bytes h (r ∷ rest))),
        omega (arith, small),
      )
    ]

used-not_nil :
    (h : HashFunction) (r : Bytes) (rest : List Bytes)
    → 0 < h.len
    → Packable h (r ∷ rest)
    → 0 < length (used_bytes h (r ∷ rest))
unfolding used_bytes
used-not_nil h s [] pos p =
    ground (arith, pos, p.0, bytes_equal_iff s (empty_hash h), p.1, length-append s [])
used-not_nil h s (r ∷ rest) pos p = elim (Bool-cases (bytes_equal s (empty_hash h))) [
  | inl b ↦ ground (arith, b, used-not_nil h r rest pos p.1)
  | inr b ↦
      ground (arith, b, used-not_nil h r rest pos p.1, length-append s (used_bytes h (r ∷ rest)))
]

spread_nil : (h : HashFunction) (bits : List Bool) → spread h bits [] ≡ []
unfolding spread
spread_nil h [] = refl
spread_nil h (b ∷ bits) = refl

spread-used :
    (h : HashFunction) (bits : List Bool) (bytes : Bytes)
    → 0 < length bytes
    → (spread h (true ∷ bits) bytes ≡ take h.len bytes ∷ spread h bits (drop h.len bytes))
      × (spread h (false ∷ bits) bytes ≡ empty_hash h ∷ spread h bits bytes)
unfolding spread
spread-used h bits [] pos = absurd (omega (arith, pos))
spread-used h bits (x ∷ bytes) pos = (refl, refl)

spread-padded :
    (h : HashFunction) (s : List Bytes) (m : ℕ)
    → 0 < h.len
    → Packable h s
    → length s ≤ m
    → spread h (padded m (bitmap_of h s)) (used_bytes h s) ≡ s
unfolding bitmap_of used_bytes
spread-padded h [] m pos p small = spread_nil h (padded m [])
spread-padded h (s ∷ rest) zero pos p small = absurd (omega (arith, small))
spread-padded h (s ∷ []) (suc m) pos p small =
    let bits = padded m [] in
    let (taken, _) = spread-used h bits (s ++ []) (ground (arith, length-append s [], p.0, pos)) in
    let no = spread_nil h bits in
    let here = take-append h.len s [] p.0 in
    let past = drop-append h.len s [] p.0 in
    ground (arith, bytes_equal_iff s (empty_hash h), p.1, taken, no, here, past)
spread-padded h (s ∷ (r ∷ rest)) (suc m) pos p small =
    let bits = padded m (bitmap_of h (r ∷ rest)) in
    let bytes = used_bytes h (r ∷ rest) in
    let later = spread-padded h (r ∷ rest) m pos p.1 (omega (arith, small)) in
    let some_left = used-not_nil h r rest pos p.1 in
    let (_, skipped) = spread-used h bits bytes some_left in
    let (taken, _) =
      spread-used h bits (s ++ bytes) (omega (arith, length-append s bytes, some_left)) in
    let here = take-append h.len s bytes p.0 in
    let past = drop-append h.len s bytes p.0 in
    elim (Bool-cases (bytes_equal s (empty_hash h))) [
      | inl b ↦
          let same = (bytes_equal_iff s (empty_hash h)).0 b in
          ground (arith, b, same, skipped, later)
      | inr b ↦ ground (arith, b, taken, here, past, later)
    ]

two_bytes : (n : ℕ) → n < 65536 → get_le (put_le 2 n) ≡ n
unfolding get_le put_le
two_bytes n h = ground (arith, h)

unpacked :
    (h : HashFunction) (a b c d : ℕ) (bitmap bytes : Bytes)
    → get_le (a ∷ b ∷ []) ≡ 4 + length bitmap + length bytes
    → get_le (c ∷ d ∷ []) ≡ length bitmap
    → length bytes % h.len ≡ 0
    → 4 + length bitmap + length bytes < 65536
    → unpack_siblings h (a ∷ b ∷ c ∷ d ∷ (bitmap ++ bytes))
      ≡ ok (spread h (bytes_to_bitmap bitmap) bytes)
unfolding unpack_siblings
unpacked h a b c d bitmap bytes e f whole small =
    let l = length bitmap in
    let all : Bytes = a ∷ b ∷ c ∷ d ∷ (bitmap ++ bytes) in
    let start : (4 + get_le (c ∷ d ∷ [])) % 65536 ≡ suc (suc (suc (suc l))) =
      omega (arith, f, small) in
    let left : drop ((4 + get_le (c ∷ d ∷ [])) % 65536) all ≡ bytes =
      ap (λ k. drop k all) start ∙ drop-append l bitmap bytes refl in
    let map_bytes : take (get_le (c ∷ d ∷ [])) (bitmap ++ bytes) ≡ bitmap =
      ap (λ k. take k (bitmap ++ bytes)) f ∙ take-append l bitmap bytes refl in
    ground (arith, e, start, left, map_bytes, whole, small, length-append bitmap bytes)

-- Where the siblings have the length of a hash and the last is not empty, and the packed form fits in
-- 65,535 bytes, `PackSiblings` succeeds, and `UnpackSiblings` gives the siblings back.
pub pack_siblings-roundtrip :
    (h : HashFunction) (s : List Bytes)
    → 0 < h.len
    → Packable h s
    → 4 + ceil_div8 (length s) + length s * h.len ≤ 65535
    → (p : Bytes) × (pack_siblings h s ≡ ok p) × (unpack_siblings h p ≡ ok s)
unfolding pack_siblings bitmap_to_bytes put_le
pack_siblings-roundtrip h s pos p small =
    let bits = bitmap_of h s in
    let n = ceil_div8 (length bits) in
    let bitmap = bytes_of n bits in
    let bytes = used_bytes h s in
    let full = 4 + length bitmap + length bytes in
    let same = length-bitmap_of h s in
    let size = length-bytes_of n bits in
    let (count, e, few) = used-length h s p in
    let room : full ≤ 65535 = omega (arith, small, same, size, e, mul-le-mul_right h.len few) in
    let whole : length bytes % h.len ≡ 0 = ap (λ k. k % h.len) e ∙ mul-mod_left count h.len in
    let back =
      ap (λ b. spread h b bytes) (bytes_to_bitmap-bytes_of n bits)
      ∙ spread-padded h s (bits_in n) pos p (bits_in-le n (length s) (omega (arith, same))) in
    (
      put_le 2 full ++ (put_le 2 (length bitmap) ++ (bitmap ++ bytes)),
      ground (arith, room),
      unpacked h (full % 256) (full / 256 % 256) (length bitmap % 256) (length bitmap / 256 % 256)
            bitmap bytes (two_bytes full (omega (arith, room)))
            (two_bytes (length bitmap) (omega (arith, room))) whole (omega (arith, room))
          ∙ ap ok back,
    )
