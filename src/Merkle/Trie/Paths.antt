-- ===== src/Merkle/Trie/Paths.antt =====
-- The path of a key: its length, and that the levels above are the same for a shorter one.
use vocdoni_node.Base.{
  ℕ, zero, suc, ◌+◌, ◌*◌, ◌/◌, ◌%◌, ◌^◌, ◌≤◌, ◌<◌, ◌≡◌, ◌∙◌, refl, sym, ap, List, [], ◌∷◌, arith,
  ◌==◌,
}
use vocdoni_node.Base.Lists.{length, get_or}
use vocdoni_node.Base.Bytes.{Bytes}
use vocdoni_node.Merkle.Types.{HashFunction}
use vocdoni_node.Merkle.Nodes.{fit, ceil_div8, bit_at, path_from, get_path}
use vocdoni_node.Merkle.Proof.{climb}

length-path_from : (k : Bytes) (i n : ℕ) → length (path_from k i n) ≡ n
unfolding path_from
length-path_from k i zero = refl
length-path_from k i (suc n) = ap suc (length-path_from k (suc i) n)

pub length-get_path : (n : ℕ) (k : Bytes) → length (get_path n k) ≡ n
unfolding get_path
length-get_path n k = length-path_from k 0 n

get_or-fit : (n i : ℕ) (k : Bytes) → i < n → get_or (fit n k) i 0 ≡ get_or k i 0
unfolding fit
get_or-fit zero i k h = absurd (omega (arith, h))
get_or-fit (suc n) zero [] h = refl
get_or-fit (suc n) zero (x ∷ k) h = refl
get_or-fit (suc n) (suc i) [] h = get_or-fit n i [] (omega (arith, h))
get_or-fit (suc n) (suc i) (x ∷ k) h = get_or-fit n i k (omega (arith, h))

bit_at-fit : (n i : ℕ) (k : Bytes) → i < 8 * n → bit_at (fit n k) i ≡ bit_at k i
bit_at-fit n i k h = ap (λ b. b / 2 ^ (i % 8) % 2 == 1) (get_or-fit n (i / 8) k (omega (arith, h)))

climb_along :
    (h : HashFunction) (a b : Bytes) (s : List Bytes) (key : Bytes) (i n m : ℕ)
    → length s ≤ n
    → length s ≤ m
    → ((j : ℕ) → j < i + length s → bit_at a j ≡ bit_at b j)
    → climb h (path_from a i n) s key ≡ climb h (path_from b i m) s key
unfolding climb path_from
climb_along h a b [] key i n m small small' same = refl
climb_along h a b (x ∷ s) key i zero m small small' same = absurd (omega (arith, small))
climb_along h a b (x ∷ s) key i (suc n) zero small small' same = absurd (omega (arith, small'))
climb_along h a b (x ∷ s) key i (suc n) (suc m) small small' same =
    let rest =
      climb_along h a b s key (suc i) n m (omega (arith, small)) (omega (arith, small'))
        (λ j lt. same j (omega (arith, lt))) in
    let bit = same i (omega arith) in ground (arith, rest, bit)

-- The first levels of a path do not depend on the depth that it is taken to.
pub climb-get_path :
    (h : HashFunction) (k : Bytes) (s : List Bytes) (key : Bytes) (n : ℕ)
    → length s ≤ n
    → climb h (get_path (length s) (fit (ceil_div8 (length s)) k)) s key
      ≡ climb h (get_path n (fit (ceil_div8 n) k)) s key
unfolding get_path
climb-get_path h k s key n small =
    let a = fit (ceil_div8 (length s)) k in
    let b = fit (ceil_div8 n) k in
    climb_along h a b s key 0 (length s) n (omega arith) small (λ j lt.
      bit_at-fit (ceil_div8 (length s)) j k (omega (arith, lt))
      ∙ sym (bit_at-fit (ceil_div8 n) j k (omega (arith, lt, small))))
