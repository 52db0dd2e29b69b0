-- ===== src/Votes/Weight.antt =====
-- The bytes of a weight stand for it.
use vocdoni_node.Base.{
  ℕ, zero, suc, ◌+◌, ◌*◌, ◌/◌, ◌%◌, ◌≤◌, ◌≡◌, refl, inl, inr, some, [], ◌∷◌, arith, Bool-cases,
  ◌==◌,
}
use vocdoni_node.Base.Bytes.{Bytes}
use vocdoni_node.Base.Words.{big_bytes, bytes_loop, of_bytes, of_bytes_loop}
use vocdoni_node.Votes.{weight_bytes}

loop_value :
    (fuel n : ℕ) (acc : Bytes)
    → n ≤ fuel
    → of_bytes_loop 0 (bytes_loop fuel n acc) ≡ of_bytes_loop n acc
unfolding bytes_loop of_bytes_loop
loop_value zero n acc h = let z : n ≡ 0 = omega (arith, h) in rw z refl
loop_value (suc fuel) n acc h = elim (Bool-cases (n == 0)) [
  | inl z ↦ ground (arith, z)
  | inr nz ↦
      let less : n / 256 ≤ fuel = ground (arith, nz, h) in
      let split : n / 256 * 256 + n % 256 ≡ n = omega arith in
      ground (arith, nz, split, loop_value fuel (n / 256) (n % 256 ∷ acc) less)
]

-- A weight of any size is written in bytes, by a loop that ends, from which the tally reads the same
-- weight.
weight_roundtrip : (w : ℕ) → of_bytes (weight_bytes (some w)) ≡ w
unfolding weight_bytes big_bytes of_bytes of_bytes_loop
weight_roundtrip w = loop_value w w [] (omega arith)
