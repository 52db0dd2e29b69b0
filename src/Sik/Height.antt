-- ===== src/Sik/Height.antt =====
-- The height that an invalidated key carries.
use vocdoni_node.Base.{
  ℕ, zero, suc, ◌-◌, ◌≤◌, ◌/◌, ◌%◌, ◌<◌, ◌≡◌, ◌∙◌, refl, ap, inl, inr, ltb, false, [], ◌∷◌, ◌++◌,
  arith, ◌==◌, Bool-cases,
}
use vocdoni_node.Base.Lists.{length, replicate, get_or}
use vocdoni_node.Base.Bytes.{Bytes}
use vocdoni_node.Base.Words.{u32_mod, big_bytes, bytes_loop, of_bytes}
use vocdoni_node.Chain.{ok}
use vocdoni_node.Sik.{fill, invalidate_at, decode_invalidated_height, valid}

abbrev padded : ℕ → Bytes
padded h = h / 16777216 ∷ h / 65536 % 256 ∷ h / 256 % 256 ∷ h % 256 ∷ []

loop_one : (f n : ℕ) (acc : Bytes) → 0 < n → n ≤ f → n < 256 → bytes_loop f n acc ≡ n ∷ acc
unfolding bytes_loop
loop_one zero n acc p h k = absurd (omega (arith, p, h))
loop_one (suc zero) n acc p h k = ground (arith, p, h, k)
loop_one (suc (suc f)) n acc p h k =
    let m : n % 256 ≡ n = omega (arith, k) in
    let d : n / 256 ≡ 0 = omega (arith, k) in rw m (rw d (ground (arith, p)))

loop_more :
    (f n : ℕ) (acc : Bytes)
    → 256 ≤ n
    → n ≤ f
    → bytes_loop f n acc ≡ bytes_loop (f - 1) (n / 256) (n % 256 ∷ acc)
unfolding bytes_loop
loop_more zero n acc p h = absurd (omega (arith, p, h))
loop_more (suc f) n acc p h = let e : suc f - 1 ≡ f = omega arith in rw e (ground (arith, p))

bytes_one : (n : ℕ) → 0 < n → n < 256 → big_bytes n ≡ n ∷ []
unfolding big_bytes
bytes_one n p h = loop_one n n [] p (omega arith) h

bytes_two : (n : ℕ) → 256 ≤ n → n < 65536 → big_bytes n ≡ n / 256 ∷ n % 256 ∷ []
unfolding big_bytes
bytes_two n p h =
    loop_more n n [] p (omega arith)
    ∙ loop_one (n - 1) (n / 256) (n % 256 ∷ []) (omega (arith, p)) (omega (arith, p))
        (omega (arith, h))

bytes_three :
    (n : ℕ) → 65536 ≤ n → n < 16777216 → big_bytes n ≡ n / 65536 ∷ n / 256 % 256 ∷ n % 256 ∷ []
unfolding big_bytes
bytes_three n p h =
    let d : n / 256 / 256 ≡ n / 65536 = omega arith in
    loop_more n n [] (omega (arith, p)) (omega arith)
    ∙ loop_more (n - 1) (n / 256) (n % 256 ∷ []) (omega (arith, p)) (omega (arith, p))
    ∙ loop_one (n - 1 - 1) (n / 256 / 256) (n / 256 % 256 ∷ n % 256 ∷ []) (omega (arith, p))
        (omega (arith, p)) (omega (arith, h))
    ∙ ap (λ k. k ∷ n / 256 % 256 ∷ n % 256 ∷ []) d

bytes_four : (n : ℕ) → 16777216 ≤ n → n < u32_mod → big_bytes n ≡ padded n
unfolding big_bytes
bytes_four n p h =
    let d : n / 256 / 256 ≡ n / 65536 = omega arith in
    let d' : n / 256 / 256 / 256 ≡ n / 16777216 = omega arith in
    loop_more n n [] (omega (arith, p)) (omega arith)
    ∙ loop_more (n - 1) (n / 256) (n % 256 ∷ []) (omega (arith, p)) (omega (arith, p))
    ∙ loop_more (n - 1 - 1) (n / 256 / 256) (n / 256 % 256 ∷ n % 256 ∷ []) (omega (arith, p))
        (omega (arith, p))
    ∙ loop_one (n - 1 - 1 - 1) (n / 256 / 256 / 256)
        (n / 256 / 256 % 256 ∷ n / 256 % 256 ∷ n % 256 ∷ []) (omega (arith, p)) (omega (arith, p))
        (omega (arith, h))
    ∙ rw d' (rw d refl)

bytes_zero : fill 4 (big_bytes 0) ≡ padded 0
unfolding fill big_bytes
bytes_zero = refl

filled : (n : ℕ) → n < u32_mod → fill 4 (big_bytes n) ≡ padded n
unfolding fill
filled n h = elim (Bool-cases (ltb n 16777216)) [
  | inr b ↦ rw (bytes_four n (ground (arith, b)) h) refl
  | inl b ↦ elim (Bool-cases (ltb n 65536)) [
    | inr c ↦
        let z : n / 16777216 ≡ 0 = ground (arith, b) in
        let m : n / 65536 % 256 ≡ n / 65536 = ground (arith, b) in
        rw (bytes_three n (ground (arith, c)) (ground (arith, b))) (rw z (rw m refl))
    | inl c ↦
        let z : n / 16777216 ≡ 0 = ground (arith, b) in
        let y : n / 65536 ≡ 0 = ground (arith, c) in
        elim (Bool-cases (ltb n 256)) [
          | inr d ↦
              let m : n / 256 % 256 ≡ n / 256 = ground (arith, c) in
              rw (bytes_two n (ground (arith, d)) (ground (arith, c))) (rw z (rw y (rw m refl)))
          | inl d ↦
              let x : n / 256 ≡ 0 = ground (arith, d) in
              let m : n % 256 ≡ n = ground (arith, d) in
              elim (Bool-cases (n == 0)) [
                | inr e ↦
                    rw (bytes_one n (ground (arith, e)) (ground (arith, d)))
                      (rw z (rw y (rw x (rw m refl))))
                | inl e ↦ let n0 : n ≡ 0 = ground (arith, e) in rw n0 bytes_zero
              ]
        ]
  ]
]

no_value :
    (b : Bytes)
    → valid (replicate 28 0 ++ get_or b 3 0 ∷ get_or b 2 0 ∷ get_or b 1 0 ∷ get_or b 0 0 ∷ [])
      ≡ false
unfolding valid
no_value b = refl

-- A key invalidated at a height in 32 bits has 32 bytes, is not valid any more, and gives the height
-- back.
pub invalidate_at-roundtrip :
    (height : ℕ)
    → height < u32_mod
    → (length (invalidate_at height) ≡ 32)
      × (valid (invalidate_at height) ≡ false)
      × (decode_invalidated_height (invalidate_at height) ≡ ok height)
unfolding invalidate_at decode_invalidated_height of_bytes
invalidate_at-roundtrip height h =
    (refl, no_value (fill 4 (big_bytes height)), rw (filled height h) (ap ok (omega (arith, h))))
